-- ===== src/Common/Output.antt =====
-- How the programs write a text to a file: create it, write, flush. What each call does is an argument.
use id2203_project.Base.{
  String, text_key, Bool, true, false, Option, none, some, ◌≡◌, refl, ◌==◌, if◌then◌else◌,
}

-- A file system is a function from paths to contents.
abbrev pub Files : Type 0 → Type 0
Files Contents = String → Option Contents

-- A failed write leaves some contents in the file.
pub record FileFaults (Contents : Type 0) : Type 0 where
  pub create_ok : Bool
  pub write_failure : Option Contents
  pub flush_ok : Bool

abbrev pub stored : {Contents : Type 0} → Files Contents → String → Contents → Files Contents
stored files path contents = λ p. if path == p then some contents else files p

-- The result says whether every call succeeded.
unfoldable pub write_output :
    {Contents : Type 0}
    → Files Contents
    → String
    → Contents
    → FileFaults Contents
    → Files Contents × Bool
write_output files path contents faults =
    if faults.create_ok
    then elim faults.write_failure [
      | some partial ↦ (stored files path partial, false)
      | none ↦ (stored files path contents, faults.flush_ok)
    ]
    else (files, false)

-- No call fails.
pub record Succeeds {Contents : Type 0} (faults : FileFaults Contents) : Type 0 where
  pub creates : faults.create_ok ≡ true
  pub writes : faults.write_failure ≡ none
  pub flushes : faults.flush_ok ≡ true

pub write_output-Succeeds :
    {Contents : Type 0} (files : Files Contents) (path : String) (contents : Contents)
    (faults : FileFaults Contents)
    → Succeeds faults
    → write_output files path contents faults ≡ (stored files path contents, true)
unfolding write_output
write_output-Succeeds files path contents faults ok =
    rw (ok.creates, write_output) (rw (ok.writes, ok.flushes) refl)
