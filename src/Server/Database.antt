-- ===== src/Server/Database.antt =====
-- server/database.rs. The JSON library is a parameter; the file system is a function from paths to
-- contents, and what each call of it does in one save is an argument.
pub mod Recovery
pub mod Commands
use Prim.Native.String.{◌++◌ as str_append}
use id2203_project.Base.{
  ℕ, String, text_key, Bool, Option, none, some, List, [], ◌∷◌, ◌==◌, if◌then◌else◌,
}
use id2203_project.Base.HashMap
use id2203_project.Base.HashMap.{HashMap}
use id2203_project.Common.Kv.{KvCommand, put, delete, get}

pub record DatabaseSnapshot : Type 0 where
  pub db : HashMap String String
  pub decided_idx : ℕ

pub record Database : Type 0 where
  pub db : HashMap String String
  pub snapshot_path : Option String

-- serde_json: both directions may fail.
pub record Json : Type 1 where
  pub Contents : Type 0
  pub to_string : DatabaseSnapshot → Option Contents
  pub from_str : Contents → Option DatabaseSnapshot

unfoldable pub new : Database
new = record { db = []; snapshot_path = none }

unfoldable pub set_snapshot_path : Database → String → Database
set_snapshot_path d path = record d { snapshot_path = some path }

-- The database after a command, and what the command returns.
unfoldable pub handle_command : Database → KvCommand → Database × Option (Option String)
handle_command d (put key value) = (record d { db = HashMap.insert key value d.db }, none)
handle_command d (delete key) =
    let (_, rest) = HashMap.remove key d.db in (record d { db = rest }, none)
handle_command d (get key) = (d, some (HashMap.get key d.db))

-- How the calls of one save end. A failed `write_all` leaves some contents in the file.
pub record SaveFaults (Contents : Type 0) : Type 0 where
  pub create_ok : Bool
  pub write_failure : Option Contents
  pub flush_ok : Bool
  pub sync_ok : Bool
  pub rename_ok : Bool

abbrev pub tmp_of : String → String
tmp_of path = str_append path ".tmp"

abbrev pub latest {ℓ} : {A : Type ℓ} → A → List A → A
latest a [] = a
latest a (x ∷ xs) = x

module _ (json : Json) where
  open json use {Contents, to_string, from_str}

  abbrev pub Files : Type 0
  Files = String → Option Contents

  abbrev pub write_file : Files → String → Option Contents → Files
  write_file files path contents = λ p. if path == p then contents else files p

  -- `path.exists()`, `fs::read_to_string` (which may fail), then the parser.
  unfoldable pub recover : Files → Bool → String → Option (Database × ℕ)
  recover files readable path = elim (files path) [
    | none ↦ none
    | some contents ↦
        if readable
        then elim (from_str contents) [
          | some snap ↦ some (record { db = snap.db; snapshot_path = some path }, snap.decided_idx)
          | none ↦ none
        ]
        else none
  ]

  -- The files after each call of a save that changes one, the last first. `blank` is what
  -- `File::create` leaves in a file: nothing.
  module _ (blank : Contents) where
    write_steps : Files → String → Contents → SaveFaults Contents → List Files
    write_steps files path contents faults =
        let tmp = tmp_of path in
        let created = write_file files tmp (some blank) in
        elim faults.write_failure [
          | some partial ↦ write_file created tmp (some partial) ∷ created ∷ files ∷ []
          | none ↦
              let written = write_file created tmp (some contents) in
              let renamed = write_file (write_file written path (some contents)) tmp none in
              if faults.flush_ok
              then (if faults.sync_ok
                  then (if faults.rename_ok
                      then renamed ∷ written ∷ created ∷ files ∷ []
                      else written ∷ created ∷ files ∷ [])
                  else written ∷ created ∷ files ∷ [])
              else written ∷ created ∷ files ∷ []
        ]

    pub save_steps : Database → Files → ℕ → SaveFaults Contents → List Files
    unfolding write_steps
    save_steps d files decided_idx faults = elim d.snapshot_path [
      | none ↦ files ∷ []
      | some path ↦ elim (to_string (record { db = d.db; decided_idx = decided_idx })) [
        | none ↦ files ∷ []
        | some contents ↦
            if faults.create_ok then write_steps files path contents faults else files ∷ []
      ]
    ]

    unfoldable pub save_snapshot : Database → Files → ℕ → SaveFaults Contents → Files
    unfolding save_steps
    save_snapshot d files decided_idx faults = latest files (save_steps d files decided_idx faults)
