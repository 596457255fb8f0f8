-- ===== src/Server/Database/Recovery.antt =====
-- Saving a snapshot is atomic, and recovery reads back what was saved.
use text.Mathlib.TextLemmas.{append_cancel_left, append-nil as str_append-nil, cons≢nil}
use id2203_project.Base.{
  ℕ, String, text_key, ◌≡◌, ◌≢◌, refl, sym, ap, ◌∙◌, ◌⊎◌, inl, inr, Bool, true, false, Option, none,
  some, List, [], ◌∷◌, ◌==◌, arith, All, Some, Bool-cases, Option-cases,
}
use id2203_project.Common.Spec.{Store, view}
use id2203_project.Server.Database.{
  DatabaseSnapshot, Database, Json, SaveFaults, Files, recover, tmp_of, write_steps, save_steps,
  save_snapshot, latest,
}

tmp-ne : (path : String) → tmp_of path ≢ path
tmp-ne path e = cons≢nil (append_cancel_left path ".tmp" "" (e ∙ sym (str_append-nil path)))

pub tmp-eqb : (path : String) → (tmp_of path == path) ≡ false
tmp-eqb path = ground (arith, text_key.decides (tmp_of path) path, tmp-ne path)

-- What is documented of the JSON library: a map read back has the same entries, in some order.
pub record JsonLaws (json : Json) : Type 0 where
  pub from_str-to_string :
      (snap : DatabaseSnapshot) (contents : json.Contents)
      → json.to_string snap ≡ some contents
      → (back : DatabaseSnapshot) × (json.from_str contents ≡ some back)
        × (view back.db ≡ view snap.db)
        × (back.decided_idx ≡ snap.decided_idx)

module _ (json : Json) (blank : json.Contents) where
  abbrev pub saved : Database → ℕ → Option json.Contents
  saved d idx = json.to_string (record { db = d.db; decided_idx = idx })

  abbrev pub OldOrNew : Database → Files json → ℕ → String → Files json → Type 0
  OldOrNew d files idx path f = (f path ≡ files path) ⊎ (f path ≡ saved d idx)

  write_steps-atomic :
      (d : Database) (files : Files json) (idx : ℕ) (faults : SaveFaults json.Contents)
      (path : String) (c : json.Contents)
      → saved d idx ≡ some c
      → All (OldOrNew d files idx path) (write_steps json blank files path c faults)
  unfolding write_steps
  write_steps-atomic d files idx faults path c e =
      ground (arith, tmp-eqb path, text_key.decides path path)

  -- In every state of the files that a save passes through, on every course of its calls, the
  -- snapshot file is as it was before or holds the whole new snapshot.
  pub save_steps-atomic :
      (d : Database) (files : Files json) (idx : ℕ) (faults : SaveFaults json.Contents)
      (path : String)
      → d.snapshot_path ≡ some path
      → All (OldOrNew d files idx path) (save_steps json blank d files idx faults)
  unfolding save_steps
  save_steps-atomic d files idx faults path e = elim (Option-cases (saved d idx)) [
    | inl failed ↦ rw (e, save_steps) (rw (failed, save_steps) (inl refl, tt))
    | inr (c, made) ↦ elim (Bool-cases faults.create_ok) [
      | inl created ↦
          rw (e, save_steps)
            (rw (made, save_steps)
              (rw (created, save_steps) (write_steps-atomic d files idx faults path c made)))
      | inr refused ↦
          rw (e, save_steps) (rw (made, save_steps) (rw (refused, save_steps) (inl refl, tt)))
    ]
  ]

  -- A save whose calls all succeed is read back: recover returns a database with the same view and
  -- path, and the index that was saved.
  pub recover-save_snapshot :
      JsonLaws json
      → (d : Database) (files : Files json) (idx : ℕ) (faults : SaveFaults json.Contents)
        (path : String) (c : json.Contents)
      → d.snapshot_path ≡ some path
      → saved d idx ≡ some c
      → faults.create_ok ≡ true
      → faults.write_failure ≡ none
      → faults.flush_ok ≡ true
      → faults.sync_ok ≡ true
      → faults.rename_ok ≡ true
      → (back : Database) × (recover json (save_snapshot json blank d files idx faults) true path
          ≡ some (back, idx))
        × (view back.db ≡ view d.db)
        × (back.snapshot_path ≡ some path)
  unfolding save_snapshot write_steps recover
  recover-save_snapshot laws d files idx faults path c e made hc hw hf hs hr =
      let read = laws.from_str-to_string (record { db = d.db; decided_idx = idx }) c made in
      (
        record { db = read.0.db; snapshot_path = some path },
        ground (
          arith,
          e,
          made,
          hc,
          hw,
          hf,
          hs,
          hr,
          read.1,
          read.3,
          tmp-eqb path,
          text_key.decides path path,
        ),
        read.2,
        refl,
      )

  -- What the process leaves when it dies in the course of a save: a state that the save passes
  -- through, but for what a cut-off `write_all` leaves in the temporary file.
  abbrev pub CrashFiles :
      Database → Files json → ℕ → SaveFaults json.Contents → String → Files json → Type 0
  CrashFiles d files idx faults path f =
      Some (λ g. (p : String) → p ≢ tmp_of path → f p ≡ g p)
        (save_steps json blank d files idx faults)

  -- Whatever a recovery from these files yields satisfies `P`.
  abbrev pub Recovers : (Store → ℕ → Type 0) → Files json → String → Type 0
  Recovers P files path =
      (readable : Bool) (d : Database) (idx : ℕ)
      → recover json files readable path ≡ some (d, idx)
      → P (view d.db) idx

  module _ (laws : JsonLaws json) (P : Store → ℕ → Type 0) where
    recover-old :
        (files f : Files json) (path : String)
        → f path ≡ files path
        → Recovers P files path
        → Recovers P f path
    unfolding recover
    recover-old files f path e h readable d idx r = h readable d idx (ground (arith, e, r))

    recover-new :
        (d : Database) (f : Files json) (idx : ℕ) (path : String)
        → f path ≡ saved d idx
        → P (view d.db) idx
        → Recovers P f path
    unfolding recover
    recover-new d f idx path e h readable d' idx' r = elim (Option-cases (saved d idx)) [
      | inl failed ↦ absurd (ground (arith, e, failed, r))
      | inr (c, made) ↦
          let read = laws.from_str-to_string (record { db = d.db; decided_idx = idx }) c made in
          elim (Bool-cases readable) [
            | inl granted ↦
                let same_db : d'.db ≡ read.0.db = ground (arith, e, made, granted, read.1, r) in
                let same_idx : idx' ≡ idx = ground (arith, e, made, granted, read.1, read.3, r) in
                rw (ap view same_db ∙ read.2, same_idx) h
            | inr denied ↦ absurd (ground (arith, e, made, denied, r))
          ]
    ]

    Some-of_All :
        (d : Database) (files : Files json) (idx : ℕ) (path : String) (f : Files json)
        → (steps : List (Files json)) → All (OldOrNew d files idx path) steps
        → Some (λ g. (p : String) → p ≢ tmp_of path → f p ≡ g p) steps
        → OldOrNew d files idx path f
    Some-of_All d files idx path f [] a h = absurd h
    Some-of_All d files idx path f (g ∷ gs) a (inl h) = rw (h path (λ p. tmp-ne path (sym p))) a.0
    Some-of_All d files idx path f (g ∷ gs) a (inr h) = Some-of_All d files idx path f gs a.1 h

    -- If every recovery from the old files satisfies a predicate, and so do the database and the
    -- index that are saved, then so does every recovery after a crash at any point of a save,
    -- whatever calls of the save fail and whatever the crash leaves in the temporary file.
    pub crash-Recovers :
        (d : Database) (files : Files json) (idx : ℕ) (faults : SaveFaults json.Contents)
        (path : String) (f : Files json)
        → d.snapshot_path ≡ some path
        → Recovers P files path
        → P (view d.db) idx
        → CrashFiles d files idx faults path f
        → Recovers P f path
    crash-Recovers d files idx faults path f e old new crash =
        elim (Some-of_All d files idx path f (save_steps json blank d files idx faults)
          (save_steps-atomic d files idx faults path e) crash) [
            | inl same ↦ recover-old files f path same old
            | inr made ↦ recover-new d f idx path made new
          ]

    pub save_snapshot-Recovers :
        (d : Database) (files : Files json) (idx : ℕ) (faults : SaveFaults json.Contents)
        (path : String)
        → d.snapshot_path ≡ some path
        → Recovers P files path
        → P (view d.db) idx
        → Recovers P (save_snapshot json blank d files idx faults) path
    unfolding save_snapshot
    save_snapshot-Recovers d files idx faults path e old new =
        elim (head_of_all (save_steps json blank d files idx faults)
          (save_steps-atomic d files idx faults path e)) [
            | inl same ↦ recover-old files _ path same old
            | inr made ↦ recover-new d _ idx path made new
          ]
      where
        head_of_all :
            (steps : List (Files json))
            → All (OldOrNew d files idx path) steps
            → OldOrNew d files idx path (latest files steps)
        head_of_all [] a = inl refl
        head_of_all (g ∷ gs) a = a.0
