-- ===== src/Server/Node/Durable.antt =====
-- What is on disk when `handle_decided_entries` has applied entries and its save succeeds.
use id2203_project.Base.{
  ℕ, String, Bool-cases, inl, inr, ◌+◌, ◌<◌, ◌≡◌, refl, true, none, some, arith, ltb, leb,
  wrapping_add, word_mod,
}
use id2203_project.Common.Spec.{view}
use id2203_project.Server.Database.{Database, Json, SaveFaults, recover}
use id2203_project.Server.Database.Recovery.{JsonLaws, recover-save_snapshot}
use id2203_project.Server.Node.{OmniPaxos, Server, Host, snapshot_interval}
use id2203_project.Server.Node.Handlers.{persist, apply_decided, handle_decided_entries}

-- Every call of a save succeeds.
pub record Succeeds {Contents : Type 0} (f : SaveFaults Contents) : Type 0 where
  pub creates : f.create_ok ≡ true
  pub writes : f.write_failure ≡ none
  pub flushes : f.flush_ok ≡ true
  pub syncs : f.sync_ok ≡ true
  pub renames : f.rename_ok ≡ true

module _ {op : OmniPaxos} (json : Json) (blank : json.Contents) where
  -- What a recovery from these files gives is this server's database, at its index.
  abbrev pub IsOnDisk : Server op → Host json.Contents → String → Type 0
  IsOnDisk s h path =
      (back : Database) × (recover json h.files true path ≡ some (back, s.current_decided_idx))
      × (view back.db ≡ view s.database.db)

  persist-IsOnDisk :
      JsonLaws json
      → (s : Server op) (h : Host json.Contents) (n : ℕ) (path : String) (c : json.Contents)
      → s.database.snapshot_path ≡ some path
      → 0 < n
      → s.entries_since_snapshot + n < word_mod
      → json.to_string (record { db = s.database.db; decided_idx = s.current_decided_idx }) ≡ some c
      → Succeeds (h.faults h.saves)
      → IsOnDisk (persist op json blank s h n).0 (persist op json blank s h n).1 path
  unfolding persist
  persist-IsOnDisk laws s h n path c at_path some_new fits made ok =
      let f = h.faults h.saves in
      let new : ltb 0 n ≡ true = ground arith in
      let due : leb snapshot_interval (wrapping_add s.entries_since_snapshot n) ≡ true =
        ground arith in
      let (back, e, same, at_back) =
        recover-save_snapshot json blank laws s.database h.files s.current_decided_idx f path c
          at_path made ok.creates ok.writes ok.flushes ok.syncs ok.renames in
      rw (new, persist) (rw (due, persist) (back, e, same))

  database-persist :
      (s : Server op) (h : Host json.Contents) (n : ℕ)
      → (persist op json blank s h n).0.database ≡ s.database
  unfolding persist
  database-persist s h n = elim (Bool-cases (ltb 0 n)) [
    | inl new ↦
        elim (Bool-cases (leb snapshot_interval (wrapping_add s.entries_since_snapshot n))) [
          | inl due ↦ rw (new, persist) (rw (due, persist) refl)
          | inr early ↦ rw (new, persist) (rw (early, persist) refl)
        ]
    | inr old ↦ rw (old, persist) refl
  ]

  -- When handle_decided_entries has applied entries (fewer than the word limit since the last
  -- save), the snapshot path is set, the JSON library renders the database and reads back what it
  -- wrote, and every call of the save succeeds, then what a recovery gives from the files that it
  -- leaves is the new database at the new decided index.
  pub handle_decided_entries-IsOnDisk :
      JsonLaws json
      → (s t : Server op) (h : Host json.Contents) (n : ℕ) (path : String) (c : json.Contents)
      → apply_decided op json blank s ≡ some (t, n)
      → 0 < n
      → t.database.snapshot_path ≡ some path
      → t.entries_since_snapshot + n < word_mod
      → json.to_string (record { db = t.database.db; decided_idx = t.current_decided_idx }) ≡ some c
      → Succeeds (h.faults h.saves)
      → (s' : Server op) × (h' : Host json.Contents) × (handle_decided_entries op json blank s h
          ≡ some (s', h'))
        × (s'.database ≡ t.database)
        × IsOnDisk s' h' path
  unfolding handle_decided_entries
  handle_decided_entries-IsOnDisk laws s t h n path c e some_new at_path fits made ok = (
    (persist op json blank t h n).0,
    (persist op json blank t h n).1,
    rw (e, handle_decided_entries) refl,
    database-persist t h n,
    persist-IsOnDisk laws t h n path c at_path some_new fits made ok,
  )
