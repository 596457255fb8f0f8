-- ===== src/Server/Node/Invariant.antt =====
-- The server's database and its snapshot file hold what prefixes of the agreed log make of an empty
-- store: `handle_decided_entries`.
use id2203_project.Base.{
  ℕ, ◌-◌, ◌≤◌, ◌<◌, max, id_key, ◌≡◌, some, List, arith, ltb, leb, take, drop, wrapping_add,
  Bool-cases, inl, inr,
}
use id2203_project.Common.Kv.{Command}
use id2203_project.Common.Spec.{Store, empty, replay, view}
use id2203_project.Server.Database.{Json}
use id2203_project.Server.Database.Recovery.{JsonLaws, Recovers, save_snapshot-Recovers}
use id2203_project.Server.Network.Peers.{IsWired}
use id2203_project.Server.Network.Clients.{client}
use id2203_project.Server.Node.{OmniPaxos, Server, Host, snapshot_interval, snapshot_path}
use id2203_project.Server.Node.Handlers.{persist}
use id2203_project.Server.Node.Agreement.{Agreement}
use id2203_project.Server.Node.Entries.{deliver}

module _ {op : OmniPaxos} (json : Json) (blank : json.Contents) (ag : Agreement op) where
  -- The store after the first `n` entries of the log.
  abbrev pub prefix_store : ℕ → Store
  prefix_store n = replay empty (take n ag.log)

  abbrev pub IsPrefix : Store → ℕ → Type 0
  IsPrefix f n = f ≡ prefix_store n

  -- How far the log is in the database.
  abbrev pub applied_idx : Server op → ℕ
  applied_idx s = max s.current_decided_idx s.snapshot_decided_idx

  pub record IsConsistent (s : Server op) (h : Host json.Contents) : Type 0 where
    pub valid : ag.IsValid s.omnipaxos
    pub wired : IsWired s.network
    pub store : IsPrefix (view s.database.db) (applied_idx s)
    pub path : s.database.snapshot_path ≡ some (snapshot_path s.id)
    pub disk : Recovers json blank IsPrefix h.files (snapshot_path s.id)

  -- The decided entries that the database does not hold.
  abbrev pub fresh_entries : Server op → List Command
  fresh_entries s = drop (s.snapshot_decided_idx - s.current_decided_idx) (
      take (op.get_decided_idx s.omnipaxos - s.current_decided_idx)
        (drop s.current_decided_idx ag.log))

  -- What a call of the handler leaves alone, and what it does to the connections of the clients.
  pub record Decides (s s' : Server op) : Type 0 where
    pub id : s'.id ≡ s.id
    pub omnipaxos : s'.omnipaxos ≡ s.omnipaxos
    pub config : s'.config ≡ s.config
    pub snapshot_decided_idx : s'.snapshot_decided_idx ≡ s.snapshot_decided_idx
    pub current_decided_idx :
        s'.current_decided_idx ≡ max s.current_decided_idx (op.get_decided_idx s.omnipaxos)
    pub answers :
        (j : ℕ)
        → client s'.network j
          ≡ deliver op s.id j (prefix_store (applied_idx s)) (fresh_entries s) (client s.network j)

  pub persist-Decides :
      (s t : Server op) (h : Host json.Contents) (n : ℕ)
      → Decides s t
      → Decides s (persist op json blank t h n).0
  unfolding persist
  persist-Decides s t h n d = elim (Bool-cases (ltb 0 n)) [
    | inl some_new ↦
        elim (Bool-cases (leb snapshot_interval (wrapping_add t.entries_since_snapshot n))) [
          | inl due ↦
              rw (some_new, persist)
                (rw (due, persist)
                  (record {
                    id = d.id;
                    omnipaxos = d.omnipaxos;
                    config = d.config;
                    snapshot_decided_idx = d.snapshot_decided_idx;
                    current_decided_idx = d.current_decided_idx;
                    answers = d.answers;
                  }))
          | inr early ↦
              rw (some_new, persist)
                (rw (early, persist)
                  (record {
                    id = d.id;
                    omnipaxos = d.omnipaxos;
                    config = d.config;
                    snapshot_decided_idx = d.snapshot_decided_idx;
                    current_decided_idx = d.current_decided_idx;
                    answers = d.answers;
                  }))
        ]
    | inr nothing ↦ rw (nothing, persist) d
  ]

  module _ (laws : JsonLaws json) where
    pub persist-IsConsistent :
        (s : Server op) (h : Host json.Contents) (n : ℕ)
        → IsConsistent s h
        → (0 < n → s.snapshot_decided_idx ≤ s.current_decided_idx)
        → IsConsistent (persist op json blank s h n).0 (persist op json blank s h n).1
    unfolding persist
    persist-IsConsistent s h n c past = elim (Bool-cases (ltb 0 n)) [
      | inl some_new ↦
          elim (Bool-cases (leb snapshot_interval (wrapping_add s.entries_since_snapshot n))) [
            | inl due ↦
                let caught_up : max s.current_decided_idx s.snapshot_decided_idx
                    ≡ s.current_decided_idx =
                  omega (arith, past (ground arith)) in
                rw (some_new, persist)
                  (rw (due, persist)
                    (record {
                      valid = c.valid;
                      wired = c.wired;
                      store = c.store;
                      path = c.path;
                      disk =
                          save_snapshot-Recovers json blank laws IsPrefix s.database h.files
                            s.current_decided_idx (h.faults h.saves) (snapshot_path s.id) c.path
                            c.disk (rw caught_up at (c.store));
                    }))
            | inr early ↦
                rw (some_new, persist)
                  (rw (early, persist)
                    (record {
                      valid = c.valid;
                      wired = c.wired;
                      store = c.store;
                      path = c.path;
                      disk = c.disk;
                    }))
          ]
      | inr nothing ↦ rw (nothing, persist) c
    ]
