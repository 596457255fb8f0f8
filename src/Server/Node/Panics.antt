-- ===== src/Server/Node/Panics.antt =====
-- Why a server panics: whatever its cluster sends, only an entry that is no command can be the reason.
pub mod Loops
pub mod Meets
pub mod Runs
use mathlib.Core.Option
use id2203_project.Base.{
  ℕ, suc, ◌+◌, ◌<◌, id_key, ◌≡◌, refl, Bool, true, false, Option, none, some, List, [], ◌∷◌, ◌==◌,
  arith, ltb, leb, wrapping_add, All, Some, ◌⊎◌, inl, inr, Bool-cases, Option-cases, if◌then◌else◌,
}
use id2203_project.Common.Kv.{Command}
use id2203_project.Common.Messages.{ClusterMessage, omnipaxos_message, leader_start_signal}
use id2203_project.Server.Database
use id2203_project.Server.Database.{Json}
use id2203_project.Server.Network.{Network, send_to_client}
use id2203_project.Server.Network.Peers.{IsWired}
use id2203_project.Server.Network.Clients.{peers-send_to_client}
use id2203_project.Server.Node.{
  OmniPaxos, Server, Progress, Host, snapshot_interval, response, decided_commands, apply_entry,
  apply_entries, send_client_start_signals,
}
use id2203_project.Server.Node.Handlers.{
  persist, apply_decided, handle_decided_entries, cluster_loop,
}
use id2203_project.Server.Node.Agreement.{Library}
use id2203_project.Server.Node.Calls
use id2203_project.Server.Node.Calls.{Steady}

module _ (op : OmniPaxos) where
  -- The library has news, and an entry that it returns is no command, such as a snapshot.
  pub record ReadsOther (s : Server op) : Type 0 where
    pub entries : List op.LogEntry
    pub behind : s.current_decided_idx < op.get_decided_idx s.omnipaxos
    pub read : op.read_decided_suffix s.omnipaxos s.current_decided_idx ≡ some entries
    pub other : Some (λ e. op.decided e ≡ none) entries

  decided_commands-other :
      (es : List op.LogEntry) → decided_commands op es ≡ none → Some (λ e. op.decided e ≡ none) es
  unfolding decided_commands
  decided_commands-other [] e = absurd (ground (arith, e))
  decided_commands-other (x ∷ es) e = elim (Option-cases (op.decided x)) [
    | inl no_command ↦ inl no_command
    | inr (c, is_command) ↦ elim (Option-cases (decided_commands op es)) [
      | inl later ↦ inr (decided_commands-other es later)
      | inr (cs, all) ↦
          let both : decided_commands op (x ∷ es) ≡ some (c ∷ cs) =
            rw (is_command, decided_commands) (rw all refl) in
          absurd (ground (arith, both, e))
    ]
  ]

  IsWired-apply_entry :
      (id snapshot idx : ℕ) (c : Command) (p : Progress op)
      → IsWired p.network
      → IsWired (apply_entry op id snapshot idx c p).network
  unfolding apply_entry
  IsWired-apply_entry id snapshot idx c p w = elim (Bool-cases (leb idx snapshot)) [
    | inl old ↦ rw (old, apply_entry) w
    | inr new ↦
        let msg = response c.id (Database.handle_command p.database c.kv_cmd).1 in
        let kept = peers-send_to_client p.network c.client_id msg in
        elim (Bool-cases (c.coordinator_id == id)) [
          | inl own ↦ rw (new, apply_entry) (rw own (rw (kept.0, kept.1) w))
          | inr foreign ↦ rw (new, apply_entry) (rw foreign w)
        ]
  ]

  IsWired-apply_entries :
      (id snapshot old i : ℕ) (cs : List Command) (p : Progress op)
      → IsWired p.network
      → IsWired (apply_entries op id snapshot old i cs p).network
  unfolding apply_entries apply_entry
  IsWired-apply_entries id snapshot old i [] p w = w
  IsWired-apply_entries id snapshot old i (c ∷ cs) p w =
      IsWired-apply_entries id snapshot old (suc i) cs
        (apply_entry op id snapshot (wrapping_add (wrapping_add old i) 1) c p)
        (IsWired-apply_entry id snapshot (wrapping_add (wrapping_add old i) 1) c p w)

module _ {op : OmniPaxos} (lib : Library op) (json : Json) (blank : json.Contents) where
  -- The library's state is valid, and the network is wired.
  pub record IsFine (s : Server op) : Type 0 where
    pub valid : lib.IsValid s.omnipaxos
    pub wired : IsWired s.network

  pub IsFine-Steady : Steady lib IsFine
  IsFine-Steady = record {
    valid = λ s f. f.valid;
    wired = λ s f. f.wired;
    with_parts = λ s o n buffer f v w. record { valid = v; wired = w };
  }

  persist-IsFine :
      (s : Server op) (h : Host json.Contents) (n : ℕ)
      → IsFine s
      → IsFine (persist op json blank s h n).0
  unfolding persist
  persist-IsFine s h n f = elim (Bool-cases (ltb 0 n)) [
    | inl some_new ↦
        elim (Bool-cases (leb snapshot_interval (wrapping_add s.entries_since_snapshot n))) [
          | inl due ↦
              rw (some_new, persist)
                (rw (due, persist) (record { valid = f.valid; wired = f.wired }))
          | inr early ↦
              rw (some_new, persist)
                (rw (early, persist) (record { valid = f.valid; wired = f.wired }))
        ]
    | inr nothing ↦ rw (nothing, persist) f
  ]

  -- A step returns and leaves the server fine, or it is a panic for the reason that is named.
  abbrev pub ReturnsUnless :
      {A : Type 0} → Type 0 → Option (Server op × Host json.Contents × A) → Type 0
  ReturnsUnless {A = A} reason r =
      ((s' : Server op) × (h' : Host json.Contents) × (a : A) × (r ≡ some (s', h', a)) × IsFine s')
      ⊎ ((r ≡ none) × reason)

  pub handle_decided_entries-Returns :
      (s : Server op) (h : Host json.Contents)
      → IsFine s
      → ((s' : Server op) × (h' : Host json.Contents) × (handle_decided_entries op json blank s h
            ≡ some (s', h'))
          × IsFine s')
        ⊎ ((handle_decided_entries op json blank s h ≡ none) × ReadsOther op s)
  unfolding handle_decided_entries apply_decided Option.bind
  handle_decided_entries-Returns s h f =
      elim (Bool-cases (ltb s.current_decided_idx (op.get_decided_idx s.omnipaxos))) [
        | inl news ↦
            let lt : s.current_decided_idx < op.get_decided_idx s.omnipaxos = ground arith in
            let (entries, read) =
              lib.read_decided_suffix-total s.omnipaxos s.current_decided_idx f.valid lt in
            elim (Option-cases (decided_commands op entries)) [
              | inl other ↦ inr (
                rw (news, handle_decided_entries, apply_decided) (rw read (rw other refl)),
                record {
                  entries = entries;
                  behind = lt;
                  read = read;
                  other = decided_commands-other op entries other;
                },
              )
              | inr (cs, all) ↦
                  let p =
                    apply_entries op s.id s.snapshot_decided_idx s.current_decided_idx 0 cs
                      (record {
                        database = s.database;
                        network = s.network;
                        new_entries_applied = 0;
                      }) in
                  let t : Server op = record s {
                    current_decided_idx = op.get_decided_idx s.omnipaxos;
                    database = p.database;
                    network = p.network;
                  } in
                  let wired =
                    IsWired-apply_entries op s.id s.snapshot_decided_idx s.current_decided_idx 0 cs
                      (record {
                        database = s.database;
                        network = s.network;
                        new_entries_applied = 0;
                      })
                      f.wired in
                  inl (
                    (persist op json blank t h p.new_entries_applied).0,
                    (persist op json blank t h p.new_entries_applied).1,
                    rw (news, handle_decided_entries, apply_decided) (rw read (rw all refl)),
                    persist-IsFine t h p.new_entries_applied
                        (record { valid = f.valid; wired = wired }),
                  )
            ]
        | inr no_news ↦ inl (
          (persist op json blank s h 0).0,
          (persist op json blank s h 0).1,
          rw (no_news, handle_decided_entries, apply_decided) refl,
          persist-IsFine s h 0 f,
        )
      ]
