-- ===== src/Server/Node/Entries.antt =====
-- The loop of `handle_decided_entries` over the decided commands.
use id2203_project.Base.{
  ℕ, suc, ◌+◌, ◌-◌, ◌<◌, id_key, ◌≡◌, refl, ap, ◌∙◌, true, false, Option, some, List, [], ◌∷◌, map,
  ◌==◌, ◌&&◌, arith, leb, drop, drop-nil, length, word_mod, wrapping_add, if◌then◌else◌, Bool-cases,
  inl, inr, leb→le, leb→lt,
}
use id2203_project.Common.Kv.{Command, KvCommand, put, delete, get}
use id2203_project.Common.Spec.{Store, apply, respond, replay, view}
use id2203_project.Server.Database
use id2203_project.Server.Database.Commands.{
  view-handle_command, answer-handle_command, snapshot_path-handle_command, answer,
}
use id2203_project.Server.Network.{ClientConnection}
use id2203_project.Server.Network.Clients.{
  client, after_reply, client-send_to_client, peers-send_to_client,
}
use id2203_project.Server.Node.{
  OmniPaxos, Progress, decided_commands, response, apply_entry, apply_entries,
}

module _ (op : OmniPaxos) where
  -- A list of decided entries gives its commands, and never panics.
  pub decided_commands_lem :
      (es : List op.LogEntry) (cs : List Command)
      → map op.decided es ≡ map some cs
      → decided_commands op es ≡ some cs
  unfolding decided_commands
  decided_commands_lem [] [] e = refl
  decided_commands_lem [] (c ∷ cs) e = cc
  decided_commands_lem (x ∷ es) [] e = cc
  decided_commands_lem (x ∷ es) (c ∷ cs) e =
      let here : op.decided x ≡ some c = cc in
      let later : map op.decided es ≡ map some cs = cc in
      rw (here, decided_commands) (rw (decided_commands_lem es cs later))

  module _ (id : ℕ) where
    -- The loop without the test on the index.
    unfoldable pub apply_fresh : List Command → Progress op → Progress op
    apply_fresh [] p = p
    apply_fresh (c ∷ cs) p = apply_fresh cs (apply_entry op id 0 1 c p)

    apply_entry_skip :
        (snap idx : ℕ) (c : Command) (p : Progress op)
        → leb idx snap ≡ true
        → apply_entry op id snap idx c p ≡ p
    unfolding apply_entry
    apply_entry_skip snap idx c p e = rw e

    apply_entry_do :
        (snap idx : ℕ) (c : Command) (p : Progress op)
        → leb idx snap ≡ false
        → apply_entry op id snap idx c p ≡ apply_entry op id 0 1 c p
    unfolding apply_entry
    apply_entry_do snap idx c p e = rw e

    -- The loop skips exactly the entries up to the index of the snapshot.
    pub apply_entries_lem :
        (snap old i : ℕ) (cs : List Command) (p : Progress op)
        → old + i + length cs < word_mod
        → apply_entries op id snap old i cs p ≡ apply_fresh (drop (snap - (old + i)) cs) p
    unfolding apply_entries apply_fresh
    apply_entries_lem snap old i [] p h = rw drop-nil
    apply_entries_lem snap old i (c ∷ cs) p h =
        let index : wrapping_add (wrapping_add old i) 1 ≡ old + i + 1 = omega arith in
        let rest = λ (q : Progress op). apply_entries_lem snap old (suc i) cs q (omega arith) in
        elim (Bool-cases (leb (old + i + 1) snap)) [
          | inl skip ↦
              let more : snap - (old + i) ≡ suc (snap - (old + suc i)) =
                omega (arith, leb→le _ _ skip) in
              rw (more, index) (rw (apply_entry_skip snap (old + i + 1) c p skip) (rest p))
          | inr fresh ↦
              let past = leb→lt _ _ fresh in
              let here : snap - (old + i) ≡ 0 = omega (arith, past) in
              let there : snap - (old + suc i) ≡ 0 = omega (arith, past) in
              let next = rest (apply_entry op id 0 1 c p) in
              rw (here, index) (rw (apply_entry_do snap (old + i + 1) c p fresh) (rw there at next))
        ]

    -- The connection of the client `j` after a part of the log: the answers of the sequential store,
    -- in the order of the log, for those commands that the client sent to this server.
    unfoldable pub deliver :
        ℕ → Store → List Command → Option ClientConnection → Option ClientConnection
    deliver j f [] o = o
    deliver j f (c ∷ cs) o = deliver j (apply f c.kv_cmd) cs (
        if (c.coordinator_id == id) && (c.client_id == j)
        then after_reply o (respond f c.id c.kv_cmd)
        else o)

    response-respond : (f : Store) (n : ℕ) (c : KvCommand) → response n (answer f c) ≡ respond f n c
    response-respond f n (put k v) = refl
    response-respond f n (delete k) = refl
    response-respond f n (get k) = refl

    -- What one applied entry does.
    record Entered (c : Command) (p q : Progress op) : Type 0 where
      store : view q.database.db ≡ apply (view p.database.db) c.kv_cmd
      path : q.database.snapshot_path ≡ p.database.snapshot_path
      count : q.new_entries_applied ≡ wrapping_add p.new_entries_applied 1
      peers : q.network.peers ≡ p.network.peers
      slots : q.network.peer_connections ≡ p.network.peer_connections
      answers :
          (j : ℕ)
          → client q.network j ≡ (
              if (c.coordinator_id == id) && (c.client_id == j)
              then after_reply (client p.network j) (respond (view p.database.db) c.id c.kv_cmd)
              else client p.network j)

    apply_entry-Entered : (c : Command) (p : Progress op) → Entered c p (apply_entry op id 0 1 c p)
    unfolding apply_entry
    apply_entry-Entered c p =
        let reply = response c.id (Database.handle_command p.database c.kv_cmd).1 in
        let same : reply ≡ respond (view p.database.db) c.id c.kv_cmd =
          ap (response c.id) (answer-handle_command p.database c.kv_cmd)
          ∙ response-respond (view p.database.db) c.id c.kv_cmd in
        let kept = peers-send_to_client p.network c.client_id reply in
        record {
          store = view-handle_command p.database c.kv_cmd;
          path = snapshot_path-handle_command p.database c.kv_cmd;
          count = refl;
          peers = ground (arith, kept.0);
          slots = ground (arith, kept.1);
          answers = λ j. ground (arith, same, client-send_to_client p.network c.client_id reply j);
        }

    -- What the loop does: the database goes through the commands, each client gets its answers, and
    -- nothing else changes.
    pub record Applied (cs : List Command) (p q : Progress op) : Type 0 where
      pub store : view q.database.db ≡ replay (view p.database.db) cs
      pub path : q.database.snapshot_path ≡ p.database.snapshot_path
      pub peers : q.network.peers ≡ p.network.peers
      pub slots : q.network.peer_connections ≡ p.network.peer_connections
      pub answers :
          (j : ℕ) → client q.network j ≡ deliver j (view p.database.db) cs (client p.network j)

    pub apply_fresh-Applied :
        (cs : List Command) (p : Progress op) → Applied cs p (apply_fresh cs p)
    unfolding apply_fresh deliver
    apply_fresh-Applied [] p = record {
      store = refl;
      path = refl;
      peers = refl;
      slots = refl;
      answers = λ j. refl;
    }
    apply_fresh-Applied (c ∷ cs) p =
        let now = apply_entry-Entered c p in
        let later = apply_fresh-Applied cs (apply_entry op id 0 1 c p) in
        record {
          store = later.store ∙ ap (λ f. replay f cs) now.store;
          path = later.path ∙ now.path;
          peers = later.peers ∙ now.peers;
          slots = later.slots ∙ now.slots;
          answers = λ j. rw (← now.answers j, ← now.store) (later.answers j);
        }

    pub count-apply_fresh :
        (cs : List Command) (p : Progress op)
        → p.new_entries_applied + length cs < word_mod
        → (apply_fresh cs p).new_entries_applied ≡ p.new_entries_applied + length cs
    unfolding apply_fresh
    count-apply_fresh [] p h = omega arith
    count-apply_fresh (c ∷ cs) p h =
        let one : (apply_entry op id 0 1 c p).new_entries_applied ≡ p.new_entries_applied + 1 =
          omega (arith, (apply_entry-Entered c p).count) in
        omega (arith, one, count-apply_fresh cs (apply_entry op id 0 1 c p) (omega (arith, one)))
