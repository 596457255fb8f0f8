-- ===== src/Server/Node/Decided.antt =====
-- `handle_decided_entries` keeps the server consistent with the agreed log and answers its clients.
use mathlib.Core.Option
use id2203_project.Base.{
  ℕ, ◌+◌, ◌-◌, ◌≤◌, ◌<◌, id_key, ◌≡◌, refl, sym, ap, ◌∙◌, some, List, [], arith, ltb, take, drop,
  drop-nil, length-drop, length-take-le, take-append-segment, Bool-cases, inl, inr,
}
use id2203_project.Common.Kv.{Command}
use id2203_project.Common.Spec.{empty, replay, replay-append, view}
use id2203_project.Server.Database.{Json}
use id2203_project.Server.Database.Recovery.{JsonLaws}
use id2203_project.Server.Node.{OmniPaxos, Server, Progress, Host, apply_entries, decided_commands}
use id2203_project.Server.Node.Handlers.{persist, apply_decided, handle_decided_entries}
use id2203_project.Server.Node.Agreement.{Agreement}
use id2203_project.Server.Node.Entries.{
  decided_commands_lem, apply_fresh, apply_entries_lem, deliver, apply_fresh-Applied,
  count-apply_fresh,
}
use id2203_project.Server.Node.Invariant.{
  IsPrefix, applied_idx, IsConsistent, fresh_entries, Decides, persist-Decides,
  persist-IsConsistent,
}

module _ {op : OmniPaxos} (json : Json) (blank : json.Contents) (ag : Agreement op) where
  module _ (s : Server op) where
    new_commands : List Command
    new_commands =
        take (op.get_decided_idx s.omnipaxos - s.current_decided_idx)
          (drop s.current_decided_idx ag.log)

    begin : Progress op
    begin = record { database = s.database; network = s.network; new_entries_applied = 0 }

    -- The server when the loop over the new commands is done.
    entered : Progress op → Server op
    entered p = record s {
      current_decided_idx = op.get_decided_idx s.omnipaxos;
      database = p.database;
      network = p.network;
    }

    reads :
        ag.IsValid s.omnipaxos
        → s.current_decided_idx < op.get_decided_idx s.omnipaxos
        → Option.bind
            (op.read_decided_suffix s.omnipaxos s.current_decided_idx)
            (decided_commands op)
          ≡ some new_commands
    unfolding new_commands Option.bind
    reads valid behind =
        let (entries, found, same) =
          ag.read_decided_suffix_lem s.omnipaxos s.current_decided_idx valid behind in
        rw found (decided_commands_lem op entries _ same)

    loop-fresh :
        s.current_decided_idx < op.get_decided_idx s.omnipaxos
        → apply_entries op s.id s.snapshot_decided_idx s.current_decided_idx 0 new_commands begin
          ≡ apply_fresh op s.id (fresh_entries json blank ag s) begin
    unfolding new_commands
    loop-fresh behind =
        let zero_off : s.current_decided_idx + 0 ≡ s.current_decided_idx = omega arith in
        let n = op.get_decided_idx s.omnipaxos - s.current_decided_idx in
        let run =
          apply_entries_lem op s.id s.snapshot_decided_idx s.current_decided_idx 0 new_commands
            begin
            (omega (
              arith,
              length-take-le n (drop s.current_decided_idx ag.log),
              ag.decided-lt-word s.omnipaxos,
            )) in
        rw zero_off at run

    entered-IsConsistent :
        (h : Host json.Contents)
        → s.current_decided_idx < op.get_decided_idx s.omnipaxos
        → IsConsistent json blank ag s h
        → IsConsistent json blank ag
            (entered (apply_fresh op s.id (fresh_entries json blank ag s) begin))
            h
    unfolding entered begin
    entered-IsConsistent h behind c =
        let done = apply_fresh-Applied op s.id (fresh_entries json blank ag s) begin in
        record {
          valid = c.valid;
          wired = rw (done.peers, done.slots) c.wired;
          store =
              done.store
              ∙ ap (λ f. replay f (fresh_entries json blank ag s)) c.store
              ∙ sym (
                  replay-append empty (take (applied_idx json blank ag s) ag.log)
                    (fresh_entries json blank ag s))
              ∙ ap (replay empty) (
                  take-append-segment s.current_decided_idx s.snapshot_decided_idx
                    (op.get_decided_idx s.omnipaxos) ag.log (omega arith));
          path = done.path ∙ c.path;
          disk = c.disk;
        }

    no_fresh :
        op.get_decided_idx s.omnipaxos ≤ s.current_decided_idx → fresh_entries json blank ag s ≡ []
    no_fresh ge =
        let zero_left : op.get_decided_idx s.omnipaxos - s.current_decided_idx ≡ 0 = omega arith in
        rw zero_left (drop-nil (s.snapshot_decided_idx - s.current_decided_idx))

    -- An entry is applied only past the snapshot.
    applied_past_snapshot :
        s.current_decided_idx < op.get_decided_idx s.omnipaxos
        → 0 < (apply_fresh op s.id (fresh_entries json blank ag s) begin).new_entries_applied
        → s.snapshot_decided_idx ≤ op.get_decided_idx s.omnipaxos
    unfolding begin
    applied_past_snapshot behind some_new = omega (
      arith,
      count-apply_fresh op s.id (fresh_entries json blank ag s) begin,
      length-drop (s.snapshot_decided_idx - s.current_decided_idx) (
          take (op.get_decided_idx s.omnipaxos - s.current_decided_idx)
            (drop s.current_decided_idx ag.log)),
      length-take-le (op.get_decided_idx s.omnipaxos - s.current_decided_idx)
          (drop s.current_decided_idx ag.log),
      ag.decided-lt-word s.omnipaxos,
    )

    entered-Decides :
        s.current_decided_idx < op.get_decided_idx s.omnipaxos
        → IsPrefix json blank ag (view s.database.db) (applied_idx json blank ag s)
        → Decides json blank ag s
            (entered (apply_fresh op s.id (fresh_entries json blank ag s) begin))
    unfolding entered begin
    entered-Decides behind store =
        let done = apply_fresh-Applied op s.id (fresh_entries json blank ag s) begin in
        record {
          id = refl;
          omnipaxos = refl;
          config = refl;
          snapshot_decided_idx = refl;
          current_decided_idx = omega arith;
          answers = λ j. rw (← store) (done.answers j);
        }

  -- From a consistent state the decided entries that the database did not hold are applied in
  -- order, with no panic, and every client gets the answers that the sequential store gives to its
  -- commands at their positions in the log; entries are applied only past the snapshot.
  pub apply_decided_lem :
      (s : Server op) (h : Host json.Contents)
      → IsConsistent json blank ag s h
      → (t : Server op) × (n : ℕ) × (apply_decided op json blank s ≡ some (t, n))
        × IsConsistent json blank ag t h
        × Decides json blank ag s t
        × (0 < n → t.snapshot_decided_idx ≤ t.current_decided_idx)
  unfolding apply_decided entered begin new_commands deliver
  apply_decided_lem s h c =
      elim (Bool-cases (ltb s.current_decided_idx (op.get_decided_idx s.omnipaxos))) [
        | inl behind ↦
            let p = apply_fresh op s.id (fresh_entries json blank ag s) (begin s) in
            let lt : s.current_decided_idx < op.get_decided_idx s.omnipaxos = ground arith in
            (
              entered s p,
              p.new_entries_applied,
              rw (behind, apply_decided)
                  (rw (reads s c.valid lt, apply_decided) (rw (loop-fresh s lt))),
              entered-IsConsistent s h lt c,
              entered-Decides s lt c.store,
              applied_past_snapshot s lt,
            )
        | inr done ↦
            let ge : op.get_decided_idx s.omnipaxos ≤ s.current_decided_idx = ground arith in
            let nothing : fresh_entries json blank ag s ≡ [] = no_fresh s ge in
            (
              s,
              0,
              rw done,
              c,
              record {
                id = refl;
                omnipaxos = refl;
                config = refl;
                snapshot_decided_idx = refl;
                current_decided_idx = omega (arith, ge);
                answers = λ j. rw nothing refl;
              },
              λ (none_new : 0 < 0). absurd (omega arith),
            )
      ]

  -- From a consistent state, with a JSON library that reads back what it wrote,
  -- handle_decided_entries never panics: the result is consistent, the decided entries that the
  -- database did not hold are applied in order and answered, and every recovery from the files
  -- that it leaves finds a prefix of the log.
  pub handle_decided_entries_lem :
      JsonLaws json
      → (s : Server op) (h : Host json.Contents) → IsConsistent json blank ag s h
      → (s' : Server op) × (h' : Host json.Contents) × (handle_decided_entries op json blank s h
          ≡ some (s', h'))
        × IsConsistent json blank ag s' h'
        × Decides json blank ag s s'
  unfolding handle_decided_entries
  handle_decided_entries_lem laws s h c =
      let (t, n, e, c', d, past) = apply_decided_lem s h c in
      (
        (persist op json blank t h n).0,
        (persist op json blank t h n).1,
        rw e,
        persist-IsConsistent json blank ag laws t h n c' past,
        persist-Decides json blank ag s t h n d,
      )
