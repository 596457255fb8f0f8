-- ===== src/Server/Node/Answers.antt =====
-- What the clients of a running server see, and when the server stops.
use mathlib.Core.Option
use mathlib.Core.Option.{some-injective}
use id2203_project.Base.{
  ℕ, ◌-◌, ◌≤◌, ◌<◌, id_key, ◌≡◌, sym, ap, ◌∙◌, inl, inr, true, none, some, List, [], ◌∷◌, ◌++◌,
  append_assoc, append-nil, ◌==◌, ◌&&◌, arith, ltb, take, drop, take-append-take, Some, Bool-cases,
  Option-cases, if◌then◌else◌,
}
use id2203_project.Common.Kv.{Command}
use id2203_project.Common.Messages.{ServerMessage}
use id2203_project.Common.Spec.{Store, empty, apply, respond, replay, replay-append, view}
use id2203_project.Server.Database.{Json}
use id2203_project.Server.Database.Recovery.{JsonLaws}
use id2203_project.Server.Network.{ClientConnection, send}
use id2203_project.Server.Network.Clients.{after_reply}
use id2203_project.Server.Node.{OmniPaxos, Server, Host, decided_commands}
use id2203_project.Server.Node.Handlers.{apply_decided, handle_decided_entries}
use id2203_project.Server.Node.Agreement.{Agreement}
use id2203_project.Server.Node.Entries.{deliver}
use id2203_project.Server.Node.Invariant.{applied_idx}
use id2203_project.Server.Node.Run.{Run, Run-IsConsistent}

-- The answers that the sequential store gives to the commands that client `j` sent to server `id`.
abbrev pub replies : ℕ → ℕ → Store → List Command → List ServerMessage
replies id j f [] = []
replies id j f (c ∷ cs) =
    if (c.coordinator_id == id) && (c.client_id == j)
    then respond f c.id c.kv_cmd ∷ replies id j (apply f c.kv_cmd) cs
    else replies id j (apply f c.kv_cmd) cs

abbrev pub with_sent : ClientConnection → List ServerMessage → ClientConnection
with_sent c ms = record c {
  outgoing_messages = record c.outgoing_messages { sent = c.outgoing_messages.sent ++ ms };
}

abbrev pub sends : ClientConnection → List ServerMessage → ClientConnection
sends c ms = record c { outgoing_messages = record c.outgoing_messages { sent = ms } }

pub after_reply-alive :
    (c : ClientConnection) (r : ServerMessage)
    → c.outgoing_messages.receiver_alive ≡ true
    → after_reply (some c) r ≡ some (with_sent c (r ∷ []))
unfolding send
after_reply-alive c r up = ground (arith, up)

module _ (op : OmniPaxos) where
  -- A client whose connection is up gets exactly these answers, in the order of the log.
  pub deliver-replies :
      (id j : ℕ) (f : Store) (cs : List Command) (c : ClientConnection)
      → c.outgoing_messages.receiver_alive ≡ true
      → deliver op id j f cs (some c) ≡ some (with_sent c (replies id j f cs))
  unfolding deliver
  deliver-replies id j f [] c up = rw append-nil
  deliver-replies id j f (e ∷ cs) c up =
      elim (Bool-cases ((e.coordinator_id == id) && (e.client_id == j))) [
        | inl own ↦
            let r = respond f e.id e.kv_cmd in
            let rest = replies id j (apply f e.kv_cmd) cs in
            rw own (
              rw (after_reply-alive c r up) (
                deliver-replies id j (apply f e.kv_cmd) cs (with_sent c (r ∷ [])) up
                ∙ ap (λ (ms : List ServerMessage). some (sends c ms))
                    (append_assoc c.outgoing_messages.sent (r ∷ []) rest)))
        | inr other ↦ rw other (deliver-replies id j (apply f e.kv_cmd) cs c up)
      ]

  decided_commands-none :
      (es : List op.LogEntry) → Some (λ e. op.decided e ≡ none) es → decided_commands op es ≡ none
  unfolding decided_commands
  decided_commands-none [] h = absurd h
  decided_commands-none (e ∷ es) (inl bad) = rw (bad, decided_commands)
  decided_commands-none (e ∷ es) (inr bad) = elim (Option-cases (op.decided e)) [
    | inl first ↦ rw (first, decided_commands)
    | inr (c, first) ↦ rw (first, decided_commands) (rw (decided_commands-none es bad))
  ]

  -- When the library has news and the entries that it returns hold one that is no decided command,
  -- such as a snapshot of a compacted log, the server stops with a panic.
  pub panics_on_other_entry :
      (json : Json) (blank : json.Contents) (s : Server op) (h : Host json.Contents)
      (entries : List op.LogEntry)
      → s.current_decided_idx < op.get_decided_idx s.omnipaxos
      → op.read_decided_suffix s.omnipaxos s.current_decided_idx ≡ some entries
      → Some (λ e. op.decided e ≡ none) entries
      → handle_decided_entries op json blank s h ≡ none
  unfolding handle_decided_entries apply_decided Option.bind
  panics_on_other_entry json blank s h entries behind e bad =
      let test : ltb s.current_decided_idx (op.get_decided_idx s.omnipaxos) ≡ true = ground arith in
      rw (test, apply_decided) (rw (e, apply_decided) (rw (decided_commands-none entries bad)))

  -- Of two servers that apply the same agreed log, in any states of their runs, the database of
  -- the one that has applied more of the log is that of the other after the entries in between.
  pub replicas_agree :
      (json : Json) (blank : json.Contents) (ag : Agreement op)
      → JsonLaws json
      → (s t : Server op) (h k : Host json.Contents) → Run json blank ag s h
      → Run json blank ag t k
      → applied_idx json blank ag s ≤ applied_idx json blank ag t
      → view t.database.db
        ≡ replay (view s.database.db) (
            take
              (applied_idx json blank ag t - applied_idx json blank ag s)
              (drop (applied_idx json blank ag s) ag.log))
  replicas_agree json blank ag laws s t h k rs rt le =
      let a = applied_idx json blank ag s in
      let b = applied_idx json blank ag t in
      let cs = (Run-IsConsistent json blank ag laws rs).store in
      let ct = (Run-IsConsistent json blank ag laws rt).store in
      ct
      ∙ ap (replay empty) (sym (take-append-take a b ag.log le))
      ∙ replay-append empty (take a ag.log) (take (b - a) (drop a ag.log))
      ∙ ap (λ f. replay f (take (b - a) (drop a ag.log))) (sym cs)
