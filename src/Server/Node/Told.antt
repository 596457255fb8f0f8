-- ===== src/Server/Node/Told.antt =====
-- What a client is told while its server runs: start signals aside, the answers to its commands.
pub mod Handlers
pub mod Rounds
use mathlib.Core.Option
use mathlib.Core.Option.{some-injective}
use id2203_project.Base.{
  ℕ, ◌+◌, ◌-◌, ◌≤◌, max, id_key, ◌≡◌, refl, sym, ap, subst, ◌∙◌, true, false, Option, none, some,
  List, [], ◌∷◌, ◌++◌, append_assoc, append-nil, arith, ◌==◌, ◌&&◌, take, drop, drop-add, drop-take,
  take-append-take, inl, inr, Bool-cases, Option-cases, if◌then◌else◌,
}
use id2203_project.Common.Kv.{Command, KvCommand, put, delete, get}
use id2203_project.Common.Messages.{ServerMessage, write, read, start_signal}
use id2203_project.Common.Spec.{Store, empty, apply, respond, replay, replay-append}
use id2203_project.Server.Database.{Json}
use id2203_project.Server.Network.{ClientConnection}
use id2203_project.Server.Network.Clients.{client}
use id2203_project.Server.Node.{OmniPaxos, Server, Host}
use id2203_project.Server.Node.Entries.{deliver}
use id2203_project.Server.Node.Agreement.{Agreement}
use id2203_project.Server.Node.Invariant.{applied_idx, prefix_store, fresh_entries, Decides}
use id2203_project.Server.Node.Answers.{replies, with_sent, sends, deliver-replies}

-- The answers among the messages to a client.
abbrev pub answers_of : List ServerMessage → List ServerMessage
answers_of [] = []
answers_of (start_signal t ∷ ms) = answers_of ms
answers_of (write id ∷ ms) = write id ∷ answers_of ms
answers_of (read id value ∷ ms) = read id value ∷ answers_of ms

pub answers_of-append :
    (xs ys : List ServerMessage) → answers_of (xs ++ ys) ≡ answers_of xs ++ answers_of ys
answers_of-append [] ys = refl
answers_of-append (start_signal t ∷ xs) ys = answers_of-append xs ys
answers_of-append (write id ∷ xs) ys = ap (λ r. write id ∷ r) (answers_of-append xs ys)
answers_of-append (read id value ∷ xs) ys = ap (λ r. read id value ∷ r) (answers_of-append xs ys)

answers_of-respond :
    (f : Store) (id : ℕ) (cmd : KvCommand) (ms : List ServerMessage)
    → answers_of (respond f id cmd ∷ ms) ≡ respond f id cmd ∷ answers_of ms
answers_of-respond f id (put k v) ms = refl
answers_of-respond f id (delete k) ms = refl
answers_of-respond f id (get k) ms = refl

answers_of-replies :
    (id j : ℕ) (f : Store) (cs : List Command) → answers_of (replies id j f cs) ≡ replies id j f cs
answers_of-replies id j f [] = refl
answers_of-replies id j f (c ∷ cs) =
    elim (Bool-cases ((c.coordinator_id == id) && (c.client_id == j))) [
      | inl own ↦ rw own (
          answers_of-respond f c.id c.kv_cmd (replies id j (apply f c.kv_cmd) cs)
          ∙ ap (λ r. respond f c.id c.kv_cmd ∷ r) (answers_of-replies id j (apply f c.kv_cmd) cs))
      | inr other ↦ rw other (answers_of-replies id j (apply f c.kv_cmd) cs)
    ]

replies-append :
    (id j : ℕ) (f : Store) (xs ys : List Command)
    → replies id j f (xs ++ ys) ≡ replies id j f xs ++ replies id j (replay f xs) ys
replies-append id j f [] ys = refl
replies-append id j f (c ∷ xs) ys =
    let rest = replies-append id j (apply f c.kv_cmd) xs ys in
    elim (Bool-cases ((c.coordinator_id == id) && (c.client_id == j))) [
      | inl own ↦ rw own (ap (λ r. respond f c.id c.kv_cmd ∷ r) rest)
      | inr other ↦ rw other rest
    ]

-- The log from one index up to another.
abbrev pub segment : ℕ → ℕ → List Command → List Command
segment a b log = take (b - a) (drop a log)

segment-append :
    (a b d : ℕ) (log : List Command)
    → a ≤ b
    → b ≤ d
    → segment a d log ≡ segment a b log ++ segment b d log
segment-append a b d log ab bd =
    let more : b - a + (d - b) ≡ d - a = omega (arith, ab, bd) in
    let to_b : a + (b - a) ≡ b = omega (arith, ab) in
    let left : d - a - (b - a) ≡ d - b = omega (arith, ab, bd) in
    let split = take-append-take (b - a) (d - a) (drop a log) (omega (arith, ab, bd)) in
    let there : drop (b - a) (drop a log) ≡ drop b log =
      sym (drop-add a (b - a) log) ∙ ap (λ n. drop n log) to_b in
    sym split
    ∙ (ap (λ n. segment a b log ++ take n (drop (b - a) (drop a log))) left
        ∙ ap (λ r. segment a b log ++ take (d - b) r) there)

module _ {op : OmniPaxos} (json : Json) (blank : json.Contents) (ag : Agreement op) where
  -- The connection of a client has been sent some messages more, with these answers among them.
  abbrev pub IsTold : ℕ → Server op → Server op → List ServerMessage → Type 0
  IsTold j s s' answers =
      (c : ClientConnection)
      → client s.network j ≡ some c
      → c.outgoing_messages.receiver_alive ≡ true
      → (ms : List ServerMessage) × (client s'.network j ≡ some (with_sent c ms))
        × (answers_of ms ≡ answers)

  -- The answers to the commands of the log from where one state has applied it to where another has.
  abbrev pub between : ℕ → Server op → Server op → List ServerMessage
  between j s s' =
      replies s.id j (prefix_store json blank ag (applied_idx json blank ag s))
        (segment (applied_idx json blank ag s) (applied_idx json blank ag s') ag.log)

  pub record Told (j : ℕ) (s s' : Server op) : Type 0 where
    pub id : s'.id ≡ s.id
    pub snapshot_decided_idx : s'.snapshot_decided_idx ≡ s.snapshot_decided_idx
    pub rises : applied_idx json blank ag s ≤ applied_idx json blank ag s'
    pub told : IsTold j s s' (between j s s')

  -- Nothing is applied, and the client is told no answer.
  pub quiet :
      (j : ℕ) (s s' : Server op)
      → s'.id ≡ s.id
      → s'.snapshot_decided_idx ≡ s.snapshot_decided_idx
      → s'.current_decided_idx ≡ s.current_decided_idx
      → IsTold j s s' []
      → Told j s s'
  quiet j s s' id snap cur told =
      let a = applied_idx json blank ag s in
      let same : applied_idx json blank ag s' ≡ a = omega (arith, snap, cur) in
      let zero_more : applied_idx json blank ag s' - a ≡ 0 = omega (arith, same) in
      let nothing : between j s s' ≡ [] =
        ap (λ n. replies s.id j (prefix_store json blank ag a) (take n (drop a ag.log)))
          zero_more in
      record {
        id = id;
        snapshot_decided_idx = snap;
        rises = omega (arith, same);
        told = subst (IsTold j s s') (sym nothing) told;
      }

  pub Told-trans : (j : ℕ) (s t u : Server op) → Told j s t → Told j t u → Told j s u
  Told-trans j s t u p q =
      let a = applied_idx json blank ag s in
      let b = applied_idx json blank ag t in
      let d = applied_idx json blank ag u in
      let f = prefix_store json blank ag a in
      let first = segment a b ag.log in
      let second = segment b d ag.log in
      let whole : segment a d ag.log ≡ first ++ second =
        segment-append a b d ag.log p.rises q.rises in
      let at_b : prefix_store json blank ag b ≡ replay f first =
        ap (replay empty) (sym (take-append-take a b ag.log p.rises))
        ∙ replay-append empty (take a ag.log) first in
      record {
        id = q.id ∙ p.id;
        snapshot_decided_idx = q.snapshot_decided_idx ∙ p.snapshot_decided_idx;
        rises = omega (arith, p.rises, q.rises);
        told = λ c at_s up.
            let (ms, at_t, m) = p.told c at_s up in
            let (ns, at_u, n) = q.told (with_sent c ms) at_t up in
            (
              ms ++ ns,
              at_u ∙ ap (λ r. some (sends c r)) (append_assoc c.outgoing_messages.sent ms ns),
              answers_of-append ms ns
                  ∙ (ap (λ r. r ++ answers_of ns) m
                      ∙ (ap (λ r. replies s.id j f first ++ r)
                            (n
                              ∙ (ap (λ i. replies i j (prefix_store json blank ag b) second) p.id
                                  ∙ ap (λ g. replies s.id j g second) at_b))
                          ∙ sym (
                              ap (replies s.id j f) whole ∙ replies-append s.id j f first second))),
            );
      }

  -- The entries that a call of `handle_decided_entries` applies are the ones in between.
  fresh-segment :
      (s : Server op) (new : ℕ)
      → new ≡ max s.current_decided_idx (op.get_decided_idx s.omnipaxos)
      → fresh_entries json blank ag s
        ≡ segment (applied_idx json blank ag s) (max new s.snapshot_decided_idx) ag.log
  fresh-segment s new e =
      let cur = s.current_decided_idx in
      let snap = s.snapshot_decided_idx in
      let n = op.get_decided_idx s.omnipaxos - cur in
      let from : cur + (snap - cur) ≡ max cur snap = omega arith in
      let count : n - (snap - cur) ≡ max new snap - max cur snap = omega (arith, e) in
      drop-take (snap - cur) n (drop cur ag.log)
      ∙ (ap (take (n - (snap - cur)))
            (sym (drop-add cur (snap - cur) ag.log) ∙ ap (λ k. drop k ag.log) from)
          ∙ ap (λ k. take k (drop (max cur snap) ag.log)) count)

  pub Decides-Told : (j : ℕ) (s s' : Server op) → Decides json blank ag s s' → Told j s s'
  Decides-Told j s s' d =
      let fresh = fresh_entries json blank ag s in
      let f = prefix_store json blank ag (applied_idx json blank ag s) in
      let up_to : applied_idx json blank ag s' ≡ max s'.current_decided_idx s.snapshot_decided_idx =
        omega (arith, d.snapshot_decided_idx) in
      let among : replies s.id j f fresh ≡ between j s s' = ap (replies s.id j f) (
        fresh-segment s s'.current_decided_idx d.current_decided_idx
        ∙ ap (λ n. segment (applied_idx json blank ag s) n ag.log) (sym up_to)) in
      record {
        id = d.id;
        snapshot_decided_idx = d.snapshot_decided_idx;
        rises = omega (arith, d.current_decided_idx, d.snapshot_decided_idx);
        told = λ c at_s up. (
          replies s.id j f fresh,
          d.answers j
              ∙ (ap (deliver op s.id j f fresh) at_s ∙ deliver-replies op s.id j f fresh c up),
          answers_of-replies s.id j f fresh ∙ among,
        );
      }
