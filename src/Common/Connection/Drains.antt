-- ===== src/Common/Connection/Drains.antt =====
-- The writer of a connection empties the channel.
use id2203_project.Base.{
  ℕ, zero, suc, ◌+◌, ◌-◌, ◌≤◌, ◌<◌, ◌≡◌, refl, sym, ap, ◌∙◌, Bool, true, List, [], ◌∷◌, ◌++◌,
  drop-add, append_assoc, append-nil, arith, inl, inr, List-cases, take, drop, drop-nil,
  length-drop, if_true, replicate, length,
}
use id2203_project.Common.Tasks.{Wire}
use id2203_project.Common.Connection.{Tasks, Connection, writing, buffer, write_turn, turn, turns}

take-append-drop :
    {M : Type 0} (b : ℕ) (xs : List M) → take b xs ++ drop (length (take b xs)) xs ≡ xs
take-append-drop zero xs = refl
take-append-drop (suc b) [] = refl
take-append-drop (suc b) (x ∷ xs) = ap (λ r. x ∷ r) (take-append-drop b xs)

drop-all : {M : Type 0} (n : ℕ) (xs : List M) → length xs ≤ n → drop n xs ≡ []
drop-all n [] h = drop-nil n
drop-all zero (x ∷ xs) h = absurd (omega arith)
drop-all (suc n) (x ∷ xs) h = drop-all n xs (omega arith)

take-none : {M : Type 0} (b : ℕ) (xs : List M) → 0 < b → take b xs ≡ [] → xs ≡ []
take-none zero xs h e = absurd (omega arith)
take-none (suc b) [] h e = refl
take-none (suc b) (x ∷ xs) h e = absurd (ground (arith, e))

-- The messages in the channel.
abbrev pub waiting : {M Incoming : Type 0} → Connection M Incoming → List M
waiting c = drop c.received c.outgoing_messages.sent

-- No call of the writer fails: its whole buffer is on the wire, and it goes on.
abbrev pub Completes : {M : Type 0} → (List M → Wire M → Wire M × Bool) → Type 0
Completes {M} write_round =
    (buffer : List M) (w : Wire M)
    → ((write_round buffer w).0.fed ≡ w.fed ++ buffer) × ((write_round buffer w).1 ≡ true)

module _ {M Chunk Incoming : Type 0} (tasks : Tasks M Chunk Incoming) (batch_size : ℕ) where
  -- The connection after the writer has taken some messages and gone on.
  abbrev filled : Connection M Incoming → List M → Connection M Incoming
  filled c ms = record c {
    outgoing_messages = record c.outgoing_messages { receiver_alive = true };
    received = c.received + length ms;
    wire = (tasks.write_round ms c.wire).0;
  }

  turn-empty :
      (c : Connection M Incoming)
      → c.held ≡ true
      → c.outgoing_messages.receiver_alive ≡ true
      → buffer batch_size c ≡ []
      → turn tasks batch_size c writing ≡ c
  unfolding turn write_turn
  turn-empty c held alive empty =
      if_true c.outgoing_messages.receiver_alive _ c alive
      ∙ rw (empty, write_turn) (if_true c.held c _ held)

  turn-full :
      (c : Connection M Incoming) (m : M) (ms : List M)
      → Completes tasks.write_round
      → c.outgoing_messages.receiver_alive ≡ true
      → buffer batch_size c ≡ m ∷ ms
      → turn tasks batch_size c writing ≡ filled c (m ∷ ms)
  unfolding turn write_turn
  turn-full c m ms all alive some_left =
      if_true c.outgoing_messages.receiver_alive _ c alive
      ∙ rw (some_left, write_turn)
          (ap
            (λ more. record (filled c (m ∷ ms)) {
              outgoing_messages = record c.outgoing_messages { receiver_alive = more };
            })
            (all (m ∷ ms) c.wire).1)

  -- A connection that is held and whose writer runs, takes at least one message at a time and has
  -- no call that fails puts everything that stands in its channel on the wire, in order, after at
  -- most as many turns as there are messages.
  pub turns-drains :
      (c : Connection M Incoming) (k : ℕ)
      → Completes tasks.write_round
      → 0 < batch_size
      → c.held ≡ true
      → c.outgoing_messages.receiver_alive ≡ true
      → length c.outgoing_messages.sent - c.received ≤ k
      → (turns tasks batch_size c (replicate k writing)).wire.fed ≡ c.wire.fed ++ waiting c
  unfolding turns
  turns-drains c zero all batch held alive enough =
      let none_left = drop-all c.received c.outgoing_messages.sent (omega arith) in
      sym (ap (λ r. c.wire.fed ++ r) none_left ∙ append-nil c.wire.fed)
  turns-drains c (suc k) all batch held alive enough =
      let sent = c.outgoing_messages.sent in
      let rest = replicate k writing in
      elim (List-cases (buffer batch_size c)) [
        | inl empty ↦
            let none_left = take-none batch_size (waiting c) batch empty in
            let len : length sent - c.received ≡ 0 =
              sym (length-drop c.received sent) ∙ ap length none_left in
            ap (λ c'. (turns tasks batch_size c' rest).wire.fed) (turn-empty c held alive empty)
            ∙ turns-drains c k all batch held alive (omega (arith, len))
        | inr (m, ms, some_left) ↦
            let ms' = m ∷ ms in
            let split : ms' ++ drop (length ms') (waiting c) ≡ waiting c =
              rw some_left at (take-append-drop batch_size (waiting c)) in
            let later = turns-drains (filled c ms') k all batch held refl (omega (arith, enough)) in
            ap (λ c'. (turns tasks batch_size c' rest).wire.fed)
              (turn-full c m ms all alive some_left)
            ∙ (later
                ∙ (ap (λ r. r ++ waiting (filled c ms')) (all ms' c.wire).0
                    ∙ (append_assoc c.wire.fed ms' (waiting (filled c ms'))
                        ∙ ap (λ r. c.wire.fed ++ r)
                            (ap (λ r. ms' ++ r) (drop-add c.received (length ms') sent) ∙ split))))
      ]
