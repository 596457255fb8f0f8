-- ===== src/Common/Connection/Life.antt =====
-- What the wire of a connection holds, whatever happens to it, and that a closed one is silent.
use id2203_project.Base.{
  ◌-◌, ℕ, zero, suc, ◌+◌, ◌≤◌, ◌≡◌, refl, sym, ap, subst, ◌∙◌, Bool, false, none, some, List, [],
  ◌∷◌, ◌++◌, arith, inl, inr, Bool-cases, List-cases, take, drop, length, length-append,
  take-append-take, if_both, if_false,
}
use id2203_project.Common.Channel
use id2203_project.Common.Tasks.{Wire}
use id2203_project.Common.Tasks.Writers.{Written, Written-append}
use id2203_project.Common.Connection.{
  Tasks, Connection, Turn, sending, writing, arriving, dropping, closing, new, blank, send, close,
  buffer, write_turn, turn, turns,
}

take_more : {M : Type 0} (n : ℕ) (xs ys : List M) → n ≤ length xs → take n (xs ++ ys) ≡ take n xs
take_more zero xs ys h = refl
take_more (suc n) [] ys h = absurd (omega arith)
take_more (suc n) (x ∷ xs) ys h = ap (λ r. x ∷ r) (take_more n xs ys (omega arith))

take-add : {M : Type 0} (n k : ℕ) (xs : List M) → take (n + k) xs ≡ take n xs ++ take k (drop n xs)
take-add n k xs =
    let d : n + k - n ≡ k = omega arith in
    sym (rw d at (take-append-take n (n + k) xs (omega arith)))

-- What is taken is no longer than it is.
take-length : {M : Type 0} (b : ℕ) (xs : List M) → take (length (take b xs)) xs ≡ take b xs
take-length zero xs = refl
take-length (suc b) [] = refl
take-length (suc b) (x ∷ xs) = ap (λ r. x ∷ r) (take-length b xs)

length-buffer :
    {M : Type 0} (n b : ℕ) (xs : List M)
    → n ≤ length xs
    → n + length (take b (drop n xs)) ≤ length xs
length-buffer zero zero xs h = omega arith
length-buffer zero (suc b) [] h = omega arith
length-buffer zero (suc b) (x ∷ xs) h = omega (arith, length-buffer zero b xs (omega arith))
length-buffer (suc n) b [] h = absurd (omega arith)
length-buffer (suc n) b (x ∷ xs) h = omega (arith, length-buffer n b xs (omega arith))

pub take-buffer :
    {M : Type 0} (n b : ℕ) (xs : List M)
    → take (n + length (take b (drop n xs))) xs ≡ take n xs ++ take b (drop n xs)
take-buffer n b xs =
    take-add n (length (take b (drop n xs))) xs
    ∙ ap (λ r. take n xs ++ r) (take-length b (drop n xs))

-- The wire holds some of the messages that were taken from the channel, in their order.
pub record Carries {M Incoming : Type 0} (c : Connection M Incoming) : Type 0 where
  pub within : c.received ≤ length c.outgoing_messages.sent
  pub written : Written blank c.wire (take c.received c.outgoing_messages.sent)

-- A round of a writer puts some messages of its buffer on the wire, in their order.
abbrev pub Writes : {M : Type 0} → (List M → Wire M → Wire M × Bool) → Type 0
Writes {M} write_round = (buffer : List M) (w : Wire M) → Written w (write_round buffer w).0 buffer

module _ {M Incoming : Type 0} where
  send-Carries :
      (c : Connection M Incoming) (msg : M)
      → Carries c
      → Carries (elim (send c msg) as (λ _. Connection M Incoming) [ none ↦ c | some c' ↦ c' ])
  unfolding send Channel.send
  send-Carries c msg k = elim (Bool-cases c.outgoing_messages.receiver_alive) [
    | inl up ↦
        rw (up, send, Channel.send)
          (record {
            within = omega (arith, k.within, length-append c.outgoing_messages.sent (msg ∷ []));
            written =
                subst (Written blank c.wire)
                  (sym (take_more c.received c.outgoing_messages.sent (msg ∷ []) k.within))
                  k.written;
          })
    | inr down ↦ rw (down, send, Channel.send) k
  ]

  write_turn-Carries :
      (write_round : List M → Wire M → Wire M × Bool) (batch_size : ℕ) (c : Connection M Incoming)
      → Writes write_round
      → Carries c
      → Carries (write_turn write_round batch_size c)
  unfolding write_turn
  write_turn-Carries write_round batch_size c writes k =
      let sent = c.outgoing_messages.sent in
      elim (List-cases (buffer batch_size c)) [
        | inl empty ↦
            rw (empty, write_turn)
              (if_both Carries c.held c _ k (record { within = k.within; written = k.written }))
        | inr (m, ms, some_left) ↦
            rw (some_left, write_turn)
              (record {
                within = rw some_left at (length-buffer c.received batch_size sent k.within);
                written =
                    subst (Written blank (write_round (m ∷ ms) c.wire).0)
                      (sym (rw some_left at (take-buffer c.received batch_size sent)))
                      (Written-append blank c.wire (write_round (m ∷ ms) c.wire).0
                        (take c.received sent) (m ∷ ms) k.written (writes (m ∷ ms) c.wire));
              })
      ]

module _ {M Chunk Incoming : Type 0} (tasks : Tasks M Chunk Incoming) (batch_size : ℕ) where
  turn-Carries :
      (c : Connection M Incoming) (t : Turn M Chunk)
      → Writes tasks.write_round
      → Carries c
      → Carries (turn tasks batch_size c t)
  unfolding turn close
  turn-Carries c (sending msg) writes k = if_both Carries c.held _ c (send-Carries c msg k) k
  turn-Carries c writing writes k =
      if_both Carries c.outgoing_messages.receiver_alive _ c
        (write_turn-Carries tasks.write_round batch_size c writes k) k
  turn-Carries c (arriving chunk) writes k =
      if_both Carries c.reading _ c (record { within = k.within; written = k.written }) k
  turn-Carries c dropping writes k = record { within = k.within; written = k.written }
  turn-Carries c closing writes k =
      if_both Carries c.held _ c (record { within = k.within; written = k.written }) k

  turns-Carries :
      (c : Connection M Incoming) (ts : List (Turn M Chunk))
      → Writes tasks.write_round
      → Carries c
      → Carries (turns tasks batch_size c ts)
  unfolding turns
  turns-Carries c [] writes k = k
  turns-Carries c (t ∷ ts) writes k =
      turns-Carries (turn tasks batch_size c t) ts writes (turn-Carries c t writes k)

  -- From its start a connection carries what it was sent, whatever its turns are, when a round of
  -- its writer feeds messages in their order.
  pub turns-new :
      (incoming : Incoming) (ts : List (Turn M Chunk))
      → Writes tasks.write_round
      → Carries (turns tasks batch_size (new incoming) ts)
  turns-new incoming ts writes =
      turns-Carries (new incoming) ts writes
        (record { within = omega arith; written = ([], refl, refl) })

  -- No turn of such a connection does anything.
  record IsSilent (c : Connection M Incoming) : Type 0 where
    unheld : c.held ≡ false
    unread : c.reading ≡ false
    unwritten : c.outgoing_messages.receiver_alive ≡ false

  turn-IsSilent :
      (c : Connection M Incoming) (t : Turn M Chunk) → IsSilent c → turn tasks batch_size c t ≡ c
  unfolding turn
  turn-IsSilent c (sending msg) q = if_false c.held _ c q.unheld
  turn-IsSilent c writing q = if_false c.outgoing_messages.receiver_alive _ c q.unwritten
  turn-IsSilent c (arriving chunk) q = if_false c.reading _ c q.unread
  turn-IsSilent c dropping q = ap (λ b. record c { held = b }) (sym q.unheld)
  turn-IsSilent c closing q = if_false c.held _ c q.unheld

  turns-IsSilent :
      (c : Connection M Incoming) (ts : List (Turn M Chunk))
      → IsSilent c
      → turns tasks batch_size c ts ≡ c
  unfolding turns
  turns-IsSilent c [] q = refl
  turns-IsSilent c (t ∷ ts) q =
      ap (λ c'. turns tasks batch_size c' ts) (turn-IsSilent c t q) ∙ turns-IsSilent c ts q

  -- A connection that was closed stays as it is: it refuses messages, and nothing is written or read.
  pub close_lem :
      (c : Connection M Incoming) (ts : List (Turn M Chunk)) (msg : M)
      → (turns tasks batch_size (close c) ts ≡ close c)
        × (send (close c) msg ≡ none)
        × ((close c).wire ≡ c.wire)
        × ((close c).incoming ≡ c.incoming)
  unfolding close send Channel.send
  close_lem c ts msg = (
    turns-IsSilent (close c) ts (record { unheld = refl; unread = refl; unwritten = refl }),
    refl,
    refl,
    refl,
  )
