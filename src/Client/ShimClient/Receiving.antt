-- ===== src/Client/ShimClient/Receiving.antt =====
-- The rounds of a client on messages that come one after the other, with the answer to a call among them.
use id2203_project.Base.{
  ℕ, id_key, ◌<◌, String, ◌≡◌, refl, sym, ap, subst, ◌∙◌, true, Option, none, some, List, [], ◌∷◌,
  ◌++◌, append_assoc, append-nil, arith, All, inl, inr, Option-cases,
}
use id2203_project.Base.HashMap
use id2203_project.Common.Spec.{Store, respond}
use id2203_project.Common.Messages.{ServerMessage, write, read, start_signal}
use id2203_project.Client.ShimClient.{
  Client, ApiCommand, server_message, take_answer, run_step, unwrap_or_else,
}
use id2203_project.Client.ShimClient.Soundness.{IsSound, IsGenuine}
use id2203_project.Client.ShimClient.Responses.{receive-Gains, next_id-take_answer}
use id2203_project.Client.ShimClient.Waiting.{caller, command_of, text_of, Waits, Waits-Same, Same}
use id2203_project.Client.ShimClient.Matching.{
  IsOther, receive-take_answer, take_answer-Same, take_answer-answered,
}
use mathlib.Core.Option.{some-injective}

module _ {Ratio : Type 0} where
  unfoldable pub receive_each : Client Ratio → List ServerMessage → ℕ → Option (Client Ratio)
  receive_each c [] now = some c
  receive_each c (msg ∷ messages) now = elim (run_step c (server_message msg now)) [
    | none ↦ none
    | some (c', done) ↦ receive_each c' messages now
  ]

  -- What a round on a genuine message comes to.
  pub record Receives (c : Client Ratio) (msg : ServerMessage) (now : ℕ) (c' : Client Ratio)
      : Type 0 where
    pub step : run_step c (server_message msg now) ≡ some (c', true)
    pub sound : IsSound c'
    pub next : c'.next_request_id ≡ c.next_request_id
    pub answered : c'.answered ≡ (take_answer c msg).answered
    pub same : (id : ℕ) → IsOther id msg → id < c.next_request_id → Same id c c'

  pub receives :
      (c : Client Ratio) (msg : ServerMessage) (now : ℕ)
      → IsSound c
      → IsGenuine msg c
      → (c' : Client Ratio) × Receives c msg now c'
  unfolding run_step
  receives c msg now s g =
      let (d, e) = receive-take_answer c msg now s g in
      let c' : Client Ratio = record (take_answer c msg) { client_data = d } in
      let (c1, e1, gains) = receive-Gains c msg now s g in
      let at_c' : c1 ≡ c' = some-injective c1 c' (sym e1 ∙ e) in
      (
        c',
        record {
          step = rw (e, run_step) refl;
          sound = subst IsSound at_c' gains.0;
          next = next_id-take_answer c msg;
          answered = refl;
          same = λ id other lt.
              let same = take_answer-Same c msg id other lt in
              record { puts = same.puts; gets = same.gets; below = same.below };
        },
      )

  -- Answers are added at the end.
  take_answer-grows :
      (c : Client Ratio) (msg : ServerMessage)
      → (more : List (ℕ × String)) × ((take_answer c msg).answered ≡ c.answered ++ more)
  unfolding take_answer
  take_answer-grows c (start_signal t) = ([], sym (append-nil c.answered))
  take_answer-grows c (write id) = elim (Option-cases (HashMap.get id c.pending_puts)) [
    | inl e ↦ ([], rw (e, take_answer) (sym (append-nil c.answered)))
    | inr (tx, e) ↦ ((tx, "Ok") ∷ [], rw (e, take_answer) refl)
  ]
  take_answer-grows c (read id value) = elim (Option-cases (HashMap.get id c.pending_gets)) [
    | inl e ↦ ([], rw (e, take_answer) (sym (append-nil c.answered)))
    | inr (tx, e) ↦ ((tx, unwrap_or_else value "Key not found") ∷ [], rw (e, take_answer) refl)
  ]

  IsGenuine-next :
      (c c' : Client Ratio) (msg : ServerMessage)
      → c'.next_request_id ≡ c.next_request_id
      → IsGenuine msg c
      → IsGenuine msg c'
  IsGenuine-next c c' (write id) e g = omega (arith, e, g)
  IsGenuine-next c c' (read id value) e g = omega (arith, e, g)
  IsGenuine-next c c' (start_signal t) e g = tt

  pub All-IsGenuine-next :
      (c c' : Client Ratio) (messages : List ServerMessage)
      → c'.next_request_id ≡ c.next_request_id
      → All (λ msg. IsGenuine msg c) messages
      → All (λ msg. IsGenuine msg c') messages
  All-IsGenuine-next c c' [] e g = tt
  All-IsGenuine-next c c' (msg ∷ messages) e g =
      (IsGenuine-next c c' msg e g.0, All-IsGenuine-next c c' messages e g.1)

  receive_each-grows :
      (c : Client Ratio) (messages : List ServerMessage) (now : ℕ)
      → IsSound c
      → All (λ msg. IsGenuine msg c) messages
      → (c' : Client Ratio) × (more : List (ℕ × String)) × (receive_each c messages now ≡ some c')
        × (c'.answered ≡ c.answered ++ more)
  unfolding receive_each
  receive_each-grows c [] now s g = (c, [], refl, sym (append-nil c.answered))
  receive_each-grows c (msg ∷ messages) now s g =
      let (c1, r) = receives c msg now s g.0 in
      let (first, grown) = take_answer-grows c msg in
      let (c2, rest, e, more) =
        receive_each-grows c1 messages now r.sound (All-IsGenuine-next c c1 messages r.next g.1) in
      (
        c2,
        first ++ rest,
        rw (r.step, receive_each) e,
        more ∙ (ap (λ xs. xs ++ rest) (r.answered ∙ grown) ∙ append_assoc c.answered first rest),
      )

  -- The answer to a call that waits is among what the client has answered, when the messages before
  -- it answer other requests.
  pub receive_each-answers :
      (c : Client Ratio) (cmd : ApiCommand) (id : ℕ) (f : Store) (before after : List ServerMessage)
      (now : ℕ)
      → IsSound c
      → Waits cmd id c
      → All (IsOther id) before
      → All (λ msg. IsGenuine msg c) (before ++ respond f id (command_of cmd) ∷ after)
      → (c' : Client Ratio) × (first rest : List (ℕ × String)) × (receive_each c
            (before ++ respond f id (command_of cmd) ∷ after)
            now
          ≡ some c')
        × (c'.answered ≡ first ++ (caller cmd, text_of f cmd) ∷ rest)
  unfolding receive_each
  receive_each-answers c cmd id f [] after now s w other g =
      let msg = respond f id (command_of cmd) in
      let (c1, r) = receives c msg now s g.0 in
      let (c2, rest, e, more) =
        receive_each-grows c1 after now r.sound (All-IsGenuine-next c c1 after r.next g.1) in
      (
        c2,
        c.answered,
        rest,
        rw (r.step, receive_each) e,
        more
            ∙ (ap (λ xs. xs ++ rest) (r.answered ∙ take_answer-answered c cmd id f w)
                ∙ append_assoc c.answered ((caller cmd, text_of f cmd) ∷ []) rest),
      )
  receive_each-answers c cmd id f (msg ∷ before) after now s w other g =
      let (c1, r) = receives c msg now s g.0 in
      let w1 = Waits-Same cmd id c c1 (r.same id other.0 w.below) w in
      let (c2, first, rest, e, found) =
        receive_each-answers c1 cmd id f before after now r.sound w1 other.1
          (All-IsGenuine-next c c1 (before ++ respond f id (command_of cmd) ∷ after) r.next g.1) in
      (c2, first, rest, rw (r.step, receive_each) e, found)
