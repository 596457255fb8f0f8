-- ===== src/Client/ShimClient/Matching.antt =====
-- The response to a request answers the call that the request was sent for.
use mathlib.Core.Option.{some-injective}
use id2203_project.Base.{
  ℕ, suc, ◌<◌, id_key, ◌≡◌, refl, sym, ap, subst, ◌∙◌, Bool, true, false, some, [], ◌∷◌, ◌++◌,
  arith, ◌==◌, inl, inr, Option-cases, word_mod,
}
use id2203_project.Base.HashMap
use id2203_project.Base.HashMap.{HashMap, get-insert, get-without}
use id2203_project.Common.Spec.{Store, respond}
use id2203_project.Common.Messages.{ServerMessage, write, read, start_signal, command_id}
use id2203_project.Client.Data.{ClientData, request_count, new_response-total}
use id2203_project.Client.Network.{is_connected, slot}
use id2203_project.Client.Network.Slots.{is_open}
use id2203_project.Client.ShimClient.{
  Client, ApiCommand, put_call, get_call, Event, call, server_message, channel_closed, idle,
  handle_call, handle_server_message, take_answer, receive, run_step,
}
use id2203_project.Client.ShimClient.Soundness.{IsSound, IsGenuine, handle_call-Gains}
use id2203_project.Client.ShimClient.Rounds.{IsGenuineEvent, run_step-Gains}
use id2203_project.Client.ShimClient.Waiting.{
  caller, command_of, text_of, Waits, Same, Waits-Same, handle_call-Same, handle_call-Waits,
}

-- Whether a message answers no request with this id.
abbrev pub IsOther : ℕ → ServerMessage → Type 0
IsOther id (write i) = (i == id) ≡ false
IsOther id (read i value) = (i == id) ≡ false
IsOther id (start_signal t) = Unit

module _ {Ratio : Type 0} where
  data-take_answer :
      (c : Client Ratio) (msg : ServerMessage) → (take_answer c msg).client_data ≡ c.client_data
  unfolding take_answer
  data-take_answer c (start_signal t) = refl
  data-take_answer c (write id) = ground arith
  data-take_answer c (read id value) = ground arith

  recorded :
      (c : Client Ratio) (msg : ServerMessage) (now id : ℕ)
      → command_id msg ≡ some id
      → id < request_count c.client_data
      → (d : ClientData) × (handle_server_message c msg now ≡ some (record c { client_data = d }))
  unfolding handle_server_message
  recorded c msg now id e lt =
      let (d, made, same) = new_response-total c.client_data now id lt in
      (d, rw (e, handle_server_message) (rw made refl))

  -- A genuine message changes the client as `take_answer` does, and its measurements.
  pub receive-take_answer :
      (c : Client Ratio) (msg : ServerMessage) (now : ℕ)
      → IsSound c
      → IsGenuine msg c
      → (d : ClientData) × (receive c msg now
          ≡ some (record (take_answer c msg) { client_data = d }))
  unfolding receive handle_server_message command_id take_answer
  receive-take_answer c (start_signal t) now s g = (c.client_data, refl)
  receive-take_answer c (write id) now s g =
      recorded (take_answer c (write id)) (write id) now id refl
        (rw (data-take_answer c (write id)) (omega (arith, s.next_id, g)))
  receive-take_answer c (read id value) now s g =
      recorded (take_answer c (read id value)) (read id value) now id refl
        (rw (data-take_answer c (read id value)) (omega (arith, s.next_id, g)))

  pub take_answer-Same :
      (c : Client Ratio) (msg : ServerMessage) (id : ℕ)
      → IsOther id msg
      → id < c.next_request_id
      → Same id c (take_answer c msg)
  unfolding take_answer
  take_answer-Same c (start_signal t) id other lt = record { puts = refl; gets = refl; below = lt }
  take_answer-Same c (write i) id other lt =
      let kept = get-without i id c.pending_puts in
      elim (Option-cases (HashMap.get i c.pending_puts)) [
        | inl e ↦
            rw (e, take_answer)
              (record { puts = ground (arith, kept, other); gets = refl; below = lt })
        | inr (tx, e) ↦
            rw (e, take_answer)
              (record { puts = ground (arith, kept, other); gets = refl; below = lt })
      ]
  take_answer-Same c (read i value) id other lt =
      let kept = get-without i id c.pending_gets in
      elim (Option-cases (HashMap.get i c.pending_gets)) [
        | inl e ↦
            rw (e, take_answer)
              (record { gets = ground (arith, kept, other); puts = refl; below = lt })
        | inr (tx, e) ↦
            rw (e, take_answer)
              (record { gets = ground (arith, kept, other); puts = refl; below = lt })
      ]

  -- A round that neither answers the request with this id nor loses the connection.
  abbrev pub IsApart : ℕ → Event → Client Ratio → Type 0
  IsApart id (call cmd now) c = Unit
  IsApart id (server_message msg now) c = IsOther id msg
  IsApart id (channel_closed attempts) c = ⊥
  IsApart id (idle attempts) c = is_connected c.network c.active_server ≡ true

  run_step-Same :
      (c : Client Ratio) (ev : Event) (id : ℕ)
      → IsSound c
      → IsGenuineEvent ev c
      → IsApart id ev c
      → id < c.next_request_id
      → (c' : Client Ratio) × (run_step c ev ≡ some (c', true)) × Same id c c'
  unfolding run_step
  run_step-Same c (call cmd now) id s g apart lt =
      (handle_call c cmd now, refl, handle_call-Same c cmd now id s g lt)
  run_step-Same c (server_message msg now) id s g apart lt =
      let (d, e) = receive-take_answer c msg now s g in
      let same = take_answer-Same c msg id apart lt in
      (
        record (take_answer c msg) { client_data = d },
        rw (e, run_step) refl,
        record { puts = same.puts; gets = same.gets; below = same.below },
      )
  run_step-Same c (channel_closed attempts) id s g apart lt = absurd apart
  run_step-Same c (idle attempts) id s g apart lt =
      (c, rw (apart, run_step) refl, record { puts = refl; gets = refl; below = lt })

  -- The rounds of a client from a state on that are apart from the request with this id.
  pub data Keeps (id : ℕ) (c : Client Ratio) : Client Ratio → Type 0 where
    here : Keeps id c c
    round :
        {c1 c2 : Client Ratio} (ev : Event)
        → Keeps id c c1
        → IsGenuineEvent ev c1
        → IsApart id ev c1
        → run_step c1 ev ≡ some (c2, true)
        → Keeps id c c2

  pub Keeps-Waits :
      (cmd : ApiCommand) (id : ℕ) {c c' : Client Ratio}
      → Keeps id c c'
      → IsSound c
      → Waits cmd id c
      → IsSound c' × Waits cmd id c'
  Keeps-Waits cmd id here s w = (s, w)
  Keeps-Waits cmd id (round {c1} {c2} ev k g apart e) s w =
      let (s1, w1) = Keeps-Waits cmd id k s w in
      let (c3, e3, same) = run_step-Same c1 ev id s1 g apart w1.below in
      let (c4, done, e4, gains) = run_step-Gains c1 ev s1 g in
      let at_c3 : c3 ≡ c2 =
        ap (λ (r : Client Ratio × Bool). r.0) (some-injective (c3, true) (c2, true) (sym e3 ∙ e)) in
      let at_c4 : c4 ≡ c2 =
        ap (λ (r : Client Ratio × Bool). r.0) (some-injective (c4, done) (c2, true) (sym e4 ∙ e)) in
      (subst IsSound at_c4 gains.0, subst (Waits cmd id) at_c3 (Waits-Same cmd id c1 c3 same w1))

  pub take_answer-answered :
      (c : Client Ratio) (cmd : ApiCommand) (id : ℕ) (f : Store)
      → Waits cmd id c
      → (take_answer c (respond f id (command_of cmd))).answered
        ≡ c.answered ++ (caller cmd, text_of f cmd) ∷ []
  unfolding take_answer
  take_answer-answered c (put_call k v tx) id f w = rw (w.waits, take_answer) refl
  take_answer-answered c (get_call k tx) id f w = rw (w.waits, take_answer) refl

  pub respond-IsGenuine :
      (c : Client Ratio) (cmd : ApiCommand) (id : ℕ) (f : Store)
      → Waits cmd id c
      → IsGenuine (respond f id (command_of cmd)) c
  respond-IsGenuine c (put_call k v tx) id f w = w.below
  respond-IsGenuine c (get_call k tx) id f w = w.below

  -- A call that is made while the server's connection takes messages (and fewer than the word
  -- limit of requests have been sent) is answered when the response to its request comes: after
  -- any further rounds that neither answer that request nor lose the connection, the round on the
  -- response that the sequential store gives to the call's command never is a panic and adds
  -- exactly one answer, to that call: Ok for a write, and for a read the value of the key or that
  -- it is not found.
  pub call_answered :
      (c c' : Client Ratio) (cmd : ApiCommand) (now later : ℕ) (f : Store)
      → IsSound c
      → suc c.next_request_id < word_mod
      → is_open (slot c.network c.active_server) ≡ true
      → Keeps c.next_request_id (handle_call c cmd now) c'
      → (c'' : Client Ratio) × (run_step c'
            (server_message (respond f c.next_request_id (command_of cmd)) later)
          ≡ some (c'', true))
        × (c''.answered ≡ c'.answered ++ (caller cmd, text_of f cmd) ∷ [])
  unfolding run_step
  call_answered c c' cmd now later f s room up kept =
      let id = c.next_request_id in
      let sound = (handle_call-Gains c cmd now s room).0 in
      let waits = handle_call-Waits c cmd now s room up in
      let (s', w) = Keeps-Waits cmd id kept sound waits in
      let msg = respond f id (command_of cmd) in
      let (d, e) = receive-take_answer c' msg later s' (respond-IsGenuine c' cmd id f w) in
      (
        record (take_answer c' msg) { client_data = d },
        rw (e, run_step) refl,
        take_answer-answered c' cmd id f w,
      )
