-- ===== src/Client/ShimClient/Rounds.antt =====
-- What every round of the client's loop does to the calls that it knows.
use id2203_project.Base.{
  ℕ, suc, ◌<◌, id_key, String, ◌≡◌, refl, sym, ◌∙◌, Bool, true, false, none, some, List, [], ◌∷◌,
  ◌++◌, map, arith, inl, inr, Bool-cases, All, word_mod,
}
use id2203_project.Base.HashMap
use id2203_project.Base.HashMap.{HashMap, IsDistinct, get-without, without-IsDistinct}
use id2203_project.Client.Network.{Network, Attempt, is_connected}
use id2203_project.Client.Network.Slots.{InRange, reconnect_lem}
use id2203_project.Client.ShimClient.{
  Client, Event, call, server_message, channel_closed, idle, calls_of, handle_call,
  fail_all_pending, reconnect_loop, lose_connection, run_step,
}
use id2203_project.Client.ShimClient.Calls.{occurrences-answered, occurrences-answers, new_call}
use id2203_project.Client.ShimClient.Soundness.{IsSound, Gains, IsGenuine, handle_call-Gains}
use id2203_project.Client.ShimClient.Responses.{receive-Gains}

-- No attempt fails between the connection and the registration.
abbrev pub Registers : ℕ → Attempt → Type 0
Registers id a = (addr : String) → (stream : ℕ) × (a.connect id addr ≡ some stream)

pub reconnect_loop_lem :
    (n : Network) (id : ℕ) (attempts : List Attempt)
    → InRange n id
    → All (Registers id) attempts
    → (n' : Network) × (ok : Bool) × (reconnect_loop n id attempts ≡ some (n', ok))
      × InRange n' id
      × (ok ≡ true → is_connected n' id ≡ true)
unfolding reconnect_loop
reconnect_loop_lem n id [] h r = (n, false, refl, h, λ e. absurd (ground (arith, e)))
reconnect_loop_lem n id (a ∷ attempts) h r =
    let (n1, ok, e, is_open, found, others, closed, len, servers) = reconnect_lem n id a h r.0 in
    let h1 : InRange n1 id = omega (arith, len, h) in
    elim (Bool-cases ok) [
      | inl up ↦ (n1, true, rw (e, reconnect_loop) (rw up refl), h1, λ _. sym is_open ∙ up)
      | inr down ↦
          let (n2, ok2, e2, h2, connected) = reconnect_loop_lem n1 id attempts h1 r.1 in
          (n2, ok2, rw (e, reconnect_loop) (rw down e2), h2, connected)
    ]

module _ {Ratio : Type 0} where
  fail_all_pending-Gains :
      (c : Client Ratio) (text : String) → IsSound c → Gains none c (fail_all_pending c text)
  unfolding fail_all_pending HashMap.get
  fail_all_pending-Gains c text s = (
    record {
      next_id = s.next_id;
      puts_below = λ k le. refl;
      gets_below = λ k le. refl;
      puts_distinct = tt;
      gets_distinct = tt;
      in_range = s.in_range;
    },
    λ x.
        let puts : List (ℕ × String) = map (λ tx. (tx, text)) (calls_of c.pending_puts) in
        let gets : List (ℕ × String) = map (λ tx. (tx, text)) (calls_of c.pending_gets) in
        omega (
          arith,
          occurrences-answered x (c.answered ++ puts) gets,
          occurrences-answered x c.answered puts,
          occurrences-answers x c.pending_puts text,
          occurrences-answers x c.pending_gets text,
        ),
  )

  -- After a lost connection every write that waited and then every read that waited has been
  -- answered with the text "Error: connection lost", after the answers that were given before, and
  -- none waits; no call is lost or answered twice; and when an attempt to reconnect has succeeded
  -- the client is connected again, if no attempt fails between the connection and its
  -- registration.
  pub lose_connection_lem :
      (c : Client Ratio) (attempts : List Attempt)
      → IsSound c
      → All (Registers c.active_server) attempts
      → (c' : Client Ratio) × (ok : Bool) × (lose_connection c attempts ≡ some (c', ok))
        × Gains none c c'
        × (c'.answered
            ≡ (c.answered ++ map (λ tx. (tx, "Error: connection lost")) (calls_of c.pending_puts))
              ++ map (λ tx. (tx, "Error: connection lost")) (calls_of c.pending_gets))
        × (c'.pending_puts ≡ [])
        × (c'.pending_gets ≡ [])
        × (ok ≡ true → is_connected c'.network c'.active_server ≡ true)
  unfolding lose_connection fail_all_pending
  lose_connection_lem c attempts s r =
      let (sound, same) = fail_all_pending-Gains c "Error: connection lost" s in
      let (n, ok, e, inside, connected) =
        reconnect_loop_lem c.network c.active_server attempts s.in_range r in
      (
        record (fail_all_pending c "Error: connection lost") { network = n },
        ok,
        rw (e, lose_connection) refl,
        (
          record {
            next_id = sound.next_id;
            puts_below = sound.puts_below;
            gets_below = sound.gets_below;
            puts_distinct = sound.puts_distinct;
            gets_distinct = sound.gets_distinct;
            in_range = inside;
          },
          same,
        ),
        refl,
        refl,
        refl,
        connected,
      )

  -- Fewer than 2 ^ 64 - 1 requests, responses only to requests that were sent, and no failure
  -- between a connection and its registration.
  abbrev pub IsGenuineEvent : Event → Client Ratio → Type 0
  IsGenuineEvent (call cmd now) c = suc c.next_request_id < word_mod
  IsGenuineEvent (server_message msg now) c = IsGenuine msg c
  IsGenuineEvent (channel_closed attempts) c = All (Registers c.active_server) attempts
  IsGenuineEvent (idle attempts) c = All (Registers c.active_server) attempts

  -- A round of the shim client's loop on a genuine event never is a panic and keeps the invariant;
  -- of the calls that the client has answered or holds it loses none and repeats none, and it adds
  -- the one that comes.
  pub run_step-Gains :
      (c : Client Ratio) (ev : Event)
      → IsSound c
      → IsGenuineEvent ev c
      → (c' : Client Ratio) × (done : Bool) × (run_step c ev ≡ some (c', done))
        × Gains (new_call ev) c c'
  unfolding run_step
  run_step-Gains c (call cmd now) s g =
      (handle_call c cmd now, true, refl, handle_call-Gains c cmd now s g)
  run_step-Gains c (server_message msg now) s g =
      let (c', e, gains) = receive-Gains c msg now s g in (c', true, rw (e, run_step) refl, gains)
  run_step-Gains c (channel_closed attempts) s g =
      let (c', ok, e, gains, text, puts, gets, connected) = lose_connection_lem c attempts s g in
      (c', ok, e, gains)
  run_step-Gains c (idle attempts) s g =
      let (c', ok, e, gains, text, puts, gets, connected) = lose_connection_lem c attempts s g in
      elim (Bool-cases (is_connected c.network c.active_server)) [
        | inl up ↦ (c, true, rw (up, run_step) refl, (s, λ x. omega arith))
        | inr down ↦ (c', ok, rw (down, run_step) e, gains)
      ]
