-- ===== src/Client/ShimClient/Program.antt =====
-- client/test_client.rs, `run` as a whole: the wait for the start signal, then the rounds of the loop.
use id2203_project.Base.{
  ℕ, ◌+◌, id_key, ◌≡◌, refl, ap, sym, ◌∙◌, Option, none, some, List, [], ◌∷◌, ◌++◌, map, arith, inl,
  inr, Some, Bool-cases, if◌then◌else◌,
}
use id2203_project.Common.Messages.{ServerMessage, write, read, start_signal}
use id2203_project.Client.ShimClient.{
  Client, Event, server_message, channel_closed, run_step, wait_for_start_signal,
  wait_until_sync_time,
}
use id2203_project.Client.ShimClient.Calls.{occurrences, new_call, known}
use id2203_project.Client.ShimClient.Soundness.{IsSound}
use id2203_project.Client.ShimClient.Rounds.{IsGenuineEvent, run_step-Gains}
use id2203_project.Client.ShimClient.Run.{with_call, known-with_call}

-- A start signal, or the end of the channel.
abbrev pub EndsWait : Option ServerMessage → Type 0
EndsWait none = Unit
EndsWait (some (start_signal t)) = Unit
EndsWait (some (write id)) = ⊥
EndsWait (some (read id value)) = ⊥

-- A message, or the end of the channel, in the loop.
abbrev pub as_event : ℕ → Option ServerMessage → Event
as_event now (some msg) = server_message msg now
as_event now none = channel_closed []

module _ {Ratio : Type 0} where
  -- The loop on the events that come, up to a reconnection that does not succeed.
  unfoldable pub run_loop : Client Ratio → List Event → Option (Client Ratio)
  run_loop c [] = some c
  run_loop c (ev ∷ events) = elim (run_step c ev) [
    | none ↦ none
    | some (c', done) ↦ let rest = run_loop c' events in if done then rest else some c'
  ]

  -- A client whose wait has not ended still waits. The messages that come after it has ended are the
  -- first events of the loop.
  unfoldable pub run :
      Client Ratio → List (Option ServerMessage) → ℕ → List Event → Option (Client Ratio)
  run c messages now events = elim (wait_for_start_signal c messages now) [
    | none ↦ some c
    | some (c', left) ↦ run_loop c' (map (as_event now) left ++ events)
  ]

  -- The events are genuine, each for the client that it finds.
  abbrev pub GenuineRun : Client Ratio → List Event → Type 0
  GenuineRun c [] = Unit
  GenuineRun c (ev ∷ events) =
      IsGenuineEvent ev c
      × (elim (run_step c ev) as (λ _. Type 0) [ none ↦ Unit | some r ↦ GenuineRun r.0 events ])

  -- The calls that the loop takes.
  abbrev pub reached : Client Ratio → List Event → List ℕ
  reached c [] = []
  reached c (ev ∷ events) = with_call (new_call ev) (elim (run_step c ev) as (λ _. List ℕ) [
    | none ↦ []
    | some (c', done) ↦ let rest = reached c' events in if done then rest else []
  ])

  abbrev pub Answers : Client Ratio → Client Ratio → List ℕ → Type 0
  Answers c c' calls = IsSound c' × ((x : ℕ) → known x c' ≡ known x c + occurrences x calls)

  run_loop-Answers :
      (c : Client Ratio) (events : List Event)
      → IsSound c
      → GenuineRun c events
      → (c' : Client Ratio) × (run_loop c events ≡ some c') × Answers c c' (reached c events)
  unfolding run_loop
  run_loop-Answers c [] s g = (c, refl, (s, λ x. omega arith))
  run_loop-Answers c (ev ∷ events) s g =
      let (c1, done, e, (s1, gained)) = run_step-Gains c ev s g.0 in
      let later : GenuineRun c1 events = rw e at g.1 in
      let (c2, e2, (s2, known2)) = run_loop-Answers c1 events s1 later in
      elim (Bool-cases done) [
        | inl on ↦ (
          c2,
          rw (e, run_loop) (rw on e2),
          (
            s2,
            λ x.
                rw (e, reached)
                  (rw on (
                    omega (
                      arith,
                      known2 x,
                      gained x,
                      known-with_call x (new_call ev) (reached c1 events),
                    ))),
          ),
        )
        | inr stopped ↦ (
          c1,
          rw (e, run_loop) (rw stopped refl),
          (
            s1,
            λ x.
                rw (e, reached)
                  (rw stopped (omega (arith, gained x, known-with_call x (new_call ev) []))),
          ),
        )
      ]

  -- The events of the loop: what the wait has left, and what comes then.
  abbrev pub coming : Client Ratio → List (Option ServerMessage) → ℕ → List Event → List Event
  coming c messages now events = elim (wait_for_start_signal c messages now) [
    | none ↦ events
    | some r ↦ map (as_event now) r.1 ++ events
  ]

  -- The client after its wait.
  abbrev pub waited : Client Ratio → List (Option ServerMessage) → ℕ → Client Ratio
  waited c messages now = elim (wait_for_start_signal c messages now) [ none ↦ c | some r ↦ r.0 ]

  pub wait-Answers :
      (c : Client Ratio) (messages : List (Option ServerMessage)) (now : ℕ)
      → IsSound c
      → Some EndsWait messages
      → (left : List (Option ServerMessage)) × (wait_for_start_signal c messages now
          ≡ some (waited c messages now, left))
        × Answers c (waited c messages now) []
  unfolding wait_for_start_signal wait_until_sync_time
  wait-Answers c [] now s h = absurd h
  wait-Answers c (none ∷ messages) now s h = (messages, refl, (s, λ x. omega arith))
  wait-Answers c (some (start_signal t) ∷ messages) now s h = (
    messages,
    refl,
    (
      record {
        next_id = s.next_id;
        puts_below = s.puts_below;
        gets_below = s.gets_below;
        puts_distinct = s.puts_distinct;
        gets_distinct = s.gets_distinct;
        in_range = s.in_range;
      },
      λ x. omega arith,
    ),
  )
  wait-Answers c (some (write id) ∷ messages) now s (inl h) = absurd h
  wait-Answers c (some (write id) ∷ messages) now s (inr h) = wait-Answers c messages now s h
  wait-Answers c (some (read id value) ∷ messages) now s (inl h) = absurd h
  wait-Answers c (some (read id value) ∷ messages) now s (inr h) = wait-Answers c messages now s h

  -- When a start signal comes or the channel ends, the shim client's wait for it is over, and then
  -- its loop goes through any sequence of genuine events, the messages that have come since first,
  -- without a panic, up to a reconnection that does not succeed: the invariant holds, and of the
  -- calls that the client has answered or holds it has lost none and repeated none, and added
  -- exactly those that the loop has taken.
  pub run-Answers :
      (c : Client Ratio) (messages : List (Option ServerMessage)) (now : ℕ) (events : List Event)
      → IsSound c
      → Some EndsWait messages
      → GenuineRun (waited c messages now) (coming c messages now events)
      → (c' : Client Ratio) × (run c messages now events ≡ some c')
        × Answers c c' (reached (waited c messages now) (coming c messages now events))
  unfolding run
  run-Answers c messages now events s h g =
      let (left, e, (s1, known1)) = wait-Answers c messages now s h in
      let (c', e2, (s2, known2)) =
        run_loop-Answers (waited c messages now) (coming c messages now events) s1 g in
      let same : coming c messages now events ≡ map (as_event now) left ++ events =
        rw (e, coming) refl in
      (
        c',
        rw (e, run) (ap (run_loop (waited c messages now)) (sym same) ∙ e2),
        (s2, λ x. omega (arith, known1 x, known2 x)),
      )
