-- ===== src/Client/Shim/Served.antt =====
-- What holds of the HTTP handlers and the client in every state that they reach.
pub mod Events
use id2203_project.Base.{
  ℕ, suc, ◌+◌, ◌<◌, id_key, ◌≡◌, refl, ap, Bool, true, false, Option, none, some, List, [], ◌∷◌,
  ◌++◌, arith, Option-cases, ltb, length, inl, inr, All, Bool-cases, word_mod, if◌then◌else◌,
}
use id2203_project.Base.HashMap
use id2203_project.Base.HashMap.{HashMap}
use id2203_project.Common.Messages.{ServerMessage, write, read, start_signal}
use id2203_project.Client.Network.{Attempt}
use id2203_project.Client.ShimClient.{
  Client, ApiCommand, put_call, get_call, Event, call, server_message, channel_closed, idle,
  run_step, wait_for_start_signal,
}
use id2203_project.Client.ShimClient.Calls.{occurrences, one, one_of, new_call, known}
use id2203_project.Client.ShimClient.Soundness.{IsSound, IsGenuine}
use id2203_project.Client.ShimClient.Rounds.{
  Registers, IsGenuineEvent, run_step-Gains, reconnect_loop_lem,
}
use id2203_project.Client.ShimClient.Waiting.{caller}
use id2203_project.Client.ShimClient.Program.{wait-Answers}
use id2203_project.Client.Shim.{elapsed}
use id2203_project.Client.Shim.Service.{
  Request, starting, looping, reconnecting, ended, has_receiver, Task, handler, Service,
  ServiceEvent, request, taken, server, server_closed, quiet, retry, poll, channel_capacity, accept,
  after_round, take_call, start_with, try_again, reply, wait_of, serve_step, serve,
}
use id2203_project.Client.Shim.Numbers.{
  callers, calls_in, issued, issued-suc, occurrences-callers, occurrences-callers-without,
  occurrences-get, calls_in-append, caller-call_of, call_of, handler-takes,
}

one_of-call :
    (x : ℕ) (cmd : ApiCommand) (now : ℕ) → one_of x (new_call (call cmd now)) ≡ one x (caller cmd)
one_of-call x (put_call k v tx) now = refl
one_of-call x (get_call k tx) now = refl

module _ {Ratio : Type 0} where
  -- The client's task has not ended and its invariant holds; each call that was given a number waits
  -- for its response or has it, once; and it stands in the channel, or the client has answered it or
  -- holds it, once.
  pub record IsServed (s : Service Ratio) : Type 0 where
    pub running : has_receiver s.task ≡ true
    pub sound : IsSound s.client
    pub each_once :
        (x : ℕ)
        → occurrences x (callers s.waiting) + occurrences x (callers s.replies)
          ≡ issued x s.next_call
    pub none_lost :
        (x : ℕ) → known x s.client + occurrences x (calls_in s.channel) ≡ issued x s.next_call

  pub accept_lem :
      (s : Service Ratio) (r : Request)
      → has_receiver s.task ≡ true
      → accept s r ≡ (
          if ltb (length s.channel) channel_capacity
          then record s {
            channel = s.channel ++ call_of r s.next_call ∷ [];
            waiting = s.waiting ++ (s.next_call, r) ∷ [];
            next_call = suc s.next_call;
          }
          else s)
  unfolding accept
  accept_lem s r up = rw (up, accept) (rw (handler-takes r s.next_call elapsed) refl)

  pub accept-IsServed : (s : Service Ratio) (r : Request) → IsServed s → IsServed (accept s r)
  accept-IsServed s r h = elim (Bool-cases (ltb (length s.channel) channel_capacity)) [
    | inl room ↦ rw (accept_lem s r h.running) (
        rw room (record {
          running = h.running;
          sound = h.sound;
          each_once = λ x. omega (
            arith,
            h.each_once x,
            occurrences-callers x s.next_call r s.waiting,
            issued-suc x s.next_call,
          );
          none_lost = λ x.
              let cmd = call_of r s.next_call in
              let same : one x (caller cmd) ≡ one x s.next_call =
                ap (one x) (caller-call_of r s.next_call) in
              omega (
                arith,
                h.none_lost x,
                calls_in-append x s.channel cmd,
                same,
                issued-suc x s.next_call,
              );
        }))
    | inr full ↦ rw (accept_lem s r h.running) (rw full h)
  ]

  after_round-IsServed :
      (s : Service Ratio) (c : Client Ratio) (done : Bool)
      → IsSound c
      → ((x : ℕ)
          → occurrences x (callers s.waiting) + occurrences x (callers s.replies)
            ≡ issued x s.next_call)
      → ((x : ℕ) → known x c + occurrences x (calls_in s.channel) ≡ issued x s.next_call)
      → IsServed (after_round s (some (c, done)))
  unfolding after_round
  after_round-IsServed s c true sound once lost = record {
    running = refl;
    sound = sound;
    each_once = once;
    none_lost = lost;
  }
  after_round-IsServed s c false sound once lost = record {
    running = refl;
    sound = sound;
    each_once = once;
    none_lost = lost;
  }

  -- A round on an event that brings no call.
  pub round-IsServed :
      (s : Service Ratio) (ev : Event)
      → IsServed s
      → IsGenuineEvent ev s.client
      → new_call ev ≡ none
      → IsServed (after_round s (run_step s.client ev))
  round-IsServed s ev h g quiet_event =
      let (c, done, e, (sound, gained)) = run_step-Gains s.client ev h.sound g in
      rw e (
        after_round-IsServed s c done sound h.each_once (λ x.
          let nothing : one_of x (new_call ev) ≡ 0 = rw quiet_event refl in
          omega (arith, gained x, nothing, h.none_lost x)))

  pub take_call-IsServed :
      (s : Service Ratio) (now : ℕ) (commands : List ApiCommand)
      → s.channel ≡ commands
      → IsServed s
      → suc s.client.next_request_id < word_mod
      → IsServed (take_call s now)
  unfolding take_call
  take_call-IsServed s now [] e h room = rw (e, take_call) h
  take_call-IsServed s now (cmd ∷ rest) e h room =
      let (c, done, round, (sound, gained)) = run_step-Gains s.client (call cmd now) h.sound room in
      rw (e, take_call)
        (rw round (
          after_round-IsServed (record s { channel = rest }) c done sound h.each_once
            (λ x.
              let all = h.none_lost x in
              let split : known x s.client + occurrences x (calls_in (cmd ∷ rest))
                  ≡ issued x s.next_call =
                rw e at all in
              omega (arith, gained x, split, one_of-call x cmd now))))

  -- A message, or the end of the channel, before the loop.
  pub start_with-IsServed :
      (s : Service Ratio) (message : Option ServerMessage) (now : ℕ)
      → IsServed s
      → IsServed (start_with s message now)
  unfolding start_with wait_for_start_signal
  start_with-IsServed s (some (write id)) now h = h
  start_with-IsServed s (some (read id value)) now h = h
  start_with-IsServed s (some (start_signal t)) now h =
      let (left, e, (sound, same)) =
        wait-Answers s.client (some (start_signal t) ∷ []) now h.sound (inl tt) in
      record {
        running = refl;
        sound = sound;
        each_once = h.each_once;
        none_lost = λ x. omega (arith, same x, h.none_lost x);
      }
  start_with-IsServed s none now h =
      let (left, e, (sound, same)) = wait-Answers s.client (none ∷ []) now h.sound (inl tt) in
      record {
        running = refl;
        sound = sound;
        each_once = h.each_once;
        none_lost = λ x. omega (arith, same x, h.none_lost x);
      }

  pub try_again-IsServed :
      (s : Service Ratio) (attempts : List Attempt)
      → IsServed s
      → All (Registers s.client.active_server) attempts
      → IsServed (try_again s attempts)
  unfolding try_again
  try_again-IsServed s attempts h r =
      let (n, ok, e, inside, connected) =
        reconnect_loop_lem s.client.network s.client.active_server attempts h.sound.in_range r in
      rw (e, try_again)
        (after_round-IsServed s (record s.client { network = n }) ok
          (record {
            next_id = h.sound.next_id;
            puts_below = h.sound.puts_below;
            gets_below = h.sound.gets_below;
            puts_distinct = h.sound.puts_distinct;
            gets_distinct = h.sound.gets_distinct;
            in_range = inside;
          })
          h.each_once h.none_lost)

  -- A handler that looks for its answer has its response, or waits on.
  pub reply-IsServed :
      (s : Service Ratio) (tx : ℕ) (late : Bool) → IsServed s → IsServed (reply s tx late)
  unfolding reply
  reply-IsServed s tx late h = elim (Option-cases (HashMap.get tx s.waiting)) [
    | inl gone ↦ rw (gone, reply) h
    | inr (r, there) ↦ elim (Option-cases (wait_of s tx late)) [
      | inl waits ↦ rw (there, reply) (rw waits h)
      | inr (wait, over) ↦
          rw (there, reply)
            (rw over (record {
              running = h.running;
              sound = h.sound;
              each_once = λ x. ground (
                arith,
                h.each_once x,
                h.each_once tx,
                occurrences-callers-without x tx s.waiting,
                occurrences-callers x tx (handler r tx true wait).1 s.replies,
                occurrences-get tx r s.waiting there,
                id_key.decides tx x,
              );
              none_lost = h.none_lost;
            }))
    ]
  ]
