-- ===== src/Client/LoadClient/Rounds.antt =====
-- The rounds of the load client's loop: that they return, and when the loop ends.
use mathlib.Core.Option
use id2203_project.Base.{
  ℕ, suc, ◌+◌, ◌≤◌, ◌<◌, ◌≡◌, refl, sym, subst, ◌∙◌, Bool, true, false, none, some, List, [], ◌∷◌,
  arith, inl, inr, Option-cases, leb, All, word_mod,
}
use id2203_project.Common.Messages.{ServerMessage, write, read, start_signal, command_id}
use id2203_project.Client.Configs.{
  RequestInterval, get_interval_duration, get_request_delay, get_request_delay_lem,
}
use id2203_project.Client.Data.{request_count, length-new_request, new_response-total}
use id2203_project.Client.LoadClient.{
  LoadClient, Schedule, LoadEvent, response, request_tick, interval_tick, handle_server_message,
  send_request, run_finished, interval, timers, run_step,
}

module _ {Ratio : Type 0} where
  -- An interval that has timers.
  abbrev pub IsTimed : RequestInterval Ratio → Type 0
  IsTimed i = (i.requests_per_sec ≤ 1000) × (0 < i.duration_sec)

  -- In the loop: as many ids as requests, no end set, and intervals that have timers.
  pub record IsRunning (c : LoadClient Ratio) (t : Schedule Ratio) : Type 0 where
    pub next_id : c.next_request_id ≡ request_count c.client_data
    pub no_end : c.final_request_count ≡ none
    pub timed : All IsTimed t.intervals

  -- Fewer than 2 ^ 64 - 1 requests, and responses only to requests that were counted.
  abbrev pub IsGenuine : LoadEvent Ratio → LoadClient Ratio → Type 0
  IsGenuine (response (write id) now) c = id < c.next_request_id
  IsGenuine (response (read id value) now) c = id < c.next_request_id
  IsGenuine (response (start_signal t) now) c = Unit
  IsGenuine (request_tick draw now) c = suc c.next_request_id < word_mod
  IsGenuine interval_tick c = Unit

  -- Whether an event is the tick after the last interval.
  abbrev pub is_last : Schedule Ratio → LoadEvent Ratio → Bool
  is_last t interval_tick = elim t.intervals [ [] ↦ true | i ∷ rest ↦ false ]
  is_last t _ = false

  abbrev pub is_request : LoadEvent Ratio → ℕ
  is_request (request_tick draw now) = 1
  is_request _ = 0

  -- The intervals that are left after an event.
  abbrev pub left_after :
      LoadEvent Ratio → List (RequestInterval Ratio) → List (RequestInterval Ratio)
  left_after interval_tick (i ∷ rest) = rest
  left_after interval_tick [] = []
  left_after _ intervals = intervals

  abbrev pub Continues : LoadClient Ratio → Schedule Ratio → LoadEvent Ratio → Type 0
  Continues c t ev =
      (c' : LoadClient Ratio) × (t' : Schedule Ratio) × (over : Bool) × (run_step c t ev
        ≡ some (c', t', over))
      × (over ≡ is_last t ev)
      × (over ≡ false → IsRunning c' t')
      × (t'.intervals ≡ left_after ev t.intervals)
      × (c'.config ≡ c.config)
      × (request_count c'.client_data ≡ request_count c.client_data + is_request ev)

  pub timers-total :
      (i : RequestInterval Ratio)
      → IsTimed i
      → (request_interval next_interval : ℕ) × (timers i ≡ some (request_interval, next_interval))
  unfolding timers interval Option.bind
  timers-total i h = elim (Option-cases (get_request_delay i)) [
    | inl e ↦ absurd (omega (arith, (get_request_delay_lem i).0.0 e))
    | inr (delay, made) ↦
        let positive = (get_request_delay_lem i).1 delay made in
        (delay, get_interval_duration i, rw (made, timers) (ground (arith, positive, h.1)))
  ]

  responded :
      (c : LoadClient Ratio) (t : Schedule Ratio) (msg : ServerMessage) (now id : ℕ)
      → command_id msg ≡ some id
      → IsRunning c t
      → id < c.next_request_id
      → Continues c t (response msg now)
  unfolding run_step handle_server_message run_finished
  responded c t msg now id e r lt =
      let (d, made, same) = new_response-total c.client_data now id (omega (arith, r.next_id)) in
      (
        record c { client_data = d },
        t,
        false,
        rw (e, run_step, handle_server_message) (rw made (rw (r.no_end, run_finished) refl)),
        refl,
        λ _. record { next_id = r.next_id ∙ sym same; no_end = r.no_end; timed = r.timed },
        refl,
        refl,
        omega (arith, same),
      )

  ticked :
      (c : LoadClient Ratio) (t : Schedule Ratio) (intervals : List (RequestInterval Ratio))
      → t.intervals ≡ intervals
      → IsRunning c t
      → Continues c t interval_tick
  unfolding run_step run_finished
  ticked c t [] e r =
      let count = request_count c.client_data in
      let done : LoadClient Ratio = record c { final_request_count = some count } in
      let enough : leb count count ≡ true = ground arith in
      (
        done,
        t,
        true,
        ground (arith, e),
        rw (e, is_last) refl,
        λ more. absurd (ground (arith, more)),
        rw (e, left_after) refl,
        refl,
        omega arith,
      )
  ticked c t (i ∷ rest) e r =
      let timed : All IsTimed (i ∷ rest) = subst (All IsTimed) e r.timed in
      let (request_interval, next_interval, made) = timers-total i timed.0 in
      (
        c,
        record {
          intervals = rest;
          read_ratio = i.read_ratio;
          request_interval = request_interval;
          next_interval = next_interval;
        },
        false,
        rw (e, run_step) (rw made refl),
        rw (e, is_last) refl,
        λ _. record { next_id = r.next_id; no_end = r.no_end; timed = timed.1 },
        rw (e, left_after) refl,
        refl,
        omega arith,
      )

  requested :
      (c : LoadClient Ratio) (t : Schedule Ratio) (is_write : Bool) (now : ℕ)
      → IsRunning c t
      → suc c.next_request_id < word_mod
      → IsRunning (send_request c is_write now) t
  unfolding send_request
  requested c t is_write now r room = record {
    next_id = omega (arith, r.next_id, length-new_request c.client_data now is_write);
    no_end = r.no_end;
    timed = r.timed;
  }

  -- A round of the load client's loop on a genuine event, with intervals of at least a second and
  -- rates of at most a thousand requests in a second, never is a panic. The loop ends exactly at the tick after the last
  -- interval, whether or not responses have come to the requests, and until then the next id is
  -- the number of requests.
  pub run_step-Continues :
      (c : LoadClient Ratio) (t : Schedule Ratio) (ev : LoadEvent Ratio)
      → IsRunning c t
      → IsGenuine ev c
      → Continues c t ev
  unfolding run_step handle_server_message run_finished command_id send_request
  run_step-Continues c t (response (write id) now) r g = responded c t (write id) now id refl r g
  run_step-Continues c t (response (read id value) now) r g =
      responded c t (read id value) now id refl r g
  run_step-Continues c t (response (start_signal s) now) r g =
      (c, t, false, rw (r.no_end, run_finished) refl, refl, λ _. r, refl, refl, omega arith)
  run_step-Continues c t (request_tick draw now) r g = (
    send_request c (draw t.read_ratio) now,
    t,
    false,
    ground (arith, r.no_end),
    refl,
    λ _. requested c t (draw t.read_ratio) now r g,
    refl,
    refl,
    length-new_request c.client_data now (draw t.read_ratio) ∙ omega arith,
  )
  run_step-Continues c t interval_tick r g = ticked c t t.intervals refl r
