-- ===== src/Client/LoadClient/Ends.antt =====
-- A load client comes to its end.
use id2203_project.Base.{
  ℕ, zero, suc, ◌+◌, ◌<◌, ◌≡◌, refl, ap, subst, ◌∙◌, true, false, some, List, [], ◌∷◌, arith,
  length, text_key, word_mod,
}
use id2203_project.Common.Messages.{write, read, start_signal}
use id2203_project.Client.Configs.{RequestInterval}
use id2203_project.Client.Data.{request_count}
use id2203_project.Client.LoadClient.{
  LoadClient, Schedule, LoadEvent, response, request_tick, interval_tick, run_step,
}
use id2203_project.Client.LoadClient.Rounds.{
  IsRunning, IsGenuine, is_last, is_request, left_after, run_step-Continues,
}
use id2203_project.Client.LoadClient.Program.{run_loop}

module _ {Ratio : Type 0} where
  -- Genuine events from a client on that has made a number of requests.
  abbrev pub GenuineFrom : ℕ → List (LoadEvent Ratio) → Type 0
  GenuineFrom n [] = Unit
  GenuineFrom n (response (write id) now ∷ events) = (id < n) × GenuineFrom n events
  GenuineFrom n (response (read id value) now ∷ events) = (id < n) × GenuineFrom n events
  GenuineFrom n (response (start_signal t) now ∷ events) = GenuineFrom n events
  GenuineFrom n (request_tick draw now ∷ events) = (suc n < word_mod) × GenuineFrom (suc n) events
  GenuineFrom n (interval_tick ∷ events) = GenuineFrom n events

  abbrev pub interval_ticks : List (LoadEvent Ratio) → ℕ
  interval_ticks [] = 0
  interval_ticks (interval_tick ∷ events) = suc (interval_ticks events)
  interval_ticks (_ ∷ events) = interval_ticks events

  -- How many ticks for requests come before so many ticks that end an interval.
  abbrev pub requests_until : ℕ → List (LoadEvent Ratio) → ℕ
  requests_until zero events = 0
  requests_until (suc n) [] = 0
  requests_until (suc n) (interval_tick ∷ events) = requests_until n events
  requests_until (suc n) (request_tick draw now ∷ events) = suc (requests_until (suc n) events)
  requests_until (suc n) (response msg now ∷ events) = requests_until (suc n) events

  abbrev pub Ends : LoadClient Ratio → Schedule Ratio → List (LoadEvent Ratio) → Type 0
  Ends c t events =
      (c' : LoadClient Ratio) × (t' : Schedule Ratio) × (run_loop c t events ≡ some (c', t', true))
      × (c'.config ≡ c.config)
      × (request_count c'.client_data
          ≡ request_count c.client_data + requests_until (suc (length t.intervals)) events)

  onward :
      (c c' : LoadClient Ratio) (t t' : Schedule Ratio) (ev : LoadEvent Ratio)
      (events : List (LoadEvent Ratio))
      → run_step c t ev ≡ some (c', t', false)
      → c'.config ≡ c.config
      → request_count c'.client_data + requests_until (suc (length t'.intervals)) events
        ≡ request_count c.client_data + requests_until (suc (length t.intervals)) (ev ∷ events)
      → Ends c' t' events
      → Ends c t (ev ∷ events)
  unfolding run_loop
  onward c c' t t' ev events e same counted (c2, t2, e2, same2, counted2) =
      (c2, t2, rw (e, run_loop) e2, same2 ∙ same, counted2 ∙ counted)

  -- The theorem for the events that follow, from any state.
  abbrev pub EndsFromAny : List (LoadEvent Ratio) → Type 0
  EndsFromAny events =
      (c : LoadClient Ratio) (t : Schedule Ratio)
      → IsRunning c t
      → GenuineFrom c.next_request_id events
      → length t.intervals < interval_ticks events
      → Ends c t events

  -- An event that ends no interval.
  within :
      (c : LoadClient Ratio) (t : Schedule Ratio) (ev : LoadEvent Ratio)
      (events : List (LoadEvent Ratio))
      → IsRunning c t
      → IsGenuine ev c
      → is_last t ev ≡ false
      → left_after ev t.intervals ≡ t.intervals
      → requests_until (suc (length t.intervals)) (ev ∷ events)
        ≡ is_request ev + requests_until (suc (length t.intervals)) events
      → GenuineFrom (c.next_request_id + is_request ev) events
      → length t.intervals < interval_ticks events
      → EndsFromAny events
      → Ends c t (ev ∷ events)
  within c t ev events r g inside kept requests later h ends =
      let (c', t', over, e, last, next, left, same, counted) = run_step-Continues c t ev r g in
      let goes_on : over ≡ false = last ∙ inside in
      let r' : IsRunning c' t' = next goes_on in
      let len : length t'.intervals ≡ length t.intervals = ap length (left ∙ kept) in
      let ids : c.next_request_id + is_request ev ≡ c'.next_request_id =
        omega (arith, r.next_id, r'.next_id, counted) in
      onward c c' t t' ev events (e ∙ ap (λ b. some (c', t', b)) goes_on) same
        (rw len (omega (arith, counted, requests)))
        (ends c' t' r' (subst (λ n. GenuineFrom n events) ids later) (omega (arith, len, h)))

  ticked-Ends :
      (c : LoadClient Ratio) (t : Schedule Ratio) (events : List (LoadEvent Ratio))
      (intervals : List (RequestInterval Ratio))
      → t.intervals ≡ intervals
      → IsRunning c t
      → GenuineFrom c.next_request_id events
      → length t.intervals < suc (interval_ticks events)
      → EndsFromAny events
      → Ends c t (interval_tick ∷ events)
  unfolding run_loop
  ticked-Ends c t events [] none_left r g h ends =
      let (c', t', over, e, last, next, left, same, counted) =
        run_step-Continues c t interval_tick r tt in
      let ended : over ≡ true = last ∙ rw (none_left, is_last) refl in
      (c', t', rw (e, run_loop) (rw ended refl), same, rw none_left (omega (arith, counted)))
  ticked-Ends c t events (i ∷ rest) some_left r g h ends =
      let (c', t', over, e, last, next, left, same, counted) =
        run_step-Continues c t interval_tick r tt in
      let goes_on : over ≡ false = last ∙ rw (some_left, is_last) refl in
      let r' : IsRunning c' t' = next goes_on in
      let fewer : length t'.intervals ≡ length rest =
        ap length (left ∙ rw (some_left, left_after) refl) in
      let more : length t.intervals ≡ suc (length rest) = ap length some_left in
      let ids : c.next_request_id ≡ c'.next_request_id =
        omega (arith, r.next_id, r'.next_id, counted) in
      onward c c' t t' interval_tick events (e ∙ ap (λ b. some (c', t', b)) goes_on) same
        (rw (fewer, more) (omega (arith, counted)))
        (ends c' t' r' (subst (λ n. GenuineFrom n events) ids g) (omega (arith, fewer, more, h)))

  -- The loop ends when every interval has ended, and counts the requests until then.
  pub run_loop-Ends : (events : List (LoadEvent Ratio)) → EndsFromAny events
  run_loop-Ends [] c t r g h = absurd (omega arith)
  run_loop-Ends (response (write id) now ∷ events) c t r g h =
      within c t (response (write id) now) events r g.0 refl refl (omega arith)
        (subst (λ n. GenuineFrom n events) (omega arith) g.1) h (run_loop-Ends events)
  run_loop-Ends (response (read id value) now ∷ events) c t r g h =
      within c t (response (read id value) now) events r g.0 refl refl (omega arith)
        (subst (λ n. GenuineFrom n events) (omega arith) g.1) h (run_loop-Ends events)
  run_loop-Ends (response (start_signal s) now ∷ events) c t r g h =
      within c t (response (start_signal s) now) events r tt refl refl (omega arith)
        (subst (λ n. GenuineFrom n events) (omega arith) g) h (run_loop-Ends events)
  run_loop-Ends (request_tick draw now ∷ events) c t r g h =
      within c t (request_tick draw now) events r g.0 refl refl (omega arith)
        (subst (λ n. GenuineFrom n events) (omega arith) g.1) h (run_loop-Ends events)
  run_loop-Ends (interval_tick ∷ events) c t r g h =
      ticked-Ends c t events t.intervals refl r g h (run_loop-Ends events)
