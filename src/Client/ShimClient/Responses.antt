-- ===== src/Client/ShimClient/Responses.antt =====
-- What a message of a server does to the client and to the calls that it knows.
use id2203_project.Base.{
  ℕ, ◌<◌, id_key, String, ◌≡◌, refl, sym, ◌∙◌, Option, none, some, [], ◌∷◌, arith,
}
use id2203_project.Base.HashMap
use id2203_project.Base.HashMap.{HashMap, IsDistinct, get-without, without-IsDistinct}
use id2203_project.Common.Messages.{ServerMessage, write, read, start_signal, command_id}
use id2203_project.Client.Data.{ClientData, request_count, new_response-total}
use id2203_project.Client.ShimClient.{
  Client, answer_if, unwrap_or_else, handle_server_message, take_answer, receive,
}
use id2203_project.Client.ShimClient.Calls.{occurrences-without, occurrences-answered}
use id2203_project.Client.ShimClient.Soundness.{IsSound, Gains, IsGenuine}

module _ {Ratio : Type 0} where
  without_put-IsSound :
      (c : Client Ratio) (id : ℕ)
      → IsSound c
      → IsSound (record c { pending_puts = HashMap.without id c.pending_puts })
  without_put-IsSound c id s = record {
    next_id = s.next_id;
    puts_below = λ k le. get-without id k c.pending_puts ∙ ground (arith, s.puts_below k le);
    gets_below = s.gets_below;
    puts_distinct = without-IsDistinct id c.pending_puts s.puts_distinct;
    gets_distinct = s.gets_distinct;
    in_range = s.in_range;
  }

  without_get-IsSound :
      (c : Client Ratio) (id : ℕ)
      → IsSound c
      → IsSound (record c { pending_gets = HashMap.without id c.pending_gets })
  without_get-IsSound c id s = record {
    next_id = s.next_id;
    puts_below = s.puts_below;
    gets_below = λ k le. get-without id k c.pending_gets ∙ ground (arith, s.gets_below k le);
    puts_distinct = s.puts_distinct;
    gets_distinct = without-IsDistinct id c.pending_gets s.gets_distinct;
    in_range = s.in_range;
  }

  answer_if-Gains :
      (c : Client Ratio) (tx : Option ℕ) (text : String)
      → IsSound c
      → Gains tx c (answer_if c tx text)
  answer_if-Gains c none text s = (s, λ x. omega arith)
  answer_if-Gains c (some tx) text s = (
    record {
      next_id = s.next_id;
      puts_below = s.puts_below;
      gets_below = s.gets_below;
      puts_distinct = s.puts_distinct;
      gets_distinct = s.gets_distinct;
      in_range = s.in_range;
    },
    λ x. omega (arith, occurrences-answered x c.answered ((tx, text) ∷ [])),
  )

  take_answer-Gains :
      (c : Client Ratio) (msg : ServerMessage) → IsSound c → Gains none c (take_answer c msg)
  unfolding take_answer
  take_answer-Gains c (start_signal t) s = (s, λ x. omega arith)
  take_answer-Gains c (write id) s =
      let rest = record c { pending_puts = HashMap.without id c.pending_puts } in
      let (sound, known_now) =
        answer_if-Gains rest (HashMap.get id c.pending_puts) "Ok" (without_put-IsSound c id s) in
      (
        sound,
        λ x. known_now x ∙ omega (arith, occurrences-without x id c.pending_puts s.puts_distinct),
      )
  take_answer-Gains c (read id value) s =
      let rest = record c { pending_gets = HashMap.without id c.pending_gets } in
      let (sound, known_now) =
        answer_if-Gains rest (HashMap.get id c.pending_gets) (unwrap_or_else value "Key not found")
          (without_get-IsSound c id s) in
      (
        sound,
        λ x. known_now x ∙ omega (arith, occurrences-without x id c.pending_gets s.gets_distinct),
      )

  responded-Gains :
      (c : Client Ratio) (d : ClientData)
      → IsSound c
      → request_count d ≡ request_count c.client_data
      → IsSound (record c { client_data = d })
  responded-Gains c d s e = record {
    next_id = s.next_id ∙ sym e;
    puts_below = s.puts_below;
    gets_below = s.gets_below;
    puts_distinct = s.puts_distinct;
    gets_distinct = s.gets_distinct;
    in_range = s.in_range;
  }

  pub next_id-take_answer :
      (c : Client Ratio) (msg : ServerMessage)
      → (take_answer c msg).next_request_id ≡ c.next_request_id
  unfolding take_answer
  next_id-take_answer c (start_signal t) = refl
  next_id-take_answer c (write id) = ground arith
  next_id-take_answer c (read id value) = ground arith

  handle_response :
      (c : Client Ratio) (msg : ServerMessage) (now id : ℕ)
      → command_id msg ≡ some id
      → IsSound c
      → id < c.next_request_id
      → (c' : Client Ratio) × (handle_server_message c msg now ≡ some c') × Gains none c c'
  unfolding handle_server_message
  handle_response c msg now id e s lt =
      let (d, made, same) = new_response-total c.client_data now id (omega (arith, s.next_id)) in
      (
        record c { client_data = d },
        rw (e, handle_server_message) (rw made refl),
        (responded-Gains c d s same, λ x. omega arith),
      )

  -- A genuine message never is a panic, and loses no call.
  pub receive-Gains :
      (c : Client Ratio) (msg : ServerMessage) (now : ℕ)
      → IsSound c
      → IsGenuine msg c
      → (c' : Client Ratio) × (receive c msg now ≡ some c') × Gains none c c'
  unfolding receive command_id handle_server_message
  receive-Gains c (start_signal t) now s g =
      (take_answer c (start_signal t), refl, take_answer-Gains c (start_signal t) s)
  receive-Gains c (write id) now s g =
      let (sound, same) = take_answer-Gains c (write id) s in
      let (c', e, (sound', same')) =
        handle_response (take_answer c (write id)) (write id) now id refl sound
          (rw (next_id-take_answer c (write id)) g) in
      (c', e, (sound', λ x. same' x ∙ omega (arith, same x)))
  receive-Gains c (read id value) now s g =
      let (sound, same) = take_answer-Gains c (read id value) s in
      let (c', e, (sound', same')) =
        handle_response (take_answer c (read id value)) (read id value) now id refl sound
          (rw (next_id-take_answer c (read id value)) g) in
      (c', e, (sound', λ x. same' x ∙ omega (arith, same x)))
