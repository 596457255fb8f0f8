-- ===== src/Client/ShimClient/Automatic.antt =====
-- client/test_client.rs, the requests that are no caller's and the results that are saved: `send_request`
-- and `save_results`, which nothing calls.
use id2203_project.Base.{
  ℕ, suc, ◌<◌, id_key, ◌≡◌, refl, Bool, true, false, none, arith, wrapping_add, word_mod,
}
use id2203_project.Common.Messages.{append}
use id2203_project.Common.Spec.{Store, respond}
use id2203_project.Common.Output.{Files, FileFaults}
use id2203_project.Client.Data.{new_request, length-new_request}
use id2203_project.Client.LoadClient.{request_of}
use id2203_project.Client.Network
use id2203_project.Client.Network.Slots.{send_lem}
use id2203_project.Client.Results
use id2203_project.Client.Results.{Formatters}
use id2203_project.Client.ShimClient.{Client, take_answer}
use id2203_project.Client.ShimClient.Soundness.{IsSound, Gains}

module _ {Ratio : Type 0} where
  -- The request counts whether or not it was sent.
  unfoldable pub send_request : Client Ratio → Bool → ℕ → Client Ratio
  send_request c is_write now = record c {
    network =
        (Network.send c.network c.active_server
          (append c.next_request_id (request_of c.next_request_id is_write))).0;
    client_data = new_request c.client_data now is_write;
    next_request_id = wrapping_add c.next_request_id 1;
  }

  unfoldable pub save_results :
      {Contents : Type 0}
      → Formatters Ratio Contents
      → Client Ratio
      → Files Contents
      → FileFaults Contents
      → FileFaults Contents
      → Files Contents × Bool
  save_results formatters c = Results.save_results formatters c.client_data c.config

  send_request-Gains :
      (c : Client Ratio) (is_write : Bool) (now : ℕ)
      → IsSound c
      → suc c.next_request_id < word_mod
      → Gains none c (send_request c is_write now)
        × ((send_request c is_write now).next_request_id ≡ suc c.next_request_id)
  unfolding send_request
  send_request-Gains c w now s room =
      let msg = append c.next_request_id (request_of c.next_request_id w) in
      let (sent, slots, len, servers) = send_lem c.network c.active_server msg in
      let next : wrapping_add c.next_request_id 1 ≡ suc c.next_request_id = omega arith in
      (
        (
          record {
            next_id = omega (arith, next, s.next_id, length-new_request c.client_data now w);
            puts_below = λ k le. s.puts_below k (omega (arith, next, le));
            gets_below = λ k le. s.gets_below k (omega (arith, next, le));
            puts_distinct = s.puts_distinct;
            gets_distinct = s.gets_distinct;
            in_range = omega (arith, len, s.in_range);
          },
          λ x. omega arith,
        ),
        next,
      )

  no_caller :
      (c : Client Ratio) (is_write : Bool) (now : ℕ) (f : Store)
      → IsSound c
      → (take_answer
          (send_request c is_write now)
          (respond f c.next_request_id (request_of c.next_request_id is_write))).answered
        ≡ c.answered
  unfolding send_request take_answer
  no_caller c true now f s = rw (s.puts_below c.next_request_id (omega arith), take_answer) refl
  no_caller c false now f s = rw (s.gets_below c.next_request_id (omega arith), take_answer) refl

  -- A request that the shim client makes of its own (with fewer requests than the word limit)
  -- keeps the invariant and the calls that the client knows, takes the next id whether or not it
  -- is sent, and the response to it answers no call.
  pub send_request_lem :
      (c : Client Ratio) (is_write : Bool) (now : ℕ) (f : Store)
      → IsSound c
      → suc c.next_request_id < word_mod
      → Gains none c (send_request c is_write now)
        × ((send_request c is_write now).next_request_id ≡ suc c.next_request_id)
        × ((take_answer
              (send_request c is_write now)
              (respond f c.next_request_id (request_of c.next_request_id is_write))).answered
            ≡ c.answered)
  send_request_lem c w now f s room =
      let (gains, next) = send_request-Gains c w now s room in (gains, next, no_caller c w now f s)
