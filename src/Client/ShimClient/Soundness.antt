-- ===== src/Client/ShimClient/Soundness.antt =====
-- The invariant of the client of client/test_client.rs, and what each handler does to it and to the calls
-- that the client knows.
use id2203_project.Base.{
  ℕ, suc, ◌+◌, ◌≤◌, ◌<◌, id_key, String, ◌≡◌, refl, ◌∙◌, Bool, true, false, Option, none, some, [],
  ◌∷◌, ◌++◌, arith, ◌⊎◌, inl, inr, Bool-cases, length, wrapping_add, word_mod,
}
use id2203_project.Base.HashMap
use id2203_project.Base.HashMap.{
  HashMap, IsDistinct, get-insert, get-without, insert-IsDistinct, without-IsDistinct,
}
use id2203_project.Common.Kv.{KvCommand, put, get}
use id2203_project.Common.Messages.{ServerMessage, write, read, start_signal, append}
use id2203_project.Client.Data.{request_count, new_request, length-new_request}
use id2203_project.Client.Network
use id2203_project.Client.Network.{Network, Attempt, reconnect, is_connected}
use id2203_project.Client.Network.Slots.{InRange, send_lem}
use id2203_project.Client.ShimClient.{
  Client, ApiCommand, put_call, get_call, call, send_request_manual, handle_call, is_write,
}
use id2203_project.Client.ShimClient.Calls.{
  one_of, occurrences-insert, occurrences-answered, new_call, known,
}

-- Only ids that were given out are waited for, each by one call; the next id is the number of
-- requests; the server has a slot.
pub record IsSound {Ratio : Type 0} (c : Client Ratio) : Type 0 where
  pub next_id : c.next_request_id ≡ request_count c.client_data
  pub puts_below : (k : ℕ) → c.next_request_id ≤ k → HashMap.get k c.pending_puts ≡ none
  pub gets_below : (k : ℕ) → c.next_request_id ≤ k → HashMap.get k c.pending_gets ≡ none
  pub puts_distinct : IsDistinct c.pending_puts
  pub gets_distinct : IsDistinct c.pending_gets
  pub in_range : InRange c.network c.active_server

module _ {Ratio : Type 0} where
  -- The invariant, and the number of a new call known once more.
  abbrev pub Gains : Option ℕ → Client Ratio → Client Ratio → Type 0
  Gains tx c c' = IsSound c' × ((x : ℕ) → known x c' ≡ known x c + one_of x tx)

  pub send_request_manual-IsSound :
      (c : Client Ratio) (cmd : KvCommand) (now : ℕ)
      → IsSound c
      → suc c.next_request_id < word_mod
      → (n : Network) × (((send_request_manual c cmd now ≡ (record c { network = n }, false))
            × InRange n c.active_server)
          ⊎ ((send_request_manual c cmd now ≡ (
            record c {
              network = n;
              client_data = new_request c.client_data now (is_write cmd);
              next_request_id = suc c.next_request_id;
            },
            true,
          ))
              × InRange n c.active_server))
  unfolding send_request_manual
  send_request_manual-IsSound c cmd now s room =
      let r = Network.send c.network c.active_server (append c.next_request_id cmd) in
      let (sent, slots, len, servers) =
        send_lem c.network c.active_server (append c.next_request_id cmd) in
      let next : wrapping_add c.next_request_id 1 ≡ suc c.next_request_id = omega arith in
      let inside : c.active_server < length r.0.server_connections =
        omega (arith, len, s.in_range) in
      (
        r.0,
        elim (Bool-cases r.1) [
          | inl up ↦ inr (rw (up, send_request_manual) (rw next refl), inside)
          | inr down ↦ inl (rw (down, send_request_manual) refl, inside)
        ],
      )

  -- The state after a request was sent, with the call that waits for it put among the others.
  sent_put-IsSound :
      (c : Client Ratio) (n : Network) (now tx : ℕ) (w : Bool)
      → IsSound c
      → InRange n c.active_server
      → Gains (some tx) c (record c {
        network = n;
        client_data = new_request c.client_data now w;
        next_request_id = suc c.next_request_id;
        pending_puts = HashMap.insert c.next_request_id tx c.pending_puts;
      })
  sent_put-IsSound c n now tx w s inside = (
    record {
      next_id = omega (arith, s.next_id, length-new_request c.client_data now w);
      puts_below = λ k le.
          get-insert c.next_request_id k tx c.pending_puts
          ∙ ground (arith, s.puts_below k (omega arith));
      gets_below = λ k le. s.gets_below k (omega arith);
      puts_distinct = insert-IsDistinct c.next_request_id tx c.pending_puts s.puts_distinct;
      gets_distinct = s.gets_distinct;
      in_range = inside;
    },
    λ x. omega (
      arith,
      occurrences-insert x c.next_request_id tx c.pending_puts
          (s.puts_below c.next_request_id (omega arith)),
    ),
  )

  sent_get-IsSound :
      (c : Client Ratio) (n : Network) (now tx : ℕ) (w : Bool)
      → IsSound c
      → InRange n c.active_server
      → Gains (some tx) c (record c {
        network = n;
        client_data = new_request c.client_data now w;
        next_request_id = suc c.next_request_id;
        pending_gets = HashMap.insert c.next_request_id tx c.pending_gets;
      })
  sent_get-IsSound c n now tx w s inside = (
    record {
      next_id = omega (arith, s.next_id, length-new_request c.client_data now w);
      puts_below = λ k le. s.puts_below k (omega arith);
      gets_below = λ k le.
          get-insert c.next_request_id k tx c.pending_gets
          ∙ ground (arith, s.gets_below k (omega arith));
      puts_distinct = s.puts_distinct;
      gets_distinct = insert-IsDistinct c.next_request_id tx c.pending_gets s.gets_distinct;
      in_range = inside;
    },
    λ x. omega (
      arith,
      occurrences-insert x c.next_request_id tx c.pending_gets
          (s.gets_below c.next_request_id (omega arith)),
    ),
  )

  -- The state after a call was answered at once.
  refused-IsSound :
      (c : Client Ratio) (n : Network) (tx : ℕ) (text : String)
      → IsSound c
      → InRange n c.active_server
      → Gains (some tx) c (record c { network = n; answered = c.answered ++ (tx, text) ∷ [] })
  refused-IsSound c n tx text s inside = (
    record {
      next_id = s.next_id;
      puts_below = s.puts_below;
      gets_below = s.gets_below;
      puts_distinct = s.puts_distinct;
      gets_distinct = s.gets_distinct;
      in_range = inside;
    },
    λ x. omega (arith, occurrences-answered x c.answered ((tx, text) ∷ [])),
  )

  -- A call is answered at once, or waits for the answer to a request with a new id.
  pub handle_call-Gains :
      (c : Client Ratio) (cmd : ApiCommand) (now : ℕ)
      → IsSound c
      → suc c.next_request_id < word_mod
      → Gains (new_call (call cmd now)) c (handle_call c cmd now)
  unfolding handle_call
  handle_call-Gains c (put_call k v tx) now s room =
      elim (send_request_manual-IsSound c (put k v) now s room).1 [
        | inl (e, inside) ↦
            rw (e, handle_call) (refused-IsSound c _ tx "Error: server disconnected" s inside)
        | inr (e, inside) ↦ rw (e, handle_call) (sent_put-IsSound c _ now tx true s inside)
      ]
  handle_call-Gains c (get_call k tx) now s room =
      elim (send_request_manual-IsSound c (get k) now s room).1 [
        | inl (e, inside) ↦
            rw (e, handle_call) (refused-IsSound c _ tx "Error: server disconnected" s inside)
        | inr (e, inside) ↦ rw (e, handle_call) (sent_get-IsSound c _ now tx false s inside)
      ]

  -- A message is genuine if it is no response, or one to a request that was sent.
  abbrev pub IsGenuine : ServerMessage → Client Ratio → Type 0
  IsGenuine (write id) c = id < c.next_request_id
  IsGenuine (read id value) c = id < c.next_request_id
  IsGenuine (start_signal t) c = Unit
