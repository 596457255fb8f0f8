-- ===== src/Client/ShimClient/Waiting.antt =====
-- A call that waits for the response to its request, and what other calls do to it.
use id2203_project.Base.{
  ℕ, suc, ◌<◌, id_key, String, ◌≡◌, refl, sym, ◌∙◌, true, some, arith, inl, inr, Bool-cases,
  word_mod,
}
use id2203_project.Base.HashMap
use id2203_project.Base.HashMap.{HashMap, get-insert, get-without}
use id2203_project.Common.Kv.{KvCommand, put, get}
use id2203_project.Common.Spec.{Store}
use id2203_project.Common.Messages.{append}
use id2203_project.Client.Network
use id2203_project.Client.Network.{is_connected, slot}
use id2203_project.Client.Network.Slots.{is_open, send_lem}
use id2203_project.Client.ShimClient.{
  Client, ApiCommand, put_call, get_call, handle_call, send_request_manual, unwrap_or_else,
}
use id2203_project.Client.ShimClient.Soundness.{IsSound, send_request_manual-IsSound}

abbrev pub caller : ApiCommand → ℕ
caller (put_call k v tx) = tx
caller (get_call k tx) = tx

abbrev pub command_of : ApiCommand → KvCommand
command_of (put_call k v tx) = put k v
command_of (get_call k tx) = get k

-- What a call is to be told when the store is `f`.
abbrev pub text_of : Store → ApiCommand → String
text_of f (put_call k v tx) = "Ok"
text_of f (get_call k tx) = unwrap_or_else (f k) "Key not found"

module _ {Ratio : Type 0} where
  abbrev pub pending : ApiCommand → Client Ratio → HashMap ℕ ℕ
  pending (put_call k v tx) c = c.pending_puts
  pending (get_call k tx) c = c.pending_gets

  -- The call waits for the response to the request with this id.
  pub record Waits (cmd : ApiCommand) (id : ℕ) (c : Client Ratio) : Type 0 where
    pub waits : HashMap.get id (pending cmd c) ≡ some (caller cmd)
    pub below : id < c.next_request_id

  -- The entries of an id in both maps, and whether it has been given out.
  pub record Same (id : ℕ) (c c' : Client Ratio) : Type 0 where
    pub puts : HashMap.get id c'.pending_puts ≡ HashMap.get id c.pending_puts
    pub gets : HashMap.get id c'.pending_gets ≡ HashMap.get id c.pending_gets
    pub below : id < c'.next_request_id

  pub Waits-Same :
      (cmd : ApiCommand) (id : ℕ) (c c' : Client Ratio)
      → Same id c c'
      → Waits cmd id c
      → Waits cmd id c'
  Waits-Same (put_call k v tx) id c c' s w = record { waits = s.puts ∙ w.waits; below = s.below }
  Waits-Same (get_call k tx) id c c' s w = record { waits = s.gets ∙ w.waits; below = s.below }

  pub handle_call-Same :
      (c : Client Ratio) (cmd : ApiCommand) (now id : ℕ)
      → IsSound c
      → suc c.next_request_id < word_mod
      → id < c.next_request_id
      → Same id c (handle_call c cmd now)
  unfolding handle_call
  handle_call-Same c (put_call k v tx) now id s room lt =
      elim (send_request_manual-IsSound c (put k v) now s room).1 [
        | inl (e, inside) ↦ rw (e, handle_call) (record { puts = refl; gets = refl; below = lt })
        | inr (e, inside) ↦
            rw (e, handle_call)
              (record {
                puts = get-insert c.next_request_id id tx c.pending_puts ∙ ground arith;
                gets = refl;
                below = omega arith;
              })
      ]
  handle_call-Same c (get_call k tx) now id s room lt =
      elim (send_request_manual-IsSound c (get k) now s room).1 [
        | inl (e, inside) ↦ rw (e, handle_call) (record { puts = refl; gets = refl; below = lt })
        | inr (e, inside) ↦
            rw (e, handle_call)
              (record {
                puts = refl;
                gets = get-insert c.next_request_id id tx c.pending_gets ∙ ground arith;
                below = omega arith;
              })
      ]

  sent-send_request_manual :
      (c : Client Ratio) (cmd : KvCommand) (now : ℕ)
      → (send_request_manual c cmd now).1 ≡ is_open (slot c.network c.active_server)
  unfolding send_request_manual
  sent-send_request_manual c cmd now =
      let msg = append c.next_request_id cmd in
      let sent = (send_lem c.network c.active_server msg).0 in
      elim (Bool-cases (Network.send c.network c.active_server msg).1) [
        | inl up ↦ rw (up, send_request_manual) (sym up ∙ sent)
        | inr down ↦ rw (down, send_request_manual) (sym down ∙ sent)
      ]

  -- A request that is sent makes its call wait.
  pub handle_call-Waits :
      (c : Client Ratio) (cmd : ApiCommand) (now : ℕ)
      → IsSound c
      → suc c.next_request_id < word_mod
      → is_open (slot c.network c.active_server) ≡ true
      → Waits cmd c.next_request_id (handle_call c cmd now)
  unfolding handle_call
  handle_call-Waits c (put_call k v tx) now s room up =
      elim (send_request_manual-IsSound c (put k v) now s room).1 [
        | inl (e, inside) ↦ absurd (ground (arith, up, sent-send_request_manual c (put k v) now, e))
        | inr (e, inside) ↦
            rw (e, handle_call)
              (record {
                waits =
                    get-insert c.next_request_id c.next_request_id tx c.pending_puts
                    ∙ ground (arith, id_key.decides c.next_request_id c.next_request_id);
                below = omega arith;
              })
      ]
  handle_call-Waits c (get_call k tx) now s room up =
      elim (send_request_manual-IsSound c (get k) now s room).1 [
        | inl (e, inside) ↦ absurd (ground (arith, up, sent-send_request_manual c (get k) now, e))
        | inr (e, inside) ↦
            rw (e, handle_call)
              (record {
                waits =
                    get-insert c.next_request_id c.next_request_id tx c.pending_gets
                    ∙ ground (arith, id_key.decides c.next_request_id c.next_request_id);
                below = omega arith;
              })
      ]
