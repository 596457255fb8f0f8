-- ===== src/Client/Network/Slots.antt =====
-- What the operations of the client's network do to its slots.
use mathlib.Core.Option
use id2203_project.Base.{
  ℕ, ◌<◌, id_key, String, ◌≡◌, refl, ap, ◌∙◌, Bool, true, false, not, Option, none, some, List,
  arith, inl, inr, Bool-cases, Option-cases, ◌==◌, length, get_elem?, set, get_elem?-set,
  get_elem?-total, get_elem?-lt, length-set, if◌then◌else◌,
}
use id2203_project.Common.Channel
use id2203_project.Common.Channel.{Outbox}
use id2203_project.Common.Messages.{ClientMessage}
use id2203_project.Client.Network.{
  Network, ServerConnection, Attempt, is_none, connection_on, set_slot, take_slot, first_address,
  reconnect, close_slot, slot, is_connected, send,
}

-- A message on the connection of a slot: a connection whose writer is gone is given up.
abbrev pub after_send : Option ServerConnection → ClientMessage → Option ServerConnection
after_send none msg = none
after_send (some c) msg =
    Option.map (λ o. record c { outgoing_messages = o }) (Channel.send c.outgoing_messages msg)

-- Whether the connection of a slot takes messages.
abbrev pub is_open : Option ServerConnection → Bool
is_open none = false
is_open (some c) = c.outgoing_messages.receiver_alive

abbrev pub InRange : Network → ℕ → Type 0
InRange n i = i < length n.server_connections

set-slot :
    (cs : List (Option ServerConnection)) (i j : ℕ) (v : Option ServerConnection)
    → i < length cs
    → elim (get_elem? (set cs i v) j) as (λ _. Option ServerConnection) [ some c ↦ c | none ↦ none ]
      ≡ (if i == j then v else elim (get_elem? cs j) [ some c ↦ c | none ↦ none ])
set-slot cs i j v h = ground (arith, get_elem?-set cs i j v h)

-- A send succeeds exactly when the slot of the server holds a connection that takes messages; the
-- message goes to that connection, a connection that does not take it is dropped, and the other
-- slots and their number stay.
pub send_lem :
    (n : Network) (to : ℕ) (msg : ClientMessage)
    → ((send n to msg).1 ≡ is_open (slot n to))
      × ((j : ℕ)
          → slot (send n to msg).0 j ≡ (if to == j then after_send (slot n j) msg else slot n j))
      × (length (send n to msg).0.server_connections ≡ length n.server_connections)
      × ((send n to msg).0.servers ≡ n.servers)
unfolding send Channel.send
send_lem n to msg = elim (Option-cases (get_elem? n.server_connections to)) [
  | inl e ↦
      rw (e, send) (ground (arith, e), λ j. ground (arith, id_key.decides to j, e), refl, refl)
  | inr (none, e) ↦
      rw (e, send) (ground (arith, e), λ j. ground (arith, id_key.decides to j, e), refl, refl)
  | inr (some c, e) ↦
      let in_range = get_elem?-lt n.server_connections to (some c) e in
      elim (Bool-cases c.outgoing_messages.receiver_alive) [
        | inl up ↦
            rw (e, send)
              (rw up (
                ground (arith, e, up),
                λ j.
                    set-slot n.server_connections to j _ in_range
                    ∙ ground (arith, id_key.decides to j, e, up),
                length-set n.server_connections to _,
                refl,
              ))
        | inr down ↦
            rw (e, send)
              (rw down (
                ground (arith, e, down),
                λ j.
                    set-slot n.server_connections to j none in_range
                    ∙ ground (arith, id_key.decides to j, e, down),
                length-set n.server_connections to none,
                refl,
              ))
      ]
]

set_slot_lem :
    (n : Network) (i : ℕ) (v : Option ServerConnection)
    → InRange n i
    → (set_slot n i v ≡ some (record n { server_connections = set n.server_connections i v }))
      × ((j : ℕ)
          → slot (record n { server_connections = set n.server_connections i v }) j
            ≡ (if i == j then v else slot n j))
      × (length (set n.server_connections i v) ≡ length n.server_connections)
unfolding set_slot
set_slot_lem n i v h =
    let (old, e) = get_elem?-total n.server_connections i h in
    (
      rw (e, set_slot) refl,
      λ j. set-slot n.server_connections i j v h,
      length-set n.server_connections i v,
    )

-- The network once the slot of a server is emptied.
emptied : Network → ℕ → Network
emptied n i = record n {
  server_connections = set n.server_connections i none;
  aborted = close_slot (slot n i) n.aborted;
}

take_slot_lem : (n : Network) (i : ℕ) → InRange n i → take_slot n i ≡ some (emptied n i)
unfolding take_slot emptied
take_slot_lem n i h = elim (Option-cases (get_elem? n.server_connections i)) [
  | inl e ↦
      let (old, e') = get_elem?-total n.server_connections i h in absurd (ground (arith, e, e'))
  | inr (old, e) ↦
      let same : old ≡ slot n i = ground (arith, e) in
      rw (e, take_slot)
        (ap
          (λ c. some (record n {
            server_connections = set n.server_connections i none;
            aborted = close_slot c n.aborted;
          }))
          same)
]

pub reconnect_lem :
    (n : Network) (id : ℕ) (a : Attempt)
    → InRange n id
    → ((addr : String) → (stream : ℕ) × (a.connect id addr ≡ some stream))
    → (n' : Network) × (ok : Bool) × (reconnect n id a ≡ some (n', ok))
      × (ok ≡ is_connected n' id)
      × (ok ≡ not (is_none (first_address a n id)))
      × ((j : ℕ) → (id == j) ≡ false → slot n' j ≡ slot n j)
      × (n'.aborted ≡ close_slot (slot n id) n.aborted)
      × (length n'.server_connections ≡ length n.server_connections)
      × (n'.servers ≡ n.servers)
unfolding reconnect emptied is_connected first_address
reconnect_lem n id a h connects =
    let taken = take_slot_lem n id h in
    let same = length-set n.server_connections id none in
    elim (Option-cases (first_address a n id)) [
      | inl e ↦ (
        emptied n id,
        false,
        rw (taken, reconnect) (rw e refl),
        ground (arith, get_elem?-set n.server_connections id id none h, id_key.decides id id),
        rw e refl,
        λ j ne. set-slot n.server_connections id j none h ∙ ground (arith, ne),
        refl,
        same,
        refl,
      )
      | inr (addr, e) ↦
          let (stream, opened) = connects addr in
          let v = some (connection_on stream) in
          let h' : id < length (set n.server_connections id none) = omega (arith, same) in
          let (put_back, slots, same') = set_slot_lem (emptied n id) id v h' in
          (
            record (emptied n id) {
              server_connections = set (set n.server_connections id none) id v;
            },
            true,
            rw (taken, reconnect) (rw e (rw opened (rw put_back refl))),
            ground (
              arith,
              get_elem?-set (set n.server_connections id none) id id v h',
              id_key.decides id id,
            ),
            rw e refl,
            λ j ne.
                slots j
                ∙ (ground (arith, ne)
                    ∙ (set-slot n.server_connections id j none h ∙ ground (arith, ne))),
            refl,
            same' ∙ same,
            refl,
          )
    ]

pub connected-InRange : (n : Network) (i : ℕ) → is_connected n i ≡ true → InRange n i
unfolding is_connected
connected-InRange n i up = elim (Option-cases (get_elem? n.server_connections i)) [
  | inl e ↦ absurd (ground (arith, e, up))
  | inr (c, e) ↦ get_elem?-lt n.server_connections i c e
]
