-- ===== src/Server/Network/Clients.antt =====
-- The connections to clients, and the ids that they are given.
use id2203_project.Base.{
  ℕ, ◌+◌, ◌≤◌, ◌<◌, id_key, ◌≡◌, Option, none, some, List, [], ◌∷◌, ◌==◌, arith, length, word_mod,
  wrapping_add, if◌then◌else◌, Option-cases, inl, inr,
}
use id2203_project.Base.HashMap
use id2203_project.Base.HashMap.{HashMap, get-insert, get-without}
use id2203_project.Common.Messages.{ServerMessage, node_register, client_register}
use id2203_project.Server.Network.{
  Network, NewConnection, ClientConnection, Handshake, message, malformed, closed, to_peer,
  to_client, send, accept_all, send_to_client,
}

-- A client's connection after a send to it: a failed send drops it.
abbrev pub after_reply : Option ClientConnection → ServerMessage → Option ClientConnection
after_reply none msg = none
after_reply (some c) msg = elim (send c.outgoing_messages msg) [
  | none ↦ none
  | some o ↦ some (record c { outgoing_messages = o })
]

-- Each entry is above all before it, and above the bound.
abbrev pub Rises : ℕ → List ℕ → Type 0
Rises m [] = Unit
Rises m (x ∷ xs) = (m < x) × Rises x xs

module _ {Message : Type 0} where
  abbrev pub client : Network Message → ℕ → Option ClientConnection
  client n id = HashMap.get id n.client_connections

  -- A message reaches the client that it is for, whose connection is removed if its writer is
  -- gone; no other client's connection changes.
  pub client-send_to_client :
      (n : Network Message) (to : ℕ) (msg : ServerMessage) (j : ℕ)
      → client (send_to_client n to msg) j
        ≡ (if to == j then after_reply (client n j) msg else client n j)
  unfolding send_to_client
  client-send_to_client n to msg j = elim (Option-cases (client n to)) [
    | inl e ↦ rw (e, send_to_client) (ground (arith, id_key.decides to j, e))
    | inr (c, e) ↦ elim (Option-cases (send c.outgoing_messages msg)) [
      | inl gone ↦
          ground (arith, id_key.decides to j, e, gone, get-without to j n.client_connections)
      | inr (o, sent) ↦ ground (
        arith,
        id_key.decides to j,
        e,
        sent,
        get-insert to j (record c { outgoing_messages = o }) n.client_connections,
      )
    ]
  ]

  pub peers-send_to_client :
      (n : Network Message) (to : ℕ) (msg : ServerMessage)
      → ((send_to_client n to msg).peers ≡ n.peers)
        × ((send_to_client n to msg).peer_connections ≡ n.peer_connections)
        × ((send_to_client n to msg).max_client_id ≡ n.max_client_id)
  unfolding send_to_client send
  peers-send_to_client n to msg = (ground arith, ground arith, ground arith)

  -- The ids of the clients among new connections.
  abbrev pub client_ids : List (NewConnection Message) → List ℕ
  client_ids [] = []
  client_ids (to_peer c ∷ cs) = client_ids cs
  client_ids (to_client c ∷ cs) = c.client_id ∷ client_ids cs

module _ (Message : Type 0) where
  -- Clients that register get ids that rise from the counter, so no two get the same id and none
  -- gets an old one, and the counter rises by at most the number of streams, while it does not
  -- overflow.
  pub accept_all-Rises :
      (max : ℕ) (hs : List (Handshake × ℕ))
      → max + length hs < word_mod
      → Rises max (client_ids {Message = Message} (accept_all max hs).1)
        × (max ≤ (accept_all {Message = Message} max hs).0)
        × ((accept_all {Message = Message} max hs).0 ≤ max + length hs)
  unfolding accept_all
  accept_all-Rises max [] fits = (tt, omega arith, omega arith)
  accept_all-Rises max ((message (node_register id), stream) ∷ hs) fits =
      let rest = accept_all-Rises max hs (omega arith) in (rest.0, rest.1, omega (arith, rest.2))
  accept_all-Rises max ((message client_register, stream) ∷ hs) fits =
      let rest = accept_all-Rises (wrapping_add max 1) hs (omega arith) in
      let next : wrapping_add max 1 ≡ max + 1 = omega arith in
      ((omega arith, rest.0), omega (arith, rest.1, next), omega (arith, rest.2, next))
  accept_all-Rises max ((malformed, stream) ∷ hs) fits =
      let rest = accept_all-Rises max hs (omega arith) in (rest.0, rest.1, omega (arith, rest.2))
  accept_all-Rises max ((closed, stream) ∷ hs) fits =
      let rest = accept_all-Rises max hs (omega arith) in (rest.0, rest.1, omega (arith, rest.2))
