-- ===== src/Server/Network/Startup.antt =====
-- The wait for the first peer (`initialize_connections`).
use id2203_project.Base.{
  ℕ, id_key, ◌≡◌, refl, ◌∙◌, ◌⊎◌, inl, inr, true, Option, none, some, List, [], ◌∷◌, arith, any,
  contains, Some, Bool-cases,
}
use id2203_project.Base.HashMap
use id2203_project.Server.Network.{
  Network, NewConnection, PeerConnection, to_peer, to_client, is_some, any_peer, apply_connection,
  initialize_connections,
}
use id2203_project.Server.Network.Peers.{slot, IsWired, apply_connection-to_peer}

module _ {Message : Type 0} where
  -- A connection from, or to, one of the peers.
  abbrev pub IsFromPeer : List ℕ → NewConnection Message → Type 0
  IsFromPeer peers (to_peer c) = contains c.peer_id peers ≡ true
  IsFromPeer peers (to_client c) = ⊥

  any-slot :
      (ps : List ℕ) (cs : List (Option (PeerConnection Message))) (id : ℕ)
      (c : PeerConnection Message)
      → slot ps cs id ≡ some c
      → any is_some cs ≡ true
  any-slot [] cs id c e = cc
  any-slot (p ∷ ps) [] id c e = cc
  any-slot (p ∷ ps) (none ∷ cs) id c e = any-slot ps cs id c (ground arith)
  any-slot (p ∷ ps) (some d ∷ cs) id c e = refl

  -- One connection keeps the network wired, and one of a peer leaves a peer connected.
  abbrev pub Applied : Network Message → NewConnection Message → Type 0
  Applied n c =
      (n' : Network Message) × (apply_connection n c ≡ some n')
      × IsWired n'
      × (n'.peers ≡ n.peers)
      × (IsFromPeer n.peers c → any_peer n' ≡ true)

  pub apply_connection-Applied :
      (n : Network Message) (c : NewConnection Message) → IsWired n → Applied n c
  unfolding apply_connection any_peer
  apply_connection-Applied n (to_peer c) w =
      let (n', e, at_slot, aborted, w', kept) = apply_connection-to_peer n c w in
      (
        n',
        e,
        w',
        kept.peers,
        λ known.
            any-slot n'.peers n'.peer_connections c.peer_id c
              (ground (arith, id_key.decides c.peer_id c.peer_id, at_slot c.peer_id, known)),
      )
  apply_connection-Applied n (to_client c) w = (
    record n { client_connections = HashMap.insert c.client_id c n.client_connections },
    refl,
    w,
    refl,
    λ h. absurd h,
  )

  -- From a wired network the wait for connections never panics, and the network that it ends with
  -- is wired. It ends with a peer connected if some connection that arrives is one of a peer, and
  -- otherwise only when there are no more connections.
  pub initialize_connections_lem :
      (n : Network Message) (cs : List (NewConnection Message))
      → IsWired n
      → (n' : Network Message) × (rest : List (NewConnection Message)) × (initialize_connections n
            cs
          ≡ some (n', rest))
        × IsWired n'
        × (n'.peers ≡ n.peers)
        × ((any_peer n' ≡ true) ⊎ (rest ≡ []))
        × (Some (IsFromPeer n.peers) cs → any_peer n' ≡ true)
  unfolding initialize_connections
  initialize_connections_lem n [] w = (n, [], refl, w, refl, inr refl, λ h. absurd h)
  initialize_connections_lem n (c ∷ cs) w =
      let (n', e, w', kept, found) = apply_connection-Applied n c w in
      elim (Bool-cases (any_peer n')) [
        | inl up ↦ (n', cs, rw (e, initialize_connections) (rw up), w', kept, inl up, λ h. up)
        | inr down ↦
            let (n'', rest, e', w'', kept', ends, later) = initialize_connections_lem n' cs w' in
            (
              n'',
              rest,
              rw (e, initialize_connections) (rw down e'),
              w'',
              kept' ∙ kept,
              ends,
              λ h. elim h [
                | inl here ↦ absurd (ground (arith, found here, down))
                | inr there ↦ later (rw kept there)
              ],
            )
      ]
