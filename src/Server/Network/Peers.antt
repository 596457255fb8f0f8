-- ===== src/Server/Network/Peers.antt =====
-- The connections to peers, seen as one slot for each peer id.
use id2203_project.Base.{
  ℕ, zero, suc, id_key, ◌≡◌, refl, inl, inr, true, false, Option, none, some, List, [], ◌∷◌, ◌==◌,
  arith, get_elem?, set, contains, position, if◌then◌else◌, Option-cases,
}
use id2203_project.Common.Messages.{ClusterMessage}
use id2203_project.Server.Network.{
  Network, PeerConnection, to_peer, send, cluster_id_to_idx, apply_connection, close_slot,
  after_send, send_to_cluster,
}

abbrev at : ℕ → List ℕ → Option ℕ
at id ps = position (λ p. p == id) ps

at-none : (id : ℕ) (ps : List ℕ) → at id ps ≡ none → contains id ps ≡ false
at-none id [] e = refl
at-none id (p ∷ ps) e = ground (arith, at-none id ps)

at-contains : (id i : ℕ) (ps : List ℕ) → at id ps ≡ some i → contains id ps ≡ true
at-contains id i [] e = cc
at-contains id zero (p ∷ ps) e = ground arith
at-contains id (suc i) (p ∷ ps) e = ground (arith, at-contains id i ps)

at-shift :
    (id p i : ℕ) (ps : List ℕ)
    → at id (p ∷ ps) ≡ some (suc i)
    → ((p == id) ≡ false) × (at id ps ≡ some i)
at-shift id p i ps e = ground arith

at-here : (id p : ℕ) (ps : List ℕ) → at id (p ∷ ps) ≡ some zero → (p == id) ≡ true
at-here id p ps e = ground arith

module _ {Message : Type 0} where
  -- A slot for each peer, and each connection in the slot of its peer.
  abbrev pub Slots : List ℕ → List (Option (PeerConnection Message)) → Type 0
  Slots [] [] = Unit
  Slots [] (c ∷ cs) = ⊥
  Slots (p ∷ ps) [] = ⊥
  Slots (p ∷ ps) (none ∷ cs) = Slots ps cs
  Slots (p ∷ ps) (some c ∷ cs) = (c.peer_id ≡ p) × Slots ps cs

  -- The slot of the first peer with the id.
  abbrev pub slot :
      List ℕ → List (Option (PeerConnection Message)) → ℕ → Option (PeerConnection Message)
  slot [] cs id = none
  slot (p ∷ ps) [] id = none
  slot (p ∷ ps) (c ∷ cs) id = if p == id then c else slot ps cs id

  abbrev pub peer_slot : Network Message → ℕ → Option (PeerConnection Message)
  peer_slot n id = slot n.peers n.peer_connections id

  abbrev IsOf : ℕ → Option (PeerConnection Message) → Type 0
  IsOf id none = Unit
  IsOf id (some c) = c.peer_id ≡ id

  -- The index of a peer leads to its slot.
  abbrev Found : List ℕ → List (Option (PeerConnection Message)) → ℕ → ℕ → Type 0
  Found ps cs id i =
      (get_elem? cs i ≡ some (slot ps cs id))
      × ((j : ℕ) (v : Option (PeerConnection Message))
          → slot ps (set cs i v) j ≡ (if id == j then v else slot ps cs j))
      × ((v : Option (PeerConnection Message)) → IsOf id v → Slots ps (set cs i v))

  Slots-tail :
      (p : ℕ) (c : Option (PeerConnection Message)) (ps : List ℕ)
      (cs : List (Option (PeerConnection Message)))
      → Slots (p ∷ ps) (c ∷ cs)
      → Slots ps cs
  Slots-tail p none ps cs h = h
  Slots-tail p (some c) ps cs h = h.1

  at-some :
      (id i : ℕ) (ps : List ℕ) (cs : List (Option (PeerConnection Message)))
      → Slots ps cs
      → at id ps ≡ some i
      → Found ps cs id i
  at-some id i [] cs h e = absurd (ground arith)
  at-some id i (p ∷ ps) [] h e = absurd h
  at-some id zero (p ∷ ps) (c ∷ cs) h e =
      let hit = at-here id p ps e in (ground arith, λ j v. ground arith, λ v o. ground arith)
  at-some id (suc i) (p ∷ ps) (c ∷ cs) h e =
      let (miss, later) = at-shift id p i ps e in
      let rest = at-some id i ps cs (Slots-tail p c ps cs h) later in
      (ground arith, λ j v. ground (arith, rest.1 j v), λ v o. ground (arith, rest.2 v o))

  slot-IsOf :
      (id : ℕ) (ps : List ℕ) (cs : List (Option (PeerConnection Message)))
      → Slots ps cs
      → IsOf id (slot ps cs id)
  slot-IsOf id [] cs h = tt
  slot-IsOf id (p ∷ ps) [] h = absurd h
  slot-IsOf id (p ∷ ps) (none ∷ cs) h = ground (arith, slot-IsOf id ps cs h)
  slot-IsOf id (p ∷ ps) (some c ∷ cs) h = ground (arith, slot-IsOf id ps cs h.1)

  slot-none :
      (id : ℕ) (ps : List ℕ) (cs : List (Option (PeerConnection Message)))
      → contains id ps ≡ false
      → slot ps cs id ≡ none
  slot-none id [] cs e = refl
  slot-none id (p ∷ ps) [] e = refl
  slot-none id (p ∷ ps) (c ∷ cs) e = ground (arith, slot-none id ps cs)

  abbrev pub IsWired : Network Message → Type 0
  IsWired n = Slots n.peers n.peer_connections

  -- What sending to a node and connecting a peer leave alone.
  pub record Keeps (n n' : Network Message) : Type 0 where
    pub peers : n'.peers ≡ n.peers
    pub client_connections : n'.client_connections ≡ n.client_connections
    pub max_client_id : n'.max_client_id ≡ n.max_client_id
    pub batch_size : n'.batch_size ≡ n.batch_size

  after_send-IsOf :
      (id : ℕ) (c : Option (PeerConnection Message)) (msg : ClusterMessage Message)
      → IsOf id c
      → IsOf id (after_send c msg)
  unfolding send
  after_send-IsOf id none msg h = tt
  after_send-IsOf id (some c) msg h = ground arith

  pub send_to_cluster_lem :
      (n : Network Message) (to : ℕ) (msg : ClusterMessage Message)
      → IsWired n
      → (n' : Network Message) × (send_to_cluster n to msg ≡ some n')
        × ((j : ℕ)
            → peer_slot n' j ≡ (if to == j then after_send (peer_slot n j) msg else peer_slot n j))
        × IsWired n'
        × Keeps n n'
  unfolding send_to_cluster
  send_to_cluster_lem n to msg w = elim (Option-cases (at to n.peers)) [
    | inl e ↦ (
      n,
      rw (e, send_to_cluster, cluster_id_to_idx) refl,
      λ j. ground (
        arith,
        id_key.decides to j,
        slot-none to n.peers n.peer_connections (at-none to n.peers e),
      ),
      w,
      record { peers = refl; client_connections = refl; max_client_id = refl; batch_size = refl },
    )
    | inr (i, e) ↦
        let f = at-some to i n.peers n.peer_connections w e in
        let s = slot n.peers n.peer_connections to in
        (
          record n { peer_connections = set n.peer_connections i (after_send s msg) },
          ground (arith, e, f.0),
          λ j. ground (arith, id_key.decides to j, f.1 j (after_send s msg)),
          f.2 (after_send s msg)
              (after_send-IsOf to s msg (slot-IsOf to n.peers n.peer_connections w)),
          record {
            peers = refl;
            client_connections = refl;
            max_client_id = refl;
            batch_size = refl;
          },
        )
  ]

  abbrev pub connected_slot :
      Network Message → PeerConnection Message → ℕ → Option (PeerConnection Message)
  connected_slot n c j =
      if c.peer_id == j then (if contains j n.peers then some c else none) else peer_slot n j

  -- On a wired network a new connection to a peer takes the slot of that peer, and the stream that
  -- had the slot is aborted; a connection from a node that is no peer changes nothing.
  pub apply_connection-to_peer :
      (n : Network Message) (c : PeerConnection Message)
      → IsWired n
      → (n' : Network Message) × (apply_connection n (to_peer c) ≡ some n')
        × ((j : ℕ) → peer_slot n' j ≡ connected_slot n c j)
        × (n'.aborted ≡ close_slot (peer_slot n c.peer_id) n.aborted)
        × IsWired n'
        × Keeps n n'
  unfolding apply_connection
  apply_connection-to_peer n c w = elim (Option-cases (at c.peer_id n.peers)) [
    | inl e ↦
        let absent = at-none c.peer_id n.peers e in
        let empty = slot-none c.peer_id n.peers n.peer_connections absent in
        (
          n,
          rw (e, apply_connection, cluster_id_to_idx) refl,
          λ j. ground (arith, id_key.decides c.peer_id j, absent, empty),
          ground (arith, empty),
          w,
          record {
            peers = refl;
            client_connections = refl;
            max_client_id = refl;
            batch_size = refl;
          },
        )
    | inr (i, e) ↦
        let f = at-some c.peer_id i n.peers n.peer_connections w e in
        (
          record n {
            peer_connections = set n.peer_connections i (some c);
            aborted = close_slot (slot n.peers n.peer_connections c.peer_id) n.aborted;
          },
          ground (arith, e, f.0),
          λ j. ground (
            arith,
            id_key.decides c.peer_id j,
            f.1 j (some c),
            at-contains c.peer_id i n.peers e,
          ),
          refl,
          f.2 (some c) refl,
          record {
            peers = refl;
            client_connections = refl;
            max_client_id = refl;
            batch_size = refl;
          },
        )
  ]
