-- ===== src/Server/Network.antt =====
-- server/network.rs. The messages that connections deliver arrive as events of the server; a
-- connection here is the sending side, with the queue that its writer task drains.
pub mod Peers
pub mod Topology
pub mod Startup
pub mod Clients
use id2203_project.Base.{
  ℕ, suc, ◌+◌, id_key, String, Bool, true, false, not, Option, none, some, List, [], ◌∷◌, ◌++◌, map,
  ◌==◌, ltb, zip, length, get_elem?, set, replicate, retain, position, any, wrapping_add,
  if◌then◌else◌,
}
use mathlib.Core.Option
use id2203_project.Base.HashMap
use id2203_project.Base.HashMap.{HashMap}
use id2203_project.Common.Messages.{
  RegistrationMessage, node_register, client_register, ClusterMessage, ServerMessage,
}
use id2203_project.Server.Configs.{OmniPaxosKvConfig}
pub use id2203_project.Common.Channel.{Outbox, fresh_outbox}
unfoldable pub use id2203_project.Common.Channel.{send}

pub record ClientConnection : Type 0 where
  pub client_id : ℕ
  pub stream : ℕ
  pub outgoing_messages : Outbox ServerMessage

module _ (Message : Type 0) where
  pub record PeerConnection : Type 0 where
    pub peer_id : ℕ
    pub stream : ℕ
    pub outgoing_messages : Outbox (ClusterMessage Message)

  pub data NewConnection : Type 0 where
    to_peer : PeerConnection → NewConnection
    to_client : ClientConnection → NewConnection

  -- `aborted` lists the streams whose two tasks `close` has aborted.
  pub record Network : Type 0 where
    pub peers : List ℕ
    pub peer_connections : List (Option PeerConnection)
    pub client_connections : HashMap ℕ ClientConnection
    pub max_client_id : ℕ
    pub batch_size : ℕ
    pub aborted : List ℕ

-- Addresses belong to the standard library: reading one may fail, which is a panic here.
module _ {Addr : Type 0} (resolve : String → Option Addr) where
  resolve_all : List String → Option (List Addr)
  resolve_all [] = some []
  resolve_all (s ∷ ss) = elim (resolve s) [
    | none ↦ none
    | some a ↦ Option.map (λ as'. a ∷ as') (resolve_all ss)
  ]

  unfoldable pub get_addrs :
      {Quorum : Type 0} (read_listen : String → ℕ → Option Addr)
      → OmniPaxosKvConfig Quorum
      → Option (Addr × List Addr)
  unfolding resolve_all
  get_addrs read_listen c = elim (read_listen c.local.listen_address c.local.listen_port) [
    | none ↦ none
    | some a ↦ Option.map (λ addrs. (a, addrs)) (resolve_all c.cluster.node_addrs)
  ]

-- The nodes of the configuration but the own one, each with its address.
unfoldable pub peer_addresses : {Addr : Type 0} → ℕ → List ℕ → List Addr → List (ℕ × Addr)
peer_addresses id nodes addrs = retain (λ p. not (p.0 == id)) (zip nodes addrs)

-- A node dials those of its peers that have a smaller id.
unfoldable pub peers_to_connect_to : {Addr : Type 0} → ℕ → List (ℕ × Addr) → List (ℕ × Addr)
peers_to_connect_to my_id peers = retain (λ p. ltb p.0 my_id) peers

abbrev pub is_some {ℓ} : {A : Type ℓ} → Option A → Bool
is_some none = false
is_some (some a) = true

-- What the first message on an accepted connection is.
pub data Handshake : Type 0 where
  message : RegistrationMessage → Handshake
  malformed closed : Handshake

module _ {Message : Type 0} where
  -- `Network::new` before it waits for connections.
  unfoldable pub new : {Addr : Type 0} → List (ℕ × Addr) → ℕ → Network Message
  new addrs batch_size = record {
    peers = map (λ p. p.0) addrs;
    peer_connections = replicate (length addrs) none;
    client_connections = [];
    max_client_id = 0;
    batch_size = batch_size;
    aborted = [];
  }

  -- `handle_incoming_connection`: the counter behind the mutex, and the connection to pass on.
  unfoldable pub handle_incoming_connection : ℕ → Handshake → ℕ → ℕ × Option (NewConnection Message)
  handle_incoming_connection max_client_id (message (node_register node_id)) stream = (
    max_client_id,
    some
        (to_peer (record { peer_id = node_id; stream = stream; outgoing_messages = fresh_outbox })),
  )
  handle_incoming_connection max_client_id (message client_register) stream =
      let next_client_id = wrapping_add max_client_id 1 in
      (
        next_client_id,
        some (
            to_client (record {
              client_id = next_client_id;
              stream = stream;
              outgoing_messages = fresh_outbox;
            })),
      )
  handle_incoming_connection max_client_id malformed stream = (max_client_id, none)
  handle_incoming_connection max_client_id closed stream = (max_client_id, none)

  unfoldable pub cluster_id_to_idx : Network Message → ℕ → Option ℕ
  cluster_id_to_idx n id = position (λ p. p == id) n.peers

  -- The connections that a sequence of accepted streams is turned into: the tasks of different
  -- streams take the mutex one after the other, in the order of the list.
  unfoldable pub accept_all : ℕ → List (Handshake × ℕ) → ℕ × List (NewConnection Message)
  unfolding handle_incoming_connection
  accept_all max_client_id [] = (max_client_id, [])
  accept_all max_client_id ((h, stream) ∷ rest) =
      let (max', made) = handle_incoming_connection max_client_id h stream in
      let (max'', later) = accept_all max' rest in
      elim made [ none ↦ (max'', later) | some c ↦ (max'', c ∷ later) ]

  abbrev pub close_slot : Option (PeerConnection Message) → List ℕ → List ℕ
  close_slot none aborted = aborted
  close_slot (some old) aborted = aborted ++ old.stream ∷ []

  -- `none` is the panic of an index out of range.
  unfoldable pub apply_connection :
      Network Message → NewConnection Message → Option (Network Message)
  unfolding cluster_id_to_idx
  apply_connection n (to_peer connection) = elim (cluster_id_to_idx n connection.peer_id) [
    | none ↦ some n
    | some idx ↦ elim (get_elem? n.peer_connections idx) [
      | none ↦ none
      | some slot ↦ some (record n {
        peer_connections = set n.peer_connections idx (some connection);
        aborted = close_slot slot n.aborted;
      })
    ]
  ]
  apply_connection n (to_client connection) = some (record n {
    client_connections = HashMap.insert connection.client_id connection n.client_connections;
  })

  unfoldable pub any_peer : Network Message → Bool
  any_peer n = any is_some n.peer_connections

  -- The loop over the connections in their order of arrival: it stops when a peer is connected, and
  -- the connections that arrive later go to the recovery channel. `none` is a panic.
  unfoldable pub initialize_connections :
      Network Message
      → List (NewConnection Message)
      → Option (Network Message × List (NewConnection Message))
  unfolding apply_connection any_peer
  initialize_connections n [] = some (n, [])
  initialize_connections n (c ∷ cs) = elim (apply_connection n c) [
    | none ↦ none
    | some n' ↦
        let rest = initialize_connections n' cs in if any_peer n' then some (n', cs) else rest
  ]

  -- The slot after a send to it: a failed send clears it.
  abbrev pub after_send :
      Option (PeerConnection Message) → ClusterMessage Message → Option (PeerConnection Message)
  after_send none msg = none
  after_send (some c) msg = elim (send c.outgoing_messages msg) [
    | none ↦ none
    | some o ↦ some (record c { outgoing_messages = o })
  ]

  -- `none` is the panic of an index out of range. A message to a node that is not a peer, or not
  -- connected, is dropped with a warning.
  unfoldable pub send_to_cluster :
      Network Message → ℕ → ClusterMessage Message → Option (Network Message)
  unfolding cluster_id_to_idx send
  send_to_cluster n to msg = elim (cluster_id_to_idx n to) [
    | none ↦ some n
    | some idx ↦ elim (get_elem? n.peer_connections idx) [
      | none ↦ none
      | some slot ↦
          some (record n { peer_connections = set n.peer_connections idx (after_send slot msg) })
    ]
  ]

  unfoldable pub send_to_client : Network Message → ℕ → ServerMessage → Network Message
  unfolding send
  send_to_client n to msg = elim (HashMap.get to n.client_connections) [
    | none ↦ n
    | some c ↦ elim (send c.outgoing_messages msg) [
      | none ↦ record n { client_connections = HashMap.without to n.client_connections }
      | some o ↦ record n {
        client_connections =
            HashMap.insert to (record c { outgoing_messages = o }) n.client_connections;
      }
    ]
  ]

  streams_of_slots : List (Option (PeerConnection Message)) → List ℕ
  streams_of_slots [] = []
  streams_of_slots (none ∷ slots) = streams_of_slots slots
  streams_of_slots (some c ∷ slots) = c.stream ∷ streams_of_slots slots

  pub shutdown : Network Message → Network Message
  unfolding streams_of_slots
  shutdown n = record n {
    client_connections = [];
    peer_connections = replicate (length n.peers) none;
    aborted =
        n.aborted
        ++ map (λ c. c.1.stream) n.client_connections
        ++ streams_of_slots n.peer_connections;
  }
