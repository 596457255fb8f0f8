-- ===== src/Client/Network.antt =====
-- client/network.rs: the connections of a client to its servers, one slot for each id up to the
-- largest. Name resolution, and what each attempt to connect comes to, are arguments. A send waits
-- while the channel to the writer task is full; the model says how it ends.
pub mod Slots
pub mod Connect
use mathlib.Core.Option
use id2203_project.Base.{
  ℕ, suc, ◌+◌, max, id_key, String, Bool, true, false, Option, none, some, List, [], ◌∷◌, ◌++◌, map,
  ◌==◌, length, get_elem?, set, replicate, find, wrapping_add, if◌then◌else◌,
}
use id2203_project.Common.Channel.{Outbox, fresh_outbox}
use id2203_project.Common.Channel
use id2203_project.Common.Messages.{ClientMessage}

pub record ServerConnection : Type 0 where
  pub stream : ℕ
  pub outgoing_messages : Outbox ClientMessage

-- `aborted` lists the streams whose two tasks `close` has aborted.
pub record Network : Type 0 where
  pub server_connections : List (Option ServerConnection)
  pub batch_size : ℕ
  pub servers : List (ℕ × String)
  pub aborted : List ℕ

-- `to_socket_addrs` (nothing if it fails), and the stream on which `get_server_connection` ends: it
-- tries until one opens, and then it panics if it cannot send the registration.
pub record Attempt : Type 0 where
  pub to_socket_addrs : String → Option (List String)
  pub connect : ℕ → String → Option ℕ

abbrev pub connection_on : ℕ → ServerConnection
connection_on stream = record { stream = stream; outgoing_messages = fresh_outbox }

-- The first address of a server, and a panic without one; then the stream to it.
unfoldable pub open_first : Attempt → ℕ × String → Option (ℕ × ℕ)
open_first a (server_id, addr) = elim (a.to_socket_addrs addr) [
  | some (address ∷ _) ↦ Option.map (λ stream. (server_id, stream)) (a.connect server_id address)
  | _ ↦ none
]

unfoldable pub open_all : Attempt → List (ℕ × String) → Option (List (ℕ × ℕ))
open_all a [] = some []
open_all a (server ∷ servers) = elim (open_first a server) [
  | none ↦ none
  | some opened ↦ Option.map (λ rest. opened ∷ rest) (open_all a servers)
]

abbrev pub is_none {ℓ} : {A : Type ℓ} → Option A → Bool
is_none none = true
is_none (some a) = false

-- A write to `server_connections[server_idx]`: a panic out of bounds.
unfoldable pub set_slot : Network → ℕ → Option ServerConnection → Option Network
set_slot n server_idx c = elim (get_elem? n.server_connections server_idx) [
  | none ↦ none
  | some old ↦ some (record n { server_connections = set n.server_connections server_idx c })
]

unfoldable pub fill : Network → List (ℕ × ℕ) → Option Network
fill n [] = some n
fill n ((server_idx, stream) ∷ rest) = elim (set_slot n server_idx (some (connection_on stream))) [
  | none ↦ none
  | some n' ↦ fill n' rest
]

unfoldable pub initialize_connections : Network → Attempt → List (ℕ × String) → Option Network
initialize_connections n a servers = Option.bind (open_all a servers) (fill n)

-- The largest id; an empty list has none.
unfoldable pub max_id : List (ℕ × String) → Option ℕ
max_id [] = none
max_id ((id, addr) ∷ servers) = elim (max_id servers) [ none ↦ some id | some m ↦ some (max id m) ]

unfoldable pub new : List (ℕ × String) → ℕ → Attempt → Option Network
new servers batch_size a = elim (max_id servers) [
  | none ↦ none
  | some max_server_id ↦
      initialize_connections
        (record {
          server_connections = replicate (wrapping_add max_server_id 1) none;
          batch_size = batch_size;
          servers = servers;
          aborted = [];
        })
        a servers
]

abbrev pub close_slot : Option ServerConnection → List ℕ → List ℕ
close_slot none aborted = aborted
close_slot (some c) aborted = c.stream ∷ aborted

-- Takes the connection out of a slot and closes it: a panic out of bounds.
unfoldable pub take_slot : Network → ℕ → Option Network
take_slot n server_idx = elim (get_elem? n.server_connections server_idx) [
  | none ↦ none
  | some slot ↦ some (record n {
    server_connections = set n.server_connections server_idx none;
    aborted = close_slot slot n.aborted;
  })
]

abbrev pub address_of : Network → ℕ → Option String
address_of n server_id =
    Option.map (λ (s : ℕ × String). s.1) (find (λ s. s.0 == server_id) n.servers)

-- The first address that a server's name resolves to.
unfoldable pub first_address : Attempt → Network → ℕ → Option String
first_address a n server_id = elim (Option.bind (address_of n server_id) a.to_socket_addrs) [
  | some (address ∷ _) ↦ some address
  | _ ↦ none
]

-- The result says whether the server is connected again.
unfoldable pub reconnect : Network → ℕ → Attempt → Option (Network × Bool)
reconnect n server_id a = elim (take_slot n server_id) [
  | none ↦ none
  | some n' ↦ elim (first_address a n' server_id) [
    | none ↦ some (n', false)
    | some server_address ↦ elim (a.connect server_id server_address) [
      | none ↦ none
      | some stream ↦
          Option.map (λ n''. (n'', true)) (set_slot n' server_id (some (connection_on stream)))
    ]
  ]
]

-- Closes the old connection only; a name without an address is a panic.
unfoldable pub spawn_reconnect : Network → ℕ → Attempt → Option Network
spawn_reconnect n server_id a = elim (take_slot n server_id) [
  | none ↦ none
  | some n' ↦ elim (Option.bind (address_of n' server_id) a.to_socket_addrs) [
    | some [] ↦ none
    | _ ↦ some n'
  ]
]

abbrev pub slot : Network → ℕ → Option ServerConnection
slot n server_id = elim (get_elem? n.server_connections server_id) [ some c ↦ c | none ↦ none ]

unfoldable pub is_connected : Network → ℕ → Bool
is_connected n server_id = elim (get_elem? n.server_connections server_id) [
  | some (some c) ↦ true
  | _ ↦ false
]

-- The result says whether the message was handed to the connection.
unfoldable pub send : Network → ℕ → ClientMessage → Network × Bool
send n to msg = elim (get_elem? n.server_connections to) [
  | none ↦ (n, false)
  | some none ↦ (n, false)
  | some (some c) ↦ elim (Channel.send c.outgoing_messages msg) [
    | none ↦ (record n { server_connections = set n.server_connections to none }, false)
    | some o ↦ (
      record n {
        server_connections =
            set n.server_connections to (some (record c { outgoing_messages = o }));
      },
      true,
    )
  ]
]

abbrev close_all : List (Option ServerConnection) → List ℕ → List ℕ
close_all [] aborted = aborted
close_all (c ∷ cs) aborted = close_all cs (close_slot c aborted)

unfoldable pub shutdown : Network → Network
shutdown n = record n {
  server_connections = replicate (length n.server_connections) none;
  aborted = close_all n.server_connections n.aborted;
}
