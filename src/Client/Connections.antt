-- ===== src/Client/Connections.antt =====
-- client/network.rs: the tasks of `ServerConnection::new`, and the loop that connects to a server.
pub mod Delivery
pub mod Spawned
use id2203_project.Base.{
  ℕ, Bool, true, false, Option, none, some, List, [], ◌∷◌, ◌++◌, if◌then◌else◌,
}
use id2203_project.Common.Messages.{client_register, ClientMessage, ServerMessage}
use id2203_project.Common.Framing.{
  Formats, TcpStream, FromServerConnection, ToServerConnection, into_inner, send_both,
  frame_registration_connection, frame_clients_connection,
}
use id2203_project.Common.Tasks.{Inbox, offer, Wire, WireFaults, write_batches}

-- The reader: a send that fails ends the task. The result says whether it goes on.
unfoldable pub read_chunk :
    List (Option ServerMessage) → Inbox ServerMessage → Inbox ServerMessage × Bool
read_chunk [] incoming = (incoming, true)
read_chunk (none ∷ messages) incoming = read_chunk messages incoming
read_chunk (some m ∷ messages) incoming = elim (offer incoming m) [
  | none ↦ (incoming, false)
  | some incoming' ↦ read_chunk messages incoming'
]

unfoldable pub reader :
    List (List (Option ServerMessage)) → Inbox ServerMessage → Inbox ServerMessage
reader [] incoming = incoming
reader (messages ∷ chunks) incoming =
    let (incoming', more) = read_chunk messages incoming in
    let rest = reader chunks incoming' in if more then rest else incoming'

abbrev pub writer :
    WireFaults ClientMessage → List (List ClientMessage) → Wire ClientMessage → Wire ClientMessage
writer = write_batches

module _ {Frame Message : Type 0} (formats : Formats Frame Message) where
  -- What an attempt comes to: refused, or a stream, on which `set_nodelay` may fail and which may break
  -- before the registration is sent.
  pub data Connect : Type 0 where
    refused : Connect
    opened : TcpStream Frame → Bool → Bool → Connect

  pub data Connected : Type 0 where
    waiting panicked : Connected
    connected : FromServerConnection Frame → ToServerConnection Frame → Connected

  -- Attempts until one opens a stream; then the registration is sent, or it is a panic.
  unfoldable pub get_server_connection : List Connect → Connected
  get_server_connection [] = waiting
  get_server_connection (refused ∷ attempts) = get_server_connection attempts
  get_server_connection (opened stream false up ∷ attempts) = panicked
  get_server_connection (opened stream true up ∷ attempts) =
      elim (send_both (frame_registration_connection formats stream) client_register up) [
        | none ↦ panicked
        | some c ↦
            let (from_server, to_server) = frame_clients_connection formats (into_inner c) in
            connected from_server to_server
      ]
