-- ===== src/Server/Connections.antt =====
-- server/network.rs: the tasks of `PeerConnection::new` and `ClientConnection::new`, the handshake that
-- precedes them, and the loops that accept and dial. A reader is given the chunks of what its stream
-- yields, an error for a frame that is not deserialised; a writer the batches that `recv_many` fills.
pub mod Delivery
pub mod Spawned
pub mod Replies
pub mod Handshakes
use id2203_project.Base.{
  ℕ, Bool, true, false, Option, none, some, List, [], ◌∷◌, ◌++◌, if◌then◌else◌,
}
use id2203_project.Common.Messages.{
  RegistrationMessage, node_register, ClusterMessage, ClientMessage, ServerMessage,
}
use id2203_project.Common.Framing.{
  Formats, TcpStream, next, into_inner, send_both, frame_registration_connection,
}
use id2203_project.Common.Tasks.{
  write_batches, Inbox, offer, Wire, WireFaults, feed_wire, flush_wire,
}

module _ {Message : Type 0} where
  -- The `for` loop of a peer's reader: a send that fails ends it, and the rest of the chunk is dropped.
  unfoldable pub peer_read_chunk :
      ℕ
      → List (Option (ClusterMessage Message))
      → Inbox (ℕ × ClusterMessage Message)
      → Inbox (ℕ × ClusterMessage Message)
  peer_read_chunk peer_id [] incoming = incoming
  peer_read_chunk peer_id (none ∷ messages) incoming = peer_read_chunk peer_id messages incoming
  peer_read_chunk peer_id (some m ∷ messages) incoming = elim (offer incoming (peer_id, m)) [
    | none ↦ incoming
    | some incoming' ↦ peer_read_chunk peer_id messages incoming'
  ]

  unfoldable pub peer_reader :
      ℕ
      → List (List (Option (ClusterMessage Message)))
      → Inbox (ℕ × ClusterMessage Message)
      → Inbox (ℕ × ClusterMessage Message)
  peer_reader peer_id [] incoming = incoming
  peer_reader peer_id (messages ∷ chunks) incoming =
      peer_reader peer_id chunks (peer_read_chunk peer_id messages incoming)

  -- A peer's writer.
  abbrev pub peer_writer :
      WireFaults (ClusterMessage Message)
      → List (List (ClusterMessage Message))
      → Wire (ClusterMessage Message)
      → Wire (ClusterMessage Message)
  peer_writer = write_batches

-- The reader of a client's connection; nothing is the panic of a send to a channel that is closed.
unfoldable pub client_read_chunk :
    ℕ → List (Option ClientMessage) → Inbox (ℕ × ClientMessage) → Option (Inbox (ℕ × ClientMessage))
client_read_chunk client_id [] incoming = some incoming
client_read_chunk client_id (none ∷ messages) incoming =
    client_read_chunk client_id messages incoming
client_read_chunk client_id (some m ∷ messages) incoming = elim (offer incoming (client_id, m)) [
  | none ↦ none
  | some incoming' ↦ client_read_chunk client_id messages incoming'
]

unfoldable pub client_reader :
    ℕ
    → List (List (Option ClientMessage))
    → Inbox (ℕ × ClientMessage)
    → Option (Inbox (ℕ × ClientMessage))
client_reader client_id [] incoming = some incoming
client_reader client_id (messages ∷ chunks) incoming =
    elim (client_read_chunk client_id messages incoming) [
      | none ↦ none
      | some incoming' ↦ client_reader client_id chunks incoming'
    ]

-- The writer of a client's connection ends with the first call that fails; the result says whether
-- none has.
unfoldable pub client_write_batch :
    WireFaults ServerMessage → List ServerMessage → Wire ServerMessage → Wire ServerMessage × Bool
client_write_batch faults [] w = (w, true)
client_write_batch faults (msg ∷ buffer) w =
    let (w', ok) = feed_wire faults w msg in
    let rest = client_write_batch faults buffer w' in if ok then rest else (w', false)

unfoldable pub client_writer :
    WireFaults ServerMessage
    → List (List ServerMessage)
    → Wire ServerMessage
    → Wire ServerMessage × Bool
client_writer faults [] w = (w, true)
client_writer faults (buffer ∷ batches) w =
    let (w1, fed) = client_write_batch faults buffer w in
    let (w2, ok) = flush_wire faults w1 in
    let rest = client_writer faults batches w2 in
    if fed then (if ok then rest else (w2, false)) else (w1, false)

module _ {Frame Message : Type 0} (formats : Formats Frame Message) where
  -- The registration message on an accepted stream, and the stream that is left for the connection.
  unfoldable pub read_registration :
      TcpStream Frame → Option (Option RegistrationMessage) × TcpStream Frame
  read_registration connection =
      let (message, registration) = next (frame_registration_connection formats connection) in
      (message, into_inner registration)

  -- What an attempt to dial comes to: refused, or a stream, on which `set_nodelay` may fail and which
  -- may break before the registration is sent.
  pub data Dial : Type 0 where
    refused : Dial
    opened : TcpStream Frame → Bool → Bool → Dial

  -- The loop of `spawn_peer_connectors` for one peer: attempts until a stream has taken the
  -- registration, which is then handed on; the attempts after it are made when that connection has
  -- dropped. Nothing is a panic; the loop ends when the connections have no receiver any more.
  unfoldable pub peer_connector :
      ℕ → List Dial → Inbox (TcpStream Frame) → Option (Inbox (TcpStream Frame))
  peer_connector my_id [] connections = some connections
  peer_connector my_id (refused ∷ attempts) connections = peer_connector my_id attempts connections
  peer_connector my_id (opened stream false up ∷ attempts) connections = none
  peer_connector my_id (opened stream true up ∷ attempts) connections =
      elim (send_both (frame_registration_connection formats stream) (node_register my_id) up) [
        | none ↦ peer_connector my_id attempts connections
        | some c ↦ elim (offer connections (into_inner c)) [
          | none ↦ some connections
          | some connections' ↦ peer_connector my_id attempts connections'
        ]
      ]

-- What `accept` yields: an error, or a stream with what `set_nodelay` says.
pub data Accepted : Type 0 where
  failed : Accepted
  accepted : ℕ → Bool → Accepted

-- The streams that the listener hands to `handle_incoming_connection`; a failed `set_nodelay` is a
-- panic that ends it.
unfoldable pub listen : List Accepted → List ℕ
listen [] = []
listen (failed ∷ rest) = listen rest
listen (accepted stream nodelay ∷ rest) =
    let later = listen rest in if nodelay then stream ∷ later else []
