-- ===== src/Server/Connections/Spawned.antt =====
-- server/network.rs, `PeerConnection::new` and `ClientConnection::new` as wholes: a stream is framed, and
-- the two tasks of the connection are spawned.
use id2203_project.Base.{
  ℕ, ◌≡◌, refl, Bool, true, false, Option, none, some, List, [], ◌∷◌, inl, inr, Option-cases,
  if◌then◌else◌,
}
use id2203_project.Common.Messages.{ClusterMessage, ClientMessage, ServerMessage}
use id2203_project.Common.Framing.{
  Formats, TcpStream, frame_cluster_connection, frame_servers_connection,
}
use id2203_project.Common.Tasks.{Inbox, offer, Wire, WireFaults, write_batch, flush_wire}
use id2203_project.Common.Connection.{Tasks, Connection, Spawned}
use id2203_project.Common.Connection
use id2203_project.Server.Connections.{peer_read_chunk, client_read_chunk, client_write_batch}

-- The reader of a peer goes on when its channel takes no more.
abbrev pub peer_tasks :
    {Message : Type 0}
    → WireFaults (ClusterMessage Message)
    → ℕ
    → Tasks
        (ClusterMessage Message)
        (List (Option (ClusterMessage Message)))
        (Inbox (ℕ × ClusterMessage Message))
peer_tasks faults peer_id = record {
  write_round = λ buffer w. flush_wire faults (write_batch faults buffer w);
  read_round = λ messages incoming. (peer_read_chunk peer_id messages incoming, true);
}

-- A send to a channel that takes no more is a panic, which ends the reader.
unfoldable pub client_read_round :
    ℕ → List (Option ClientMessage) → Inbox (ℕ × ClientMessage) → Inbox (ℕ × ClientMessage) × Bool
client_read_round client_id [] incoming = (incoming, true)
client_read_round client_id (none ∷ messages) incoming =
    client_read_round client_id messages incoming
client_read_round client_id (some m ∷ messages) incoming = elim (offer incoming (client_id, m)) [
  | none ↦ (incoming, false)
  | some incoming' ↦ client_read_round client_id messages incoming'
]

unfoldable pub client_write_round :
    WireFaults ServerMessage → List ServerMessage → Wire ServerMessage → Wire ServerMessage × Bool
client_write_round faults buffer w =
    let (w', fed) = client_write_batch faults buffer w in
    if fed then flush_wire faults w' else (w', false)

abbrev pub client_tasks :
    WireFaults ServerMessage
    → ℕ
    → Tasks ServerMessage (List (Option ClientMessage)) (Inbox (ℕ × ClientMessage))
client_tasks faults client_id = record {
  write_round = client_write_round faults;
  read_round = client_read_round client_id;
}

module _ {Frame Message : Type 0} (formats : Formats Frame Message) where
  unfoldable pub new_peer_connection :
      WireFaults (ClusterMessage Message)
      → ℕ
      → TcpStream Frame
      → Inbox (ℕ × ClusterMessage Message)
      → Spawned Frame
          (ClusterMessage Message)
          (ClusterMessage Message)
          (Inbox (ℕ × ClusterMessage Message))
  new_peer_connection faults peer_id stream incoming_messages =
      let (reader, writer) = frame_cluster_connection formats stream in
      record {
        reader = reader;
        writer = writer;
        tasks = peer_tasks faults peer_id;
        connection = Connection.new incoming_messages;
      }

  unfoldable pub new_client_connection :
      WireFaults ServerMessage
      → ℕ
      → TcpStream Frame
      → Inbox (ℕ × ClientMessage)
      → Spawned Frame ServerMessage ClientMessage (Inbox (ℕ × ClientMessage))
  new_client_connection faults client_id stream incoming_messages =
      let (reader, writer) = frame_servers_connection formats stream in
      record {
        reader = reader;
        writer = writer;
        tasks = client_tasks faults client_id;
        connection = Connection.new incoming_messages;
      }

-- The reader of a client ends exactly where `client_read_chunk` is a panic.
pub client_read_round_lem :
    (id : ℕ) (messages : List (Option ClientMessage)) (i : Inbox (ℕ × ClientMessage))
    → client_read_chunk id messages i ≡ (
        if (client_read_round id messages i).1
        then some (client_read_round id messages i).0
        else none)
unfolding client_read_round client_read_chunk
client_read_round_lem id [] i = refl
client_read_round_lem id (none ∷ messages) i = client_read_round_lem id messages i
client_read_round_lem id (some m ∷ messages) i = elim (Option-cases (offer i (id, m))) [
  | inl full ↦ rw (full, client_read_chunk, client_read_round) refl
  | inr (i', e) ↦
      rw (e, client_read_chunk, client_read_round) (client_read_round_lem id messages i')
]
