-- ===== src/Link/Tests.antt =====
-- Tests of the connections, with a format that keeps the messages as they are, and one frame that is
-- no message.
pub mod Told
mod Web
mod Nodes
mod Proposed
mod Asked
use id2203_project.Base.{
  ℕ, ◌<◌, ◌≡◌, refl, Bool, true, false, Option, none, some, List, [], ◌∷◌, ◌++◌, map, arith, length,
  take, inl, inr, not, ◌==◌, id_key,
}
use id2203_project.Common.Kv.{get}
use id2203_project.Common.Messages.{
  RegistrationMessage, node_register, client_register, ClusterMessage, omnipaxos_message,
  leader_start_signal, ClientMessage, append, ServerMessage, write, read, start_signal,
}
use id2203_project.Common.Framing.{
  Formats, TcpStream, concat, items, feed, frame_cluster_connection, frame_clients_connection,
  frame_servers_connection,
}
use id2203_project.Common.Framing.Ends.{ReadsBack, feed_all, cluster_ends_agree}
use id2203_project.Common.Tasks.{
  Inbox, WireFaults, write_batches, write_batch, feed_wire, flush_wire,
}
use id2203_project.Common.Tasks.Readers.{limit}
use id2203_project.Common.Tasks.Writers.{kept, cut, write_batches-drops}
use id2203_project.Server.Connections.{
  peer_reader, client_reader, client_writer, client_write_batch, read_registration, refused, opened,
  peer_connector, Dial,
}
use id2203_project.Server.Connections.Delivery.{
  from_id, with_all, taken-peer_reader, client_reader-with_all,
}
use id2203_project.Server.Connections.Handshakes.{read_registration_lem, peer_connector-connects}
use id2203_project.Client.Connections
use id2203_project.Client.Connections.{reader, writer, Connect, connected, get_server_connection}
use id2203_project.Client.Connections.Delivery.{get_server_connection-connects}
use id2203_project.Link.Delivery.{fresh_wire, open_inbox, replies_arrive, requests_arrive}

pub data Frame : Type 0 where
  registration : RegistrationMessage → Frame
  cluster : ClusterMessage ℕ → Frame
  client : ClientMessage → Frame
  server : ServerMessage → Frame
  garbage : Frame

abbrev as_registration : Frame → Option RegistrationMessage
as_registration (registration m) = some m
as_registration _ = none

abbrev as_cluster : Frame → Option (ClusterMessage ℕ)
as_cluster (cluster m) = some m
as_cluster _ = none

abbrev as_client : Frame → Option ClientMessage
as_client (client m) = some m
as_client _ = none

abbrev as_server : Frame → Option ServerMessage
as_server (server m) = some m
as_server _ = none

abbrev pub formats : Formats Frame ℕ
formats = record {
  registration = record { serialize = λ m. some (registration m); deserialize = as_registration };
  cluster = record { serialize = λ m. some (cluster m); deserialize = as_cluster };
  client = record { serialize = λ m. some (client m); deserialize = as_client };
  server = record { serialize = λ m. some (server m); deserialize = as_server };
}

pub cluster_back : ReadsBack formats.cluster
cluster_back m f e = ground (arith, e)

pub client_back : ReadsBack formats.client
client_back m f e = ground (arith, e)

pub server_back : ReadsBack formats.server
server_back m f e = ground (arith, e)

-- A stream with nothing in it, and one that brings frames in the given reads.
abbrev pub fresh : TcpStream Frame
fresh = record { incoming = []; outgoing = [] }

abbrev pub bringing : List (List Frame) → TcpStream Frame
bringing reads = record { incoming = reads; outgoing = [] }

-- Every call succeeds but the feed with a number.
abbrev pub fails_at : {M : Type 0} → ℕ → WireFaults M
fails_at k = record { feed_ok = λ n m. not (n == k); flush_ok = λ n. true }

-- A batch of two responses and one of a start signal, all of which are written; they arrive in one read.
abbrev replies : List (List ServerMessage)
replies = (write 0 ∷ read 1 (some "a") ∷ []) ∷ (start_signal 5 ∷ []) ∷ []

abbrev reply_frames : List Frame
reply_frames = server (write 0) ∷ server (read 1 (some "a")) ∷ server (start_signal 5) ∷ []

abbrev reply_chunks : List (List (Option ServerMessage))
reply_chunks = (some (write 0) ∷ []) ∷ (some (read 1 (some "a")) ∷ some (start_signal 5) ∷ []) ∷ []

replies_arrive_example :
    (k : ℕ) × ((reader reply_chunks open_inbox).taken ≡ take k (concat replies))
    × ((client_writer (fails_at 9) replies fresh_wire).1 ≡ true
        → (reader reply_chunks open_inbox).taken ≡ concat replies)
unfolding client_writer client_write_batch feed_wire flush_wire feed_all feed
    frame_servers_connection frame_clients_connection
replies_arrive_example =
    replies_arrive formats server_back (fails_at 9) replies fresh (bringing (reply_frames ∷ []))
      (record { written = reply_frames; format = formats.server }) reply_chunks refl refl refl

-- Of three requests the second cannot be fed, and takes the rest of its batch with it.
abbrev pub requests : List (List ClientMessage)
requests =
    (append 0 (get "a") ∷ append 1 (get "b") ∷ append 2 (get "c") ∷ [])
    ∷ (append 3 (get "d") ∷ [])
    ∷ []

abbrev pub request_frames : List Frame
request_frames = client (append 0 (get "a")) ∷ client (append 3 (get "d")) ∷ []

abbrev pub request_chunks : List (List (Option ClientMessage))
request_chunks = (some (append 0 (get "a")) ∷ []) ∷ (some (append 3 (get "d")) ∷ []) ∷ []

-- The batch after one in which the second feed fails.
abbrev later : List (List ClientMessage)
later = (append 3 (get "d") ∷ []) ∷ []

write_batches-drops_example :
    (write_batches
        (fails_at 1)
        ((append 0 (get "a") ∷ append 1 (get "b") ∷ append 2 (get "c") ∷ []) ∷ later)
        fresh_wire
      ≡ write_batches (fails_at 1) later (cut fresh_wire (append 0 (get "a") ∷ [])))
    × ((mask : List Bool) × (length mask ≡ 1)
        × ((write_batches
              (fails_at 1)
              ((append 0 (get "a") ∷ append 1 (get "b") ∷ append 2 (get "c") ∷ []) ∷ later)
              fresh_wire).fed
            ≡ (append 0 (get "a") ∷ []) ++ kept mask (concat later)))
write_batches-drops_example =
    write_batches-drops (fails_at 1) (append 0 (get "a") ∷ []) (append 1 (get "b"))
      (append 2 (get "c") ∷ []) later fresh_wire (refl, tt) refl

abbrev pub peer_messages : List (ClusterMessage ℕ)
peer_messages = omnipaxos_message 4 ∷ leader_start_signal 10 ∷ []

abbrev pub peer_frames : List Frame
peer_frames = cluster (omnipaxos_message 4) ∷ cluster (leader_start_signal 10) ∷ []

abbrev peer_chunks : List (List (Option (ClusterMessage ℕ)))
peer_chunks = (some (omnipaxos_message 4) ∷ none ∷ []) ∷ (some (leader_start_signal 10) ∷ []) ∷ []

client_reader-with_all_example :
    client_reader 4 request_chunks (record { taken = []; takes = some 1 })
    ≡ with_all (record { taken = []; takes = some 1 }) (from_id 4 (concat request_chunks))
client_reader-with_all_example =
    client_reader-with_all 4 request_chunks (record { taken = []; takes = some 1 }) (omega arith)

-- A message of the cluster comes with the registration, and one after it.
read_registration_lem_example :
    let (message, stream) =
      read_registration formats
        (bringing ((registration (node_register 2) ∷ cluster (omnipaxos_message 4) ∷ []) ∷ [])) in
    (message ≡ some (some (node_register 2)))
    × (stream.outgoing ≡ [])
    × (map as_cluster (cluster (omnipaxos_message 4) ∷ [])
          ++ items (frame_cluster_connection formats stream).0
        ≡ map as_cluster (cluster (omnipaxos_message 4) ∷ []))
read_registration_lem_example =
    read_registration_lem formats (registration (node_register 2))
      (cluster (omnipaxos_message 4) ∷ []) [] []

-- The first attempt is refused, the second breaks, and the third takes the registration.
abbrev attempts : List (Dial formats)
attempts = refused ∷ opened fresh true false ∷ opened fresh true true ∷ []

peer_connector-connects_example :
    (c' : Inbox (TcpStream Frame)) × (peer_connector formats 2 attempts
        (record { taken = []; takes = none })
      ≡ some c')
    × (0 < length c'.taken)
peer_connector-connects_example =
    peer_connector-connects formats 2 attempts [] (registration (node_register 2)) refl
      (tt, (refl, (refl, tt))) (inr (inr (inl refl)))
