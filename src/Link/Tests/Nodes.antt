-- ===== src/Link/Tests/Nodes.antt =====
-- Tests of whole connections: two messages to a peer are sent and written, a third is left when the
-- connection is closed.
use id2203_project.Base.{
  ℕ, ◌≡◌, refl, Bool, true, Option, some, List, [], ◌∷◌, ◌++◌, map, take, length, replicate, arith,
}
use id2203_project.Common.Channel
use id2203_project.Common.Messages.{ClusterMessage, omnipaxos_message, leader_start_signal}
use id2203_project.Common.Framing.{feed, frame_cluster_connection}
use id2203_project.Common.Framing.Ends.{feed_all}
use id2203_project.Common.Connection
use id2203_project.Common.Connection.{
  Connection, Turn, sending, writing, arriving, closing, send, close, write_turn, turn, turns,
}
use id2203_project.Common.Connection.Drains.{Completes, waiting, turns-drains}
use id2203_project.Common.Tasks.{Inbox, WireFaults, write_batch, feed_wire, flush_wire}
use id2203_project.Common.Tasks.Writers.{kept, write_batch-all}
use id2203_project.Server.Connections.Spawned.{peer_tasks, new_peer_connection}
use id2203_project.Link.Delivery.{open_inbox}
use id2203_project.Link.Peers.{arrivals, spawned, peers_arrive}
use id2203_project.Link.Tests.{formats, fresh, bringing, fails_at, cluster_back, peer_frames}

abbrev Chunk : Type 0
Chunk = List (Option (ClusterMessage ℕ))

abbrev ts : List (Turn (ClusterMessage ℕ) Chunk)
ts =
    sending (omnipaxos_message 4)
    ∷ sending (leader_start_signal 10)
    ∷ writing
    ∷ sending (omnipaxos_message 5)
    ∷ closing
    ∷ writing
    ∷ []

abbrev chunks : List Chunk
chunks = (some (omnipaxos_message 4) ∷ some (leader_start_signal 10) ∷ []) ∷ []

abbrev ends : Connection (ClusterMessage ℕ) (Inbox (ℕ × ClusterMessage ℕ))
ends = record {
  outgoing_messages = record {
    sent = omnipaxos_message 4 ∷ leader_start_signal 10 ∷ omnipaxos_message 5 ∷ [];
    receiver_alive = Bool.false;
  };
  received = 2;
  held = Bool.false;
  reading = Bool.false;
  wire = record { fed = omnipaxos_message 4 ∷ leader_start_signal 10 ∷ []; feeds = 2; flushes = 1 };
  incoming = open_inbox;
}

peers_arrive_example :
    (mask : List Bool) × (length mask ≡ length (take ends.received ends.outgoing_messages.sent))
    × ((turns
          (spawned formats (fails_at 9) 1 (bringing (peer_frames ∷ []))).tasks
          100
          (spawned formats (fails_at 9) 1 (bringing (peer_frames ∷ []))).connection
          (arrivals chunks)).incoming.taken
        ≡ map (λ m. (1, m)) (kept mask (take ends.received ends.outgoing_messages.sent)))
unfolding turns turn send close write_turn Channel.send write_batch feed_wire flush_wire
    new_peer_connection frame_cluster_connection feed_all feed
peers_arrive_example =
    peers_arrive formats cluster_back (fails_at 9) (fails_at 9) 1 2 100 100 fresh
      (bringing (peer_frames ∷ [])) (record { written = peer_frames; format = formats.cluster }) ts
      chunks ends refl refl refl refl

abbrev never_fails : WireFaults (ClusterMessage ℕ)
never_fails = record { feed_ok = λ n m. true; flush_ok = λ n. true }

completes : Completes (peer_tasks never_fails 2).write_round
unfolding flush_wire
completes buffer w = (write_batch-all never_fails buffer w (λ n m. refl), refl)

-- Three messages are sent, and the writer takes one at a time.
abbrev full : Connection (ClusterMessage ℕ) (Inbox (ℕ × ClusterMessage ℕ))
full = record (Connection.new open_inbox) {
  outgoing_messages = record {
    sent = omnipaxos_message 4 ∷ leader_start_signal 10 ∷ omnipaxos_message 5 ∷ [];
    receiver_alive = true;
  };
}

turns-drains_example :
    (turns (peer_tasks never_fails 2) 1 full (replicate 3 writing)).wire.fed ≡ [] ++ waiting full
turns-drains_example =
    turns-drains (peer_tasks never_fails 2) 1 full 3 completes (omega arith) refl refl (omega arith)
