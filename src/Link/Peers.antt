-- ===== src/Link/Peers.antt =====
-- Two servers: what is sent on the connection of one to the other, and what the other's reader passes on.
use id2203_project.Base.{
  ℕ, ◌≡◌, refl, ap, subst, ◌∙◌, Bool, true, Option, some, List, [], ◌∷◌, ◌++◌, map, take, length,
  if_true,
}
use id2203_project.Common.Messages.{ClusterMessage}
use id2203_project.Common.Framing.{
  Formats, TcpStream, FramedWrite, concat, items, frame_cluster_connection,
}
use id2203_project.Common.Framing.Ends.{ReadsBack, feed_all, cluster_ends_agree}
use id2203_project.Common.Connection.{Spawned, Connection, Turn, arriving, turn, turns}
use id2203_project.Common.Connection.Life.{Writes, Carries, turns-new}
use id2203_project.Common.Tasks.{Inbox, WireFaults, flush_wire}
use id2203_project.Common.Tasks.Readers.{well_formed, well_formed-some}
use id2203_project.Common.Tasks.Writers.{kept, write_batch-Written}
use id2203_project.Server.Connections.{peer_reader, peer_read_chunk}
use id2203_project.Server.Connections.Delivery.{taken-peer_reader}
use id2203_project.Server.Connections.Spawned.{peer_tasks, new_peer_connection}
use id2203_project.Link.Delivery.{open_inbox}

module _ {Message : Type 0} where
  peer_tasks-Writes :
      (faults : WireFaults (ClusterMessage Message)) (id : ℕ)
      → Writes (peer_tasks faults id).write_round
  unfolding flush_wire
  peer_tasks-Writes faults id buffer w = write_batch-Written faults buffer w

  abbrev pub arrivals :
      List (List (Option (ClusterMessage Message)))
      → List (Turn (ClusterMessage Message) (List (Option (ClusterMessage Message))))
  arrivals chunks = map arriving chunks

  -- The reader goes through its chunks.
  incoming-arrivals :
      (faults : WireFaults (ClusterMessage Message)) (id batch_size : ℕ)
      (c : Connection (ClusterMessage Message) (Inbox (ℕ × ClusterMessage Message)))
      (chunks : List (List (Option (ClusterMessage Message))))
      → c.reading ≡ true
      → (turns (peer_tasks faults id) batch_size c (arrivals chunks)).incoming
        ≡ peer_reader id chunks c.incoming
  unfolding turns turn peer_reader
  incoming-arrivals faults id batch_size c [] up = refl
  incoming-arrivals faults id batch_size c (messages ∷ chunks) up =
      let c' = record c { incoming = peer_read_chunk id messages c.incoming; reading = true } in
      ap (λ c'. (turns (peer_tasks faults id) batch_size c' (arrivals chunks)).incoming)
        (if_true c.reading c' c up)
      ∙ incoming-arrivals faults id batch_size c' chunks refl

module _ {Frame Message : Type 0} (formats : Formats Frame Message) where
  abbrev pub spawned :
      WireFaults (ClusterMessage Message)
      → ℕ
      → TcpStream Frame
      → Spawned Frame
          (ClusterMessage Message)
          (ClusterMessage Message)
          (Inbox (ℕ × ClusterMessage Message))
  spawned faults id stream = new_peer_connection formats faults id stream open_inbox

  -- Of the messages that a server sends on its connection to a peer, in any order of sends, turns
  -- of the writer, dropping and closing, and whatever calls of the writer fail, the peer's reader
  -- passes on some, in their order, each once and with the id of the server: the format reads back
  -- what it writes, the frames arrive as they were written, in reads of any sizes, and the peer's
  -- channel stays open.
  pub peers_arrive :
      ReadsBack formats.cluster
      → (faults faults' : WireFaults (ClusterMessage Message)) (id id' batch_size batch_size' : ℕ)
        (here there : TcpStream Frame) (w : FramedWrite Frame (ClusterMessage Message))
        (ts : List (Turn (ClusterMessage Message) (List (Option (ClusterMessage Message)))))
        (chunks : List (List (Option (ClusterMessage Message))))
        (c : Connection (ClusterMessage Message) (Inbox (ℕ × ClusterMessage Message)))
      → turns (spawned faults id' here).tasks batch_size (spawned faults id' here).connection ts ≡ c
      → feed_all (spawned faults id' here).writer c.wire.fed ≡ some w
      → here.outgoing ++ concat there.incoming ≡ w.written
      → concat chunks ≡ items (spawned faults' id there).reader
      → (mask : List Bool) × (length mask ≡ length (take c.received c.outgoing_messages.sent))
        × ((turns
              (spawned faults' id there).tasks
              batch_size'
              (spawned faults' id there).connection
              (arrivals chunks)).incoming.taken
            ≡ map (λ m. (id, m)) (kept mask (take c.received c.outgoing_messages.sent)))
  unfolding new_peer_connection frame_cluster_connection
  peers_arrive back faults faults' id id' batch_size batch_size' here there w ts chunks c ran fed
        arrives ready =
      let start = (spawned faults id' here).connection in
      let carries = subst Carries ran (
        turns-new (peer_tasks faults id') batch_size open_inbox ts
          (peer_tasks-Writes faults id')) in
      let (mask, len, wrote) = carries.written in
      let seen = cluster_ends_agree formats back here there c.wire.fed w fed arrives in
      let stream : well_formed (concat chunks)
          ≡ kept mask (take c.received c.outgoing_messages.sent) =
        ap well_formed (ready ∙ seen) ∙ (well_formed-some c.wire.fed ∙ wrote) in
      let reads =
        incoming-arrivals faults' id batch_size' (spawned faults' id there).connection chunks
          refl in
      (
        mask,
        len,
        ap (λ (i : Inbox (ℕ × ClusterMessage Message)). i.taken) reads
            ∙ (taken-peer_reader id chunks open_inbox tt ∙ ap (map (λ m. (id, m))) stream),
      )
