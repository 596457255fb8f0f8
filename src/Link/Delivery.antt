-- ===== src/Link/Delivery.antt =====
-- What is sent at one end of a connection between a client and a server, and what arrives at the other.
use id2203_project.Base.{
  ℕ, ◌≡◌, refl, ap, ◌∙◌, Bool, true, Option, none, some, List, [], ◌++◌, map, length, take,
}
use id2203_project.Common.Messages.{ClientMessage, ServerMessage}
use id2203_project.Common.Framing.{
  Formats, TcpStream, FramedWrite, concat, items, frame_clients_connection,
  frame_servers_connection,
}
use id2203_project.Common.Framing.Ends.{ReadsBack, feed_all, items-feed_all}
use id2203_project.Common.Tasks.{Inbox, Wire, WireFaults}
use id2203_project.Common.Tasks.Readers.{well_formed, well_formed-some}
use id2203_project.Common.Tasks.Writers.{kept, write_batches-Written}
use id2203_project.Server.Connections.{client_reader, client_writer}
use id2203_project.Server.Connections.Delivery.{from_id, client_reader-with_all}
use id2203_project.Server.Connections.Replies.{client_writer-WritesFirst}
use id2203_project.Client.Connections.{reader, writer}
use id2203_project.Client.Connections.Delivery.{taken-reader}

abbrev pub fresh_wire : {M : Type 0} → Wire M
fresh_wire = record { fed = []; feeds = 0; flushes = 0 }

-- The receiver of the channel stays.
abbrev pub open_inbox : {M : Type 0} → Inbox M
open_inbox = record { taken = []; takes = none }

module _ {Frame Message : Type 0} (formats : Formats Frame Message) where
  -- Of the messages that a server's writer task is given for a client, the client's reader task
  -- passes on the first ones, in their order, and all of them if no call of the writer fails: when
  -- the format reads back what it writes, the frames arrive as they were written, in reads of any
  -- sizes, and the client's channel stays open.
  pub replies_arrive :
      ReadsBack formats.server
      → (faults : WireFaults ServerMessage) (batches : List (List ServerMessage))
        (here there : TcpStream Frame) (w : FramedWrite Frame ServerMessage)
        (chunks : List (List (Option ServerMessage)))
      → feed_all
          (frame_servers_connection formats here).1
          (client_writer faults batches fresh_wire).0.fed
        ≡ some w
      → here.outgoing ++ concat there.incoming ≡ w.written
      → concat chunks ≡ items (frame_clients_connection formats there).0
      → (k : ℕ) × ((reader chunks open_inbox).taken ≡ take k (concat batches))
        × ((client_writer faults batches fresh_wire).1 ≡ true
            → (reader chunks open_inbox).taken ≡ concat batches)
  unfolding frame_clients_connection frame_servers_connection
  replies_arrive back faults batches here there w chunks fed arrives ready =
      let sent = (client_writer faults batches fresh_wire).0.fed in
      let (k, first, all) = client_writer-WritesFirst faults batches fresh_wire in
      let seen =
        items-feed_all (frame_servers_connection formats here).1 w
          (frame_clients_connection formats there).0 sent back refl fed arrives in
      let taken : (reader chunks open_inbox).taken ≡ sent =
        taken-reader chunks open_inbox tt
        ∙ (ap well_formed (ready ∙ seen) ∙ well_formed-some sent) in
      (k, taken ∙ first, λ ok. taken ∙ all ok)

  -- Of the requests that a client's writer task is given, the server's reader task passes on some,
  -- in their order and each once, with the id of the client, and never is a panic: when the format
  -- reads back what it writes, the frames arrive as they were written, in reads of any sizes, and
  -- the server's channel stays open. The writer's calls may fail in any way.
  pub requests_arrive :
      ReadsBack formats.client
      → (faults : WireFaults ClientMessage) (batches : List (List ClientMessage))
        (here there : TcpStream Frame) (w : FramedWrite Frame ClientMessage)
        (chunks : List (List (Option ClientMessage))) (client_id : ℕ)
      → feed_all (frame_clients_connection formats here).1 (writer faults batches fresh_wire).fed
        ≡ some w
      → here.outgoing ++ concat there.incoming ≡ w.written
      → concat chunks ≡ items (frame_servers_connection formats there).0
      → (mask : List Bool) × (incoming : Inbox (ℕ × ClientMessage)) × (length mask
          ≡ length (concat batches))
        × (client_reader client_id chunks open_inbox ≡ some incoming)
        × (incoming.taken ≡ map (λ m. (client_id, m)) (kept mask (concat batches)))
        × ((writer faults batches fresh_wire).fed ≡ kept mask (concat batches))
  unfolding frame_clients_connection frame_servers_connection
  requests_arrive back faults batches here there w chunks id fed arrives ready =
      let sent = (writer faults batches fresh_wire).fed in
      let (mask, len, e) = write_batches-Written faults batches fresh_wire in
      let seen =
        items-feed_all (frame_clients_connection formats here).1 w
          (frame_servers_connection formats there).0 sent back refl fed arrives in
      let stream : well_formed (concat chunks) ≡ kept mask (concat batches) =
        ap well_formed (ready ∙ seen) ∙ (well_formed-some sent ∙ e) in
      (
        mask,
        record { taken = from_id id (concat chunks); takes = none },
        len,
        client_reader-with_all id chunks open_inbox tt,
        ap (map (λ m. (id, m))) stream,
        e,
      )
