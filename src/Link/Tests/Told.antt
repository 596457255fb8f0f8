-- ===== src/Link/Tests/Told.antt =====
-- Test data: what the writer of a client puts on the wire after the run of the toy server.
use id2203_project.Base.{refl, Option, some, List, [], ◌∷◌, id_key}
use id2203_project.Common.Messages.{ServerMessage, write, read, start_signal}
use id2203_project.Common.Framing.{feed, frame_clients_connection, frame_servers_connection}
use id2203_project.Common.Framing.Ends.{feed_all}
use id2203_project.Common.Tasks.{feed_wire, flush_wire}
use id2203_project.Server.Connections.{client_write_batch, client_writer}
use id2203_project.Link.Answers.{Arrive}
use id2203_project.Link.Tests.{server as server_frame, formats, fresh, bringing, fails_at}

abbrev pub batches : List (List ServerMessage)
batches = (start_signal 9 ∷ write 0 ∷ []) ∷ (read 1 (some "b") ∷ []) ∷ []

abbrev pub chunks : List (List (Option ServerMessage))
chunks = (some (start_signal 9) ∷ []) ∷ (some (write 0) ∷ some (read 1 (some "b")) ∷ []) ∷ []

pub arrive : Arrive formats batches chunks
unfolding client_writer client_write_batch feed_wire flush_wire feed_all feed
    frame_servers_connection frame_clients_connection
arrive = record {
  faults = fails_at 9;
  here = fresh;
  there = bringing (
      (server_frame (start_signal 9) ∷ [])
      ∷ (server_frame (write 0) ∷ server_frame (read 1 (some "b")) ∷ [])
      ∷ []);
  writer = record {
    written =
        server_frame (start_signal 9)
        ∷ server_frame (write 0)
        ∷ server_frame (read 1 (some "b"))
        ∷ [];
    format = formats.server;
  };
  succeeds = refl;
  written = refl;
  carried = refl;
  ready = refl;
}
