-- ===== src/Client/Connections/Spawned.antt =====
-- client/network.rs, `ServerConnection::new` as a whole: the two tasks of a connection are spawned on the
-- halves of its stream.
use id2203_project.Base.{List, Option}
use id2203_project.Common.Messages.{ClientMessage, ServerMessage}
use id2203_project.Common.Framing.{FromServerConnection, ToServerConnection}
use id2203_project.Common.Tasks.{Inbox, WireFaults, write_batch, flush_wire}
use id2203_project.Common.Connection.{Tasks, Spawned}
use id2203_project.Common.Connection
use id2203_project.Client.Connections.{read_chunk}

abbrev pub server_tasks :
    WireFaults ClientMessage
    → Tasks ClientMessage (List (Option ServerMessage)) (Inbox ServerMessage)
server_tasks faults = record {
  write_round = λ buffer w. flush_wire faults (write_batch faults buffer w);
  read_round = read_chunk;
}

unfoldable pub new_server_connection :
    {Frame : Type 0}
    → WireFaults ClientMessage
    → FromServerConnection Frame
    → ToServerConnection Frame
    → Inbox ServerMessage
    → Spawned Frame ClientMessage ServerMessage (Inbox ServerMessage)
new_server_connection faults reader writer incoming_messages = record {
  reader = reader;
  writer = writer;
  tasks = server_tasks faults;
  connection = Connection.new incoming_messages;
}
