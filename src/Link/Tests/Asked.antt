-- ===== src/Link/Tests/Asked.antt =====
-- A test of a call from its client to the log: a read that is called after a write, in two batches.
use id2203_project.Base.{ℕ, ◌≡◌, refl, true, Option, some, List, [], ◌∷◌, ◌++◌, map, id_key}
use id2203_project.Common.Channel
use id2203_project.Common.Kv.{put, get}
use id2203_project.Common.Messages.{ClientMessage, append}
use id2203_project.Common.Framing.{feed, frame_clients_connection, frame_servers_connection}
use id2203_project.Common.Framing.Ends.{feed_all}
use id2203_project.Common.Tasks.{
  Inbox, WireFaults, feed_wire, flush_wire, write_batch, write_batches,
}
use id2203_project.Server.Node.{Server, handle_client_messages}
use id2203_project.Server.Node.Invariant.{IsConsistent}
use id2203_project.Server.Connections.{client_reader}
use id2203_project.Server.Tests.Toy.{toy, toy_agreement, toy_json, blank}
use id2203_project.Server.Tests.Runs.{host, server, server-Good}
use id2203_project.Client.Network
use id2203_project.Client.Network.{ServerConnection}
use id2203_project.Client.ShimClient.{Client, put_call, get_call, handle_call, send_request_manual}
use id2203_project.Client.Tests.{client}
use id2203_project.Link.Delivery.{open_inbox}
use id2203_project.Link.Requests.{proposal, accept_each}
use id2203_project.Link.Answers.{logged}
use id2203_project.Link.Asked.{call_is_proposed}
use id2203_project.Link.Tests.{Frame, client as client_frame, formats, fresh, bringing, client_back}

-- A client that has handled a write.
abbrev after_write : Client Unit
after_write = handle_call client (put_call "k" "v" 7) 10

abbrev a_write : ClientMessage
a_write = append 0 (put "k" "v")

abbrev a_read : ClientMessage
a_read = append 1 (get "k")

abbrev connection : List ClientMessage → ServerConnection
connection sent = record {
  stream = 5;
  outgoing_messages = record { sent = sent; receiver_alive = true };
}

abbrev batches : List (List ClientMessage)
batches = (a_write ∷ []) ∷ (a_read ∷ []) ∷ []

abbrev chunks : List (List (Option ClientMessage))
chunks = (some a_write ∷ some a_read ∷ []) ∷ []

abbrev frames : List Frame
frames = client_frame a_write ∷ client_frame a_read ∷ []

abbrev no_faults : WireFaults ClientMessage
no_faults = record { feed_ok = λ n m. true; flush_ok = λ n. true }

call_is_proposed_example :
    (incoming : Inbox (ℕ × ClientMessage)) × (s' : Server toy) × (o : ℕ) × (client_reader 4 chunks
        open_inbox
      ≡ some incoming)
    × (handle_client_messages toy server incoming.taken ≡ some s')
    × IsConsistent toy_json blank toy_agreement s' host
    × (accept_each toy server.omnipaxos
          (map (proposal server.id 4) (a_write ∷ []) ++ logged server.id 4 1 (get_call "k" 8) ∷ [])
        ≡ some o)
    × (s'.omnipaxos ≡ (toy.take_outgoing_messages o server.omnipaxos_msg_buffer).0)
unfolding write_batches write_batch feed_wire flush_wire feed_all feed frame_servers_connection
    frame_clients_connection handle_call send_request_manual Network.send Channel.send
call_is_proposed_example =
    call_is_proposed toy_json blank toy_agreement formats after_write (get_call "k" 8) 11
      (connection (a_write ∷ [])) (connection (a_write ∷ a_read ∷ [])) server host 4 no_faults
      batches fresh (bringing (frames ∷ [])) (record { written = frames; format = formats.client })
      chunks refl refl refl refl (λ n m. refl) (λ n. refl) server-Good client_back refl refl refl
