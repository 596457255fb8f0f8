-- ===== src/Link/Tests/Proposed.antt =====
-- A test of what is proposed: of three requests in a batch the second cannot be fed.
use id2203_project.Base.{ℕ, ◌≡◌, refl, Bool, some, List, [], ◌∷◌, map, length}
use id2203_project.Common.Messages.{ClientMessage}
use id2203_project.Common.Framing.{concat, feed, frame_clients_connection, frame_servers_connection}
use id2203_project.Common.Framing.Ends.{feed_all}
use id2203_project.Common.Tasks.{Inbox, feed_wire, flush_wire, write_batch, write_batches}
use id2203_project.Common.Tasks.Writers.{kept}
use id2203_project.Server.Node.{Server, handle_client_messages}
use id2203_project.Server.Node.Invariant.{IsConsistent}
use id2203_project.Server.Connections.{client_reader}
use id2203_project.Server.Tests.Toy.{toy, toy_agreement, toy_json, blank}
use id2203_project.Server.Tests.Runs.{host, server, server-Good}
use id2203_project.Link.Delivery.{open_inbox}
use id2203_project.Link.Requests.{proposal, accept_each, requests_are_proposed}
use id2203_project.Link.Tests.{
  formats, fresh, bringing, fails_at, client_back, requests, request_frames, request_chunks,
}

requests_are_proposed_example :
    (mask : List Bool) × (incoming : Inbox (ℕ × ClientMessage)) × (s' : Server toy) × (o : ℕ)
    × (length mask ≡ length (concat requests))
    × (client_reader 4 request_chunks open_inbox ≡ some incoming)
    × (handle_client_messages toy server incoming.taken ≡ some s')
    × IsConsistent toy_json blank toy_agreement s' host
    × (accept_each toy server.omnipaxos (map (proposal server.id 4) (kept mask (concat requests)))
        ≡ some o)
    × (s'.omnipaxos ≡ (toy.take_outgoing_messages o server.omnipaxos_msg_buffer).0)
unfolding write_batches write_batch feed_wire flush_wire feed_all feed frame_servers_connection
    frame_clients_connection
requests_are_proposed_example =
    requests_are_proposed toy_json blank toy_agreement formats server host 4 (fails_at 1) requests
      fresh (bringing (request_frames ∷ []))
      (record { written = request_frames; format = formats.client }) request_chunks server-Good
      client_back refl refl refl
