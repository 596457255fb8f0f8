-- ===== src/Link/Asked.antt =====
-- A call from its client to the log: what the server of a client proposes when a call has been handled.
use mathlib.Core.Option.{some-injective}
use mathlib.Core.List.{map-append}
use id2203_project.Base.{
  ℕ, id_key, ◌≡◌, sym, ap, ◌∙◌, true, Option, some, List, [], ◌∷◌, ◌++◌, map, arith,
}
use id2203_project.Common.Channel
use id2203_project.Common.Messages.{ClientMessage, append}
use id2203_project.Common.Framing.{
  Formats, TcpStream, FramedWrite, concat, items, frame_clients_connection,
  frame_servers_connection,
}
use id2203_project.Common.Framing.Ends.{ReadsBack, feed_all}
use id2203_project.Common.Tasks.{Inbox, WireFaults}
use id2203_project.Common.Tasks.Writers.{kept, write_batches-all}
use id2203_project.Server.Database.{Json}
use id2203_project.Server.Node.{OmniPaxos, Server, Host, handle_client_messages}
use id2203_project.Server.Node.Agreement.{Agreement}
use id2203_project.Server.Node.Invariant.{IsConsistent}
use id2203_project.Server.Node.Steps.{handle_client_messages-Returns}
use id2203_project.Server.Connections.{client_reader}
use id2203_project.Client.Connections.{writer}
use id2203_project.Client.Network
use id2203_project.Client.Network.{ServerConnection, slot}
use id2203_project.Client.Network.Slots.{send_lem}
use id2203_project.Client.ShimClient.{
  Client, ApiCommand, put_call, get_call, handle_call, send_request_manual,
}
use id2203_project.Client.ShimClient.Waiting.{command_of}
use id2203_project.Link.Delivery.{fresh_wire, open_inbox, requests_arrive}
use id2203_project.Link.Requests.{proposal, accept_each, omnipaxos-handle_client_messages}
use id2203_project.Link.Answers.{logged}

-- A connection when one message more has been sent on it.
abbrev asked : ServerConnection → ClientMessage → ServerConnection
asked conn msg = record conn {
  outgoing_messages = record conn.outgoing_messages {
    sent = conn.outgoing_messages.sent ++ msg ∷ [];
  };
}

module _ {Ratio : Type 0} where
  -- The request of a call.
  abbrev request_for : Client Ratio → ApiCommand → ClientMessage
  request_for c cmd = append c.next_request_id (command_of cmd)

  slot-handle_call :
      (c : Client Ratio) (cmd : ApiCommand) (now : ℕ) (conn : ServerConnection)
      → slot c.network c.active_server ≡ some conn
      → conn.outgoing_messages.receiver_alive ≡ true
      → slot (handle_call c cmd now).network c.active_server ≡ some (asked conn (request_for c cmd))
  unfolding handle_call send_request_manual Channel.send
  slot-handle_call c (put_call k v tx) now conn at_slot up =
      let (sent, slots, len, same) =
        send_lem c.network c.active_server (request_for c (put_call k v tx)) in
      let went : (Network.send c.network c.active_server (request_for c (put_call k v tx))).1
          ≡ true =
        sent ∙ ground (arith, at_slot, up) in
      rw (went, handle_call, send_request_manual)
        (slots c.active_server
          ∙ ground (arith, at_slot, up, id_key.decides c.active_server c.active_server))
  slot-handle_call c (get_call k tx) now conn at_slot up =
      let (sent, slots, len, same) =
        send_lem c.network c.active_server (request_for c (get_call k tx)) in
      let went : (Network.send c.network c.active_server (request_for c (get_call k tx))).1 ≡ true =
        sent ∙ ground (arith, at_slot, up) in
      rw (went, handle_call, send_request_manual)
        (slots c.active_server
          ∙ ground (arith, at_slot, up, id_key.decides c.active_server c.active_server))

module _ {op : OmniPaxos} (json : Json) (blank : json.Contents) (ag : Agreement op)
    {Frame Ratio : Type 0} (formats : Formats Frame op.Message) where
  -- From a call to the log. A shim client handles a call while the connection to its server takes
  -- messages; the writer of that connection is given all that has been sent on it then, in batches
  -- of any sizes, none of its calls fails, and the frames arrive as they were written, in reads of
  -- any sizes and in a format that reads back what it writes, at a server whose channel stays
  -- open. Then the server's reader passes everything on without a panic, and when a consistent
  -- server handles it in one batch its library has accepted exactly one command for each request
  -- that was sent before and then, last, the one of this call: with the call's command, the
  -- client's next request id, the id of the client and the id of the server. The server stays
  -- consistent.
  pub call_is_proposed :
      (c : Client Ratio) (cmd : ApiCommand) (called : ℕ) (conn conn' : ServerConnection)
      (s : Server op) (h : Host json.Contents) (j : ℕ) (faults : WireFaults ClientMessage)
      (batches : List (List ClientMessage)) (here there : TcpStream Frame)
      (w : FramedWrite Frame ClientMessage) (chunks : List (List (Option ClientMessage)))
      → slot c.network c.active_server ≡ some conn
      → conn.outgoing_messages.receiver_alive ≡ true
      → slot (handle_call c cmd called).network c.active_server ≡ some conn'
      → concat batches ≡ conn'.outgoing_messages.sent
      → ((n : ℕ) (m : ClientMessage) → faults.feed_ok n m ≡ true)
      → ((n : ℕ) → faults.flush_ok n ≡ true)
      → IsConsistent json blank ag s h
      → ReadsBack formats.client
      → feed_all (frame_clients_connection formats here).1 (writer faults batches fresh_wire).fed
        ≡ some w
      → here.outgoing ++ concat there.incoming ≡ w.written
      → concat chunks ≡ items (frame_servers_connection formats there).0
      → (incoming : Inbox (ℕ × ClientMessage)) × (s' : Server op) × (o : op.State) × (client_reader
            j chunks open_inbox
          ≡ some incoming)
        × (handle_client_messages op s incoming.taken ≡ some s')
        × IsConsistent json blank ag s' h
        × (accept_each op s.omnipaxos (
              map (proposal s.id j) conn.outgoing_messages.sent
              ++ logged s.id j c.next_request_id cmd ∷ [])
            ≡ some o)
        × (s'.omnipaxos ≡ (op.take_outgoing_messages o s.omnipaxos_msg_buffer).0)
  call_is_proposed c cmd called conn conn' s h j faults batches here there w chunks at_slot up
        after_slot given feeds flushes good back fed arrives ready =
      let request = request_for c cmd in
      let sent = conn.outgoing_messages.sent in
      let (mask, incoming, len, read, taken, first) =
        requests_arrive formats back faults batches here there w chunks j fed arrives ready in
      let same : asked conn request ≡ conn' =
        some-injective (asked conn request) conn'
          (sym (slot-handle_call c cmd called conn at_slot up) ∙ after_slot) in
      let all : kept mask (concat batches) ≡ sent ++ request ∷ [] =
        sym first
        ∙ (write_batches-all faults batches fresh_wire feeds flushes
            ∙ (given ∙ ap (λ (k : ServerConnection). k.outgoing_messages.sent) (sym same))) in
      let (s', e, good') = handle_client_messages-Returns json blank ag s h incoming.taken good in
      let proposed : handle_client_messages op s (map (λ m. (j, m)) (sent ++ request ∷ []))
          ≡ some s' =
        ap (λ ms. handle_client_messages op s (map (λ m. (j, m)) ms)) (sym all)
        ∙ (ap (handle_client_messages op s) (sym taken) ∙ e) in
      let (o, accepted, after) =
        omnipaxos-handle_client_messages op s s' j (sent ++ request ∷ []) proposed in
      (
        incoming,
        s',
        o,
        read,
        e,
        good',
        ap (accept_each op s.omnipaxos) (sym (map-append (proposal s.id j) sent (request ∷ [])))
            ∙ accepted,
        after,
      )
