-- ===== src/Link/Requests.antt =====
-- The requests of a client from its writer to the log: what the server of a client proposes.
use mathlib.Core.Option
use mathlib.Core.Option.{some-injective}
use id2203_project.Base.{
  ℕ, ◌≡◌, sym, ap, ◌∙◌, Bool, Option, none, some, List, [], ◌∷◌, ◌++◌, map, length, arith, inl, inr,
  Option-cases,
}
use id2203_project.Common.Kv.{Command}
use id2203_project.Common.Messages.{ClientMessage, append}
use id2203_project.Common.Framing.{
  Formats, TcpStream, FramedWrite, concat, items, frame_clients_connection,
  frame_servers_connection,
}
use id2203_project.Common.Framing.Ends.{ReadsBack, feed_all}
use id2203_project.Common.Tasks.{Inbox, WireFaults}
use id2203_project.Common.Tasks.Writers.{kept}
use id2203_project.Server.Database.{Json}
use id2203_project.Server.Node.{
  OmniPaxos, Server, Host, append_to_log, append_all, send_all, send_outgoing_msgs,
  handle_client_messages,
}
use id2203_project.Server.Node.Agreement.{Agreement}
use id2203_project.Server.Node.Invariant.{IsConsistent}
use id2203_project.Server.Node.Steps.{handle_client_messages-Returns}
use id2203_project.Server.Connections.{client_reader}
use id2203_project.Client.Connections.{writer}
use id2203_project.Link.Delivery.{fresh_wire, open_inbox, requests_arrive}

-- The command that server `id` proposes for a request of client `j`.
abbrev pub proposal : ℕ → ℕ → ClientMessage → Command
proposal id j (append request cmd) = record {
  client_id = j;
  coordinator_id = id;
  id = request;
  kv_cmd = cmd;
}

-- The library's state after it has accepted commands one after the other.
unfoldable pub accept_each : (op : OmniPaxos) → op.State → List Command → Option op.State
accept_each op o [] = some o
accept_each op o (c ∷ cs) = elim (op.append o c) [ none ↦ none | some o' ↦ accept_each op o' cs ]

module _ (op : OmniPaxos) where
  append_all-accept_each :
      (s s' : Server op) (j : ℕ) (ms : List ClientMessage)
      → append_all op s (map (λ m. (j, m)) ms) ≡ some s'
      → (accept_each op s.omnipaxos (map (proposal s.id j) ms) ≡ some s'.omnipaxos)
        × (s'.omnipaxos_msg_buffer ≡ s.omnipaxos_msg_buffer)
  unfolding append_all append_to_log accept_each
  append_all-accept_each s s' j [] e =
      let same = some-injective s s' e in
      (
        ap (λ (t : Server op). some t.omnipaxos) same,
        ap (λ (t : Server op). t.omnipaxos_msg_buffer) (sym same),
      )
  append_all-accept_each s s' j (append request cmd ∷ ms) e =
      let c = proposal s.id j (append request cmd) in
      elim (Option-cases (op.append s.omnipaxos c)) [
        | inl refused ↦ absurd (ground (arith, refused, e))
        | inr (o, made) ↦
            let rest : append_all op (record s { omnipaxos = o }) (map (λ m. (j, m)) ms) ≡ some s' =
              rw (made, append_all, append_to_log) at e in
            rw (made, accept_each)
              (append_all-accept_each (record s { omnipaxos = o }) s' j ms rest)
      ]

  omnipaxos-send_outgoing_msgs :
      (s s' : Server op)
      → send_outgoing_msgs op s ≡ some s'
      → s'.omnipaxos ≡ (op.take_outgoing_messages s.omnipaxos s.omnipaxos_msg_buffer).0
  unfolding send_outgoing_msgs
  omnipaxos-send_outgoing_msgs s s' e =
      let r = op.take_outgoing_messages s.omnipaxos s.omnipaxos_msg_buffer in
      elim (Option-cases (send_all op s.network r.1)) [
        | inl failed ↦ absurd (ground (arith, failed, e))
        | inr (n, sent) ↦
            let after : Server op = record s {
              omnipaxos = r.0;
              network = n;
              omnipaxos_msg_buffer = [];
            } in
            let same : after ≡ s' = some-injective after s' (rw (sent, send_outgoing_msgs) at e) in
            ap (λ (t : Server op). t.omnipaxos) (sym same)
      ]

  -- The library's state after a batch of a client: it has accepted the proposals, in order.
  pub omnipaxos-handle_client_messages :
      (s s' : Server op) (j : ℕ) (ms : List ClientMessage)
      → handle_client_messages op s (map (λ m. (j, m)) ms) ≡ some s'
      → (o : op.State) × (accept_each op s.omnipaxos (map (proposal s.id j) ms) ≡ some o)
        × (s'.omnipaxos ≡ (op.take_outgoing_messages o s.omnipaxos_msg_buffer).0)
  unfolding handle_client_messages Option.bind
  omnipaxos-handle_client_messages s s' j ms e =
      elim (Option-cases (append_all op s (map (λ m. (j, m)) ms))) [
        | inl refused ↦ absurd (ground (arith, refused, e))
        | inr (t, appended) ↦
            let sent : send_outgoing_msgs op t ≡ some s' =
              rw (appended, handle_client_messages, Option.bind) at e in
            let (accepted, buffer) = append_all-accept_each s t j ms appended in
            (
              t.omnipaxos,
              accepted,
              omnipaxos-send_outgoing_msgs t s' sent
                  ∙ ap (λ b. (op.take_outgoing_messages t.omnipaxos b).0) buffer,
            )
      ]

module _ {op : OmniPaxos} (json : Json) (blank : json.Contents) (ag : Agreement op) {Frame : Type 0}
    (formats : Formats Frame op.Message) where
  -- From a client's writer to the log: of the requests that a client's writer task is given,
  -- whatever calls of it fail, the reader of a consistent server passes on some, each once and in
  -- their order, without a panic; and when they are handled in one batch the server's library has
  -- accepted exactly one command for each of them, in that order, with the number and the command
  -- of the request, the id of the client and the id of the server, and the server stays
  -- consistent. The format reads back what it writes, the frames arrive as they were written, in
  -- reads of any sizes, and the server's channel stays open.
  pub requests_are_proposed :
      (s : Server op) (h : Host json.Contents) (j : ℕ) (faults : WireFaults ClientMessage)
      (batches : List (List ClientMessage)) (here there : TcpStream Frame)
      (w : FramedWrite Frame ClientMessage) (chunks : List (List (Option ClientMessage)))
      → IsConsistent json blank ag s h
      → ReadsBack formats.client
      → feed_all (frame_clients_connection formats here).1 (writer faults batches fresh_wire).fed
        ≡ some w
      → here.outgoing ++ concat there.incoming ≡ w.written
      → concat chunks ≡ items (frame_servers_connection formats there).0
      → (mask : List Bool) × (incoming : Inbox (ℕ × ClientMessage)) × (s' : Server op)
        × (o : op.State) × (length mask ≡ length (concat batches))
        × (client_reader j chunks open_inbox ≡ some incoming)
        × (handle_client_messages op s incoming.taken ≡ some s')
        × IsConsistent json blank ag s' h
        × (accept_each op s.omnipaxos (map (proposal s.id j) (kept mask (concat batches))) ≡ some o)
        × (s'.omnipaxos ≡ (op.take_outgoing_messages o s.omnipaxos_msg_buffer).0)
  requests_are_proposed s h j faults batches here there w chunks good back fed arrives ready =
      let (mask, incoming, len, read, taken, fed_first) =
        requests_arrive formats back faults batches here there w chunks j fed arrives ready in
      let (s', e, good') = handle_client_messages-Returns json blank ag s h incoming.taken good in
      let proposed : handle_client_messages op s (map (λ m. (j, m)) (kept mask (concat batches)))
          ≡ some s' =
        ap (handle_client_messages op s) (sym taken) ∙ e in
      let (o, accepted, after) =
        omnipaxos-handle_client_messages op s s' j (kept mask (concat batches)) proposed in
      (mask, incoming, s', o, len, read, e, good', accepted, after)
