-- ===== src/Link/Http.antt =====
-- An HTTP request to the shim client, from the log of the servers to its response.
use id2203_project.Base.{
  ℕ, suc, ◌<◌, id_key, ◌≡◌, sym, ap, subst, ◌∙◌, Bool, true, Option, some, List, [], ◌∷◌, ◌++◌, All,
  word_mod,
}
use id2203_project.Base.HashMap
use id2203_project.Common.Kv.{Command}
use id2203_project.Common.Messages.{ServerMessage}
use id2203_project.Common.Spec.{replay}
use id2203_project.Common.Framing.{Formats, concat}
use id2203_project.Common.Framing.Ends.{ReadsBack}
use id2203_project.Server.Database.{Json}
use id2203_project.Server.Database.Recovery.{JsonLaws}
use id2203_project.Server.Network.{ClientConnection}
use id2203_project.Server.Network.Clients.{client}
use id2203_project.Server.Node.{OmniPaxos, Server, Host}
use id2203_project.Server.Node.Handlers.{Event}
use id2203_project.Server.Node.Program.{main_loop}
use id2203_project.Server.Node.Agreement.{Agreement}
use id2203_project.Server.Node.Invariant.{IsConsistent, applied_idx, prefix_store}
use id2203_project.Server.Node.Rounds.{IsGenuineEvent}
use id2203_project.Server.Node.Answers.{replies}
use id2203_project.Server.Node.Told.{answers_of, segment, between}
use id2203_project.Server.Node.Told.Rounds.{IsApart}
use id2203_project.Client.Connections.{reader}
use id2203_project.Client.Network.{slot}
use id2203_project.Client.Network.Slots.{is_open}
use id2203_project.Client.ShimClient.{handle_call}
use id2203_project.Client.ShimClient.Soundness.{IsGenuine}
use id2203_project.Client.ShimClient.Waiting.{text_of}
use id2203_project.Client.ShimClient.Matching.{IsOther, Keeps}
use id2203_project.Client.Shim.Service.{Request, Service, looping, poll, serve_step, serve}
use id2203_project.Client.Shim.Numbers.{call_of, caller-call_of}
use id2203_project.Client.Shim.Served.{IsServed}
use id2203_project.Client.Shim.Messages.{arrivals, arrivals-tell}
use id2203_project.Link.Answers.{
  Arrive, logged, replies-logged, All-answers, caller_is_told, taken-main_loop,
}
use id2203_project.Link.Delivery.{open_inbox}

module _ {op : OmniPaxos} (json : Json) (blank : json.Contents) (ag : Agreement op)
    (laws : JsonLaws json) {Frame Ratio : Type 0} (formats : Formats Frame op.Message) where
  -- From the log to an HTTP response. A request is taken by the shim client (with fewer requests
  -- than the word limit) while the connection to its server takes messages, and the client does
  -- not lose that connection afterwards. The server's main loop runs from a consistent state, in
  -- which its connection to the client takes messages, on any genuine events of which none is a
  -- new connection of that client, and the entries that it applies have the one of this request
  -- among them; the commands before it make answers to other requests only, and all answers are to
  -- requests that the client has sent. The writer for the client is given all that was sent to it
  -- in that run, no call of the writer fails, and the frames arrive as they were written, in a
  -- format that reads back what it writes. The service is as every run of it leaves it, with the
  -- client in its loop and the handler still waiting. Then, when the client has taken what
  -- arrives, start signals included, the handler that looks for its answer adds exactly one
  -- response, late or not: what the sequential store gives the request's command at the position
  -- of its entry in the log.
  pub http_is_told :
      (s s' : Server op) (h h' : Host json.Contents) (counter counter' : ℕ)
      (events : List (Event op json blank)) (j : ℕ) (conn conn' : ClientConnection)
      (web web' : Service Ratio) (r : Request) (prior later : List Command)
      (batches : List (List ServerMessage)) (chunks : List (List (Option ServerMessage)))
      (called arrived : ℕ) (late : Bool)
      → IsConsistent json blank ag s h
      → All (IsGenuineEvent json blank ag) events
      → All (IsApart json blank ag laws j) events
      → main_loop op json blank s h counter events ≡ some (s', h', counter')
      → client s.network j ≡ some conn
      → conn.outgoing_messages.receiver_alive ≡ true
      → client s'.network j ≡ some conn'
      → conn.outgoing_messages.sent ++ concat batches ≡ conn'.outgoing_messages.sent
      → segment (applied_idx json blank ag s) (applied_idx json blank ag s') ag.log
        ≡ prior ++ logged s.id j web.client.next_request_id (call_of r web.next_call) ∷ later
      → All
          (IsOther web.client.next_request_id)
          (replies s.id j (prefix_store json blank ag (applied_idx json blank ag s)) prior)
      → ReadsBack formats.server
      → Arrive formats batches chunks
      → IsServed web
      → suc web.client.next_request_id < word_mod
      → is_open (slot web.client.network web.client.active_server) ≡ true
      → Keeps web.client.next_request_id
          (handle_call web.client (call_of r web.next_call) called)
          web'.client
      → IsServed web'
      → web'.task ≡ looping
      → HashMap.get web.next_call web'.waiting ≡ some r
      → All (λ msg. IsGenuine msg web'.client) (between json blank ag j s s')
      → (serve_step
          (serve web' (arrivals (reader chunks open_inbox).taken arrived))
          (poll web.next_call late)).replies
        ≡ web'.replies
          ++ (
            web.next_call,
            text_of
                (replay (prefix_store json blank ag (applied_idx json blank ag s)) prior)
                (call_of r web.next_call),
          )
            ∷ []
  http_is_told s s' h h' counter counter' events j conn conn' web web' r prior later batches chunks
        called arrived late good genuine apart ran at_j up after_j sent there_in_log others back
        arrive served room open_slot kept served' at_head there all_genuine =
      let cmd = call_of r web.next_call in
      let request = web.client.next_request_id in
      let f = prefix_store json blank ag (applied_idx json blank ag s) in
      let ms = (reader chunks open_inbox).taken in
      let taken : answers_of ms ≡ between json blank ag j s s' =
        taken-main_loop json blank ag laws formats s s' h h' counter counter' events j conn conn'
          batches chunks good genuine apart ran at_j up after_j sent back arrive in
      let (after, told) = replies-logged s.id j request cmd f prior later in
      let among = taken ∙ (ap (replies s.id j f) there_in_log ∙ told) in
      let answers_genuine =
        subst (All (λ msg. IsGenuine msg web'.client)) (sym taken) all_genuine in
      let (c, first, rest, e, found) =
        caller_is_told web.client web'.client cmd (replay f prior) ms (replies s.id j f prior) after
          called arrived among others answers_genuine served.sound room open_slot kept in
      let text = text_of (replay f prior) cmd in
      let at_call : c.answered ≡ first ++ (web.next_call, text) ∷ rest =
        found ∙ ap (λ tx. first ++ (tx, text) ∷ rest) (caller-call_of r web.next_call) in
      arrivals-tell web' ms arrived web.next_call r late text first rest c served' at_head there
        (All-answers (λ msg. IsGenuine msg web'.client) ms (λ t. tt) answers_genuine) e at_call
