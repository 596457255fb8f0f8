-- ===== src/Server/Node/Told/Rounds.antt =====
-- What a client is told in the rounds of the main loop.
use mathlib.Core.Option.{some-injective}
use id2203_project.Base.{
  ℕ, id_key, ◌≡◌, refl, ap, subst, Bool, true, false, some, List, [], ◌∷◌, All,
}
use id2203_project.Common.Messages.{
  ClusterMessage, ServerMessage, omnipaxos_message, leader_start_signal,
}
use id2203_project.Server.Database.{Json}
use id2203_project.Server.Database.Recovery.{JsonLaws}
use id2203_project.Server.Network.{ClientConnection}
use id2203_project.Server.Network.Clients.{client}
use id2203_project.Server.Node.{
  OmniPaxos, Server, Host, send_outgoing_msgs, send_client_start_signals,
}
use id2203_project.Server.Node.Handlers.{
  Event, timer, cluster_messages, client_messages, new_connection, cluster_loop,
  handle_cluster_messages, run_step,
}
use id2203_project.Server.Node.Agreement.{Agreement}
use id2203_project.Server.Node.Decided.{handle_decided_entries_lem}
use id2203_project.Server.Node.Steps.{Good, with_parts, send_client_start_signals-Good}
use id2203_project.Server.Node.Rounds.{
  FromCluster, IsGenuineEvent, cluster_loop-Returns, run_step-Returns,
}
use id2203_project.Server.Node.Program.{main_loop}
use id2203_project.Server.Node.Answers.{with_sent}
use id2203_project.Server.Node.Told.{answers_of, between, Told, Told-trans, Decides-Told}
use id2203_project.Server.Node.Told.Handlers.{
  map-some, with_network-Told, send_outgoing_msgs-Told, handle_client_messages-Told,
  send_client_start_signals-Told, IsElse, handle_recovered_connection-Told,
}

module _ {op : OmniPaxos} (json : Json) (blank : json.Contents) (ag : Agreement op)
    (laws : JsonLaws json) (j : ℕ) where
  -- An event that brings no connection of this client.
  abbrev pub IsApart : Event op json blank → Type 0
  IsApart (timer now) = Unit
  IsApart (cluster_messages ms) = Unit
  IsApart (client_messages ms) = Unit
  IsApart (new_connection nc now) = IsElse json blank ag j nc

  cluster_loop-Told :
      (s s' : Server op) (h h' : Host json.Contents) (ms : List (ℕ × ClusterMessage op.Message))
      (received received' : Bool)
      → Good json blank ag s h
      → All (FromCluster json blank ag) ms
      → cluster_loop op json blank s h ms received ≡ some (s', h', received')
      → Told json blank ag j s s'
  unfolding cluster_loop
  cluster_loop-Told s s' h h' [] r r' c g e =
      subst (Told json blank ag j s)
        (ap (λ (t : Server op × Host json.Contents × Bool). t.0)
          (some-injective (s, h, r) (s', h', r') e))
        (with_network-Told json blank ag j s s.omnipaxos s.network s.omnipaxos_msg_buffer refl)
  cluster_loop-Told s s' h h' ((from, omnipaxos_message m) ∷ ms) r r' c g e =
      let o = op.handle_incoming s.omnipaxos m in
      let s1 : Server op = record s { omnipaxos = o } in
      let c1 =
        with_parts json blank ag s h o s.network s.omnipaxos_msg_buffer c
          (ag.handle_incoming-IsValid s.omnipaxos m g.0 c.valid) c.wired in
      let (s2, h2, e2, c2, d) = handle_decided_entries_lem json blank ag laws s1 h c1 in
      let rest = rw (e2, cluster_loop) at e in
      let later = cluster_loop-Told s2 s' h2 h' ms r r' c2 g.1 rest in
      Told-trans json blank ag j s s1 s'
        (with_network-Told json blank ag j s o s.network s.omnipaxos_msg_buffer refl)
        (Told-trans json blank ag j s1 s2 s' (Decides-Told json blank ag j s1 s2 d) later)
  cluster_loop-Told s s' h h' ((from, leader_start_signal t) ∷ ms) r r' c g e =
      let s1 = send_client_start_signals op s t in
      let later =
        cluster_loop-Told s1 s' h h' ms true r'
          (send_client_start_signals-Good json blank ag s h t c) g.1 e in
      Told-trans json blank ag j s s1 s' (send_client_start_signals-Told json blank ag j s t) later

  handle_cluster_messages-Told :
      (s s' : Server op) (h h' : Host json.Contents) (ms : List (ℕ × ClusterMessage op.Message))
      (received : Bool)
      → Good json blank ag s h
      → All (FromCluster json blank ag) ms
      → handle_cluster_messages op json blank s h ms ≡ some (s', h', received)
      → Told json blank ag j s s'
  unfolding handle_cluster_messages
  handle_cluster_messages-Told s s' h h' ms received c g e =
      let (s1, h1, r, e1, c1) = cluster_loop-Returns json blank ag laws s h ms false c g in
      let (s2, sent, same) =
        map-some (λ s2. (s2, h1, r)) (send_outgoing_msgs op s1) (s', h', received)
          (rw (e1, handle_cluster_messages) at e) in
      let (later, w) = send_outgoing_msgs-Told json blank ag j s1 s2 c1.wired sent in
      subst (Told json blank ag j s) (ap (λ (t : Server op × Host json.Contents × Bool). t.0) same)
        (Told-trans json blank ag j s s1 s2 (cluster_loop-Told s s1 h h1 ms false r c g e1) later)

  pub run_step-Told :
      (s s' : Server op) (h h' : Host json.Contents) (counter counter' : ℕ)
      (ev : Event op json blank)
      → Good json blank ag s h
      → IsGenuineEvent json blank ag ev
      → IsApart ev
      → run_step op json blank s h counter ev ≡ some (s', h', counter')
      → Told json blank ag j s s'
  unfolding run_step
  run_step-Told s s' h h' counter counter' (timer now) c g apart e =
      let o = op.tick s.omnipaxos in
      let s1 : Server op = record s { omnipaxos = o } in
      let (s2, sent, same) = map-some _ (send_outgoing_msgs op s1) (s', h', counter') e in
      let (later, w) = send_outgoing_msgs-Told json blank ag j s1 s2 c.wired sent in
      subst (Told json blank ag j s) (ap (λ (t : Server op × Host json.Contents × ℕ). t.0) same) (
        Told-trans json blank ag j s s1 s2
          (with_network-Told json blank ag j s o s.network s.omnipaxos_msg_buffer refl) later)
  run_step-Told s s' h h' counter counter' (cluster_messages ms) c g apart e =
      let (r, handled, same) =
        map-some _ (handle_cluster_messages op json blank s h ms) (s', h', counter') e in
      subst (Told json blank ag j s) (ap (λ (t : Server op × Host json.Contents × ℕ). t.0) same)
        (handle_cluster_messages-Told s r.0 h r.1 ms r.2 c g handled)
  run_step-Told s s' h h' counter counter' (client_messages ms) c g apart e =
      let (s1, handled, same) = map-some _ _ (s', h', counter') e in
      subst (Told json blank ag j s) (ap (λ (t : Server op × Host json.Contents × ℕ). t.0) same)
        (handle_client_messages-Told json blank ag j s s1 ms c.wired handled)
  run_step-Told s s' h h' counter counter' (new_connection nc now) c g apart e =
      let (s1, handled, same) = map-some _ _ (s', h', counter') e in
      subst (Told json blank ag j s) (ap (λ (t : Server op × Host json.Contents × ℕ). t.0) same)
        (handle_recovered_connection-Told json blank ag j s s1 nc now c.wired apart handled)

  main_loop-Told :
      (s s' : Server op) (h h' : Host json.Contents) (counter counter' : ℕ)
      (events : List (Event op json blank))
      → Good json blank ag s h
      → All (IsGenuineEvent json blank ag) events
      → All IsApart events
      → main_loop op json blank s h counter events ≡ some (s', h', counter')
      → Told json blank ag j s s'
  unfolding main_loop
  main_loop-Told s s' h h' counter counter' [] c g apart e =
      subst (Told json blank ag j s)
        (ap (λ (t : Server op × Host json.Contents × ℕ). t.0)
          (some-injective (s, h, counter) (s', h', counter') e))
        (with_network-Told json blank ag j s s.omnipaxos s.network s.omnipaxos_msg_buffer refl)
  main_loop-Told s s' h h' counter counter' (ev ∷ events) c g apart e =
      let (s1, h1, k, e1, c1) = run_step-Returns json blank ag laws s h counter ev c g.0 in
      let later =
        main_loop-Told s1 s' h1 h' k counter' events c1 g.1 apart.1 (rw (e1, main_loop) at e) in
      Told-trans json blank ag j s s1 s' (run_step-Told s s1 h h1 counter k ev c g.0 apart.0 e1)
        later

  -- Over any sequence of genuine events of a server's main loop, from a consistent state, a client
  -- whose connection is up, and of which no new connection comes in these events, gets more
  -- messages on that connection, and start signals aside they are exactly the answers of the
  -- sequential store to the commands of that client that this server coordinated, among those that
  -- the loop has applied, in the order of the log: each answer is what the store gives at that
  -- position.
  pub main_loop-answers :
      (s s' : Server op) (h h' : Host json.Contents) (counter counter' : ℕ)
      (events : List (Event op json blank)) (c : ClientConnection)
      → Good json blank ag s h
      → All (IsGenuineEvent json blank ag) events
      → All IsApart events
      → main_loop op json blank s h counter events ≡ some (s', h', counter')
      → client s.network j ≡ some c
      → c.outgoing_messages.receiver_alive ≡ true
      → (ms : List ServerMessage) × (client s'.network j ≡ some (with_sent c ms))
        × (answers_of ms ≡ between json blank ag j s s')
  main_loop-answers s s' h h' counter counter' events c good g apart e at_j up =
      (main_loop-Told s s' h h' counter counter' events good g apart e).told c at_j up
