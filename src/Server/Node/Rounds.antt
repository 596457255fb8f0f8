-- ===== src/Server/Node/Rounds.antt =====
-- Every round of the two event loops, run on a consistent server, returns and keeps it consistent.
use id2203_project.Base.{
  ℕ, ◌+◌, id_key, ◌≡◌, refl, Bool, true, false, Option, some, List, [], ◌∷◌, ◌==◌, leb, All,
  if◌then◌else◌, Bool-cases, inl, inr,
}
use id2203_project.Common.Messages.{ClusterMessage, omnipaxos_message, leader_start_signal}
use id2203_project.Server.Database.{Json}
use id2203_project.Server.Database.Recovery.{JsonLaws}
use id2203_project.Server.Node.{OmniPaxos, Server, Host, send_client_start_signals}
use id2203_project.Server.Node.Handlers.{
  Event, timer, cluster_messages, client_messages, new_connection, cluster_loop,
  handle_cluster_messages, run_step, establish_step,
}
use id2203_project.Server.Node.Agreement.{Agreement, library}
use id2203_project.Server.Node.Calls
use id2203_project.Server.Node.Decided.{handle_decided_entries_lem}
use id2203_project.Server.Node.Steps.{
  Good, Good-Steady, with_parts, send_outgoing_msgs-Returns, handle_client_messages-Returns,
  send_client_start_signals-Good, handle_recovered_connection-Returns,
}

module _ {op : OmniPaxos} (json : Json) (blank : json.Contents) (ag : Agreement op) where
  -- A step that may save returns, and its state and files are consistent.
  abbrev pub ReturnsBoth : {A : Type 0} → Option (Server op × Host json.Contents × A) → Type 0
  ReturnsBoth {A = A} r =
      (s' : Server op) × (h' : Host json.Contents) × (a : A) × (r ≡ some (s', h', a))
      × Good json blank ag s' h'

  -- A message of the library comes from a node of the cluster, and brings no snapshot in place of
  -- entries.
  abbrev pub FromCluster : ℕ × ClusterMessage op.Message → Type 0
  FromCluster (from, omnipaxos_message m) = ag.IsGenuine m
  FromCluster (from, leader_start_signal t) = Unit

  -- What an event brings comes from the cluster.
  abbrev pub IsGenuineEvent : Event op json blank → Type 0
  IsGenuineEvent (timer now) = Unit
  IsGenuineEvent (cluster_messages ms) = All FromCluster ms
  IsGenuineEvent (client_messages ms) = Unit
  IsGenuineEvent (new_connection nc now) = Unit

  module _ (laws : JsonLaws json) where
    pub cluster_loop-Returns :
        (s : Server op) (h : Host json.Contents) (ms : List (ℕ × ClusterMessage op.Message))
        (received : Bool)
        → Good json blank ag s h
        → All FromCluster ms
        → ReturnsBoth (cluster_loop op json blank s h ms received)
    unfolding cluster_loop
    cluster_loop-Returns s h [] r c g = (s, h, r, refl, c)
    cluster_loop-Returns s h ((from, omnipaxos_message m) ∷ ms) r c g =
        let s' = record s { omnipaxos = op.handle_incoming s.omnipaxos m } in
        let c' =
          with_parts json blank ag s h (op.handle_incoming s.omnipaxos m) s.network
            s.omnipaxos_msg_buffer c (ag.handle_incoming-IsValid s.omnipaxos m g.0 c.valid)
            c.wired in
        let (s1, h1, e, c1, d) = handle_decided_entries_lem json blank ag laws s' h c' in
        let (t, h2, a, e', c2) = cluster_loop-Returns s1 h1 ms r c1 g.1 in
        (t, h2, a, rw (e, cluster_loop) e', c2)
    cluster_loop-Returns s h ((from, leader_start_signal t) ∷ ms) r c g =
        cluster_loop-Returns (send_client_start_signals op s t) h ms true
          (send_client_start_signals-Good json blank ag s h t c) g.1

    -- From a consistent state a batch of messages that nodes of the cluster send is handled to its
    -- end, with no panic, and leaves the server and its files consistent.
    pub handle_cluster_messages-Returns :
        (s : Server op) (h : Host json.Contents) (ms : List (ℕ × ClusterMessage op.Message))
        → Good json blank ag s h
        → All FromCluster ms
        → ReturnsBoth (handle_cluster_messages op json blank s h ms)
    unfolding handle_cluster_messages
    handle_cluster_messages-Returns s h ms c g =
        let (s', h', a, e, c') = cluster_loop-Returns s h ms false c g in
        let (s'', e', c'') = send_outgoing_msgs-Returns json blank ag s' h' c' in
        (s'', h', a, rw (e, handle_cluster_messages) (rw e'), c'')

    -- From a consistent state every round of the main loop on a genuine event returns without a
    -- panic, and keeps the server and its files consistent. A genuine event brings only messages
    -- that nodes of the cluster send, and no snapshot in place of entries.
    pub run_step-Returns :
        (s : Server op) (h : Host json.Contents) (counter : ℕ) (ev : Event op json blank)
        → Good json blank ag s h
        → IsGenuineEvent ev
        → ReturnsBoth (run_step op json blank s h counter ev)
    unfolding run_step
    run_step-Returns s h counter (timer now) c g =
        let (s', e, c'') =
          Calls.tick-Returns (library ag) json blank (Good-Steady json blank ag h) s c in
        (s', h, if leb 10 counter then 0 else counter + 1, rw e, c'')
    run_step-Returns s h counter (cluster_messages ms) c g =
        let (s', h', a, e, c') = handle_cluster_messages-Returns s h ms c g in
        (s', h', counter, rw e, c')
    run_step-Returns s h counter (client_messages ms) c g =
        let (s', e, c') = handle_client_messages-Returns json blank ag s h ms c in
        (s', h, counter, rw e, c')
    run_step-Returns s h counter (new_connection nc now) c g =
        let (s', e, c') = handle_recovered_connection-Returns json blank ag s h nc now c in
        (s', h, counter, rw e, c')

    -- From a consistent state every round of the loop that waits for the first leader, on a
    -- genuine event, returns without a panic, and keeps the server and its files consistent.
    pub establish_step-Returns :
        (s : Server op) (h : Host json.Contents) (ev : Event op json blank)
        → Good json blank ag s h
        → IsGenuineEvent ev
        → ReturnsBoth (establish_step op json blank s h ev)
    unfolding establish_step
    establish_step-Returns s h (timer now) c g =
        elim (Bool-cases (s.config.cluster.initial_leader == s.id)) [
          | inl first ↦
              let (s', over, e, c') =
                Calls.establish_timer-Returns (library ag) json blank (Good-Steady json blank ag h)
                  s now c in
              (s', h, over, rw first (rw e), c')
          | inr other ↦ (s, h, false, rw other, c)
        ]
    establish_step-Returns s h (cluster_messages ms) c g =
        handle_cluster_messages-Returns s h ms c g
    establish_step-Returns s h (client_messages ms) c g =
        let (s', e, c') = handle_client_messages-Returns json blank ag s h ms c in
        (s', h, false, rw e, c')
    establish_step-Returns s h (new_connection nc now) c g =
        let (s', e, c') = handle_recovered_connection-Returns json blank ag s h nc now c in
        (s', h, false, rw e, c')
