-- ===== src/Server/Node/Panics/Loops.antt =====
-- The rounds of a server's two event loops: they return, or an entry that is no command was read.
use id2203_project.Base.{
  ℕ, ◌+◌, id_key, ◌≡◌, refl, Bool, true, false, some, List, [], ◌∷◌, ◌==◌, All, leb, inl, inr,
  Bool-cases, if◌then◌else◌,
}
use id2203_project.Common.Messages.{ClusterMessage, omnipaxos_message, leader_start_signal}
use id2203_project.Server.Database.{Json}
use id2203_project.Server.Node.{OmniPaxos, Server, Host, send_client_start_signals}
use id2203_project.Server.Node.Handlers.{
  Event, timer, cluster_messages, client_messages, new_connection, handle_decided_entries,
  cluster_loop, handle_cluster_messages, run_step, establish_step,
}
use id2203_project.Server.Node.Agreement.{Library}
use id2203_project.Server.Node.Calls
use id2203_project.Server.Node.Panics.{
  ReadsOther, IsFine, IsFine-Steady, ReturnsUnless, handle_decided_entries-Returns,
}

module _ {op : OmniPaxos} (json : Json) (blank : json.Contents) where
  -- A batch of the cluster in which the server reads an entry that is no command.
  pub data BatchMeets
      : Server op → Host json.Contents → List (ℕ × ClusterMessage op.Message) → Type 0 where
    here :
        {s : Server op} {h : Host json.Contents} {ms : List (ℕ × ClusterMessage op.Message)}
        (from : ℕ) (m : op.Message)
        → ReadsOther op (record s { omnipaxos = op.handle_incoming s.omnipaxos m })
        → BatchMeets s h ((from, omnipaxos_message m) ∷ ms)
    later :
        {s s' : Server op} {h h' : Host json.Contents} {ms : List (ℕ × ClusterMessage op.Message)}
        (from : ℕ) (m : op.Message)
        → handle_decided_entries op json blank
            (record s { omnipaxos = op.handle_incoming s.omnipaxos m })
            h
          ≡ some (s', h')
        → BatchMeets s' h' ms
        → BatchMeets s h ((from, omnipaxos_message m) ∷ ms)
    signalled :
        {s : Server op} {h : Host json.Contents} {ms : List (ℕ × ClusterMessage op.Message)}
        (from t : ℕ)
        → BatchMeets (send_client_start_signals op s t) h ms
        → BatchMeets s h ((from, leader_start_signal t) ∷ ms)

  -- An event that is such a batch.
  abbrev pub EventMeets : Server op → Host json.Contents → Event op json blank → Type 0
  EventMeets s h (cluster_messages ms) = BatchMeets s h ms
  EventMeets s h _ = ⊥

module _ {op : OmniPaxos} (lib : Library op) (json : Json) (blank : json.Contents) where
  -- A message of the library is one that a node of the cluster sends.
  abbrev pub IsSent : ℕ × ClusterMessage op.Message → Type 0
  IsSent (from, omnipaxos_message m) = lib.IsGenuine m
  IsSent (from, leader_start_signal t) = Unit

  abbrev pub IsSentEvent : Event op json blank → Type 0
  IsSentEvent (timer now) = Unit
  IsSentEvent (cluster_messages ms) = All IsSent ms
  IsSentEvent (client_messages ms) = Unit
  IsSentEvent (new_connection nc now) = Unit

  cluster_loop-Returns :
      (s : Server op) (h : Host json.Contents) (ms : List (ℕ × ClusterMessage op.Message))
      (received : Bool)
      → IsFine lib json blank s
      → All IsSent ms
      → ReturnsUnless lib json blank
          (BatchMeets json blank s h ms)
          (cluster_loop op json blank s h ms received)
  unfolding cluster_loop
  cluster_loop-Returns s h [] r f g = inl (s, h, r, refl, f)
  cluster_loop-Returns s h ((from, omnipaxos_message m) ∷ ms) r f g =
      let o = op.handle_incoming s.omnipaxos m in
      let f1 =
        (IsFine-Steady lib json blank).with_parts s o s.network s.omnipaxos_msg_buffer f
          (lib.handle_incoming-IsValid s.omnipaxos m g.0 f.valid) f.wired in
      elim (handle_decided_entries-Returns lib json blank (record s { omnipaxos = o }) h f1) [
        | inl (s1, h1, e, f2) ↦ elim (cluster_loop-Returns s1 h1 ms r f2 g.1) [
          | inl (s2, h2, a, e2, f3) ↦ inl (s2, h2, a, rw (e, cluster_loop) e2, f3)
          | inr (e2, meets) ↦ inr (rw (e, cluster_loop) e2, later from m e meets)
        ]
        | inr (e, reads) ↦ inr (rw (e, cluster_loop) refl, here from m reads)
      ]
  cluster_loop-Returns s h ((from, leader_start_signal t) ∷ ms) r f g =
      let f1 =
        Calls.send_client_start_signals-Keeps lib json blank (IsFine-Steady lib json blank) s t f in
      elim (cluster_loop-Returns (send_client_start_signals op s t) h ms true f1 g.1) [
        | inl (s2, h2, a, e2, f3) ↦ inl (s2, h2, a, e2, f3)
        | inr (e2, meets) ↦ inr (e2, signalled from t meets)
      ]

  handle_cluster_messages-Returns :
      (s : Server op) (h : Host json.Contents) (ms : List (ℕ × ClusterMessage op.Message))
      → IsFine lib json blank s
      → All IsSent ms
      → ReturnsUnless lib json blank
          (BatchMeets json blank s h ms)
          (handle_cluster_messages op json blank s h ms)
  unfolding handle_cluster_messages
  handle_cluster_messages-Returns s h ms f g = elim (cluster_loop-Returns s h ms false f g) [
    | inl (s1, h1, a, e, f1) ↦
        let (s2, e2, f2) =
          Calls.send_outgoing_msgs-Returns lib json blank (IsFine-Steady lib json blank) s1 f1 in
        inl (s2, h1, a, rw (e, handle_cluster_messages) (rw e2), f2)
    | inr (e, meets) ↦ inr (rw (e, handle_cluster_messages) refl, meets)
  ]

  -- A round of the main loop.
  pub run_step-Returns :
      (s : Server op) (h : Host json.Contents) (counter : ℕ) (ev : Event op json blank)
      → IsFine lib json blank s
      → IsSentEvent ev
      → ReturnsUnless lib json blank
          (EventMeets json blank s h ev)
          (run_step op json blank s h counter ev)
  unfolding run_step
  run_step-Returns s h counter (timer now) f g =
      let (s', e, f') = Calls.tick-Returns lib json blank (IsFine-Steady lib json blank) s f in
      inl (s', h, if leb 10 counter then 0 else counter + 1, rw e, f')
  run_step-Returns s h counter (cluster_messages ms) f g =
      elim (handle_cluster_messages-Returns s h ms f g) [
        | inl (s', h', a, e, f') ↦ inl (s', h', counter, rw e, f')
        | inr (e, meets) ↦ inr (rw e, meets)
      ]
  run_step-Returns s h counter (client_messages ms) f g =
      let (s', e, f') =
        Calls.handle_client_messages-Returns lib json blank (IsFine-Steady lib json blank) s ms f in
      inl (s', h, counter, rw e, f')
  run_step-Returns s h counter (new_connection nc now) f g =
      let (s', e, f') =
        Calls.handle_recovered_connection-Returns lib json blank (IsFine-Steady lib json blank) s nc
          now f in
      inl (s', h, counter, rw e, f')

  -- A round of the loop that waits for the first leader.
  pub establish_step-Returns :
      (s : Server op) (h : Host json.Contents) (ev : Event op json blank)
      → IsFine lib json blank s
      → IsSentEvent ev
      → ReturnsUnless lib json blank
          (EventMeets json blank s h ev)
          (establish_step op json blank s h ev)
  unfolding establish_step
  establish_step-Returns s h (timer now) f g =
      elim (Bool-cases (s.config.cluster.initial_leader == s.id)) [
        | inl first ↦
            let (s', over, e, f') =
              Calls.establish_timer-Returns lib json blank (IsFine-Steady lib json blank) s now f in
            inl (s', h, over, rw first (rw e), f')
        | inr other ↦ inl (s, h, false, rw other, f)
      ]
  establish_step-Returns s h (cluster_messages ms) f g = handle_cluster_messages-Returns s h ms f g
  establish_step-Returns s h (client_messages ms) f g =
      let (s', e, f') =
        Calls.handle_client_messages-Returns lib json blank (IsFine-Steady lib json blank) s ms f in
      inl (s', h, false, rw e, f')
  establish_step-Returns s h (new_connection nc now) f g =
      let (s', e, f') =
        Calls.handle_recovered_connection-Returns lib json blank (IsFine-Steady lib json blank) s nc
          now f in
      inl (s', h, false, rw e, f')
