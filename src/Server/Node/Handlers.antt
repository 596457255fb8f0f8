-- ===== src/Server/Node/Handlers.antt =====
-- The handlers of server/server.rs that apply decided entries, and the two event loops.
use mathlib.Core.Option
use id2203_project.Base.{
  ℕ, suc, ◌+◌, id_key, Bool, true, false, Option, none, some, List, [], ◌∷◌, ◌==◌, ◌&&◌, ltb, leb,
  wrapping_add, if◌then◌else◌,
}
use id2203_project.Common.Messages.{
  ClusterMessage, omnipaxos_message, leader_start_signal, ClientMessage,
}
use id2203_project.Server.Configs.{OmniPaxosKvConfig, get_peers}
use id2203_project.Server.Database
use id2203_project.Server.Database.{Database, Json, Files}
use id2203_project.Server.Network.{Network, NewConnection, apply_connection}
use id2203_project.Server.Node.{
  OmniPaxos, Server, Host, snapshot_interval, snapshot_path, decided_commands, apply_entries,
  send_outgoing_msgs, handle_client_messages, send_cluster_start_signals, send_client_start_signals,
}

-- What was recovered, or an empty database at index 0.
unfoldable pub or_fresh : Option (Database × ℕ) → Database × ℕ
or_fresh (some found) = found
or_fresh none = (Database.new, 0)

module _ (op : OmniPaxos) (json : Json) (blank : json.Contents) where
  -- `OmniPaxosServer::new`, given the state that the library restores and the connected network.
  unfoldable pub new :
      OmniPaxosKvConfig op.Quorum → Files json → Bool → op.State → Network op.Message → Server op
  new config files readable omnipaxos network =
      let id = config.local.server_id in
      let (database, recovered_decided_idx) =
        or_fresh (Database.recover json files readable (snapshot_path id)) in
      record {
        id = id;
        database = Database.set_snapshot_path database (snapshot_path id);
        network = network;
        omnipaxos = omnipaxos;
        current_decided_idx = 0;
        omnipaxos_msg_buffer = [];
        config = config;
        peers = get_peers config id;
        entries_since_snapshot = 0;
        snapshot_decided_idx = recovered_decided_idx;
      }

  -- Saves a snapshot when enough entries have been applied since the last one.
  unfoldable pub persist : Server op → Host json.Contents → ℕ → Server op × Host json.Contents
  persist s h new_entries_applied =
      if ltb 0 new_entries_applied
      then (let since = wrapping_add s.entries_since_snapshot new_entries_applied in
          if leb snapshot_interval since
          then (
            record s { entries_since_snapshot = 0 },
            record h {
              files =
                  Database.save_snapshot json blank s.database h.files s.current_decided_idx
                    (h.faults h.saves);
              saves = suc h.saves;
            },
          )
          else (record s { entries_since_snapshot = since }, h))
      else (s, h)

  -- `handle_decided_entries` as far as the persisting of a snapshot, with the number of entries that
  -- it applied. `none` is a panic.
  unfoldable pub apply_decided : Server op → Option (Server op × ℕ)
  apply_decided s =
      let new_decided_idx = op.get_decided_idx s.omnipaxos in
      if ltb s.current_decided_idx new_decided_idx
      then elim (Option.bind (op.read_decided_suffix s.omnipaxos s.current_decided_idx)
          (decided_commands op)) [
            | none ↦ none
            | some commands ↦
                let p =
                  apply_entries op s.id s.snapshot_decided_idx s.current_decided_idx 0 commands
                    (record {
                      database = s.database;
                      network = s.network;
                      new_entries_applied = 0;
                    }) in
                some (
                  record s {
                    current_decided_idx = new_decided_idx;
                    database = p.database;
                    network = p.network;
                  },
                  p.new_entries_applied,
                )
          ]
      else some (s, 0)

  unfoldable pub handle_decided_entries :
      Server op → Host json.Contents → Option (Server op × Host json.Contents)
  handle_decided_entries s h =
      Option.map (λ (r : Server op × ℕ). persist r.0 h r.1) (apply_decided s)

  -- The result says whether a start signal came.
  unfoldable pub cluster_loop :
      Server op
      → Host json.Contents
      → List (ℕ × ClusterMessage op.Message)
      → Bool
      → Option (Server op × Host json.Contents × Bool)
  cluster_loop s h [] received = some (s, h, received)
  cluster_loop s h ((from, omnipaxos_message m) ∷ messages) received =
      elim (handle_decided_entries (record s { omnipaxos = op.handle_incoming s.omnipaxos m }) h) [
        | none ↦ none
        | some (s', h') ↦ cluster_loop s' h' messages received
      ]
  cluster_loop s h ((from, leader_start_signal start_time) ∷ messages) received =
      cluster_loop (send_client_start_signals op s start_time) h messages true

  unfoldable pub handle_cluster_messages :
      Server op
      → Host json.Contents
      → List (ℕ × ClusterMessage op.Message)
      → Option (Server op × Host json.Contents × Bool)
  unfolding cluster_loop
  handle_cluster_messages s h messages = elim (cluster_loop s h messages false) [
    | none ↦ none
    | some (s', h', received) ↦ Option.map (λ s''. (s'', h', received)) (send_outgoing_msgs op s')
  ]

  -- The start signals that a leader sends, `now` being the time for them.
  unfoldable pub start_signals : Server op → ℕ → Option (Server op)
  start_signals s now =
      Option.map (λ s'. send_client_start_signals op s' now) (send_cluster_start_signals op s now)

  unfoldable pub resend_if_leader : Server op → ℕ → Option (Server op)
  resend_if_leader s now = elim (op.get_current_leader s.omnipaxos) [
    | none ↦ some s
    | some (leader_id, accepting) ↦ if leader_id == s.id then start_signals s now else some s
  ]

  -- The branch for a connection that comes after the start, the same in both loops.
  unfoldable pub handle_recovered_connection :
      Server op → NewConnection op.Message → ℕ → Option (Server op)
  unfolding resend_if_leader start_signals
  handle_recovered_connection s c now =
      Option.bind (apply_connection s.network c)
        (λ n. Option.bind (resend_if_leader (record s { network = n }) now) (send_outgoing_msgs op))

  -- What wakes the loops, with the time at which it does.
  pub data Event : Type 0 where
    timer : ℕ → Event
    cluster_messages : List (ℕ × ClusterMessage op.Message) → Event
    client_messages : List (ℕ × ClientMessage) → Event
    new_connection : NewConnection op.Message → ℕ → Event

  -- One round of the main loop. The number is the count of ticks since the last log line.
  unfoldable pub run_step :
      Server op → Host json.Contents → ℕ → Event → Option (Server op × Host json.Contents × ℕ)
  run_step s h counter (timer now) =
      Option.map (λ s'. (s', h, if leb 10 counter then 0 else counter + 1))
        (send_outgoing_msgs op (record s { omnipaxos = op.tick s.omnipaxos }))
  run_step s h counter (cluster_messages messages) =
      Option.map (λ (r : Server op × Host json.Contents × Bool). (r.0, r.1, counter))
        (handle_cluster_messages s h messages)
  run_step s h counter (client_messages messages) =
      Option.map (λ s'. (s', h, counter)) (handle_client_messages op s messages)
  run_step s h counter (new_connection c now) =
      Option.map (λ s'. (s', h, counter)) (handle_recovered_connection s c now)

  -- One round of the loop before the main one; the result says whether the loop is over. The timer
  -- runs on the initial leader only.
  unfoldable pub take_leadership : Server op → Option (Server op)
  take_leadership s =
      send_outgoing_msgs op (record s { omnipaxos = op.try_become_leader s.omnipaxos })

  unfoldable pub establish_timer : Server op → ℕ → Option (Server op × Bool)
  unfolding take_leadership start_signals
  establish_timer s now = elim (op.get_current_leader s.omnipaxos) [
    | none ↦ Option.map (λ s'. (s', false)) (take_leadership s)
    | some (leader, accepting) ↦
        if (leader == s.id) && accepting
        then Option.map (λ s'. (s', true)) (start_signals s (now + 2000))
        else Option.map (λ s'. (s', false)) (take_leadership s)
  ]

  unfoldable pub establish_step :
      Server op → Host json.Contents → Event → Option (Server op × Host json.Contents × Bool)
  unfolding establish_timer
  establish_step s h (timer now) =
      if s.config.cluster.initial_leader == s.id
      then Option.map (λ (r : Server op × Bool). (r.0, h, r.1)) (establish_timer s now)
      else some (s, h, false)
  establish_step s h (cluster_messages messages) = handle_cluster_messages s h messages
  establish_step s h (client_messages messages) =
      Option.map (λ s'. (s', h, false)) (handle_client_messages op s messages)
  establish_step s h (new_connection c now) =
      Option.map (λ s'. (s', h, false)) (handle_recovered_connection s c now)
