-- ===== src/Server/Node.antt =====
-- server/server.rs. The OmniPaxos library is a parameter: its state, its messages, the entries that
-- it returns, and the calls that the server makes.
pub mod Handlers
pub mod Agreement
pub mod Entries
pub mod Invariant
pub mod Decided
pub mod Sending
pub mod Calls
pub mod Steps
pub mod Rounds
pub mod Panics
pub mod Run
pub mod Answers
pub mod Durable
pub mod Told
pub mod Program
use Prim.Native.String.{◌++◌ as str_append}
use mathlib.Core.Option
use id2203_project.Base.{
  ℕ, zero, suc, ◌+◌, ◌-◌, id_key, String, Bool, true, false, Option, none, some, List, [], ◌∷◌,
  ◌++◌, ◌==◌, ◌&&◌, ltb, leb, wrapping_add, if◌then◌else◌,
}
use id2203_project.Base.Decimal.{decimal}
use id2203_project.Common.Kv.{Command, KvCommand}
use id2203_project.Common.Messages.{
  ClusterMessage, omnipaxos_message, leader_start_signal, ClientMessage, append, ServerMessage,
  write, read, start_signal,
}
use id2203_project.Server.Configs.{OmniPaxosKvConfig, get_peers}
use id2203_project.Server.Database
use id2203_project.Server.Database.{Database, Json, SaveFaults, Files}
use id2203_project.Server.Network.{
  Network, NewConnection, apply_connection, send_to_cluster, send_to_client,
}

-- Calls that may fail return `none`.
pub record OmniPaxos : Type 1 where
  pub State : Type 0
  pub Message : Type 0
  pub LogEntry : Type 0
  pub Quorum : Type 0
  -- The command of a decided entry; `none` for the other kinds of entries.
  pub decided : LogEntry → Option Command
  pub get_receiver : Message → ℕ
  pub get_decided_idx : State → ℕ
  pub read_decided_suffix : State → ℕ → Option (List LogEntry)
  pub append : State → Command → Option State
  pub handle_incoming : State → Message → State
  pub tick : State → State
  pub try_become_leader : State → State
  pub get_current_leader : State → Option (ℕ × Bool)
  -- Moves the outgoing messages to the end of the buffer.
  pub take_outgoing_messages : State → List Message → State × List Message

abbrev pub snapshot_interval : ℕ
snapshot_interval = 1

-- Returns the file path for this server's snapshot.
unfoldable pub snapshot_path : ℕ → String
snapshot_path id = str_append "/app/logs/server-" (str_append (decimal id) "-snapshot.json")

abbrev pub response : ℕ → Option (Option String) → ServerMessage
response id (some result) = read id result
response id none = write id

module _ (op : OmniPaxos) where
  pub record Server : Type 0 where
    pub id : ℕ
    pub database : Database
    pub network : Network op.Message
    pub omnipaxos : op.State
    pub current_decided_idx : ℕ
    pub omnipaxos_msg_buffer : List op.Message
    pub config : OmniPaxosKvConfig op.Quorum
    pub peers : List ℕ
    pub entries_since_snapshot : ℕ
    pub snapshot_decided_idx : ℕ

  -- What the loop over decided commands changes.
  pub record Progress : Type 0 where
    pub database : Database
    pub network : Network op.Message
    pub new_entries_applied : ℕ

  -- `none` is the panic of `unreachable!`.
  unfoldable pub decided_commands : List op.LogEntry → Option (List Command)
  decided_commands [] = some []
  decided_commands (e ∷ es) = elim (op.decided e) [
    | none ↦ none
    | some command ↦ Option.map (λ cs. command ∷ cs) (decided_commands es)
  ]

-- The files, how the calls of each save end, and the number of saves so far.
pub record Host (Contents : Type 0) : Type 0 where
  pub files : String → Option Contents
  pub faults : ℕ → SaveFaults Contents
  pub saves : ℕ

module _ (op : OmniPaxos) where
  unfoldable pub apply_entry : ℕ → ℕ → ℕ → Command → Progress op → Progress op
  apply_entry id snapshot_decided_idx entry_idx command p =
      if leb entry_idx snapshot_decided_idx
      then p
      else let (database, result) = Database.handle_command p.database command.kv_cmd in
        record {
          database = database;
          network =
              if command.coordinator_id == id
              then send_to_client p.network command.client_id (response command.id result)
              else p.network;
          new_entries_applied = wrapping_add p.new_entries_applied 1;
        }

  unfoldable pub apply_entries : ℕ → ℕ → ℕ → ℕ → List Command → Progress op → Progress op
  apply_entries id snapshot_decided_idx old_decided_idx i [] p = p
  apply_entries id snapshot_decided_idx old_decided_idx i (command ∷ commands) p =
      apply_entries id snapshot_decided_idx old_decided_idx (suc i) commands (
        apply_entry id snapshot_decided_idx (wrapping_add (wrapping_add old_decided_idx i) 1)
          command p)

  -- `none` is the panic of an index out of range.
  unfoldable pub send_all : Network op.Message → List op.Message → Option (Network op.Message)
  send_all n [] = some n
  send_all n (msg ∷ msgs) = elim (send_to_cluster n (op.get_receiver msg) (omnipaxos_message msg)) [
    | none ↦ none
    | some n' ↦ send_all n' msgs
  ]

  unfoldable pub send_outgoing_msgs : Server op → Option (Server op)
  unfolding send_all
  send_outgoing_msgs s =
      let (omnipaxos, buffer) = op.take_outgoing_messages s.omnipaxos s.omnipaxos_msg_buffer in
      Option.map (λ n. record s { omnipaxos = omnipaxos; network = n; omnipaxos_msg_buffer = [] })
        (send_all s.network buffer)

  unfoldable pub append_to_log : Server op → ℕ → ℕ → KvCommand → Option (Server op)
  append_to_log s from command_id kv_command =
      Option.map (λ o. record s { omnipaxos = o })
        (op.append s.omnipaxos (record {
          client_id = from;
          coordinator_id = s.id;
          id = command_id;
          kv_cmd = kv_command;
        }))

  unfoldable pub append_all : Server op → List (ℕ × ClientMessage) → Option (Server op)
  append_all s [] = some s
  append_all s ((from, append command_id kv_command) ∷ messages) =
      elim (append_to_log s from command_id kv_command) [
        | none ↦ none
        | some s' ↦ append_all s' messages
      ]

  unfoldable pub handle_client_messages : Server op → List (ℕ × ClientMessage) → Option (Server op)
  handle_client_messages s messages = Option.bind (append_all s messages) send_outgoing_msgs

  unfoldable pub signal_peers : Network op.Message → List ℕ → ℕ → Option (Network op.Message)
  signal_peers n [] start_time = some n
  signal_peers n (peer ∷ peers) start_time =
      elim (send_to_cluster n peer (leader_start_signal start_time)) [
        | none ↦ none
        | some n' ↦ signal_peers n' peers start_time
      ]

  unfoldable pub send_cluster_start_signals : Server op → ℕ → Option (Server op)
  unfolding signal_peers
  send_cluster_start_signals s start_time =
      Option.map (λ n. record s { network = n }) (signal_peers s.network s.peers start_time)

  -- `count` clients from `client_id` on.
  unfoldable pub signal_clients : Network op.Message → ℕ → ℕ → ℕ → Network op.Message
  signal_clients n zero client_id start_time = n
  signal_clients n (suc count) client_id start_time =
      signal_clients (send_to_client n client_id (start_signal start_time)) count (client_id + 1)
        start_time

  -- The ids in `1..num_clients + 1`.
  unfoldable pub send_client_start_signals : Server op → ℕ → Server op
  unfolding signal_clients
  send_client_start_signals s start_time = record s {
    network = signal_clients s.network (wrapping_add s.config.local.num_clients 1 - 1) 1 start_time;
  }
