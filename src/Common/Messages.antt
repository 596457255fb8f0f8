-- ===== src/Common/Messages.antt =====
-- common.rs, module messages. The messages of the OmniPaxos library are a parameter.
use id2203_project.Base.{ℕ, String, Option, none, some}
use id2203_project.Common.Kv.{KvCommand}

pub data RegistrationMessage : Type 0 where
  node_register : ℕ → RegistrationMessage
  client_register : RegistrationMessage

-- Times are milliseconds since 1970.
pub data ClusterMessage (Message : Type 0) : Type 0 where
  omnipaxos_message : Message → ClusterMessage Message
  leader_start_signal : ℕ → ClusterMessage Message

pub data ClientMessage : Type 0 where
  append : ℕ → KvCommand → ClientMessage

pub data ServerMessage : Type 0 where
  write : ℕ → ServerMessage
  read : ℕ → Option String → ServerMessage
  start_signal : ℕ → ServerMessage

-- `none` is the panic of `unimplemented!`.
unfoldable pub command_id : ServerMessage → Option ℕ
command_id (write id) = some id
command_id (read id _) = some id
command_id (start_signal _) = none
