-- ===== src/Common/Kv.antt =====
-- common.rs, module kv
use id2203_project.Base.{ℕ, String}

pub data KvCommand : Type 0 where
  put : String → String → KvCommand
  delete : String → KvCommand
  get : String → KvCommand

pub record Command : Type 0 where
  pub client_id : ℕ
  pub coordinator_id : ℕ
  pub id : ℕ
  pub kv_cmd : KvCommand
