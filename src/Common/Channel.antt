-- ===== src/Common/Channel.antt =====
-- The sending side of a tokio channel, as server/network.rs and client/network.rs use it.
use id2203_project.Base.{Bool, true, Option, none, some, List, [], ◌∷◌, ◌++◌, if◌then◌else◌}

-- What was sent, and whether its receiver is still there.
pub record Outbox (M : Type 0) : Type 0 where
  pub sent : List M
  pub receiver_alive : Bool

-- A send fails when the receiver is gone.
unfoldable pub send : {M : Type 0} → Outbox M → M → Option (Outbox M)
send o m = if o.receiver_alive then some (record o { sent = o.sent ++ m ∷ [] }) else none

abbrev pub fresh_outbox : {M : Type 0} → Outbox M
fresh_outbox = record { sent = []; receiver_alive = true }
