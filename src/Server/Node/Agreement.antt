-- ===== src/Server/Node/Agreement.antt =====
-- What is relied on of OmniPaxos. A Library accepts commands and returns decided entries, whatever
-- messages nodes of the cluster send. An Agreement also says what the entries are: the servers agree
-- on one log, each server's decided entries are a prefix of it, and those after an index are commands
-- as long as no part of the server's log has become a snapshot. The server never compacts its log, but
-- a node that lags behind may be sent a snapshot in place of entries (KVSnapshot::use_snapshots is
-- true), so the messages of an Agreement are those that bring none.
use id2203_project.Base.{ℕ, ◌-◌, ◌≤◌, ◌<◌, ◌≡◌, List, map, some, take, drop, length, word_mod}
use id2203_project.Common.Kv.{Command}
use id2203_project.Server.Node.{OmniPaxos}

pub record Library (op : OmniPaxos) : Type 1 where
  -- States of this server's library, and messages that nodes of the cluster send.
  pub IsValid : op.State → Type 0
  pub IsGenuine : op.Message → Type 0
  pub append-IsValid :
      (s s' : op.State) (c : Command) → op.append s c ≡ some s' → IsValid s → IsValid s'
  pub handle_incoming-IsValid :
      (s : op.State) (m : op.Message) → IsGenuine m → IsValid s → IsValid (op.handle_incoming s m)
  pub tick-IsValid : (s : op.State) → IsValid s → IsValid (op.tick s)
  pub try_become_leader-IsValid : (s : op.State) → IsValid s → IsValid (op.try_become_leader s)
  pub take_outgoing_messages-IsValid :
      (s : op.State) (buffer : List op.Message)
      → IsValid s
      → IsValid (op.take_outgoing_messages s buffer).0
  -- An append is refused only in a reconfiguration, which this program never starts.
  pub append_accepts :
      (s : op.State) (c : Command) → IsValid s → (s' : op.State) × (op.append s c ≡ some s')
  -- Something is returned for every index below the decided one, snapshots included.
  pub read_decided_suffix-total :
      (s : op.State) (from : ℕ)
      → IsValid s
      → from < op.get_decided_idx s
      → (entries : List op.LogEntry) × (op.read_decided_suffix s from ≡ some entries)

pub record Agreement (op : OmniPaxos) : Type 1 where
  -- The log that the cluster has decided at the end of the run that is looked at.
  pub log : List Command
  -- States of this server's library in such a run, with no part of its log in a snapshot, and messages
  -- that the cluster's nodes send and that bring no snapshot in place of entries.
  pub IsValid : op.State → Type 0
  pub IsGenuine : op.Message → Type 0
  pub append-IsValid :
      (s s' : op.State) (c : Command) → op.append s c ≡ some s' → IsValid s → IsValid s'
  pub handle_incoming-IsValid :
      (s : op.State) (m : op.Message) → IsGenuine m → IsValid s → IsValid (op.handle_incoming s m)
  pub tick-IsValid : (s : op.State) → IsValid s → IsValid (op.tick s)
  pub try_become_leader-IsValid : (s : op.State) → IsValid s → IsValid (op.try_become_leader s)
  pub take_outgoing_messages-IsValid :
      (s : op.State) (buffer : List op.Message)
      → IsValid s
      → IsValid (op.take_outgoing_messages s buffer).0
  -- An append is refused only in a reconfiguration, which this program never starts.
  pub append_accepts :
      (s : op.State) (c : Command) → IsValid s → (s' : op.State) × (op.append s c ≡ some s')
  pub decided-le-log : (s : op.State) → IsValid s → op.get_decided_idx s ≤ length log
  -- Indices are values of type `usize`.
  pub decided-lt-word : (s : op.State) → op.get_decided_idx s < word_mod
  pub read_decided_suffix_lem :
      (s : op.State) (from : ℕ)
      → IsValid s
      → from < op.get_decided_idx s
      → (entries : List op.LogEntry) × (op.read_decided_suffix s from ≡ some entries)
        × (map op.decided entries ≡ map some (take (op.get_decided_idx s - from) (drop from log)))

abbrev pub library : {op : OmniPaxos} → Agreement op → Library op
library ag = record {
  IsValid = ag.IsValid;
  IsGenuine = ag.IsGenuine;
  append-IsValid = ag.append-IsValid;
  handle_incoming-IsValid = ag.handle_incoming-IsValid;
  tick-IsValid = ag.tick-IsValid;
  try_become_leader-IsValid = ag.try_become_leader-IsValid;
  take_outgoing_messages-IsValid = ag.take_outgoing_messages-IsValid;
  append_accepts = ag.append_accepts;
  read_decided_suffix-total = λ s from v lt.
      let (entries, e, same) = ag.read_decided_suffix_lem s from v lt in (entries, e);
}
