-- ===== src/Server/Tests/Toy.antt =====
-- A library whose state is the number of decided entries of a fixed log, each message deciding one
-- more, and a JSON library that keeps a snapshot as it is.
use Prim.Native.Nat.{min, ◌^◌}
use id2203_project.Base.{
  ℕ, ◌+◌, ◌-◌, ◌≤◌, ◌<◌, ◌≡◌, refl, true, Option, none, some, List, [], ◌∷◌, ◌++◌, arith, take,
  drop, length,
}
use id2203_project.Common.Kv.{Command, put, get}
use id2203_project.Server.Database.{Json, DatabaseSnapshot}
use id2203_project.Server.Database.Recovery.{JsonLaws}
use id2203_project.Server.Node.{OmniPaxos}
use id2203_project.Server.Node.Agreement.{Agreement, Library}

abbrev pub toy_json : Json
toy_json = record { Contents = DatabaseSnapshot; to_string = λ s. some s; from_str = λ c. some c }

abbrev pub blank : DatabaseSnapshot
blank = record { db = []; decided_idx = 0 }

toy_json-back :
    (snap : DatabaseSnapshot) (contents : DatabaseSnapshot)
    → ◌≡◌ {A = Option DatabaseSnapshot} (some snap) (some contents)
    → contents ≡ snap
toy_json-back snap contents e = ground arith

pub toy_json_laws : JsonLaws toy_json
toy_json_laws = record {
  from_str-to_string = λ snap contents e.
      (contents, refl, rw (toy_json-back snap contents e), rw (toy_json-back snap contents e));
}

abbrev pub toy_log : List Command
toy_log =
    record { client_id = 1; coordinator_id = 1; id = 0; kv_cmd = put "k" "a" }
    ∷ record { client_id = 1; coordinator_id = 2; id = 0; kv_cmd = put "k" "b" }
    ∷ record { client_id = 1; coordinator_id = 1; id = 1; kv_cmd = get "k" }
    ∷ []

abbrev pub toy : OmniPaxos
toy = record {
  State = ℕ;
  Message = ℕ;
  LogEntry = Command;
  Quorum = ℕ;
  decided = λ c. some c;
  get_receiver = λ m. m;
  get_decided_idx = λ s. min s 3;
  read_decided_suffix = λ s from. some (take (min s 3 - from) (drop from toy_log));
  append = λ s c. some s;
  handle_incoming = λ s m. s + 1;
  tick = λ s. s;
  try_become_leader = λ s. s;
  get_current_leader = λ s. some (1, true);
  take_outgoing_messages = λ s buffer. (s, buffer ++ 2 ∷ []);
}

-- The same library after a compaction: no entry is a decided command.
abbrev pub compacted : OmniPaxos
compacted = record toy { LogEntry = Command; decided = λ c. none }

pub min-lt-word : (s : ℕ) → min s 3 < 2 ^ 64
min-lt-word s = omega arith

pub min-le-log : (s : ℕ) → min s 3 ≤ length toy_log
min-le-log s = omega arith

abbrev pub toy_agreement : Agreement toy
toy_agreement = record {
  log = toy_log;
  IsValid = λ s. Unit;
  IsGenuine = λ m. Unit;
  append-IsValid = λ s s' c e v. tt;
  handle_incoming-IsValid = λ s m g v. tt;
  tick-IsValid = λ s v. tt;
  try_become_leader-IsValid = λ s v. tt;
  take_outgoing_messages-IsValid = λ s buffer v. tt;
  append_accepts = λ s c v. (s, refl);
  decided-le-log = λ s v. min-le-log s;
  decided-lt-word = min-lt-word;
  read_decided_suffix_lem = λ s from v lt. (take (min s 3 - from) (drop from toy_log), refl, refl);
}

-- The library of the compacted log: whatever it is sent, it returns entries.
abbrev pub compacted_library : Library compacted
compacted_library = record {
  IsValid = λ s. Unit;
  IsGenuine = λ m. Unit;
  append-IsValid = λ s s' c e v. tt;
  handle_incoming-IsValid = λ s m g v. tt;
  tick-IsValid = λ s v. tt;
  try_become_leader-IsValid = λ s v. tt;
  take_outgoing_messages-IsValid = λ s buffer v. tt;
  append_accepts = λ s c v. (s, refl);
  read_decided_suffix-total = λ s from v lt. (take (min s 3 - from) (drop from toy_log), refl);
}
