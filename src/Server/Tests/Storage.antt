-- ===== src/Server/Tests/Storage.antt =====
-- Tests of the database and of its snapshot file.
use id2203_project.Base.{
  ℕ, String, text_key, ◌≡◌, refl, true, false, none, some, [], ◌∷◌, inl, arith, All,
}
use id2203_project.Base.HashMap
use id2203_project.Common.Kv.{get}
use id2203_project.Common.Spec.{Store, view}
use id2203_project.Server.Database.{
  Database, DatabaseSnapshot, SaveFaults, Files, handle_command, recover, save_steps, save_snapshot,
}
use id2203_project.Server.Database.Commands.{answer-handle_command, answer}
use id2203_project.Server.Database.Recovery.{
  OldOrNew, Recovers, save_steps-atomic, recover-save_snapshot, crash-Recovers,
}
use id2203_project.Server.Tests.Toy.{toy_json, blank, toy_json_laws}

abbrev path : String
path = "/app/logs/server-1-snapshot.json"

abbrev database : Database
database = record { db = ("k", "a") ∷ []; snapshot_path = some path }

abbrev no_files : Files toy_json
no_files p = none

abbrev all_ok : SaveFaults DatabaseSnapshot
all_ok = record {
  create_ok = true;
  write_failure = none;
  flush_ok = true;
  sync_ok = true;
  rename_ok = true;
}

abbrev sync_fails : SaveFaults DatabaseSnapshot
sync_fails = record all_ok { sync_ok = false }

answer-handle_command_example :
    (handle_command database (get "k")).1 ≡ answer (view database.db) (get "k")
answer-handle_command_example = answer-handle_command database (get "k")

save_steps-atomic_example :
    All
      (OldOrNew toy_json blank database no_files 4 path)
      (save_steps toy_json blank database no_files 4 sync_fails)
save_steps-atomic_example =
    save_steps-atomic toy_json blank database no_files 4 sync_fails path refl

recover-save_snapshot_example :
    (back : Database) × (recover toy_json
        (save_snapshot toy_json blank database no_files 4 all_ok)
        true
        path
      ≡ some (back, 4))
    × (view back.db ≡ view database.db)
    × (back.snapshot_path ≡ some path)
recover-save_snapshot_example =
    recover-save_snapshot toy_json blank toy_json_laws database no_files 4 all_ok path
      (record { db = ("k", "a") ∷ []; decided_idx = 4 }) refl refl refl refl refl refl refl

-- The key "k" has the value "a".
abbrev HoldsA : Store → ℕ → Type 0
HoldsA f idx = f "k" ≡ some "a"

no_files-Recovers : Recovers toy_json blank HoldsA no_files path
unfolding recover
no_files-Recovers readable d idx e = absurd (ground arith)

abbrev recovered : Database
recovered = record { db = ("k", "a") ∷ []; snapshot_path = some path }

crash-Recovers_example : HoldsA (view recovered.db) 4
unfolding save_snapshot recover view HashMap.get
crash-Recovers_example =
    crash-Recovers toy_json blank toy_json_laws HoldsA database no_files 4 all_ok path
      (save_snapshot toy_json blank database no_files 4 all_ok) refl no_files-Recovers refl
      (inl (λ p ne. refl)) true recovered 4 refl
