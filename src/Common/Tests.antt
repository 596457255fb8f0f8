-- ===== src/Common/Tests.antt =====
-- Tests of the log snapshots.
use id2203_project.Base.{text_key, ◌≡◌, refl, true, none, some, List, [], ◌∷◌}
use id2203_project.Base.HashMap
use id2203_project.Common.Kv.{Command, KvCommand, put, delete}
use id2203_project.Common.Spec.{replay, view}
use id2203_project.Common.Snapshot.{KvSnapshot, create, merge}
use id2203_project.Common.Snapshot.Merge.{forgets, trace, merge-create, merge_resurrects}

abbrev command : KvCommand → Command
command c = record { client_id = 1; coordinator_id = 1; id = 0; kv_cmd = c }

abbrev batch : List Command
batch = command (put "k" "new") ∷ command (delete "k") ∷ command (put "j" "x") ∷ []

abbrev base : KvSnapshot
base = record { snapshotted = ("k", "old") ∷ []; deleted_keys = [] }

merge-create_example : view (merge base (create batch)).snapshotted "j" ≡ some "x"
unfolding forgets trace
merge-create_example = merge-create base batch "j"

merge_resurrects_example :
    (view
        (merge base (create (command (put "k" "new") ∷ command (delete "k") ∷ []))).snapshotted
        "k"
      ≡ some "old")
    × (replay (view base.snapshotted) (command (put "k" "new") ∷ command (delete "k") ∷ []) "k"
        ≡ none)
unfolding view HashMap.get
merge_resurrects_example =
    merge_resurrects base "k" "new" "old" (command (put "k" "new")) (command (delete "k")) refl refl
      refl

forgets-create : forgets "k" batch ≡ true
unfolding forgets trace
forgets-create = refl
