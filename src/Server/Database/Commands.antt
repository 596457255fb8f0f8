-- ===== src/Server/Database/Commands.antt =====
-- The database implements the sequential store.
use id2203_project.Base.{String, ◌≡◌, refl, Option, none, some}
use id2203_project.Common.Kv.{KvCommand, put, delete, get}
use id2203_project.Common.Spec.{apply, view, view-insert, view-without}
use id2203_project.Server.Database.{Database, handle_command}

-- Every command changes what is seen of the database as the sequential store says.
pub view-handle_command :
    (d : Database) (c : KvCommand) → view (handle_command d c).0.db ≡ apply (view d.db) c
unfolding handle_command
view-handle_command d (put k v) = view-insert k v d.db
view-handle_command d (delete k) = view-without k d.db
view-handle_command d (get k) = refl

-- A `get` returns the value at its key, and other commands return nothing.
abbrev pub answer : (String → Option String) → KvCommand → Option (Option String)
answer f (get k) = some (f k)
answer f _ = none

pub answer-handle_command :
    (d : Database) (c : KvCommand) → (handle_command d c).1 ≡ answer (view d.db) c
unfolding handle_command view
answer-handle_command d (put k v) = refl
answer-handle_command d (delete k) = refl
answer-handle_command d (get k) = refl

pub snapshot_path-handle_command :
    (d : Database) (c : KvCommand) → (handle_command d c).0.snapshot_path ≡ d.snapshot_path
unfolding handle_command
snapshot_path-handle_command d (put k v) = refl
snapshot_path-handle_command d (delete k) = refl
snapshot_path-handle_command d (get k) = refl
