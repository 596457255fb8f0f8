-- ===== src/Server/Tests/Disk.antt =====
-- A test of what is on disk after a batch: the start of a server where two entries are decided.
use mathlib.Core.Option
use id2203_project.Base.{ℕ, ◌≡◌, refl, none, some, arith}
use id2203_project.Base.HashMap
use id2203_project.Server.Database
use id2203_project.Server.Database.{DatabaseSnapshot}
use id2203_project.Server.Network.{send_to_client}
use id2203_project.Server.Node.{
  Server, Host, snapshot_path, decided_commands, apply_entries, apply_entry,
}
use id2203_project.Server.Node.Handlers.{new, or_fresh, apply_decided, handle_decided_entries}
use id2203_project.Server.Node.Durable.{IsOnDisk, handle_decided_entries-IsOnDisk}
use id2203_project.Server.Tests.Toy.{toy, toy_json, blank, toy_json_laws}
use id2203_project.Server.Tests.Runs.{host, server}

after : Server toy × ℕ
after = elim (apply_decided toy toy_json blank server) [ some r ↦ r | none ↦ (server, 0) ]

handle_decided_entries-IsOnDisk_example :
    (s' : Server toy) × (h' : Host DatabaseSnapshot) × (handle_decided_entries toy toy_json blank
        server host
      ≡ some (s', h'))
    × (s'.database ≡ after.0.database)
    × IsOnDisk toy_json blank s' h' (snapshot_path 1)
unfolding after server new or_fresh Database.recover Database.set_snapshot_path
    Database.handle_command apply_decided decided_commands apply_entries apply_entry send_to_client
    HashMap.get HashMap.insert Option.bind
handle_decided_entries-IsOnDisk_example =
    handle_decided_entries-IsOnDisk toy_json blank toy_json_laws server after.0 host after.1
      (snapshot_path 1)
      (record { db = after.0.database.db; decided_idx = after.0.current_decided_idx }) refl
      (omega arith) refl (omega arith) refl
      (record { creates = refl; writes = refl; flushes = refl; syncs = refl; renames = refl })
