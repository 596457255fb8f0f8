-- ===== src/Server/Tests/Runs.antt =====
-- Tests of the server's handlers, on runs over the toy library.
use id2203_project.Base.{
  ℕ, ◌-◌, id_key, ◌≡◌, refl, true, none, some, List, [], ◌∷◌, arith, inl, take, drop,
}
use id2203_project.Common.Messages.{ClusterMessage, omnipaxos_message, leader_start_signal}
use id2203_project.Common.Spec.{view, replay}
use id2203_project.Server.Database
use id2203_project.Server.Database.{DatabaseSnapshot, SaveFaults}
use id2203_project.Server.Network.Clients.{client}
use id2203_project.Server.Node.{Server, Host, send_client_start_signals}
use id2203_project.Server.Node.Handlers.{new, or_fresh, handle_decided_entries}
use id2203_project.Server.Node.Invariant.{IsConsistent, Decides, applied_idx}
use id2203_project.Server.Node.Decided.{handle_decided_entries_lem}
use id2203_project.Server.Node.Sending.{client-send_client_start_signals}
use id2203_project.Server.Node.Run.{Run, boot, restart, between, Run-IsConsistent}
use id2203_project.Server.Node.Answers.{panics_on_other_entry, replicas_agree}
use id2203_project.Server.Tests.Toy.{
  toy, compacted, toy_log, toy_agreement, toy_json, blank, toy_json_laws,
}
use id2203_project.Server.Tests.Wires.{config, wired, wired-IsWired}

abbrev pub host : Host DatabaseSnapshot
host = record {
  files = λ p. none;
  faults = λ n. record {
    create_ok = true;
    write_failure = none;
    flush_ok = true;
    sync_ok = true;
    rename_ok = true;
  };
  saves = 0;
}

abbrev Good : Server toy → Host DatabaseSnapshot → Type 0
Good s h = IsConsistent toy_json blank toy_agreement s h

-- A server that starts where two entries are decided.
unfoldable pub server : Server toy
server = new toy toy_json blank config host.files true 2 wired

started : Run toy_json blank toy_agreement server host
unfolding server
started = boot config host true 2 wired refl tt wired-IsWired

pub server-Good : Good server host
server-Good = Run-IsConsistent toy_json blank toy_agreement toy_json_laws started

Run-IsConsistent_example : Good server host
Run-IsConsistent_example = Run-IsConsistent toy_json blank toy_agreement toy_json_laws started

handle_decided_entries_lem_example :
    (s' : Server toy) × (h' : Host DatabaseSnapshot) × (handle_decided_entries toy toy_json blank
        server host
      ≡ some (s', h'))
    × Good s' h'
    × Decides toy_json blank toy_agreement server s'
handle_decided_entries_lem_example =
    handle_decided_entries_lem toy_json blank toy_agreement toy_json_laws server host server-Good

-- An entry that is no decided command, where one is decided and none applied.
stuck_server : Server compacted
stuck_server = record {
  id = 1;
  database = Database.new;
  network = wired;
  omnipaxos = 1;
  current_decided_idx = 0;
  omnipaxos_msg_buffer = [];
  config = config;
  peers = 2 ∷ 3 ∷ [];
  entries_since_snapshot = 0;
  snapshot_decided_idx = 0;
}

panics_on_other_entry_example :
    handle_decided_entries compacted toy_json blank stuck_server host ≡ none
unfolding stuck_server
panics_on_other_entry_example =
    panics_on_other_entry compacted toy_json blank stuck_server host (take 1 toy_log) (omega arith)
      refl (inl refl)

-- The same server killed between two messages, and started again.
replicas_agree_example :
    view (new toy toy_json blank config host.files true 3 wired).database.db
    ≡ replay (view server.database.db) (
        take
          (applied_idx toy_json blank toy_agreement
              (new toy toy_json blank config host.files true 3 wired)
            - applied_idx toy_json blank toy_agreement server)
          (drop (applied_idx toy_json blank toy_agreement server) toy_log))
unfolding server new or_fresh Database.recover
replicas_agree_example =
    replicas_agree toy toy_json blank toy_agreement toy_json_laws server
      (new toy toy_json blank config host.files true 3 wired) host host started
      (restart host.files host config true 3 wired started (between refl) refl refl tt
        wired-IsWired)
      (omega arith)

messages : List (ℕ × ClusterMessage ℕ)
messages = (2, omnipaxos_message 7) ∷ (2, leader_start_signal 1000) ∷ []

-- The second client to register has the id 2, and no start signal is for it.
client-send_client_start_signals_example :
    client (send_client_start_signals toy server 1000).network 2 ≡ client server.network 2
unfolding server new
client-send_client_start_signals_example =
    client-send_client_start_signals toy server 1000 2 (omega arith)
