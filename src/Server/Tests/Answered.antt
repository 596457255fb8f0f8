-- ===== src/Server/Tests/Answered.antt =====
-- A test of what a client is sent in a run of the main loop: a start signal and the answers to its
-- two commands.
use id2203_project.Base.{ℕ, ◌≡◌, refl, ap, Option, none, some, List, [], ◌∷◌, id_key}
use mathlib.Core.Option
use id2203_project.Base.HashMap
use id2203_project.Common.Channel
use id2203_project.Common.Messages.{
  omnipaxos_message, leader_start_signal, write, read, start_signal,
}
use id2203_project.Common.Spec.{empty}
use id2203_project.Server.Database
use id2203_project.Server.Database.{DatabaseSnapshot}
use id2203_project.Server.Network
use id2203_project.Server.Network.Clients.{client}
use id2203_project.Server.Node
use id2203_project.Server.Node.{Server, Host}
use id2203_project.Server.Node.Handlers
use id2203_project.Server.Node.Handlers.{Event, cluster_messages, new, or_fresh}
use id2203_project.Server.Node.Program.{main_loop}
use id2203_project.Server.Node.Answers.{with_sent, replies}
use id2203_project.Server.Node.Invariant.{applied_idx}
use id2203_project.Server.Node.Told.{segment, between}
use id2203_project.Server.Tests.Toy.{toy, toy_agreement, toy_log, toy_json, blank}
use id2203_project.Server.Tests.Wires.{client_1}
use id2203_project.Server.Tests.Runs.{host, server}

abbrev pub events : List (Event toy toy_json blank)
events = cluster_messages ((2, leader_start_signal 9) ∷ (2, omnipaxos_message 5) ∷ []) ∷ []

abbrev State : Type 0
State = Server toy × Host DatabaseSnapshot × ℕ

abbrev or_else : Option State → State → State
or_else (some r) other = r
or_else none other = other

abbrev pub result : State
result = or_else (main_loop toy toy_json blank server host 0 events) (server, host, 0)

pub runs : main_loop toy toy_json blank server host 0 events ≡ some result
unfolding server new or_fresh Database.recover HashMap.get main_loop Handlers.run_step
    Handlers.handle_cluster_messages Handlers.cluster_loop Handlers.handle_decided_entries
    Handlers.apply_decided Node.apply_entries Node.apply_entry Node.decided_commands
    Node.send_outgoing_msgs Node.send_all Node.send_client_start_signals Node.signal_clients
    Network.send_to_client Network.send_to_cluster Channel.send Handlers.persist Option.bind
    Database.handle_command Network.cluster_id_to_idx HashMap.insert
runs = refl

pub answered :
    client result.0.network 1
    ≡ some (with_sent client_1 (start_signal 9 ∷ write 0 ∷ read 1 (some "b") ∷ []))
unfolding server new or_fresh Database.recover HashMap.get main_loop Handlers.run_step
    Handlers.handle_cluster_messages Handlers.cluster_loop Handlers.handle_decided_entries
    Handlers.apply_decided Node.apply_entries Node.apply_entry Node.decided_commands
    Node.send_outgoing_msgs Node.send_all Node.send_client_start_signals Node.signal_clients
    Network.send_to_client Network.send_to_cluster Channel.send Handlers.persist Option.bind
    Database.handle_command Network.cluster_id_to_idx HashMap.insert Database.set_snapshot_path
    Database.new
answered = refl

pub applied :
    segment
      (applied_idx toy_json blank toy_agreement server)
      (applied_idx toy_json blank toy_agreement result.0)
      toy_log
    ≡ toy_log
unfolding server new or_fresh Database.recover HashMap.get main_loop Handlers.run_step
    Handlers.handle_cluster_messages Handlers.cluster_loop Handlers.handle_decided_entries
    Handlers.apply_decided Node.apply_entries Node.apply_entry Node.decided_commands
    Node.send_outgoing_msgs Node.send_all Node.send_client_start_signals Node.signal_clients
    Network.send_to_client Network.send_to_cluster Channel.send Handlers.persist Option.bind
    Database.handle_command Network.cluster_id_to_idx HashMap.insert Database.set_snapshot_path
    Database.new
applied = refl

pub between_lem :
    between toy_json blank toy_agreement 1 server result.0 ≡ write 0 ∷ read 1 (some "b") ∷ []
unfolding server new or_fresh Database.recover Database.set_snapshot_path Database.new HashMap.get
    HashMap.insert
between_lem = ap (replies 1 1 empty) applied
