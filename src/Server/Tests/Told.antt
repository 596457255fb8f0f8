-- ===== src/Server/Tests/Told.antt =====
-- A test of what a client is told in a run: two batches of the cluster with a tick and a peer between them.
use id2203_project.Base.{ℕ, ◌≡◌, refl, some, List, [], ◌∷◌, id_key}
use id2203_project.Base.HashMap
use id2203_project.Common.Messages.{ServerMessage, omnipaxos_message, leader_start_signal}
use id2203_project.Server.Database.{DatabaseSnapshot}
use id2203_project.Server.Network.{to_peer}
use id2203_project.Server.Network.Clients.{client}
use id2203_project.Server.Node.{Server, Host}
use id2203_project.Server.Node.Handlers.{Event, timer, cluster_messages, new_connection, new}
use id2203_project.Server.Node.Program.{main_loop}
use id2203_project.Server.Node.Program.Whole.{Genuine, main_loop-Returns}
use id2203_project.Server.Node.Answers.{with_sent}
use id2203_project.Server.Node.Told.{answers_of, between}
use id2203_project.Server.Node.Told.Rounds.{main_loop-answers}
use id2203_project.Server.Tests.Toy.{toy, toy_agreement, toy_json, blank, toy_json_laws}
use id2203_project.Server.Tests.Wires.{client_1, peer}
use id2203_project.Server.Tests.Runs.{host, server, server-Good}

abbrev events : List (Event toy toy_json blank)
events =
    cluster_messages ((2, omnipaxos_message 5) ∷ (2, leader_start_signal 9) ∷ [])
    ∷ timer 10
    ∷ new_connection (to_peer (peer 2 8)) 20
    ∷ cluster_messages ((3, omnipaxos_message 6) ∷ [])
    ∷ []

genuine : Genuine toy_json blank toy_agreement toy_json_laws events
genuine = ((tt, (tt, tt)), (tt, (tt, ((tt, tt), tt))))

result :
    (s : Server toy) × (h : Host DatabaseSnapshot) × (counter : ℕ) × (main_loop toy toy_json blank
        server host 0 events
      ≡ some (s, h, counter))
result =
    let (s, h, counter, e, good) =
      main_loop-Returns toy_json blank toy_agreement toy_json_laws server host 0 events server-Good
        genuine in
    (s, h, counter, e)

main_loop-answers_example :
    (ms : List ServerMessage) × (client result.0.network 1 ≡ some (with_sent client_1 ms))
    × (answers_of ms ≡ between toy_json blank toy_agreement 1 server result.0)
unfolding server new HashMap.get
main_loop-answers_example =
    main_loop-answers toy_json blank toy_agreement toy_json_laws 1 server result.0 host result.1 0
      result.2 events client_1 server-Good genuine (tt, (tt, (tt, (tt, tt)))) result.3 refl refl
