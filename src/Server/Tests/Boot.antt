-- ===== src/Server/Tests/Boot.antt =====
-- A test of the server's program: it starts without a snapshot, node 3 connects, and then come a tick, a
-- message of the cluster and a tick.
use id2203_project.Base.{ℕ, String, ◌≡◌, refl, true, none, some, List, [], ◌∷◌, ◌⊎◌, inl}
use id2203_project.Common.Output.{Files}
use id2203_project.Common.Settings.{loaded, Loader, Variables}
use id2203_project.Server.Configs
use id2203_project.Server.Configs.{OmniPaxosKvConfig}
use id2203_project.Server.Database.{DatabaseSnapshot}
use id2203_project.Server.Network
use id2203_project.Server.Network.{to_peer, NewConnection}
use id2203_project.Server.Node.{Server, Host}
use id2203_project.Server.Node.Agreement.{library}
use id2203_project.Server.Node.Panics.Meets.{RunMeets}
use id2203_project.Server.Main.{Surroundings, start, running, panicked, main}
use id2203_project.Server.Main.Starts.{main-ReturnsUnless}
use id2203_project.Server.Tests.Toy.{toy, toy_agreement, toy_json, blank}
use id2203_project.Server.Tests.Wires.{config, addresses, peer}
use id2203_project.Server.Tests.Runs.{host}
use id2203_project.Server.Tests.Whole.{events, config_text, no_faults, no_faults-Succeeds}

abbrev var : Variables
var name = some "server.toml"

abbrev load : Loader Unit (OmniPaxosKvConfig ℕ)
load sources = loaded config

abbrev around : Surroundings toy String
around = record {
  resolve = λ addr. some addr;
  read_listen = λ addr port. some addr;
  build = λ c path. some 2;
}

abbrev arrivals : List (NewConnection ℕ)
arrivals = to_peer (peer 3 7) ∷ []

main-ReturnsUnless_example :
    (started : Server toy) × (start toy_json blank around config host true arrivals ≡ some started)
    × (((s : Server toy) × (h' : Host DatabaseSnapshot) × (outputs' : Files ℕ) × (main toy_json
              blank var load around config_text host true arrivals events
              (λ path. none)
              no_faults
            ≡ running s h' outputs')
          × (outputs' config.local.output_filepath ≡ some 1))
        ⊎ ((main toy_json blank var load around config_text host true arrivals events
                (λ path. none)
                no_faults
              ≡ panicked)
            × RunMeets toy_json blank started host events))
    × (RunMeets toy_json blank started host events
        → main toy_json blank var load around config_text host true arrivals events
            (λ path. none)
            no_faults
          ≡ panicked)
unfolding Configs.new Network.get_addrs Network.peer_addresses Network.new
main-ReturnsUnless_example =
    main-ReturnsUnless (library toy_agreement) toy_json blank var load around config_text host true
      arrivals events (λ path. none) no_faults config 2 "127.0.0.1" addresses 1 refl refl tt refl
      (inl refl) (tt, ((tt, tt), (tt, tt))) refl no_faults-Succeeds
