-- ===== src/Server/Tests/Whole.antt =====
-- A test of a whole run, over the library of a compacted log: the first tick of the timer establishes the
-- initial leader, and the message of the cluster after it is a panic.
use id2203_project.Base.{ℕ, ◌≡◌, refl, true, Option, none, some, List, [], ◌∷◌, ◌⊎◌}
use id2203_project.Common.Messages.{omnipaxos_message}
use id2203_project.Common.Output.{Files, FileFaults, Succeeds}
use id2203_project.Server.Configs.{OmniPaxosKvConfig}
use id2203_project.Server.Database.{DatabaseSnapshot}
use id2203_project.Server.Node.{Server, Host}
use id2203_project.Server.Node.Handlers.{Event, timer, cluster_messages, new}
use id2203_project.Server.Node.Panics.{IsFine}
use id2203_project.Server.Node.Panics.Meets.{RunMeets}
use id2203_project.Server.Node.Panics.Runs.{run-ReturnsUnless}
use id2203_project.Server.Node.Program.{run}
use id2203_project.Server.Tests.Toy.{toy, compacted, compacted_library, toy_json, blank}
use id2203_project.Server.Tests.Wires.{config, wired, wired-IsWired}
use id2203_project.Server.Tests.Runs.{host}

abbrev pub events : List (Event toy toy_json blank)
events = timer 10 ∷ cluster_messages ((2, omnipaxos_message 5) ∷ []) ∷ timer 20 ∷ []

abbrev pub config_text : OmniPaxosKvConfig ℕ → Option ℕ
config_text c = some c.local.server_id

abbrev pub no_faults : FileFaults ℕ
no_faults = record { create_ok = true; write_failure = none; flush_ok = true }

pub no_faults-Succeeds : Succeeds no_faults
no_faults-Succeeds = record { creates = refl; writes = refl; flushes = refl }

-- The same events, and a server that waits for the leader, over the library of the compacted log.
abbrev other_events : List (Event compacted toy_json blank)
other_events = timer 10 ∷ cluster_messages ((2, omnipaxos_message 5) ∷ []) ∷ timer 20 ∷ []

other_server : Server compacted
other_server = new compacted toy_json blank config host.files true 2 wired

other_server-IsFine : IsFine compacted_library toy_json blank other_server
unfolding other_server new
other_server-IsFine = record { valid = tt; wired = wired-IsWired }

run-ReturnsUnless_example :
    (((s' : Server compacted) × (h' : Host DatabaseSnapshot) × (outputs' : Files ℕ) × (run compacted
            toy_json blank config_text other_server host other_events
            (λ path. none)
            no_faults
          ≡ some (s', h', outputs'))
        × IsFine compacted_library toy_json blank s'
        × (outputs' other_server.config.local.output_filepath ≡ some 1))
      ⊎ ((run compacted toy_json blank config_text other_server host other_events
              (λ path. none)
              no_faults
            ≡ none)
          × RunMeets toy_json blank other_server host other_events))
    × (RunMeets toy_json blank other_server host other_events
        → run compacted toy_json blank config_text other_server host other_events
            (λ path. none)
            no_faults
          ≡ none)
unfolding other_server new
run-ReturnsUnless_example =
    run-ReturnsUnless compacted_library toy_json blank config_text other_server host other_events
      (λ path. none) no_faults 1 other_server-IsFine (tt, ((tt, tt), (tt, tt))) refl
      no_faults-Succeeds
