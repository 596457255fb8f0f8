-- ===== src/Client/Tests/Load.antt =====
-- Tests of the load client, with one interval of ten requests in a second.
use id2203_project.Base.{ℕ, ◌≡◌, refl, true, none, some, List, [], ◌∷◌, arith, length}
use id2203_project.Common.Messages.{write, start_signal}
use id2203_project.Common.Output.{Files, FileFaults, Succeeds}
use id2203_project.Client.Results.{Formatters}
use id2203_project.Client.LoadClient.Program.{run, finished}
use id2203_project.Client.LoadClient.Finish.{IsReady, IsSaved, run-finishes}
use id2203_project.Client.Data
use id2203_project.Client.LoadClient.{
  LoadClient, Schedule, LoadEvent, response, request_tick, interval_tick, send_request,
  run_finished, run_step,
}
use id2203_project.Client.LoadClient.Rounds.{IsRunning}
use id2203_project.Client.Tests.{config, network}

abbrev idle_client : LoadClient Unit
idle_client = record {
  id = 1;
  network = network;
  client_data = Data.new;
  config = config;
  active_server = 1;
  final_request_count = none;
  next_request_id = 0;
}

abbrev last_interval : Schedule Unit
last_interval = record {
  intervals = [];
  read_ratio = tt;
  request_interval = 100;
  next_interval = 1000;
}

idle_client-IsRunning : IsRunning idle_client last_interval
unfolding Data.new
idle_client-IsRunning = record { next_id = refl; no_end = refl; timed = tt }

-- One request is out and has no response when the last interval ends, and the loop ends.
ends_early :
    (run_step (send_request idle_client true 10) last_interval interval_tick)
    ≡ some (
      record (send_request idle_client true 10) { final_request_count = some 1 },
      last_interval,
      true,
    )
unfolding run_step send_request Data.new Data.new_request run_finished
ends_early = refl

-- One interval, in which one request is sent and answered.
abbrev ready_client : LoadClient Unit
ready_client = record idle_client {
  config = record config {
    requests = record { duration_sec = 1; requests_per_sec = 10; read_ratio = tt } ∷ [];
  };
}

abbrev events : List (LoadEvent Unit)
events = request_tick (λ r. true) 10 ∷ response (write 0) 11 ∷ interval_tick ∷ []

-- A table is written as the number of its rows.
abbrev formatters : Formatters Unit ℕ
formatters = record { to_string_pretty = λ c. some 100; csv = λ rows. length rows }

abbrev no_faults : FileFaults ℕ
no_faults = record { create_ok = true; write_failure = none; flush_ok = true }

no_faults-Succeeds : Succeeds no_faults
no_faults-Succeeds = record { creates = refl; writes = refl; flushes = refl }

ready_client-IsReady : IsReady ready_client
unfolding Data.new
ready_client-IsReady = record {
  next_id = refl;
  no_end = refl;
  timed = ((omega arith, omega arith), tt);
}

run-finishes_example :
    (c' : LoadClient Unit) × (files' : Files ℕ) × (run formatters ready_client
        (some (start_signal 9))
        8
        events
        (λ path. none)
        no_faults
        no_faults
      ≡ some (finished c' files'))
    × (Data.request_count c'.client_data ≡ 1)
    × IsSaved formatters c' files'
unfolding Data.new
run-finishes_example =
    run-finishes formatters ready_client 9 8 events (λ path. none) no_faults no_faults 100
      ready_client-IsReady (omega arith, (omega arith, tt)) (omega arith) refl no_faults-Succeeds
      no_faults-Succeeds
