-- ===== src/Client/Tests.antt =====
-- Tests of the client, on a configuration with one server.
mod Answers
pub mod Http
mod Lines
mod Load
use mathlib.Core.Option
use id2203_project.Base.{
  ℕ, ◌<◌, String, ◌≡◌, refl, Bool, true, none, some, [], ◌∷◌, arith, id_key, contains, ◌↔◌,
  if◌then◌else◌,
}
use id2203_project.Base.HashMap
use id2203_project.Common.Channel
use id2203_project.Common.Messages.{append}
use id2203_project.Common.Kv.{get}
use id2203_project.Client.Configs.{
  ClientConfig, RequestInterval, get_request_delay, get_request_delay_lem,
}
use id2203_project.Client.Data
use id2203_project.Client.Network
use id2203_project.Client.Network.{Network, Attempt, connection_on, send, is_connected}
use id2203_project.Client.Network.Slots.{send_lem, is_open, after_send}
use id2203_project.Client.Network.Connect.{Opens, new_lem}
use id2203_project.Client.ShimClient.{
  Client, put_call, call, on_network, new, handle_call, run_step, lose_connection, get_call,
  send_request_manual,
}
use id2203_project.Client.ShimClient.Calls.{known, occurrences}
use id2203_project.Client.ShimClient.Soundness.{IsSound, Gains}
use id2203_project.Client.ShimClient.Rounds.{lose_connection_lem, run_step-Gains}
use id2203_project.Client.ShimClient.Run.{Run, start, round, Run-IsSound}

abbrev pub attempt : Attempt
attempt = record {
  to_socket_addrs = λ name. some ("10.0.0.1:8000" ∷ []);
  connect = λ id address. some 5;
}

abbrev pub opens : (server : ℕ × String) → Opens attempt server
opens server = record {
  address = "10.0.0.1:8000";
  others = [];
  stream = 5;
  resolves = refl;
  connects = refl;
}

abbrev pub config : ClientConfig Unit
config = record {
  location = "local";
  server_id = 1;
  server_address = "s1:8000";
  requests = [];
  sync_time = none;
  summary_filepath = "summary.json";
  output_filepath = "output.csv";
}

abbrev network : Network
network = record {
  server_connections = none ∷ some (connection_on 5) ∷ [];
  batch_size = 100;
  servers = (1, "s1:8000") ∷ [];
  aborted = [];
}

abbrev pub client : Client Unit
client = on_network config network

abbrev fast : RequestInterval Unit
fast = record { duration_sec = 1; requests_per_sec = 2000; read_ratio = tt }

get_request_delay_lem_example :
    ((get_request_delay fast ≡ none) ↔ (1000 < 2000))
    × ((delay : ℕ) → get_request_delay fast ≡ some delay → 0 < delay)
get_request_delay_lem_example = get_request_delay_lem fast

new_response-panics_example : Data.new_response Data.new 10 0 ≡ none
unfolding Data.new
new_response-panics_example = Data.new_response-panics Data.new 10 0 (omega arith)

new_lem_example :
    (n : Network) × (Network.new ((1, "s1:8000") ∷ (3, "s3:8000") ∷ []) 100 attempt ≡ some n)
    × ((j : ℕ) → is_connected n j ≡ contains j (1 ∷ 3 ∷ []))
    × (n.servers ≡ (1, "s1:8000") ∷ (3, "s3:8000") ∷ [])
new_lem_example =
    new_lem (1, "s1:8000") ((3, "s3:8000") ∷ []) 100 attempt (omega arith, (omega arith, tt))
      (opens (1, "s1:8000"), (opens (3, "s3:8000"), tt))

started : Run client []
unfolding new Network.new Network.initialize_connections Network.max_id Network.open_all
    Network.open_first Network.fill Network.set_slot Data.new Option.bind
started = start config attempt (omega arith) (opens (1, "s1:8000")) refl

called : Run (handle_call client (put_call "k" "v" 7) 10) (7 ∷ [])
unfolding run_step
called = round (call (put_call "k" "v" 7) 10) started (omega arith) refl

Run-IsSound_example :
    IsSound (handle_call client (put_call "k" "v" 7) 10)
    × ((x : ℕ) → known x (handle_call client (put_call "k" "v" 7) 10) ≡ occurrences x (7 ∷ []))
Run-IsSound_example = Run-IsSound called

pub client-IsSound : IsSound client
client-IsSound = (Run-IsSound started).0

-- A write and a read wait.
abbrev waiting : Client Unit
waiting = handle_call (handle_call client (put_call "k" "v" 7) 10) (get_call "k" 8) 11

waits : Run waiting (8 ∷ 7 ∷ [])
unfolding run_step handle_call send_request_manual Network.send Channel.send
waits = round (call (get_call "k" 8) 11) called (omega arith) refl

lose_connection_lem_example :
    (c' : Client Unit) × (ok : Bool) × (lose_connection waiting (attempt ∷ []) ≡ some (c', ok))
    × Gains none waiting c'
    × (c'.answered ≡ (7, "Error: connection lost") ∷ (8, "Error: connection lost") ∷ [])
    × (c'.pending_puts ≡ [])
    × (c'.pending_gets ≡ [])
    × (ok ≡ true → is_connected c'.network c'.active_server ≡ true)
unfolding handle_call send_request_manual Network.send Channel.send HashMap.insert
lose_connection_lem_example =
    lose_connection_lem waiting (attempt ∷ []) (Run-IsSound waits).0 ((λ addr. (5, refl)), tt)
