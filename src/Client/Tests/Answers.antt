-- ===== src/Client/Tests/Answers.antt =====
-- Tests of what calls are answered, with a read that comes between a write and its response.
use id2203_project.Base.{◌≡◌, refl, false, none, Option, some, List, [], ◌∷◌, arith, inl, inr}
use id2203_project.Common.Messages.{command_id, ServerMessage, write, read, start_signal}
use id2203_project.Common.Channel
use id2203_project.Client.Network
use id2203_project.Client.Data
use id2203_project.Base.HashMap
use id2203_project.Common.Spec.{empty}
use id2203_project.Client.ShimClient.{
  Client, put_call, get_call, call, server_message, handle_call, run_step, send_request_manual,
  wait_for_start_signal, wait_until_sync_time, Event, receive, take_answer, handle_server_message,
}
use id2203_project.Client.ShimClient.Program.{
  GenuineRun, Answers, reached, waited, coming, run, run-Answers,
}
use id2203_project.Client.ShimClient.Automatic.{send_request, send_request_lem}
use id2203_project.Client.ShimClient.Soundness.{Gains}
use id2203_project.Client.ShimClient.Matching.{Keeps, here, round}
use id2203_project.Client.Tests.{client, client-IsSound}

abbrev with_read : Client Unit
with_read = handle_call (handle_call client (put_call "k" "v" 7) 10) (get_call "k" 8) 11

kept : Keeps 0 (handle_call client (put_call "k" "v" 7) 10) with_read
unfolding run_step handle_call send_request_manual Network.send Channel.send
kept = round (call (get_call "k" 8) 11) here (omega arith) tt refl

-- A late response comes before the start signal; then a write is called and answered.
abbrev messages : List (Option ServerMessage)
messages = some (write 3) ∷ some (start_signal 9) ∷ []

abbrev events : List Event
events = call (put_call "k" "v" 7) 10 ∷ server_message (write 0) 11 ∷ []

genuine : GenuineRun (waited client messages 8) (coming client messages 8 events)
unfolding wait_for_start_signal wait_until_sync_time run_step handle_call send_request_manual
    Network.send Channel.send receive take_answer handle_server_message command_id Data.new
    Data.new_request Data.new_response HashMap.insert HashMap.get HashMap.without
genuine = (omega arith, (omega arith, tt))

run-Answers_example :
    (c' : Client Unit) × (run client messages 8 events ≡ some c')
    × Answers client c' (reached (waited client messages 8) (coming client messages 8 events))
unfolding wait_for_start_signal wait_until_sync_time
run-Answers_example = run-Answers client messages 8 events client-IsSound (inr (inl tt)) genuine

-- A read that no caller waits for.
send_request_lem_example :
    Gains none client (send_request client false 10)
    × ((send_request client false 10).next_request_id ≡ 1)
    × ((take_answer (send_request client false 10) (read 0 none)).answered ≡ [])
send_request_lem_example = send_request_lem client false 10 empty client-IsSound (omega arith)
