-- ===== src/Client/Tests/Http.antt =====
-- Tests of the HTTP handlers beside the client: a write and a read, answered in turn.
use id2203_project.Base.{◌≡◌, refl, true, false, some, List, [], ◌∷◌, ◌++◌, arith}
use mathlib.Core.Option
use id2203_project.Base.HashMap
use id2203_project.Common.Channel
use id2203_project.Common.Settings.{loaded, Loader, Variables}
use id2203_project.Common.Messages.{command_id, write}
use id2203_project.Common.Spec.{empty}
use id2203_project.Client.Configs
use id2203_project.Client.Configs.{ClientConfig}
use id2203_project.Client.Data
use id2203_project.Client.Network
use id2203_project.Client.ShimClient
use id2203_project.Client.ShimClient.{
  Client, put_call, get_call, call, handle_call, run_step, send_request_manual, receive,
  take_answer, handle_server_message, wait_for_start_signal,
}
use id2203_project.Client.ShimClient.Calls.{occurrences}
use id2203_project.Client.ShimClient.Matching.{here, round}
use id2203_project.Client.Shim.{http_put, http_get, post_http_put, get_http_get}
use id2203_project.Client.Shim.Service.{
  Service, ServiceEvent, Request, put_request, get_request, request, taken, server, server_closed,
  poll, looping, serving, serve, serve_step, accept, take_call, after_round, reply, wait_of,
  start_with,
}
use id2203_project.Client.Shim.Numbers.{callers}
use id2203_project.Client.Shim.Served.{IsServed}
use id2203_project.Client.Shim.Served.Events.{AllGenuine}
use id2203_project.Client.Shim.Replies.{poll-responds, once_taken, request_is_told}
use id2203_project.Client.Main.{App, main, main-IsServed}
use id2203_project.Client.Tests.{config, attempt, opens, client}

abbrev var : Variables
var name = some "client.toml"

abbrev load : Loader Unit (ClientConfig Unit)
load sources = loaded config

abbrev app : App Unit
app = record {
  addr = (0 ∷ 0 ∷ 0 ∷ 0 ∷ [], 3000);
  router = ("/put", post_http_put) ∷ ("/get/:key", get_http_get) ∷ [];
  service = serving client;
}

abbrev pub a_put : Request
a_put = put_request (record { key = "k"; value = "a" })

-- The messages end before the loop begins; then a write is called, answered and looked for.
abbrev events : List ServiceEvent
events =
    server_closed []
    ∷ request a_put
    ∷ taken 10
    ∷ server (write 0) 11
    ∷ poll 0 false
    ∷ request a_put
    ∷ []

starts : main var load attempt true ≡ some app
unfolding main Configs.new ShimClient.new Network.new Network.initialize_connections Network.max_id
    Network.open_all Network.open_first Network.fill Network.set_slot Data.new Option.bind
starts = refl

genuine : AllGenuine app.service events
unfolding serve_step accept take_call after_round reply wait_of start_with wait_for_start_signal
    http_put run_step handle_call send_request_manual Network.send Channel.send Data.new
    Data.new_request
genuine = (tt, (tt, (omega arith, (omega arith, (tt, (tt, tt))))))

main-IsServed_example : IsServed (serve app.service events)
unfolding Configs.new
main-IsServed_example =
    main-IsServed var load attempt config app events refl (omega arith) (opens (1, "s1:8000"))
      starts genuine

served : IsServed (serve app.service events)
unfolding Configs.new
served =
    main-IsServed var load attempt config app events refl (omega arith) (opens (1, "s1:8000"))
      starts genuine

poll-responds_example :
    occurrences 1 (callers (serve_step (serve app.service events) (poll 1 true)).replies) ≡ 1
unfolding serve serve_step accept take_call after_round reply wait_of start_with
    wait_for_start_signal http_put run_step handle_call send_request_manual Network.send
    Channel.send Data.new Data.new_request Data.new_response receive take_answer
    handle_server_message command_id HashMap.insert HashMap.get HashMap.without
poll-responds_example = poll-responds (serve app.service events) 1 served (omega arith)

-- The first write is answered in the time of its handler.
replied : (serve app.service events).replies ≡ (0, "Ok") ∷ []
unfolding serve serve_step accept take_call after_round reply wait_of start_with
    wait_for_start_signal http_put run_step handle_call send_request_manual Network.send
    Channel.send Data.new Data.new_request Data.new_response receive take_answer
    handle_server_message command_id HashMap.insert HashMap.get HashMap.without
replied = refl

-- At the head of the loop.
abbrev pub ready : Service Unit
ready = record (serving client) { task = looping }

pub ready-IsServed : IsServed ready
unfolding serve serve_step start_with wait_for_start_signal Configs.new
ready-IsServed =
    main-IsServed var load attempt config app (server_closed [] ∷ []) refl (omega arith)
      (opens (1, "s1:8000")) starts (tt, tt)

-- A read is called and taken before the response to the write comes.
abbrev later : List ServiceEvent
later = request (get_request "k") ∷ taken 11 ∷ poll 0 false ∷ []

request_is_told_example :
    (serve (once_taken ready a_put 10 later) (server (write 0) 12 ∷ poll 0 true ∷ [])).replies
    ≡ (once_taken ready a_put 10 later).replies ++ (0, "Ok") ∷ []
unfolding serve serve_step accept take_call after_round reply wait_of http_put http_get run_step
    handle_call send_request_manual Network.send Channel.send Data.new Data.new_request
    HashMap.insert HashMap.get HashMap.without
request_is_told_example =
    request_is_told ready a_put 10 12 later empty true ready-IsServed
      (tt, (omega arith, (tt, (omega arith, (tt, tt))))) (omega arith) refl
      (round (call (get_call "k" 1) 11) here (omega arith) tt refl) refl refl
