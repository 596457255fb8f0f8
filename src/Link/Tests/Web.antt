-- ===== src/Link/Tests/Web.antt =====
-- A test of an HTTP request from the log to its response: a read that comes after two writes of its key.
use id2203_project.Base.{◌≡◌, refl, sym, subst, All, true, some, [], ◌∷◌, ◌++◌, arith, take, id_key}
use id2203_project.Base.HashMap
use id2203_project.Common.Channel
use id2203_project.Common.Messages.{start_signal, write, read}
use id2203_project.Client.Network
use id2203_project.Client.Data
use id2203_project.Server.Database
use id2203_project.Server.Node.Handlers.{new, or_fresh}
use id2203_project.Server.Node.Answers.{with_sent}
use id2203_project.Server.Node.Told.{between}
use id2203_project.Server.Tests.Toy.{toy_agreement, toy_json, toy_json_laws, blank, toy_log}
use id2203_project.Server.Tests.Wires.{client_1}
use id2203_project.Server.Tests.Runs.{host, server, server-Good}
use id2203_project.Server.Tests.Answered.{events, result, runs, answered, applied, between_lem}
use id2203_project.Client.Connections.{reader}
use id2203_project.Client.ShimClient.{send_request_manual, handle_call, run_step}
use id2203_project.Client.ShimClient.Soundness.{IsGenuine}
use id2203_project.Client.ShimClient.Matching.{here}
use id2203_project.Client.Shim.{http_put, http_get}
use id2203_project.Client.Shim.Service.{
  Service, get_request, request, taken, poll, serve, serve_step, accept, take_call, after_round,
}
use id2203_project.Client.Shim.Served.{IsServed}
use id2203_project.Client.Shim.Served.Events.{serve-IsServed}
use id2203_project.Client.Shim.Messages.{arrivals}
use id2203_project.Client.Tests.Http.{ready, ready-IsServed, a_put}
use id2203_project.Link.Delivery.{open_inbox}
use id2203_project.Link.Http.{http_is_told}
use id2203_project.Link.Tests.{formats, server_back}
use id2203_project.Link.Tests.Told.{batches, chunks, arrive}

-- A write is called and taken.
abbrev called : Service Unit
called = serve ready (request a_put ∷ taken 10 ∷ [])

called-IsServed : IsServed called
unfolding serve_step accept http_put
called-IsServed =
    serve-IsServed ready (request a_put ∷ taken 10 ∷ []) ready-IsServed (tt, (omega arith, tt))

-- Then a read.
abbrev asked : Service Unit
asked = serve called (request (get_request "k") ∷ taken 11 ∷ [])

asked-IsServed : IsServed asked
unfolding serve_step accept http_put http_get serve take_call after_round handle_call
    send_request_manual run_step Network.send Channel.send Data.new_request
asked-IsServed =
    serve-IsServed called (request (get_request "k") ∷ taken 11 ∷ []) called-IsServed
      (tt, (omega arith, tt))

genuine :
    All (λ msg. IsGenuine msg asked.client) (between toy_json blank toy_agreement 1 server result.0)
unfolding serve serve_step accept take_call after_round http_put http_get run_step handle_call
    send_request_manual Network.send Channel.send Data.new_request
genuine =
    subst (All (λ msg. IsGenuine msg asked.client)) (sym between_lem)
      (omega arith, (omega arith, tt))

http_is_told_example :
    (serve_step (serve asked (arrivals (reader chunks open_inbox).taken 20)) (poll 1 true)).replies
    ≡ asked.replies ++ (1, "b") ∷ []
unfolding server new or_fresh Database.recover Database.set_snapshot_path Database.new HashMap.get
    HashMap.insert handle_call send_request_manual Network.send Channel.send serve serve_step accept
    take_call after_round http_put http_get run_step Data.new_request
http_is_told_example =
    http_is_told toy_json blank toy_agreement toy_json_laws formats server result.0 host result.1 0
      result.2 events 1 client_1
      (with_sent client_1 (start_signal 9 ∷ write 0 ∷ read 1 (some "b") ∷ [])) called asked
      (get_request "k") (take 2 toy_log) [] batches chunks 11 20 true server-Good
      ((tt, (tt, tt)), tt) (tt, tt) runs refl refl answered refl applied (refl, tt) server_back
      arrive called-IsServed (omega arith) refl here asked-IsServed refl refl genuine
