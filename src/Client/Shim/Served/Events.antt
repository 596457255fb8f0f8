-- ===== src/Client/Shim/Served/Events.antt =====
-- The invariant of the HTTP handlers and the client over the events that come.
use id2203_project.Base.{suc, ◌<◌, id_key, refl, none, some, List, [], ◌∷◌, All, word_mod}
use id2203_project.Client.ShimClient.{server_message, channel_closed, idle}
use id2203_project.Client.ShimClient.Soundness.{IsGenuine}
use id2203_project.Client.ShimClient.Rounds.{Registers}
use id2203_project.Client.Shim.Service.{
  starting, looping, reconnecting, ended, Task, Service, ServiceEvent, request, taken, server,
  server_closed, quiet, retry, poll, serve_step, serve,
}
use id2203_project.Client.Shim.Served.{
  IsServed, accept-IsServed, round-IsServed, take_call-IsServed, start_with-IsServed,
  try_again-IsServed, reply-IsServed,
}

module _ {Ratio : Type 0} where
  -- Fewer requests than the word limit, responses only to requests that were sent, and no failure
  -- between a connection and its registration.
  abbrev pub IsGenuineStep : ServiceEvent → Service Ratio → Type 0
  IsGenuineStep (request r) s = Unit
  IsGenuineStep (taken now) s = suc s.client.next_request_id < word_mod
  IsGenuineStep (server msg now) s = IsGenuine msg s.client
  IsGenuineStep (server_closed attempts) s = All (Registers s.client.active_server) attempts
  IsGenuineStep (quiet attempts) s = All (Registers s.client.active_server) attempts
  IsGenuineStep (retry attempts) s = All (Registers s.client.active_server) attempts
  IsGenuineStep (poll tx late) s = Unit

  by_task-IsServed :
      (task : Task) (at_start in_loop between at_end : Service Ratio)
      → IsServed at_start
      → IsServed in_loop
      → IsServed between
      → IsServed at_end
      → IsServed (elim task [
        | starting ↦ at_start
        | looping ↦ in_loop
        | reconnecting ↦ between
        | ended ↦ at_end
      ])
  by_task-IsServed starting a b c d ha hb hc hd = ha
  by_task-IsServed looping a b c d ha hb hc hd = hb
  by_task-IsServed reconnecting a b c d ha hb hc hd = hc
  by_task-IsServed ended a b c d ha hb hc hd = hd

  pub serve_step-IsServed :
      (s : Service Ratio) (ev : ServiceEvent)
      → IsServed s
      → IsGenuineStep ev s
      → IsServed (serve_step s ev)
  unfolding serve_step
  serve_step-IsServed s (request r) h g = accept-IsServed s r h
  serve_step-IsServed s (taken now) h g =
      by_task-IsServed s.task s _ s s h (take_call-IsServed s now s.channel refl h g) h h
  serve_step-IsServed s (server msg now) h g =
      by_task-IsServed s.task _ _ s s (start_with-IsServed s (some msg) now h)
        (round-IsServed s (server_message msg now) h g refl) h h
  serve_step-IsServed s (server_closed attempts) h g =
      by_task-IsServed s.task _ _ s s (start_with-IsServed s none 0 h)
        (round-IsServed s (channel_closed attempts) h g refl) h h
  serve_step-IsServed s (quiet attempts) h g =
      by_task-IsServed s.task s _ s s h (round-IsServed s (idle attempts) h g refl) h h
  serve_step-IsServed s (retry attempts) h g =
      by_task-IsServed s.task s s _ s h h (try_again-IsServed s attempts h g) h
  serve_step-IsServed s (poll tx late) h g = reply-IsServed s tx late h

  -- Each event is genuine for the service that it finds.
  abbrev pub AllGenuine : Service Ratio → List ServiceEvent → Type 0
  AllGenuine s [] = Unit
  AllGenuine s (ev ∷ events) = IsGenuineStep ev s × AllGenuine (serve_step s ev) events

  pub serve-IsServed :
      (s : Service Ratio) (events : List ServiceEvent)
      → IsServed s
      → AllGenuine s events
      → IsServed (serve s events)
  unfolding serve
  serve-IsServed s [] h g = h
  serve-IsServed s (ev ∷ events) h g =
      serve-IsServed (serve_step s ev) events (serve_step-IsServed s ev h g.0) g.1
