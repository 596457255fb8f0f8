-- ===== src/Client/Main.antt =====
-- client/main.rs: the program of the shim client, from its configuration to the state in which the HTTP
-- handlers and the client's task run beside each other.
use id2203_project.Base.{
  ℕ, ◌+◌, ◌<◌, id_key, String, ◌≡◌, refl, sym, subst, ◌∙◌, Bool, true, Option, none, some, List, [],
  ◌∷◌, arith, if◌then◌else◌, word_mod,
}
use mathlib.Core.Option.{some-injective}
use id2203_project.Common.Settings.{loaded, failed, Loader, Variables}
use id2203_project.Client.Configs
use id2203_project.Client.Configs.{ClientConfig}
use id2203_project.Client.Network.{Attempt}
use id2203_project.Client.Network.Connect.{Opens}
use id2203_project.Client.ShimClient
use id2203_project.Client.ShimClient.{Client}
use id2203_project.Client.ShimClient.Run.{new-IsSound}
use id2203_project.Client.Shim.{MethodRouter, create_router}
use id2203_project.Client.Shim.Service.{Service, ServiceEvent, serving, serve}
use id2203_project.Client.Shim.Numbers.{issued}
use id2203_project.Client.Shim.Served.{IsServed}
use id2203_project.Client.Shim.Served.Events.{AllGenuine, serve-IsServed}

unissued : (x : ℕ) → 0 ≡ issued x 0
unissued x = ground arith

-- What `axum::serve` is given: the address, the routes, and the state that their handlers share.
pub record App (Ratio : Type 0) : Type 0 where
  pub addr : List ℕ × ℕ
  pub router : List (String × MethodRouter)
  pub service : Service Ratio

module _ {Ratio : Type 0} where
  abbrev app_of : Client Ratio → App Ratio
  app_of client = record {
    addr = (0 ∷ 0 ∷ 0 ∷ 0 ∷ [], 3000);
    router = create_router;
    service = serving client;
  }

module _ {E Ratio : Type 0} where
  -- Nothing is a panic: without a configuration, or a server that can be reached, or the port.
  unfoldable pub main :
      Variables → Loader E (ClientConfig Ratio) → Attempt → Bool → Option (App Ratio)
  main var load a binds = elim (Configs.new var load) [
    | none ↦ none
    | some (failed e) ↦ none
    | some (loaded config) ↦ elim (ShimClient.new config a) [
      | none ↦ none
      | some client ↦ if binds then some (app_of client) else none
    ]
  ]

  -- A client program that has read its configuration (with a server id below the word limit) and
  -- whose server's name resolves and opens keeps its invariant on every interleaving of HTTP
  -- requests, turns of the client and polls of the handlers whose events are genuine: the client's
  -- task never ends; each request has one response or its handler waits for it, not both and not
  -- twice; and each call stands once in the channel, among the calls that the client holds, or
  -- among its answers.
  pub main-IsServed :
      (var : Variables) (load : Loader E (ClientConfig Ratio)) (a : Attempt)
      (config : ClientConfig Ratio) (app : App Ratio) (events : List ServiceEvent)
      → Configs.new var load ≡ some (loaded config)
      → config.server_id + 1 < word_mod
      → Opens a (config.server_id, config.server_address)
      → main var load a true ≡ some app
      → AllGenuine app.service events
      → IsServed (serve app.service events)
  unfolding main
  main-IsServed var load a config app events e fits opens starts genuine =
      let (c, made, sound, none_known, up) = new-IsSound config a fits opens in
      let same : some (app_of c) ≡ some app = sym (rw (e, main) (rw made refl)) ∙ starts in
      let at_start : IsServed (app_of c).service = record {
        running = refl;
        sound = sound;
        each_once = λ x. unissued x;
        none_lost = λ x. omega (arith, none_known x, unissued x);
      } in
      serve-IsServed app.service events
        (subst (λ (app : App Ratio). IsServed app.service) (some-injective (app_of c) app same)
          at_start)
        genuine
