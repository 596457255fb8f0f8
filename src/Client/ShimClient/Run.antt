-- ===== src/Client/ShimClient/Run.antt =====
-- The life of a client of client/test_client.rs, from its start, as a relation: every call that reaches
-- it is answered once, or waits.
use mathlib.Core.Option.{some-injective}
use id2203_project.Base.{
  ℕ, ◌+◌, ◌<◌, id_key, ◌≡◌, refl, sym, ap, subst, ◌∙◌, Bool, true, Option, none, some, List, [],
  ◌∷◌, arith, word_mod,
}
use id2203_project.Base.HashMap
use id2203_project.Client.Configs.{ClientConfig}
use id2203_project.Client.Data
use id2203_project.Client.Network.{Attempt, is_connected}
use id2203_project.Client.Network.Connect.{Opens, new_lem}
use id2203_project.Client.Network.Slots.{connected-InRange}
use id2203_project.Client.ShimClient.{Client, Event, on_network, new, run_step, network_batch_size}
use id2203_project.Client.ShimClient.Calls.{one_of, occurrences, new_call, known}
use id2203_project.Client.ShimClient.Soundness.{IsSound, Gains}
use id2203_project.Client.ShimClient.Rounds.{IsGenuineEvent, run_step-Gains}

-- The calls with one more, if an event brings one.
abbrev pub with_call : Option ℕ → List ℕ → List ℕ
with_call none calls = calls
with_call (some tx) calls = tx ∷ calls

pub known-with_call :
    (x : ℕ) (tx : Option ℕ) (calls : List ℕ)
    → occurrences x (with_call tx calls) ≡ occurrences x calls + one_of x tx
known-with_call x none calls = omega arith
known-with_call x (some tx) calls = omega arith

module _ {Ratio : Type 0} where
  -- From a configuration whose server's name resolves and opens: the client starts.
  pub new-IsSound :
      (config : ClientConfig Ratio) (a : Attempt)
      → config.server_id + 1 < word_mod
      → Opens a (config.server_id, config.server_address)
      → (c : Client Ratio) × (new config a ≡ some c)
        × IsSound c
        × ((x : ℕ) → known x c ≡ 0)
        × (is_connected c.network c.active_server ≡ true)
  unfolding new Data.new HashMap.get
  new-IsSound config a fits opens =
      let id = config.server_id in
      let (n, e, connected, servers) =
        new_lem (id, config.server_address) [] network_batch_size a (fits, tt) (opens, tt) in
      let up : is_connected n id ≡ true = connected id ∙ ground (arith, id_key.decides id id) in
      (
        on_network config n,
        rw (e, new) refl,
        record {
          next_id = refl;
          puts_below = λ k le. refl;
          gets_below = λ k le. refl;
          puts_distinct = tt;
          gets_distinct = tt;
          in_range = connected-InRange n id up;
        },
        λ x. refl,
        up,
      )

  -- A client at the head of its loop, with the calls that have reached it.
  pub data Run : Client Ratio → List ℕ → Type 0 where
    start :
        {c : Client Ratio} (config : ClientConfig Ratio) (a : Attempt)
        → config.server_id + 1 < word_mod
        → Opens a (config.server_id, config.server_address)
        → new config a ≡ some c
        → Run c []
    round :
        {c c' : Client Ratio} {calls : List ℕ} (ev : Event)
        → Run c calls
        → IsGenuineEvent ev c
        → run_step c ev ≡ some (c', true)
        → Run c' (with_call (new_call ev) calls)

  -- In every state that the shim client reaches from its start by rounds on genuine events, its
  -- invariant holds (the next id is the number of requests, only ids that were given out are
  -- waited for, the server has a slot), and every call that has reached it has been answered or
  -- waits for its answer exactly as often as it came: none is lost and none is answered twice.
  pub Run-IsSound :
      {c : Client Ratio} {calls : List ℕ}
      → Run c calls
      → IsSound c × ((x : ℕ) → known x c ≡ occurrences x calls)
  Run-IsSound (start {c} config a fits opens e) =
      let (c', e', sound, none_known, up) = new-IsSound config a fits opens in
      let same : c' ≡ c = some-injective c' c (sym e' ∙ e) in
      subst (λ c. IsSound c × ((x : ℕ) → known x c ≡ 0)) same (sound, none_known)
  Run-IsSound (round {c} {c'} {calls} ev r g e) =
      let (sound, counted) = Run-IsSound r in
      let (c1, done, e1, gains) = run_step-Gains c ev sound g in
      let same : c1 ≡ c' =
        ap (λ (r : Client Ratio × Bool). r.0) (some-injective (c1, done) (c', true) (sym e1 ∙ e)) in
      let (sound', gained) = subst (λ c'. Gains (new_call ev) c c') same gains in
      (sound', λ x. gained x ∙ omega (arith, counted x, known-with_call x (new_call ev) calls))
