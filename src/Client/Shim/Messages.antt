-- ===== src/Client/Shim/Messages.antt =====
-- Messages that the client takes one after the other, while handlers wait.
use id2203_project.Base.{
  ℕ, id_key, String, Bool, ◌≡◌, refl, ap, subst, ◌∙◌, some, List, [], ◌∷◌, ◌++◌, map, All,
}
use id2203_project.Base.HashMap
use mathlib.Core.Option.{some-injective}
use id2203_project.Common.Messages.{ServerMessage}
use id2203_project.Client.ShimClient.{Client}
use id2203_project.Client.ShimClient.Soundness.{IsGenuine}
use id2203_project.Client.ShimClient.Receiving.{receive_each, receives, All-IsGenuine-next}
use id2203_project.Client.Shim.Service.{
  Request, Service, ServiceEvent, looping, server, poll, serve_step, serve,
}
use id2203_project.Client.Shim.Served.{IsServed}
use id2203_project.Client.Shim.Served.Events.{serve_step-IsServed}
use id2203_project.Client.Shim.Replies.{serve_step-receives, poll-tells}

abbrev pub arrivals : List ServerMessage → ℕ → List ServiceEvent
arrivals messages now = map (λ msg. server msg now) messages

module _ {Ratio : Type 0} where
  abbrev with_client : Service Ratio → Client Ratio → Service Ratio
  with_client s c = record s { client = c; task = looping }

  serve-arrivals :
      (s : Service Ratio) (messages : List ServerMessage) (now : ℕ) (c : Client Ratio)
      → IsServed s
      → s.task ≡ looping
      → All (λ msg. IsGenuine msg s.client) messages
      → receive_each s.client messages now ≡ some c
      → (serve s (arrivals messages now) ≡ with_client s c) × IsServed (with_client s c)
  unfolding serve receive_each
  serve-arrivals s [] now c h at_head g e =
      let same : s ≡ with_client s c =
        ap (λ task. record s { task = task }) at_head
        ∙ ap (with_client s) (some-injective s.client c e) in
      (same, subst IsServed same h)
  serve-arrivals s (msg ∷ messages) now c h at_head g e =
      let (c1, r) = receives s.client msg now h.sound g.0 in
      let first = serve_step-receives s msg now c1 at_head r.step in
      let h1 = subst IsServed first (serve_step-IsServed s (server msg now) h g.0) in
      let rest : receive_each c1 messages now ≡ some c = rw (r.step, receive_each) at e in
      let (all, h') =
        serve-arrivals (with_client s c1) messages now c h1 refl
          (All-IsGenuine-next s.client c1 messages r.next g.1) rest in
      (ap (λ s'. serve s' (arrivals messages now)) first ∙ all, h')

  -- A handler is told what is for its call among the answers that the messages bring.
  pub arrivals-tell :
      (s : Service Ratio) (messages : List ServerMessage) (now tx : ℕ) (r : Request) (late : Bool)
      (text : String) (first rest : List (ℕ × String)) (c : Client Ratio)
      → IsServed s
      → s.task ≡ looping
      → HashMap.get tx s.waiting ≡ some r
      → All (λ msg. IsGenuine msg s.client) messages
      → receive_each s.client messages now ≡ some c
      → c.answered ≡ first ++ (tx, text) ∷ rest
      → (serve_step (serve s (arrivals messages now)) (poll tx late)).replies
        ≡ s.replies ++ (tx, text) ∷ []
  arrivals-tell s messages now tx r late text first rest c h at_head there g e found =
      let (all, h') = serve-arrivals s messages now c h at_head g e in
      ap (λ s'. (serve_step s' (poll tx late)).replies) all
      ∙ poll-tells (with_client s c) tx r late text first rest h' there found
