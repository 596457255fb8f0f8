-- ===== src/Client/Shim/Replies.antt =====
-- The responses that HTTP requests get, and what they say.
use id2203_project.Base.{
  ℕ, suc, ◌≤◌, ◌<◌, id_key, String, ◌≡◌, refl, ap, subst, ◌∙◌, Bool, true, none, some, List, [],
  ◌∷◌, ◌++◌, arith, Option-cases, inl, inr, Bool-cases, word_mod, if◌then◌else◌,
}
use id2203_project.Base.HashMap
use id2203_project.Base.HashMap.{HashMap, get-without}
use id2203_project.Common.Spec.{Store, respond}
use id2203_project.Client.Network.{slot}
use id2203_project.Client.Network.Slots.{is_open}
use id2203_project.Client.ShimClient.{Client, server_message, handle_call, run_step}
use id2203_project.Client.ShimClient.Calls.{occurrences, occurrences-answered}
use id2203_project.Client.ShimClient.Waiting.{command_of, text_of, handle_call-Waits}
use id2203_project.Client.ShimClient.Matching.{Keeps, Keeps-Waits, respond-IsGenuine, call_answered}
use id2203_project.Client.ShimClient.Soundness.{IsGenuine, handle_call-Gains}
use id2203_project.Common.Messages.{ServerMessage}
use id2203_project.Client.Shim.{Wait, wait_text, answered, dropped, elapsed}
use id2203_project.Client.Shim.Service.{
  Request, looping, has_receiver, handler, Service, ServiceEvent, request, taken, server, poll,
  after_round, reply, wait_of, serve_step, serve,
}
use id2203_project.Client.Shim.Numbers.{
  callers, issued, occurrences-callers, occurrences-get, caller-call_of, call_of, handler-takes,
}
use id2203_project.Client.Shim.Served.{IsServed}
use id2203_project.Client.Shim.Served.Events.{AllGenuine, serve_step-IsServed, serve-IsServed}

get-none :
    {V : Type 0} (k : ℕ) (m : HashMap ℕ V) → HashMap.get k m ≡ none → occurrences k (callers m) ≡ 0
unfolding HashMap.get
get-none k [] e = refl
get-none k ((j, w) ∷ m) e = ground (arith, e, get-none k m)

-- The first entry of a number that stood in none before.
pub get-first :
    {V : Type 0} (k : ℕ) (v : V) (m rest : HashMap ℕ V)
    → occurrences k (callers m) ≡ 0
    → HashMap.get k (m ++ (k, v) ∷ rest) ≡ some v
unfolding HashMap.get
get-first k v [] rest e = ground (arith, id_key.decides k k)
get-first k v ((j, w) ∷ m) rest e = ground (arith, e, get-first k v m rest)

issued-le : (x n : ℕ) → issued x n ≤ 1
issued-le x n = ground arith

module _ {Ratio : Type 0} where
  -- What a handler whose time is over sends.
  abbrev pub last_word : Service Ratio → ℕ → String
  last_word s tx = elim (HashMap.get tx s.client.answered) [
    | some text ↦ text
    | none ↦ if has_receiver s.task then "Error: timeout" else "Error: request dropped"
  ]

  late_lem :
      (s : Service Ratio) (tx : ℕ)
      → (wait : Wait) × (wait_of s tx true ≡ some wait) × (wait_text wait ≡ last_word s tx)
  unfolding wait_of
  late_lem s tx = elim (Option-cases (HashMap.get tx s.client.answered)) [
    | inr (text, e) ↦ (answered text, rw (e, wait_of) refl, rw (e, last_word) refl)
    | inl e ↦ elim (Bool-cases (has_receiver s.task)) [
      | inl up ↦ (elapsed, rw (e, wait_of) (rw up refl), rw (e, last_word) (rw up refl))
      | inr down ↦ (dropped, rw (e, wait_of) (rw down refl), rw (e, last_word) (rw down refl))
    ]
  ]

  -- In every state in which the invariant of the HTTP service holds, a request whose handler looks
  -- for its answer when its ten seconds are over has exactly one response then, whatever the
  -- client and the network have done.
  pub poll-responds :
      (s : Service Ratio) (tx : ℕ)
      → IsServed s
      → tx < s.next_call
      → occurrences tx (callers (serve_step s (poll tx true)).replies) ≡ 1
  unfolding serve_step reply
  poll-responds s tx h lt = elim (Option-cases (HashMap.get tx s.waiting)) [
    | inl gone ↦ rw (gone, reply) (ground (arith, h.each_once tx, get-none tx s.waiting gone, lt))
    | inr (r, there) ↦
        let (wait, over, text) = late_lem s tx in
        rw (there, reply)
          (rw over (
            ground (
              arith,
              h.each_once tx,
              lt,
              occurrences-get tx r s.waiting there,
              occurrences-callers tx tx (handler r tx true wait).1 s.replies,
              id_key.decides tx tx,
            )))
  ]

  answer_is_first :
      (s : Service Ratio) (tx : ℕ) (text : String) (first rest : List (ℕ × String))
      → IsServed s
      → s.client.answered ≡ first ++ (tx, text) ∷ rest
      → HashMap.get tx s.client.answered ≡ some text
  answer_is_first s tx text first rest h e =
      let counted = occurrences-answered tx first ((tx, text) ∷ rest) in
      let same = ap (λ answers. occurrences tx (callers answers)) e in
      let none_before : occurrences tx (callers first) ≡ 0 =
        ground
          (arith, h.none_lost tx, issued-le tx s.next_call, counted, same, id_key.decides tx tx) in
      ap (HashMap.get tx) e ∙ get-first tx text first rest none_before

  -- A handler that awaits an answer that the client has given sends it on, late or not.
  pub poll-tells :
      (s : Service Ratio) (tx : ℕ) (r : Request) (late : Bool) (text : String)
      (first rest : List (ℕ × String))
      → IsServed s
      → HashMap.get tx s.waiting ≡ some r
      → s.client.answered ≡ first ++ (tx, text) ∷ rest
      → (serve_step s (poll tx late)).replies ≡ s.replies ++ (tx, text) ∷ []
  unfolding serve_step reply wait_of
  poll-tells s tx r late text first rest h there e =
      let found = answer_is_first s tx text first rest h e in
      rw (there, reply) (rw (found, wait_of) (rw (handler-takes r tx (answered text)) refl))

  -- A round of the loop on a message.
  pub serve_step-receives :
      (s : Service Ratio) (msg : ServerMessage) (now : ℕ) (c : Client Ratio)
      → s.task ≡ looping
      → run_step s.client (server_message msg now) ≡ some (c, true)
      → serve_step s (server msg now) ≡ record s { client = c; task = looping }
  unfolding serve_step after_round
  serve_step-receives s msg now c at_head e = rw (at_head, serve_step) (rw (e, after_round) refl)

  -- The service when the client has taken a request from an empty channel.
  abbrev pub once_taken : Service Ratio → Request → ℕ → List ServiceEvent → Service Ratio
  once_taken s r now later = serve s (request r ∷ taken now ∷ later)

  -- An HTTP request that comes when the channel's first command is taken next (the client is
  -- connected and has sent fewer requests than the word limit) is told what the sequential store
  -- gives its command, when the response with that arrives after any further genuine events that
  -- neither answer the request nor lose the connection, the client is in its loop and the handler
  -- still waits: the handler's next look, late or not, adds exactly that response.
  pub request_is_told :
      (s : Service Ratio) (r : Request) (now at : ℕ) (later : List ServiceEvent) (f : Store)
      (late : Bool)
      → IsServed s
      → AllGenuine s (request r ∷ taken now ∷ later)
      → suc s.client.next_request_id < word_mod
      → is_open (slot s.client.network s.client.active_server) ≡ true
      → Keeps s.client.next_request_id
          (handle_call s.client (call_of r s.next_call) now)
          (once_taken s r now later).client
      → (once_taken s r now later).task ≡ looping
      → HashMap.get s.next_call (once_taken s r now later).waiting ≡ some r
      → (serve (once_taken s r now later) (
          server (respond f s.client.next_request_id (command_of (call_of r s.next_call))) at
          ∷ poll s.next_call late
          ∷ [])).replies
        ≡ (once_taken s r now later).replies
          ++ (s.next_call, text_of f (call_of r s.next_call)) ∷ []
  unfolding serve
  request_is_told s r now at later f late h g room up kept at_head there =
      let cmd = call_of r s.next_call in
      let id = s.client.next_request_id in
      let msg = respond f id (command_of cmd) in
      let s' = once_taken s r now later in
      let (c, e, told) = call_answered s.client s'.client cmd now at f h.sound room up kept in
      let (sound, waits) =
        Keeps-Waits cmd id kept (handle_call-Gains s.client cmd now h.sound room).0
          (handle_call-Waits s.client cmd now h.sound room up) in
      let h' : IsServed s' = serve-IsServed s (request r ∷ taken now ∷ later) h g in
      let received : serve_step s' (server msg at) ≡ record s' { client = c; task = looping } =
        serve_step-receives s' msg at c at_head e in
      let genuine : IsGenuine msg s'.client = respond-IsGenuine s'.client cmd id f waits in
      let h2 : IsServed (record s' { client = c; task = looping }) =
        subst IsServed received (serve_step-IsServed s' (server msg at) h' genuine) in
      let at_caller : c.answered ≡ s'.client.answered ++ (s.next_call, text_of f cmd) ∷ [] =
        told
        ∙ ap (λ tx. s'.client.answered ++ (tx, text_of f cmd) ∷ [])
            (caller-call_of r s.next_call) in
      ap (λ t. (serve_step t (poll s.next_call late)).replies) received
      ∙ poll-tells (record s' { client = c; task = looping }) s.next_call r late (text_of f cmd)
          s'.client.answered [] h2 there at_caller
