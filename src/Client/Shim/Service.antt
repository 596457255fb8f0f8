-- ===== src/Client/Shim/Service.antt =====
-- The HTTP handlers of client/shim.rs and the client's task beside each other, as client/main.rs runs
-- them. An event is the moment at which a call, a message or the end of a wait takes effect; what the
-- network does and when a handler's time is over are parts of the events.
use mathlib.Core.Option
use id2203_project.Base.{
  ℕ, suc, id_key, String, Bool, true, false, Option, none, some, List, [], ◌∷◌, ◌++◌, ltb, length,
  if◌then◌else◌,
}
use id2203_project.Base.HashMap
use id2203_project.Base.HashMap.{HashMap}
use id2203_project.Common.Messages.{ServerMessage}
use id2203_project.Client.Network.{Network, Attempt}
use id2203_project.Client.ShimClient.{
  Client, ApiCommand, call, server_message, channel_closed, idle, run_step, reconnect_loop,
  wait_for_start_signal,
}
use id2203_project.Client.Shim.{PutReq, Wait, answered, dropped, elapsed, http_put, http_get}

-- The two routes, with what axum's extractors take from a request.
pub data Request : Type 0 where
  put_request : PutReq → Request
  get_request : String → Request

abbrev pub handler : Request → ℕ → Bool → Wait → Option ApiCommand × String
handler (put_request payload) = http_put payload
handler (get_request key) = http_get key

-- Where the task of `run` is: before its loop, at the head of it, or between attempts to reconnect. It
-- ends by a panic only.
pub data Task : Type 0 where
  starting looping reconnecting ended : Task

module _ (Ratio : Type 0) where
  -- The commands in the channel, the handlers that await their answers and the bodies of the responses,
  -- by the numbers of their calls.
  pub record Service : Type 0 where
    pub client : Client Ratio
    pub task : Task
    pub channel : List ApiCommand
    pub waiting : HashMap ℕ Request
    pub replies : List (ℕ × String)
    pub next_call : ℕ

pub data ServiceEvent : Type 0 where
  -- A handler reaches its `send`.
  request : Request → ServiceEvent
  -- The client takes a command.
  taken : ℕ → ServiceEvent
  server : ServerMessage → ℕ → ServiceEvent
  server_closed : List Attempt → ServiceEvent
  -- Two seconds without a command or a message.
  quiet : List Attempt → ServiceEvent
  -- Further attempts to reconnect.
  retry : List Attempt → ServiceEvent
  -- A handler looks for its answer, and whether its ten seconds are over.
  poll : ℕ → Bool → ServiceEvent

abbrev pub channel_capacity : ℕ
channel_capacity = 100

abbrev pub has_receiver : Task → Bool
has_receiver ended = false
has_receiver _ = true

module _ {Ratio : Type 0} where
  abbrev pub serving : Client Ratio → Service Ratio
  serving client = record {
    client = client;
    task = starting;
    channel = [];
    waiting = [];
    replies = [];
    next_call = 0;
  }

  -- A send to a channel without a receiver fails; one to a full channel waits.
  unfoldable pub accept : Service Ratio → Request → Service Ratio
  accept s r =
      let tx = s.next_call in
      let (command, body) = handler r tx (has_receiver s.task) elapsed in
      elim command [
        | none ↦ record s { replies = s.replies ++ (tx, body) ∷ []; next_call = suc tx }
        | some cmd ↦
            if ltb (length s.channel) channel_capacity
            then record s {
              channel = s.channel ++ cmd ∷ [];
              waiting = s.waiting ++ (tx, r) ∷ [];
              next_call = suc tx;
            }
            else s
      ]

  -- The service after a round of the client; nothing is a panic.
  unfoldable pub after_round : Service Ratio → Option (Client Ratio × Bool) → Service Ratio
  after_round s none = record s { task = ended }
  after_round s (some (c, true)) = record s { client = c; task = looping }
  after_round s (some (c, false)) = record s { client = c; task = reconnecting }

  unfoldable pub take_call : Service Ratio → ℕ → Service Ratio
  take_call s now = elim s.channel [
    | [] ↦ s
    | cmd ∷ rest ↦ after_round (record s { channel = rest }) (run_step s.client (call cmd now))
  ]

  -- One message, or the end of the channel, while the client waits for its start signal.
  unfoldable pub start_with : Service Ratio → Option ServerMessage → ℕ → Service Ratio
  start_with s message now = elim (wait_for_start_signal s.client (message ∷ []) now) [
    | none ↦ s
    | some (c, left) ↦ record s { client = c; task = looping }
  ]

  unfoldable pub try_again : Service Ratio → List Attempt → Service Ratio
  try_again s attempts = after_round s (
      Option.map (λ (r : Network × Bool). (record s.client { network = r.0 }, r.1))
        (reconnect_loop s.client.network s.client.active_server attempts))

  -- `timeout` looks at the answer first, then at the time. Nothing: the handler still waits.
  unfoldable pub wait_of : Service Ratio → ℕ → Bool → Option Wait
  wait_of s tx late = elim (HashMap.get tx s.client.answered) [
    | some text ↦ some (answered text)
    | none ↦ if has_receiver s.task then (if late then some elapsed else none) else some dropped
  ]

  unfoldable pub reply : Service Ratio → ℕ → Bool → Service Ratio
  reply s tx late = elim (HashMap.get tx s.waiting) [
    | none ↦ s
    | some r ↦ elim (wait_of s tx late) [
      | none ↦ s
      | some wait ↦ record s {
        waiting = HashMap.without tx s.waiting;
        replies = s.replies ++ (tx, (handler r tx true wait).1) ∷ [];
      }
    ]
  ]

  unfoldable pub serve_step : Service Ratio → ServiceEvent → Service Ratio
  serve_step s (request r) = accept s r
  serve_step s (taken now) = elim s.task [ looping ↦ take_call s now | _ ↦ s ]
  serve_step s (server msg now) = elim s.task [
    | starting ↦ start_with s (some msg) now
    | looping ↦ after_round s (run_step s.client (server_message msg now))
    | _ ↦ s
  ]
  serve_step s (server_closed attempts) = elim s.task [
    | starting ↦ start_with s none 0
    | looping ↦ after_round s (run_step s.client (channel_closed attempts))
    | _ ↦ s
  ]
  serve_step s (quiet attempts) = elim s.task [
    | looping ↦ after_round s (run_step s.client (idle attempts))
    | _ ↦ s
  ]
  serve_step s (retry attempts) = elim s.task [ reconnecting ↦ try_again s attempts | _ ↦ s ]
  serve_step s (poll tx late) = reply s tx late

  unfoldable pub serve : Service Ratio → List ServiceEvent → Service Ratio
  serve s [] = s
  serve s (ev ∷ events) = serve (serve_step s ev) events
