-- ===== src/Client/LoadClient.antt =====
-- client/client.rs: the client that sends requests at the rates of its configuration. The ticks of its
-- timers, the draws of its random numbers and the clock are arguments.
pub mod Rounds
pub mod Program
pub mod Ends
pub mod Finish
use mathlib.Core.Option
use id2203_project.Base.{
  ℕ, zero, suc, ◌+◌, ◌≤◌, ◌<◌, String, ◌≡◌, refl, sym, ap, ◌∙◌, Bool, true, false, Option, none,
  some, List, [], ◌∷◌, arith, leb, ◌==◌, id_key, wrapping_add, word_mod, if◌then◌else◌,
}
use id2203_project.Base.Decimal.{decimal}
use id2203_project.Common.Kv.{KvCommand, put, get}
use id2203_project.Common.Messages.{
  ClientMessage, append, ServerMessage, write, read, start_signal, command_id,
}
use id2203_project.Client.Configs.{
  ClientConfig, RequestInterval, get_read_ratio, get_request_delay, get_interval_duration,
}
use id2203_project.Client.Data
use id2203_project.Client.Data.{ClientData, new_request, new_response}
use id2203_project.Client.Network
use id2203_project.Client.Network.{Network, Attempt}
use id2203_project.Client.ShimClient.{wait_until_sync_time}

module _ (Ratio : Type 0) where
  pub record LoadClient : Type 0 where
    pub id : ℕ
    pub network : Network
    pub client_data : ClientData
    pub config : ClientConfig Ratio
    pub active_server : ℕ
    pub final_request_count : Option ℕ
    pub next_request_id : ℕ

  -- The local variables of `run`: the intervals to come, and the current one's ratio, delay between
  -- requests and duration (in milliseconds).
  pub record Schedule : Type 0 where
    pub intervals : List (RequestInterval Ratio)
    pub read_ratio : Ratio
    pub request_interval : ℕ
    pub next_interval : ℕ

  -- What wakes the loop. A draw says whether the random number exceeds a ratio.
  pub data LoadEvent : Type 0 where
    response : ServerMessage → ℕ → LoadEvent
    request_tick : (Ratio → Bool) → ℕ → LoadEvent
    interval_tick : LoadEvent

-- tokio's `interval`: a period of nothing is a panic.
unfoldable pub interval : ℕ → Option ℕ
interval period = if period == 0 then none else some period

abbrev pub request_of : ℕ → Bool → KvCommand
request_of id true = put (decimal id) (decimal id)
request_of id false = get (decimal id)

module _ {Ratio : Type 0} where
  -- The two timers of an interval: for its requests, and for its end.
  unfoldable pub timers : RequestInterval Ratio → Option (ℕ × ℕ)
  timers i = Option.bind (get_request_delay i) (λ delay.
      Option.bind (interval delay) (λ request_interval.
        Option.map (λ next_interval. (request_interval, next_interval))
          (interval (get_interval_duration i))))

  unfoldable pub new : ClientConfig Ratio → Attempt → Option (LoadClient Ratio)
  new config a =
      Option.map
        (λ network. record {
          id = config.server_id;
          network = network;
          client_data = Data.new;
          config = config;
          active_server = config.server_id;
          final_request_count = none;
          next_request_id = 0;
        })
        (Network.new ((config.server_id, config.server_address) ∷ []) 100 a)

  unfoldable pub handle_server_message :
      LoadClient Ratio → ServerMessage → ℕ → Option (LoadClient Ratio)
  handle_server_message c msg now = elim (command_id msg) [
    | none ↦ some c
    | some cmd_id ↦
        Option.map (λ d. record c { client_data = d }) (new_response c.client_data now cmd_id)
  ]

  -- The request counts whether or not it was sent.
  unfoldable pub send_request : LoadClient Ratio → Bool → ℕ → LoadClient Ratio
  send_request c is_write now = record c {
    network =
        (Network.send c.network c.active_server
          (append c.next_request_id (request_of c.next_request_id is_write))).0;
    client_data = new_request c.client_data now is_write;
    next_request_id = wrapping_add c.next_request_id 1;
  }

  unfoldable pub run_finished : LoadClient Ratio → Bool
  run_finished c = elim c.final_request_count [
    | none ↦ false
    | some count ↦ leb count (Data.request_count c.client_data)
  ]

  -- The state and the schedule when the loop begins; without intervals there is no loop. A first
  -- message that is no start signal, or none, is a panic, as are a rate that is too
  -- high and an interval of no seconds.
  unfoldable pub begin :
      LoadClient Ratio
      → Option ServerMessage
      → ℕ
      → Option (LoadClient Ratio × Option (Schedule Ratio))
  begin c (some (start_signal t)) now =
      let ready = record c { config = (wait_until_sync_time c.config t now).0 } in
      elim c.config.requests [
        | [] ↦ some (ready, none)
        | first ∷ rest ↦ elim (timers first) [
          | none ↦ none
          | some (request_interval, next_interval) ↦ some (
            ready,
            some (record {
              intervals = rest;
              read_ratio = get_read_ratio first;
              request_interval = request_interval;
              next_interval = next_interval;
            }),
          )
        ]
      ]
  begin c _ now = none

  -- One round of the loop. The result says whether the loop is over.
  unfoldable pub run_step :
      LoadClient Ratio
      → Schedule Ratio
      → LoadEvent Ratio
      → Option (LoadClient Ratio × Schedule Ratio × Bool)
  run_step c t (response msg now) =
      Option.map (λ c'. (c', t, run_finished c')) (handle_server_message c msg now)
  run_step c t (request_tick draw now) = elim c.final_request_count [
    | none ↦ some (send_request c (draw t.read_ratio) now, t, false)
    | some count ↦ some (c, t, false)
  ]
  run_step c t interval_tick = elim t.intervals [
    | i ∷ rest ↦ elim (timers i) [
      | none ↦ none
      | some (request_interval, next_interval) ↦ some (
        c,
        record {
          intervals = rest;
          read_ratio = i.read_ratio;
          request_interval = request_interval;
          next_interval = next_interval;
        },
        false,
      )
    ]
    | [] ↦
        let done = record c { final_request_count = some (Data.request_count c.client_data) } in
        some (done, t, run_finished done)
  ]
