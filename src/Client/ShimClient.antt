-- ===== src/Client/ShimClient.antt =====
-- client/test_client.rs, with the calls that client/shim.rs passes to it. The sending half of a oneshot
-- channel is the number of its call; what the calls are answered is kept in a list.
pub mod Calls
pub mod Soundness
pub mod Responses
pub mod Rounds
pub mod Run
pub mod Waiting
pub mod Matching
pub mod Receiving
pub mod Program
pub mod Automatic
use mathlib.Core.Option
use id2203_project.Base.{
  ℕ, suc, ◌+◌, ◌-◌, id_key, String, Bool, true, false, Option, none, some, List, [], ◌∷◌, ◌++◌, map,
  ltb, leb, wrapping_add, if◌then◌else◌,
}
use id2203_project.Base.HashMap
use id2203_project.Base.HashMap.{HashMap}
use id2203_project.Common.Kv.{KvCommand, put, get}
use id2203_project.Common.Messages.{
  ClientMessage, append, ServerMessage, write, read, start_signal, command_id,
}
use id2203_project.Client.Configs.{ℤ, pos, negsuc, ClientConfig}
use id2203_project.Client.Data
use id2203_project.Client.Data.{ClientData, new_request, new_response}
use id2203_project.Client.Network
use id2203_project.Client.Network.{Network, Attempt, reconnect, is_connected}

-- shim.rs, `ApiCommand`.
pub data ApiCommand : Type 0 where
  put_call : String → String → ℕ → ApiCommand
  get_call : String → ℕ → ApiCommand

module _ (Ratio : Type 0) where
  pub record Client : Type 0 where
    pub id : ℕ
    pub network : Network
    pub client_data : ClientData
    pub config : ClientConfig Ratio
    pub active_server : ℕ
    pub final_request_count : Option ℕ
    pub next_request_id : ℕ
    pub pending_gets : HashMap ℕ ℕ
    pub pending_puts : HashMap ℕ ℕ
    -- What each call was sent, the first answer first.
    pub answered : List (ℕ × String)

-- What wakes the client: a call, a message of a server (or the end of their channel), or two seconds
-- without either. A reconnection makes the attempts of the list.
pub data Event : Type 0 where
  call : ApiCommand → ℕ → Event
  server_message : ServerMessage → ℕ → Event
  channel_closed : List Attempt → Event
  idle : List Attempt → Event

abbrev pub network_batch_size : ℕ
network_batch_size = 100

-- How long after `now` a time is.
abbrev pub time_until : ℕ → ℕ → ℤ
time_until scheduled now =
    if leb now scheduled then pos (scheduled - now) else negsuc (now - scheduled - 1)

abbrev pub is_write : KvCommand → Bool
is_write (put k v) = true
is_write _ = false

abbrev pub unwrap_or_else : Option String → String → String
unwrap_or_else (some value) other = value
unwrap_or_else none other = other

abbrev pub calls_of : HashMap ℕ ℕ → List ℕ
calls_of m = map (λ (e : ℕ × ℕ). e.1) m

-- Attempts until one succeeds; the result says whether one did.
unfoldable pub reconnect_loop : Network → ℕ → List Attempt → Option (Network × Bool)
reconnect_loop n active_server [] = some (n, false)
reconnect_loop n active_server (a ∷ attempts) = elim (reconnect n active_server a) [
  | none ↦ none
  | some (n', connected) ↦
      let rest = reconnect_loop n' active_server attempts in
      if connected then some (n', true) else rest
]

module _ {Ratio : Type 0} where
  abbrev pub on_network : ClientConfig Ratio → Network → Client Ratio
  on_network config network = record {
    id = config.server_id;
    network = network;
    client_data = Data.new;
    config = config;
    active_server = config.server_id;
    final_request_count = none;
    next_request_id = 0;
    pending_gets = [];
    pending_puts = [];
    answered = [];
  }

  -- `none` is a panic of the network.
  unfoldable pub new : ClientConfig Ratio → Attempt → Option (Client Ratio)
  new config a =
      Option.map (on_network config)
        (Network.new ((config.server_id, config.server_address) ∷ []) network_batch_size a)

  -- The result says whether the request was sent.
  unfoldable pub send_request_manual : Client Ratio → KvCommand → ℕ → Client Ratio × Bool
  send_request_manual c cmd now =
      let (network, sent) = Network.send c.network c.active_server (append c.next_request_id cmd) in
      if sent
      then (
        record c {
          network = network;
          client_data = new_request c.client_data now (is_write cmd);
          next_request_id = wrapping_add c.next_request_id 1;
        },
        true,
      )
      else (record c { network = network }, false)

  -- `tx.send`.
  abbrev pub answer : Client Ratio → ℕ → String → Client Ratio
  answer c tx text = record c { answered = c.answered ++ (tx, text) ∷ [] }

  unfoldable pub handle_call : Client Ratio → ApiCommand → ℕ → Client Ratio
  handle_call c (put_call k v tx) now =
      let key = c.next_request_id in
      let (c', sent) = send_request_manual c (put k v) now in
      if sent
      then record c' { pending_puts = HashMap.insert key tx c'.pending_puts }
      else answer c' tx "Error: server disconnected"
  handle_call c (get_call k tx) now =
      let key = c.next_request_id in
      let (c', sent) = send_request_manual c (get k) now in
      if sent
      then record c' { pending_gets = HashMap.insert key tx c'.pending_gets }
      else answer c' tx "Error: server disconnected"

  -- `none` is the panic on an id that was given to no request.
  unfoldable pub handle_server_message : Client Ratio → ServerMessage → ℕ → Option (Client Ratio)
  handle_server_message c msg now = elim (command_id msg) [
    | none ↦ some c
    | some cmd_id ↦
        Option.map (λ d. record c { client_data = d }) (new_response c.client_data now cmd_id)
  ]

  abbrev pub answer_if : Client Ratio → Option ℕ → String → Client Ratio
  answer_if c none text = c
  answer_if c (some tx) text = answer c tx text

  -- The call that a message answers is taken out of its map, and is sent the answer.
  unfoldable pub take_answer : Client Ratio → ServerMessage → Client Ratio
  take_answer c (write id) =
      let (tx, rest) = HashMap.remove id c.pending_puts in
      answer_if (record c { pending_puts = rest }) tx "Ok"
  take_answer c (read id value) =
      let (tx, rest) = HashMap.remove id c.pending_gets in
      answer_if (record c { pending_gets = rest }) tx (unwrap_or_else value "Key not found")
  take_answer c (start_signal t) = c

  unfoldable pub receive : Client Ratio → ServerMessage → ℕ → Option (Client Ratio)
  receive c msg now = handle_server_message (take_answer c msg) msg now

  unfoldable pub fail_all_pending : Client Ratio → String → Client Ratio
  fail_all_pending c error_msg = record c {
    answered =
        (c.answered ++ map (λ tx. (tx, error_msg)) (calls_of c.pending_puts))
        ++ map (λ tx. (tx, error_msg)) (calls_of c.pending_gets);
    pending_puts = [];
    pending_gets = [];
  }

  unfoldable pub lose_connection : Client Ratio → List Attempt → Option (Client Ratio × Bool)
  lose_connection c attempts =
      let failed = fail_all_pending c "Error: connection lost" in
      Option.map (λ (r : Network × Bool). (record failed { network = r.0 }, r.1))
        (reconnect_loop failed.network failed.active_server attempts)

  -- One round of the loop of `run`. The result says whether the client is done with it; it is not
  -- while none of the attempts to reconnect has succeeded.
  unfoldable pub run_step : Client Ratio → Event → Option (Client Ratio × Bool)
  run_step c (call cmd now) = some (handle_call c cmd now, true)
  run_step c (server_message msg now) = Option.map (λ c'. (c', true)) (receive c msg now)
  run_step c (channel_closed attempts) = lose_connection c attempts
  run_step c (idle attempts) =
      if is_connected c.network c.active_server then some (c, true) else lose_connection c attempts

  -- The start time, and the time for which the client sleeps: none if the start has passed.
  unfoldable pub wait_until_sync_time : ClientConfig Ratio → ℕ → ℕ → ClientConfig Ratio × ℕ
  wait_until_sync_time config scheduled_start now =
      (record config { sync_time = some (time_until scheduled_start now) }, scheduled_start - now)

  -- Other messages are dropped until a start signal comes, or the channel ends; the result is what is
  -- left of the messages, and nothing if the client still waits.
  unfoldable pub wait_for_start_signal :
      Client Ratio
      → List (Option ServerMessage)
      → ℕ
      → Option (Client Ratio × List (Option ServerMessage))
  wait_for_start_signal c [] now = none
  wait_for_start_signal c (none ∷ messages) now = some (c, messages)
  wait_for_start_signal c (some (start_signal t) ∷ messages) now =
      some (record c { config = (wait_until_sync_time c.config t now).0 }, messages)
  wait_for_start_signal c (some (write id) ∷ messages) now = wait_for_start_signal c messages now
  wait_for_start_signal c (some (read id value) ∷ messages) now =
      wait_for_start_signal c messages now

  unfoldable pub run_finished : Client Ratio → Bool
  run_finished c = elim c.final_request_count [
    | none ↦ false
    | some count ↦ leb count (Data.request_count c.client_data)
  ]
