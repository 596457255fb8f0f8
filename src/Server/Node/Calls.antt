-- ===== src/Server/Node/Calls.antt =====
-- The handlers that work on the server alone return, and keep what holds of a server whose library is in
-- a valid state and whose network is wired.
use mathlib.Core.Option
use id2203_project.Base.{
  ℕ, ◌+◌, ◌-◌, ◌&&◌, Bool, true, false, wrapping_add, id_key, ◌≡◌, refl, Option, some, List, [],
  ◌∷◌, ◌==◌, Bool-cases, Option-cases, inl, inr,
}
use id2203_project.Common.Kv.{Command}
use id2203_project.Common.Messages.{ClientMessage, append}
use id2203_project.Server.Database.{Json}
use id2203_project.Server.Network.{Network, NewConnection}
use id2203_project.Server.Network.Peers.{IsWired}
use id2203_project.Server.Network.Startup.{apply_connection-Applied}
use id2203_project.Server.Node.{
  OmniPaxos, Server, send_outgoing_msgs, append_to_log, append_all, handle_client_messages,
  send_cluster_start_signals, send_client_start_signals,
}
use id2203_project.Server.Node.Handlers.{
  start_signals, resend_if_leader, handle_recovered_connection, take_leadership, establish_timer,
}
use id2203_project.Server.Node.Agreement.{Library}
use id2203_project.Server.Node.Sending.{send_all_lem, signal_peers_lem, signal_clients-IsWired}

module _ {op : OmniPaxos} (lib : Library op) where
  -- A predicate that asks a valid state of the library and a wired network, and nothing more of them.
  pub record Steady (P : Server op → Type 0) : Type 0 where
    pub valid : (s : Server op) → P s → lib.IsValid s.omnipaxos
    pub wired : (s : Server op) → P s → IsWired s.network
    pub with_parts :
        (s : Server op) (o : op.State) (n : Network op.Message) (buffer : List op.Message)
        → P s
        → lib.IsValid o
        → IsWired n
        → P (record s { omnipaxos = o; network = n; omnipaxos_msg_buffer = buffer })

  module _ (json : Json) (blank : json.Contents) {P : Server op → Type 0} (steady : Steady P) where
    abbrev pub Returns : Option (Server op) → Type 0
    Returns r = (s' : Server op) × (r ≡ some s') × P s'

    pub send_outgoing_msgs-Returns : (s : Server op) → P s → Returns (send_outgoing_msgs op s)
    unfolding send_outgoing_msgs
    send_outgoing_msgs-Returns s c =
        let taken = op.take_outgoing_messages s.omnipaxos s.omnipaxos_msg_buffer in
        let (n, e, t) = send_all_lem op s.network taken.1 (steady.wired s c) in
        (
          record s { omnipaxos = taken.0; network = n; omnipaxos_msg_buffer = [] },
          rw e,
          steady.with_parts s taken.0 n [] c
              (lib.take_outgoing_messages-IsValid s.omnipaxos s.omnipaxos_msg_buffer
                (steady.valid s c))
              t.wired,
        )

    append_all-Returns :
        (s : Server op) (ms : List (ℕ × ClientMessage)) → P s → Returns (append_all op s ms)
    unfolding append_all append_to_log
    append_all-Returns s [] c = (s, refl, c)
    append_all-Returns s ((from, append id cmd) ∷ ms) c =
        let command : Command = record {
          client_id = from;
          coordinator_id = s.id;
          id = id;
          kv_cmd = cmd;
        } in
        let (o, e) = lib.append_accepts s.omnipaxos command (steady.valid s c) in
        let s' = record s { omnipaxos = o } in
        let (s'', e', c'') = append_all-Returns s' ms (
          steady.with_parts s o s.network s.omnipaxos_msg_buffer c
            (lib.append-IsValid s.omnipaxos o command e (steady.valid s c)) (steady.wired s c)) in
        (s'', rw (e, append_all, append_to_log) e', c'')

    -- Every batch of requests is handled to its end.
    pub handle_client_messages-Returns :
        (s : Server op) (ms : List (ℕ × ClientMessage))
        → P s
        → Returns (handle_client_messages op s ms)
    unfolding handle_client_messages Option.bind
    handle_client_messages-Returns s ms c =
        let (s', e, c') = append_all-Returns s ms c in
        let (s'', e', c'') = send_outgoing_msgs-Returns s' c' in (s'', rw e e', c'')

    pub send_client_start_signals-Keeps :
        (s : Server op) (t : ℕ) → P s → P (send_client_start_signals op s t)
    unfolding send_client_start_signals
    send_client_start_signals-Keeps s t c =
        steady.with_parts s s.omnipaxos _ s.omnipaxos_msg_buffer c (steady.valid s c) (
          signal_clients-IsWired op s.network (wrapping_add s.config.local.num_clients 1 - 1) 1 t
            (steady.wired s c))

    pub start_signals-Returns :
        (s : Server op) (t : ℕ) → P s → Returns (start_signals op json blank s t)
    unfolding start_signals send_cluster_start_signals
    start_signals-Returns s t c =
        let (n, e, r) = signal_peers_lem op s.network s.peers t (steady.wired s c) in
        let s' = record s { network = n } in
        (
          send_client_start_signals op s' t,
          rw e,
          send_client_start_signals-Keeps s' t (
              steady.with_parts s s.omnipaxos n s.omnipaxos_msg_buffer c (steady.valid s c)
                r.wired),
        )

    resend_if_leader-Returns :
        (s : Server op) (t : ℕ) → P s → Returns (resend_if_leader op json blank s t)
    unfolding resend_if_leader
    resend_if_leader-Returns s t c = elim (Option-cases (op.get_current_leader s.omnipaxos)) [
      | inl e ↦ rw (e, resend_if_leader) (s, refl, c)
      | inr (leader, e) ↦ elim (Bool-cases (leader.0 == s.id)) [
        | inl own ↦ rw (e, resend_if_leader) (rw own (start_signals-Returns s t c))
        | inr other ↦ rw (e, resend_if_leader) (rw other (s, refl, c))
      ]
    ]

    pub handle_recovered_connection-Returns :
        (s : Server op) (nc : NewConnection op.Message) (t : ℕ)
        → P s
        → Returns (handle_recovered_connection op json blank s nc t)
    unfolding handle_recovered_connection Option.bind
    handle_recovered_connection-Returns s nc t c =
        let (n, e, w, kept, found) = apply_connection-Applied s.network nc (steady.wired s c) in
        let s' = record s { network = n } in
        let (s'', e', c'') =
          resend_if_leader-Returns s' t
            (steady.with_parts s s.omnipaxos n s.omnipaxos_msg_buffer c (steady.valid s c) w) in
        let (s''', e'', c''') = send_outgoing_msgs-Returns s'' c'' in (s''', rw e (rw e' e''), c''')

    take_leadership-Returns : (s : Server op) → P s → Returns (take_leadership op json blank s)
    unfolding take_leadership
    take_leadership-Returns s c =
        let o = op.try_become_leader s.omnipaxos in
        send_outgoing_msgs-Returns (record s { omnipaxos = o })
          (steady.with_parts s o s.network s.omnipaxos_msg_buffer c
            (lib.try_become_leader-IsValid s.omnipaxos (steady.valid s c)) (steady.wired s c))

    pub establish_timer-Returns :
        (s : Server op) (now : ℕ)
        → P s
        → (s' : Server op) × (over : Bool) × (establish_timer op json blank s now ≡ some (s', over))
          × P s'
    unfolding establish_timer
    establish_timer-Returns s now c =
        let (t, et, ct) = take_leadership-Returns s c in
        let (u, eu, cu) = start_signals-Returns s (now + 2000) c in
        elim (Option-cases (op.get_current_leader s.omnipaxos)) [
          | inl e ↦ (t, false, rw (e, establish_timer) (rw et), ct)
          | inr (leader, e) ↦ elim (Bool-cases ((leader.0 == s.id) && leader.1)) [
            | inl own ↦ (u, true, rw (e, establish_timer) (rw own (rw eu)), cu)
            | inr other ↦ (t, false, rw (e, establish_timer) (rw other (rw et)), ct)
          ]
        ]

    -- A tick of the library, and the messages that it gives.
    pub tick-Returns :
        (s : Server op)
        → P s
        → Returns (send_outgoing_msgs op (record s { omnipaxos = op.tick s.omnipaxos }))
    tick-Returns s c =
        let o = op.tick s.omnipaxos in
        send_outgoing_msgs-Returns (record s { omnipaxos = o })
          (steady.with_parts s o s.network s.omnipaxos_msg_buffer c
            (lib.tick-IsValid s.omnipaxos (steady.valid s c)) (steady.wired s c))
