-- ===== src/Server/Node/Told/Handlers.antt =====
-- What each handler tells a client.
use mathlib.Core.Option
use mathlib.Core.Option.{some-injective}
use id2203_project.Base.{
  ℕ, ◌-◌, ◌+◌, id_key, ◌≡◌, refl, sym, ap, subst, ◌∙◌, false, Option, none, some, List, [], ◌∷◌,
  append-nil, arith, ltb, leb, ◌==◌, ◌&&◌, inl, inr, Bool-cases, Option-cases, wrapping_add,
}
use id2203_project.Base.HashMap
use id2203_project.Base.HashMap.{get-insert}
use id2203_project.Common.Kv.{Command}
use id2203_project.Common.Messages.{ClientMessage, append, start_signal}
use id2203_project.Server.Database.{Json}
use id2203_project.Server.Network.{Network, NewConnection, to_peer, to_client, apply_connection}
use id2203_project.Server.Network.Clients.{client, after_reply}
use id2203_project.Server.Network.Peers.{IsWired, apply_connection-to_peer}
use id2203_project.Server.Network.Startup.{apply_connection-Applied}
use id2203_project.Server.Node.{
  OmniPaxos, Server, send_outgoing_msgs, append_all, append_to_log, handle_client_messages,
  send_cluster_start_signals, send_client_start_signals,
}
use id2203_project.Server.Node.Handlers.{
  start_signals, resend_if_leader, handle_recovered_connection,
}
use id2203_project.Server.Node.Agreement.{Agreement}
use id2203_project.Server.Node.Answers.{after_reply-alive}
use id2203_project.Server.Node.Sending.{
  send_all_lem, signal_peers_lem, signal_clients-IsWired, client-signal_clients,
}
use id2203_project.Server.Node.Told.{IsTold, Told, quiet, Told-trans}

pub map-some :
    {A B : Type 0} (f : A → B) (o : Option A) (b : B)
    → Option.map f o ≡ some b
    → (a : A) × (o ≡ some a) × (f a ≡ b)
map-some f none b e = absurd (ground (arith, e))
map-some f (some a) b e = (a, refl, some-injective (f a) b e)

pub bind-some :
    {A B : Type 0} (f : A → Option B) (o : Option A) (b : B)
    → Option.bind o f ≡ some b
    → (a : A) × (o ≡ some a) × (f a ≡ some b)
unfolding Option.bind
bind-some f none b e = absurd (ground (arith, e))
bind-some f (some a) b e = (a, refl, e)

module _ {op : OmniPaxos} (json : Json) (blank : json.Contents) (ag : Agreement op) (j : ℕ) where
  silent :
      (s s' : Server op) → client s'.network j ≡ client s.network j → IsTold json blank ag j s s' []
  silent s s' same c at_s up = ([], same ∙ at_s ∙ sym (rw append-nil), refl)

  -- The server with another network, that has the same clients.
  pub with_network-Told :
      (s : Server op) (o : op.State) (n : Network op.Message) (buffer : List op.Message)
      → n.client_connections ≡ s.network.client_connections
      → Told json blank ag j s
          (record s { omnipaxos = o; network = n; omnipaxos_msg_buffer = buffer })
  with_network-Told s o n buffer same =
      let s' = record s { omnipaxos = o; network = n; omnipaxos_msg_buffer = buffer } in
      quiet json blank ag j s s' refl refl refl (silent s s' (ap (HashMap.get j) same))

  pub send_outgoing_msgs-Told :
      (s s' : Server op)
      → IsWired s.network
      → send_outgoing_msgs op s ≡ some s'
      → Told json blank ag j s s' × IsWired s'.network
  unfolding send_outgoing_msgs
  send_outgoing_msgs-Told s s' w e =
      let taken = op.take_outgoing_messages s.omnipaxos s.omnipaxos_msg_buffer in
      let (n, sent, t) = send_all_lem op s.network taken.1 w in
      let same = some-injective _ s' (rw (sent, send_outgoing_msgs) at e) in
      subst (λ u. Told json blank ag j s u × IsWired u.network) same
        (with_network-Told s taken.0 n [] t.client_connections, t.wired)

  append_all-Told :
      (s s' : Server op) (ms : List (ℕ × ClientMessage))
      → append_all op s ms ≡ some s'
      → Told json blank ag j s s' × (s'.network ≡ s.network)
  unfolding append_all append_to_log
  append_all-Told s s' [] e =
      subst (λ u. Told json blank ag j s u × (u.network ≡ s.network)) (some-injective s s' e)
        (with_network-Told s s.omnipaxos s.network s.omnipaxos_msg_buffer refl, refl)
  append_all-Told s s' ((from, append id cmd) ∷ ms) e =
      let command : Command = record {
        client_id = from;
        coordinator_id = s.id;
        id = id;
        kv_cmd = cmd;
      } in
      elim (Option-cases (op.append s.omnipaxos command)) [
        | inl refused ↦
            let bad = rw (refused, append_all, append_to_log) at e in absurd (ground (arith, bad))
        | inr (o, accepted) ↦
            let s1 : Server op = record s { omnipaxos = o } in
            let (later, same) =
              append_all-Told s1 s' ms (rw (accepted, append_all, append_to_log) at e) in
            let first = with_network-Told s o s.network s.omnipaxos_msg_buffer refl in
            (Told-trans json blank ag j s s1 s' first later, same)
      ]

  pub handle_client_messages-Told :
      (s s' : Server op) (ms : List (ℕ × ClientMessage))
      → IsWired s.network
      → handle_client_messages op s ms ≡ some s'
      → Told json blank ag j s s'
  unfolding handle_client_messages
  handle_client_messages-Told s s' ms w e =
      let (s1, all, rest) = bind-some (send_outgoing_msgs op) (append_all op s ms) s' e in
      let (first, same) = append_all-Told s s1 ms all in
      let (later, w') = send_outgoing_msgs-Told s1 s' (subst IsWired (sym same) w) rest in
      Told-trans json blank ag j s s1 s' first later

  pub send_client_start_signals-Told :
      (s : Server op) (t : ℕ) → Told json blank ag j s (send_client_start_signals op s t)
  unfolding send_client_start_signals
  send_client_start_signals-Told s t =
      let count = wrapping_add s.config.local.num_clients 1 - 1 in
      let s' = send_client_start_signals op s t in
      quiet json blank ag j s s' refl refl refl (λ c at_s up.
        let sent = client-signal_clients op s.network count 1 t j in
        elim (Bool-cases (leb 1 j && ltb j (1 + count))) [
          | inl own ↦ (
            start_signal t ∷ [],
            sent
                ∙ (rw own (
                    ap (λ r. after_reply r (start_signal t)) at_s
                    ∙ after_reply-alive c (start_signal t) up)),
            refl,
          )
          | inr other ↦ ([], sent ∙ (rw other (at_s ∙ sym (rw append-nil refl))), refl)
        ])

  pub start_signals-Told :
      (s s' : Server op) (t : ℕ)
      → IsWired s.network
      → start_signals op json blank s t ≡ some s'
      → Told json blank ag j s s' × IsWired s'.network
  unfolding start_signals send_cluster_start_signals send_client_start_signals
  start_signals-Told s s' t w e =
      let (n, sent, r) = signal_peers_lem op s.network s.peers t w in
      let s1 : Server op = record s { network = n } in
      let same =
        some-injective (send_client_start_signals op s1 t) s'
          (rw (sent, start_signals, send_cluster_start_signals) at e) in
      subst (λ u. Told json blank ag j s u × IsWired u.network) same
        (
          Told-trans json blank ag j s s1 (send_client_start_signals op s1 t)
              (with_network-Told s s.omnipaxos n s.omnipaxos_msg_buffer r.client_connections)
              (send_client_start_signals-Told s1 t),
          signal_clients-IsWired op n (wrapping_add s.config.local.num_clients 1 - 1) 1 t r.wired,
        )

  resend_if_leader-Told :
      (s s' : Server op) (t : ℕ)
      → IsWired s.network
      → resend_if_leader op json blank s t ≡ some s'
      → Told json blank ag j s s' × IsWired s'.network
  unfolding resend_if_leader
  resend_if_leader-Told s s' t w e =
      let unchanged : some s ≡ some s' → Told json blank ag j s s' × IsWired s'.network = λ e.
        subst (λ u. Told json blank ag j s u × IsWired u.network) (some-injective s s' e)
          (with_network-Told s s.omnipaxos s.network s.omnipaxos_msg_buffer refl, w) in
      elim (Option-cases (op.get_current_leader s.omnipaxos)) [
        | inl none_yet ↦ unchanged (rw (none_yet, resend_if_leader) at e)
        | inr (leader, found) ↦ elim (Bool-cases (leader.0 == s.id)) [
          | inl own ↦ start_signals-Told s s' t w (rw own at (rw (found, resend_if_leader) at e))
          | inr other ↦ unchanged (rw other at (rw (found, resend_if_leader) at e))
        ]
      ]

  -- The connection is not one of this client.
  abbrev pub IsElse : NewConnection op.Message → Type 0
  IsElse (to_peer c) = Unit
  IsElse (to_client c) = (c.client_id == j) ≡ false

  apply_connection-clients :
      (n n' : Network op.Message) (nc : NewConnection op.Message)
      → IsWired n
      → IsElse nc
      → apply_connection n nc ≡ some n'
      → client n' j ≡ client n j
  unfolding apply_connection
  apply_connection-clients n n' (to_peer c) w other e =
      let (n1, e1, at_slot, aborted, w1, kept) = apply_connection-to_peer n c w in
      let same = some-injective n1 n' (sym e1 ∙ e) in
      ap (λ m. client m j) (sym same) ∙ ap (HashMap.get j) kept.client_connections
  apply_connection-clients n n' (to_client c) w other e =
      let same = some-injective _ n' e in
      ap (λ m. client m j) (sym same)
      ∙ (get-insert c.client_id j c n.client_connections ∙ rw other refl)

  pub handle_recovered_connection-Told :
      (s s' : Server op) (nc : NewConnection op.Message) (t : ℕ)
      → IsWired s.network
      → IsElse nc
      → handle_recovered_connection op json blank s nc t ≡ some s'
      → Told json blank ag j s s'
  unfolding handle_recovered_connection
  handle_recovered_connection-Told s s' nc t w other e =
      let (n, applied, rest) = bind-some _ (apply_connection s.network nc) s' e in
      let (n1, e1, w1, kept, found) = apply_connection-Applied s.network nc w in
      let same = some-injective n1 n (sym e1 ∙ applied) in
      let s1 : Server op = record s { network = n } in
      let (s2, resent, sent) =
        bind-some (send_outgoing_msgs op) (resend_if_leader op json blank s1 t) s' rest in
      let first : Told json blank ag j s s1 =
        quiet json blank ag j s s1 refl refl refl
          (silent s s1 (apply_connection-clients s.network n nc w other applied)) in
      let (second, w2) = resend_if_leader-Told s1 s2 t (subst IsWired same w1) resent in
      let (third, w3) = send_outgoing_msgs-Told s2 s' w2 sent in
      Told-trans json blank ag j s s1 s' first (Told-trans json blank ag j s1 s2 s' second third)
