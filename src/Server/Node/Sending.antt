-- ===== src/Server/Node/Sending.antt =====
-- Sending to peers and clients from the handlers of the server: nothing panics, and the network
-- stays wired.
use id2203_project.Base.{
  ℕ, zero, suc, ◌+◌, ◌-◌, ◌<◌, id_key, ◌≡◌, refl, ◌∙◌, some, List, [], ◌∷◌, ◌&&◌, arith, leb, ltb,
  word_mod, wrapping_add, if◌then◌else◌,
}
use id2203_project.Common.Messages.{omnipaxos_message, leader_start_signal, start_signal}
use id2203_project.Server.Network.{Network, send_to_client}
use id2203_project.Server.Network.Peers.{IsWired, send_to_cluster_lem}
use id2203_project.Server.Network.Clients.{
  client, after_reply, client-send_to_client, peers-send_to_client,
}
use id2203_project.Server.Node.{
  OmniPaxos, Server, send_all, signal_peers, signal_clients, send_client_start_signals,
}

module _ (op : OmniPaxos) where
  -- A network after sends to peers.
  pub record ToPeers (n n' : Network op.Message) : Type 0 where
    pub wired : IsWired n'
    pub client_connections : n'.client_connections ≡ n.client_connections

  pub send_all_lem :
      (n : Network op.Message) (msgs : List op.Message)
      → IsWired n
      → (n' : Network op.Message) × (send_all op n msgs ≡ some n') × ToPeers n n'
  unfolding send_all
  send_all_lem n [] w = (n, refl, record { wired = w; client_connections = refl })
  send_all_lem n (msg ∷ msgs) w =
      let (n', e, at_slot, w', kept) =
        send_to_cluster_lem n (op.get_receiver msg) (omnipaxos_message msg) w in
      let (n'', e', t) = send_all_lem n' msgs w' in
      (
        n'',
        rw (e, send_all) e',
        record {
          wired = t.wired;
          client_connections = t.client_connections ∙ kept.client_connections;
        },
      )

  pub signal_peers_lem :
      (n : Network op.Message) (peers : List ℕ) (start_time : ℕ)
      → IsWired n
      → (n' : Network op.Message) × (signal_peers op n peers start_time ≡ some n') × ToPeers n n'
  unfolding signal_peers
  signal_peers_lem n [] t w = (n, refl, record { wired = w; client_connections = refl })
  signal_peers_lem n (p ∷ ps) t w =
      let (n', e, at_slot, w', kept) = send_to_cluster_lem n p (leader_start_signal t) w in
      let (n'', e', r) = signal_peers_lem n' ps t w' in
      (
        n'',
        rw (e, signal_peers) e',
        record {
          wired = r.wired;
          client_connections = r.client_connections ∙ kept.client_connections;
        },
      )

  pub signal_clients-IsWired :
      (n : Network op.Message) (count id start_time : ℕ)
      → IsWired n
      → IsWired (signal_clients op n count id start_time)
  unfolding signal_clients
  signal_clients-IsWired n zero id t w = w
  signal_clients-IsWired n (suc count) id t w =
      let kept = peers-send_to_client n id (start_signal t) in
      signal_clients-IsWired (send_to_client n id (start_signal t)) count (id + 1) t
        (rw (kept.0, kept.1) w)

  pub client-signal_clients :
      (n : Network op.Message) (count id start_time j : ℕ)
      → client (signal_clients op n count id start_time) j ≡ (
          if leb id j && ltb j (id + count)
          then after_reply (client n j) (start_signal start_time)
          else client n j)
  unfolding signal_clients
  client-signal_clients n zero id t j = ground arith
  client-signal_clients n (suc count) id t j = ground (
    arith,
    id_key.decides id j,
    client-signal_clients (send_to_client n id (start_signal t)) count (id + 1) t j,
    client-send_to_client n id (start_signal t) j,
  )

  -- A start signal goes to the clients with the ids from 1 to the configured number of clients,
  -- and to no other client, whoever is connected, when that number is below the word limit.
  pub client-send_client_start_signals :
      (s : Server op) (start_time j : ℕ)
      → s.config.local.num_clients + 1 < word_mod
      → client (send_client_start_signals op s start_time).network j ≡ (
          if leb 1 j && leb j s.config.local.num_clients
          then after_reply (client s.network j) (start_signal start_time)
          else client s.network j)
  unfolding send_client_start_signals
  client-send_client_start_signals s t j fits =
      let n = s.config.local.num_clients in
      let count : wrapping_add n 1 - 1 ≡ n = omega arith in
      rw count (ground (arith, client-signal_clients s.network n 1 t j))
