-- ===== src/Server/Tests/Wires.antt =====
-- Tests of the configuration and of the network.
use id2203_project.Base.{
  ℕ, ◌+◌, ◌≤◌, String, id_key, ◌≡◌, refl, not, none, some, List, [], ◌∷◌, arith, length,
}
use mathlib.Core.Option
use id2203_project.Base.HashMap
use id2203_project.Common.Messages.{client_register, node_register}
use id2203_project.Server.Configs.{OmniPaxosKvConfig, get_peers}
use id2203_project.Server.Network.{
  Network, PeerConnection, ClientConnection, NewConnection, to_peer, to_client, Handshake, message,
  malformed, fresh_outbox, get_addrs, peer_addresses, new, accept_all, initialize_connections,
}
use id2203_project.Server.Network.Peers.{IsWired}
use id2203_project.Server.Network.Clients.{client_ids, Rises, accept_all-Rises}
use id2203_project.Server.Network.Topology.{peers-new, dials, dials_once}

abbrev pub config : OmniPaxosKvConfig ℕ
config = record {
  local = record {
    location = none;
    server_id = 1;
    listen_address = "127.0.0.1";
    listen_port = 8001;
    num_clients = 1;
    output_filepath = "./logs/server-1.json";
  };
  cluster = record {
    nodes = 1 ∷ 2 ∷ 3 ∷ [];
    node_addrs = "s1:8001" ∷ "s2:8002" ∷ "s3:8003" ∷ [];
    initial_leader = 1;
    initial_flexible_quorum = none;
  };
}

abbrev pub addresses : List String
addresses = "s1:8001" ∷ "s2:8002" ∷ "s3:8003" ∷ []

abbrev pub peer : ℕ → ℕ → PeerConnection ℕ
peer id stream = record { peer_id = id; stream = stream; outgoing_messages = fresh_outbox }

abbrev pub client_1 : ClientConnection
client_1 = record { client_id = 1; stream = 9; outgoing_messages = fresh_outbox }

abbrev pub wired : Network ℕ
wired = record {
  peers = 2 ∷ 3 ∷ [];
  peer_connections = none ∷ some (peer 3 7) ∷ [];
  client_connections = (1, client_1) ∷ [];
  max_client_id = 1;
  batch_size = 100;
  aborted = [];
}

pub wired-IsWired : IsWired wired
wired-IsWired = (refl, tt)

peers-new_example :
    (new {Message = ℕ} (peer_addresses 1 (1 ∷ 2 ∷ 3 ∷ []) addresses) 100).peers ≡ get_peers config 1
unfolding get_addrs
peers-new_example =
    peers-new ℕ (λ s. some s) (λ s port. some s) config "127.0.0.1" addresses 1 100 refl refl

dials_once_example :
    dials (1 ∷ 2 ∷ 3 ∷ []) addresses 3 1 ≡ not (dials (1 ∷ 2 ∷ 3 ∷ []) addresses 1 3)
dials_once_example = dials_once (1 ∷ 2 ∷ 3 ∷ []) addresses 3 1 refl refl refl (λ e. omega arith)

abbrev handshakes : List (Handshake × ℕ)
handshakes =
    (message client_register, 9)
    ∷ (malformed, 10)
    ∷ (message (node_register 2), 11)
    ∷ (message client_register, 12)
    ∷ []

accept_all-Rises_example :
    Rises 0 (client_ids {Message = ℕ} (accept_all 0 handshakes).1)
    × (0 ≤ (accept_all {Message = ℕ} 0 handshakes).0)
    × ((accept_all {Message = ℕ} 0 handshakes).0 ≤ 0 + length handshakes)
accept_all-Rises_example = accept_all-Rises ℕ 0 handshakes (omega arith)

abbrev fresh : Network ℕ
fresh = record wired { peer_connections = none ∷ none ∷ []; client_connections = [] }

abbrev arrivals : List (NewConnection ℕ)
arrivals = to_client client_1 ∷ to_peer (peer 2 3) ∷ to_peer (peer 3 4) ∷ []

-- The wait ends with the first peer; the second one is left for the recovery channel.
initialize_connections_rest :
    Option.map
      (λ (r : Network ℕ × List (NewConnection ℕ)). r.1)
      (initialize_connections fresh arrivals)
    ≡ some (to_peer (peer 3 4) ∷ [])
unfolding initialize_connections HashMap.insert
initialize_connections_rest = refl
