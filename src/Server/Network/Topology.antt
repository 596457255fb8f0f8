-- ===== src/Server/Network/Topology.antt =====
-- Which peers a node has, and which of them it dials (server/network.rs, server/configs.rs).
use id2203_project.Base.{
  ℕ, suc, id_key, String, ◌≡◌, ◌≢◌, refl, ap, ◌∙◌, sym, Bool, true, not, ◌&&◌, Option, none, some,
  List, [], ◌∷◌, map, ◌==◌, arith, ltb, zip, length, retain, replicate, contains, Option-cases, inl,
  inr,
}
use id2203_project.Server.Configs.{OmniPaxosKvConfig, get_peers}
use id2203_project.Server.Network.{
  Network, resolve_all, get_addrs, peer_addresses, peers_to_connect_to, new, shutdown,
}
use id2203_project.Server.Network.Peers.{Slots, IsWired}

map-retain :
    {Addr : Type 0} (id : ℕ) (nodes : List ℕ) (addrs : List Addr)
    → length nodes ≡ length addrs
    → map (λ p. p.0) (retain (λ p. not (p.0 == id)) (zip nodes addrs))
      ≡ retain (λ q. not (q == id)) nodes
map-retain id [] addrs e = refl
map-retain id (q ∷ nodes) [] e = absurd (omega arith)
map-retain id (q ∷ nodes) (a ∷ addrs) e = ground (arith, map-retain id nodes addrs (omega arith))

length-resolve_all :
    {Addr : Type 0} (resolve : String → Option Addr) (ss : List String) (as' : List Addr)
    → resolve_all resolve ss ≡ some as'
    → length as' ≡ length ss
unfolding resolve_all
length-resolve_all resolve [] as' e = ground arith
length-resolve_all resolve (s ∷ ss) as' e = elim (Option-cases (resolve_all resolve ss)) [
  | inl bad ↦ absurd (ground (arith, bad, e))
  | inr (bs, good) ↦ ground (arith, good, e, length-resolve_all resolve ss bs good)
]

-- The network's peers and the server's peers are the same list, when each node has one address and
-- the addresses can be read.
pub peers-new :
    (Message : Type 0) {Quorum Addr : Type 0} (resolve : String → Option Addr)
    (read_listen : String → ℕ → Option Addr) (c : OmniPaxosKvConfig Quorum) (listen : Addr)
    (addrs : List Addr) (id batch_size : ℕ)
    → get_addrs resolve read_listen c ≡ some (listen, addrs)
    → length c.cluster.nodes ≡ length c.cluster.node_addrs
    → (new {Message = Message} (peer_addresses id c.cluster.nodes addrs) batch_size).peers
      ≡ get_peers c id
unfolding get_addrs new peer_addresses get_peers
peers-new Message resolve read_listen c listen addrs id batch_size e h =
    map-retain id c.cluster.nodes addrs (h ∙ sym same)
  where
    same : length addrs ≡ length c.cluster.node_addrs
    same = elim (Option-cases (resolve_all resolve c.cluster.node_addrs)) [
      | inl bad ↦ absurd (ground (arith, bad, e))
      | inr (bs, good) ↦
          ground (arith, good, e, length-resolve_all resolve c.cluster.node_addrs bs good)
    ]

abbrev pub dials : {Addr : Type 0} → List ℕ → List Addr → ℕ → ℕ → Bool
dials nodes addrs a b =
    contains b (map (λ p. p.0) (peers_to_connect_to a (peer_addresses a nodes addrs)))

contains-dialled :
    {Addr : Type 0} (a b : ℕ) (nodes : List ℕ) (addrs : List Addr)
    → length nodes ≡ length addrs
    → dials nodes addrs a b ≡ (ltb b a && contains b nodes)
unfolding peers_to_connect_to peer_addresses
contains-dialled a b [] addrs e = ground arith
contains-dialled a b (q ∷ nodes) [] e = absurd (omega arith)
contains-dialled a b (q ∷ nodes) (r ∷ addrs) e =
    ground (arith, contains-dialled a b nodes addrs (omega arith))

-- Of two different nodes of a cluster in which each node has one address, exactly one dials the
-- other.
pub dials_once :
    {Addr : Type 0} (nodes : List ℕ) (addrs : List Addr) (a b : ℕ)
    → length nodes ≡ length addrs
    → contains a nodes ≡ true
    → contains b nodes ≡ true
    → a ≢ b
    → dials nodes addrs a b ≡ not (dials nodes addrs b a)
dials_once nodes addrs a b e ha hb ne =
    ground (arith, contains-dialled a b nodes addrs e, contains-dialled b a nodes addrs e)

length-map : {Addr : Type 0} (xs : List (ℕ × Addr)) → length (map (λ p. p.0) xs) ≡ length xs
length-map [] = refl
length-map (x ∷ xs) = ap suc (length-map xs)

module _ (Message : Type 0) where
  Slots-replicate : (ps : List ℕ) → Slots {Message = Message} ps (replicate (length ps) none)
  Slots-replicate [] = tt
  Slots-replicate (p ∷ ps) = Slots-replicate ps

  pub new-IsWired :
      {Addr : Type 0} (addrs : List (ℕ × Addr)) (batch_size : ℕ)
      → IsWired (new {Message = Message} addrs batch_size)
  unfolding new
  new-IsWired addrs batch_size = rw (← length-map addrs) (Slots-replicate (map (λ p. p.0) addrs))

  -- After a shutdown every peer has an empty slot, so the network is wired again.
  pub shutdown-IsWired : (n : Network Message) → IsWired (shutdown n)
  unfolding shutdown
  shutdown-IsWired n = Slots-replicate n.peers
