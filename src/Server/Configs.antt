-- ===== src/Server/Configs.antt =====
-- server/configs.rs. What the config crate makes of its sources is a parameter.
use id2203_project.Base.{
  ℕ, String, id_key, not, Option, List, [], ◌∷◌, ◌==◌, retain, ◌≡◌, arith, contains, ◌&&◌, true,
  none, some, ◌⊎◌, ◌↔◌,
}
use id2203_project.Common.Settings.{file, environment, Loaded, Loader, Variables}

-- The quorum type belongs to the OmniPaxos library.
pub record ClusterConfig (Quorum : Type 0) : Type 0 where
  pub nodes : List ℕ
  pub node_addrs : List String
  pub initial_leader : ℕ
  pub initial_flexible_quorum : Option Quorum

pub record LocalConfig : Type 0 where
  pub location : Option String
  pub server_id : ℕ
  pub listen_address : String
  pub listen_port : ℕ
  pub num_clients : ℕ
  pub output_filepath : String

pub record OmniPaxosKvConfig (Quorum : Type 0) : Type 0 where
  pub local : LocalConfig
  pub cluster : ClusterConfig Quorum

-- The fields that `into` sets; the others keep the library's defaults.
pub record OmniPaxosConfig (Quorum : Type 0) : Type 0 where
  pub configuration_id : ℕ
  pub nodes : List ℕ
  pub flexible_quorum : Option Quorum
  pub pid : ℕ
  pub election_tick_timeout : ℕ
  pub resend_message_tick_timeout : ℕ

contains-retain_ne :
    (node k : ℕ) (xs : List ℕ)
    → contains k (retain (λ id. not (id == node)) xs) ≡ (not (k == node) && contains k xs)
contains-retain_ne node k [] = ground arith
contains-retain_ne node k (x ∷ xs) = ground (arith, contains-retain_ne node k xs)

module _ {Quorum : Type 0} where
  unfoldable pub into : OmniPaxosKvConfig Quorum → OmniPaxosConfig Quorum
  into c = record {
    configuration_id = 1;
    nodes = c.cluster.nodes;
    flexible_quorum = c.cluster.initial_flexible_quorum;
    pid = c.local.server_id;
    election_tick_timeout = 3;
    resend_message_tick_timeout = 2;
  }

  unfoldable pub get_peers : OmniPaxosKvConfig Quorum → ℕ → List ℕ
  get_peers c node = retain (λ id. not (id == node)) c.cluster.nodes

  -- The peers of a node are the other nodes of the cluster: all of them, and never itself.
  pub contains-get_peers :
      (c : OmniPaxosKvConfig Quorum) (node k : ℕ)
      → contains k (get_peers c node) ≡ (not (k == node) && contains k c.cluster.nodes)
  unfolding get_peers
  contains-get_peers c node k = contains-retain_ne node k c.cluster.nodes

  -- The configuration from the two files that the environment names and from its variables; nothing is
  -- the panic when a file is not named.
  unfoldable pub new :
      {E : Type 0}
      → Variables
      → Loader E (OmniPaxosKvConfig Quorum)
      → Option (Loaded E (OmniPaxosKvConfig Quorum))
  new var load = elim (var "SERVER_CONFIG_FILE") [
    | none ↦ none
    | some local_config_file ↦ elim (var "CLUSTER_CONFIG_FILE") [
      | none ↦ none
      | some cluster_config_file ↦ some (
          load (
            file local_config_file
            ∷ file cluster_config_file
            ∷ environment "OMNIPAXOS" true (some ",") ("node_addrs" ∷ [])
            ∷ []))
    ]
  ]

  -- It is a panic exactly when the environment leaves one of the files unnamed.
  new-panics :
      {E : Type 0} (var : Variables) (load : Loader E (OmniPaxosKvConfig Quorum))
      → (new var load ≡ none)
        ↔ ((var "SERVER_CONFIG_FILE" ≡ none) ⊎ (var "CLUSTER_CONFIG_FILE" ≡ none))
  unfolding new
  new-panics var load = ground arith
