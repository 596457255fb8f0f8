-- ===== src/Server/Main.antt =====
-- server/main.rs, and how `OmniPaxosServer::new` puts a server together from its configuration: the
-- snapshot, the library's state and the network.
pub mod Starts
use Prim.Native.String.{◌++◌ as str_append}
use mathlib.Core.Option
use id2203_project.Base.{ℕ, String, Bool, true, false, Option, none, some, List, if◌then◌else◌}
use id2203_project.Base.Decimal.{decimal}
use id2203_project.Common.Output.{Files, FileFaults}
use id2203_project.Common.Settings.{loaded, failed, Loader, Variables}
use id2203_project.Server.Configs
use id2203_project.Server.Configs.{OmniPaxosConfig, OmniPaxosKvConfig, into}
use id2203_project.Server.Database.{Json}
use id2203_project.Server.Network
use id2203_project.Server.Network.{
  NewConnection, Network, get_addrs, peer_addresses, initialize_connections, any_peer,
}
use id2203_project.Server.Node.{OmniPaxos, Server, Host}
use id2203_project.Server.Node.Handlers
use id2203_project.Server.Node.Handlers.{Event}
use id2203_project.Server.Node.Program.{run}

abbrev pub network_batch_size : ℕ
network_batch_size = 100

abbrev pub storage_path : ℕ → String
storage_path id = str_append "/app/logs/omnipaxos-node-" (decimal id)

-- What the surroundings give: how addresses are read (those of the nodes, and the one to listen at), and
-- the library's state on the storage at a path.
pub record Surroundings (op : OmniPaxos) (Addr : Type 0) : Type 0 where
  pub resolve : String → Option Addr
  pub read_listen : String → ℕ → Option Addr
  pub build : OmniPaxosConfig op.Quorum → String → Option op.State

module _ {op : OmniPaxos} {Addr : Type 0} where
  -- `Network::new`, on the connections that arrive; nothing is a panic.
  unfoldable pub new_network :
      Surroundings op Addr
      → OmniPaxosKvConfig op.Quorum
      → ℕ
      → List (NewConnection op.Message)
      → Option (Network op.Message)
  new_network around config batch_size arrivals =
      elim (get_addrs around.resolve around.read_listen config) [
        | none ↦ none
        | some (listen_address, addrs) ↦
            let id = config.local.server_id in
            let network = Network.new (peer_addresses id config.cluster.nodes addrs) batch_size in
            Option.map (λ (r : Network op.Message × List (NewConnection op.Message)). r.0)
              (initialize_connections network arrivals)
      ]

-- Where a server is: it waits for the connection to a peer, or `run` has taken it through the events.
pub data Course (op : OmniPaxos) (Contents Text : Type 0) : Type 0 where
  panicked waiting : Course op Contents Text
  running : Server op → Host Contents → Files Text → Course op Contents Text

module _ {op : OmniPaxos} (json : Json) (blank : json.Contents) {Addr : Type 0} where
  -- `OmniPaxosServer::new`.
  unfoldable pub start :
      Surroundings op Addr
      → OmniPaxosKvConfig op.Quorum
      → Host json.Contents
      → Bool
      → List (NewConnection op.Message)
      → Option (Server op)
  start around config h readable arrivals =
      elim (around.build (into config) (storage_path config.local.server_id)) [
        | none ↦ none
        | some omnipaxos ↦
            Option.map (Handlers.new op json blank config h.files readable omnipaxos)
              (new_network around config network_batch_size arrivals)
      ]

module _ {op : OmniPaxos} (json : Json) (blank : json.Contents) {Addr Text E : Type 0} where
  -- A configuration that cannot be read is a panic, as is any of `new` and `run`.
  unfoldable pub main :
      Variables
      → Loader E (OmniPaxosKvConfig op.Quorum)
      → Surroundings op Addr
      → (OmniPaxosKvConfig op.Quorum → Option Text)
      → Host json.Contents
      → Bool
      → List (NewConnection op.Message)
      → List (Event op json blank)
      → Files Text
      → FileFaults Text
      → Course op json.Contents Text
  main var load around to_string_pretty h readable arrivals events outputs faults =
      elim (Configs.new var load) [
        | none ↦ panicked
        | some (failed e) ↦ panicked
        | some (loaded server_config) ↦
            elim (start json blank around server_config h readable arrivals) [
              | none ↦ panicked
              | some server ↦
                  let ran = run op json blank to_string_pretty server h events outputs faults in
                  if any_peer server.network
                  then elim ran as (λ _. Course op json.Contents Text) [
                    | none ↦ panicked
                    | some (s, h', outputs') ↦ running s h' outputs'
                  ]
                  else waiting
            ]
      ]
