-- ===== src/Server/Main/Starts.antt =====
-- A server program starts, and goes through its events unless it reads an entry that is no command.
use id2203_project.Base.{◌≡◌, refl, Bool, true, Option, some, List, Some, All, ◌⊎◌, inl, inr}
use id2203_project.Common.Output.{Files, FileFaults, Succeeds}
use id2203_project.Common.Settings.{loaded, Loader, Variables}
use id2203_project.Server.Configs
use id2203_project.Server.Configs.{OmniPaxosKvConfig, into}
use id2203_project.Server.Database.{Json}
use id2203_project.Server.Network
use id2203_project.Server.Network.{
  NewConnection, Network, get_addrs, peer_addresses, initialize_connections, any_peer,
}
use id2203_project.Server.Network.Peers.{IsWired}
use id2203_project.Server.Network.Startup.{IsFromPeer, initialize_connections_lem}
use id2203_project.Server.Network.Topology.{new-IsWired}
use id2203_project.Server.Node.{OmniPaxos, Server, Host}
use id2203_project.Server.Node.Handlers
use id2203_project.Server.Node.Handlers.{Event}
use id2203_project.Server.Node.Agreement.{Library}
use id2203_project.Server.Node.Panics.Loops.{IsSentEvent}
use id2203_project.Server.Node.Panics.Meets.{RunMeets}
use id2203_project.Server.Node.Panics.Runs.{run-ReturnsUnless}
use id2203_project.Server.Main.{
  Surroundings, storage_path, network_batch_size, new_network, start, running, panicked, main,
}

-- The network before a connection arrives.
abbrev pub first_network :
    (Message : Type 0) {Quorum Addr : Type 0}
    → OmniPaxosKvConfig Quorum
    → List Addr
    → Network Message
first_network Message config addrs =
    Network.new (peer_addresses config.local.server_id config.cluster.nodes addrs)
      network_batch_size

module _ {op : OmniPaxos} {Addr : Type 0} where
  new_network-IsWired :
      (around : Surroundings op Addr) (config : OmniPaxosKvConfig op.Quorum) (listen : Addr)
      (addrs : List Addr) (arrivals : List (NewConnection op.Message))
      → get_addrs around.resolve around.read_listen config ≡ some (listen, addrs)
      → Some (IsFromPeer (first_network op.Message config addrs).peers) arrivals
      → (n : Network op.Message) × (new_network around config network_batch_size arrivals ≡ some n)
        × IsWired n
        × (any_peer n ≡ true)
  unfolding new_network
  new_network-IsWired around config listen addrs arrivals e arrives =
      let wired =
        new-IsWired op.Message (peer_addresses config.local.server_id config.cluster.nodes addrs)
          network_batch_size in
      let (n, rest, waits, wired', peers, ends, found) =
        initialize_connections_lem (first_network op.Message config addrs) arrivals wired in
      (n, rw (e, new_network) (rw waits refl), wired', found arrives)

module _ {op : OmniPaxos} (lib : Library op) (json : Json) (blank : json.Contents)
    {Addr Text E : Type 0} where
  -- A server program reads its configuration, resolves its addresses and has the library's valid
  -- state at its storage path; a peer connects, the configuration can be written to the output
  -- file, and the messages of the library are ones that nodes of the cluster send, those that
  -- bring snapshots included. Then it starts without a panic, whatever its snapshot file holds,
  -- and on any sequence of events it either handles all of them, with the configuration in the
  -- output file, or it panics; and it panics exactly if, in one of its two loops, it reads an
  -- entry of the log that is no command.
  pub main-ReturnsUnless :
      (var : Variables) (load : Loader E (OmniPaxosKvConfig op.Quorum))
      (around : Surroundings op Addr) (to_string_pretty : OmniPaxosKvConfig op.Quorum → Option Text)
      (h : Host json.Contents) (readable : Bool) (arrivals : List (NewConnection op.Message))
      (events : List (Event op json blank)) (outputs : Files Text) (faults : FileFaults Text)
      (config : OmniPaxosKvConfig op.Quorum) (o : op.State) (listen : Addr) (addrs : List Addr)
      (config_json : Text)
      → Configs.new var load ≡ some (loaded config)
      → around.build (into config) (storage_path config.local.server_id) ≡ some o
      → lib.IsValid o
      → get_addrs around.resolve around.read_listen config ≡ some (listen, addrs)
      → Some (IsFromPeer (first_network op.Message config addrs).peers) arrivals
      → All (IsSentEvent lib json blank) events
      → to_string_pretty config ≡ some config_json
      → Succeeds faults
      → (server : Server op) × (start json blank around config h readable arrivals ≡ some server)
        × (((s : Server op) × (h' : Host json.Contents) × (outputs' : Files Text) × (main json blank
                  var load around to_string_pretty h readable arrivals events outputs faults
                ≡ running s h' outputs')
              × (outputs' config.local.output_filepath ≡ some config_json))
            ⊎ ((main json blank var load around to_string_pretty h readable arrivals events outputs
                    faults
                  ≡ panicked)
                × RunMeets json blank server h events))
        × (RunMeets json blank server h events
            → main json blank var load around to_string_pretty h readable arrivals events outputs
                faults
              ≡ panicked)
  unfolding main start Handlers.new
  main-ReturnsUnless var load around to_string_pretty h readable arrivals events outputs faults
        config o listen addrs config_json configured built valid resolved arrives sent text ok =
      let (n, made, wired, up) =
        new_network-IsWired around config listen addrs arrivals resolved arrives in
      let server = Handlers.new op json blank config h.files readable o n in
      let starts : start json blank around config h readable arrivals ≡ some server =
        rw (built, start) (rw made refl) in
      let (cases, reads_panic) =
        run-ReturnsUnless lib json blank to_string_pretty server h events outputs faults config_json
          (record { valid = valid; wired = wired }) sent text ok in
      (
        server,
        starts,
        elim cases [
          | inl (s, h', outputs', ran, fine, written) ↦
              inl
                (s, h', outputs', rw (configured, main) (rw starts (rw up (rw ran refl))), written)
          | inr (panics, meets) ↦
              inr (rw (configured, main) (rw starts (rw up (rw panics refl))), meets)
        ],
        λ meets. rw (configured, main) (rw starts (rw up (rw (reads_panic meets) refl))),
      )
