-- ===== src/Server/Node/Steps.antt =====
-- Every handler of the server, run on a consistent server, returns and keeps it consistent.
use id2203_project.Base.{ℕ, id_key, ◌≡◌, Option, some, List}
use id2203_project.Common.Messages.{ClientMessage}
use id2203_project.Server.Database.{Json}
use id2203_project.Server.Network.{Network, NewConnection}
use id2203_project.Server.Network.Peers.{IsWired}
use id2203_project.Server.Node.{
  OmniPaxos, Server, Host, send_outgoing_msgs, handle_client_messages, send_client_start_signals,
}
use id2203_project.Server.Node.Handlers.{start_signals, handle_recovered_connection}
use id2203_project.Server.Node.Agreement.{Agreement, library}
use id2203_project.Server.Node.Calls
use id2203_project.Server.Node.Calls.{Steady}
use id2203_project.Server.Node.Invariant.{IsConsistent}

module _ {op : OmniPaxos} (json : Json) (blank : json.Contents) (ag : Agreement op) where
  abbrev pub Good : Server op → Host json.Contents → Type 0
  Good s h = IsConsistent json blank ag s h

  -- A step on the server alone returns, and what it returns is consistent with the same files.
  abbrev pub Returns : Host json.Contents → Option (Server op) → Type 0
  Returns h r = (s' : Server op) × (r ≡ some s') × Good s' h

  -- What consistency asks of the library's state and of the network can be given anew.
  pub with_parts :
      (s : Server op) (h : Host json.Contents) (o : op.State) (n : Network op.Message)
      (buffer : List op.Message)
      → Good s h
      → ag.IsValid o
      → IsWired n
      → Good (record s { omnipaxos = o; network = n; omnipaxos_msg_buffer = buffer }) h
  with_parts s h o n buffer c v w = record {
    valid = v;
    wired = w;
    store = c.store;
    path = c.path;
    disk = c.disk;
  }

  -- Consistency is such a predicate.
  pub Good-Steady : (h : Host json.Contents) → Steady (library ag) (λ s. Good s h)
  Good-Steady h = record {
    valid = λ s c. c.valid;
    wired = λ s c. c.wired;
    with_parts = λ s o n buffer c v w. with_parts s h o n buffer c v w;
  }

  pub send_outgoing_msgs-Returns :
      (s : Server op) (h : Host json.Contents) → Good s h → Returns h (send_outgoing_msgs op s)
  send_outgoing_msgs-Returns s h c =
      Calls.send_outgoing_msgs-Returns (library ag) json blank (Good-Steady h) s c

  -- From a consistent state handle_client_messages returns without a panic on every batch, and the
  -- server and its files stay consistent.
  pub handle_client_messages-Returns :
      (s : Server op) (h : Host json.Contents) (ms : List (ℕ × ClientMessage))
      → Good s h
      → Returns h (handle_client_messages op s ms)
  handle_client_messages-Returns s h ms c =
      Calls.handle_client_messages-Returns (library ag) json blank (Good-Steady h) s ms c

  pub send_client_start_signals-Good :
      (s : Server op) (h : Host json.Contents) (t : ℕ)
      → Good s h
      → Good (send_client_start_signals op s t) h
  send_client_start_signals-Good s h t c =
      Calls.send_client_start_signals-Keeps (library ag) json blank (Good-Steady h) s t c

  pub start_signals-Returns :
      (s : Server op) (h : Host json.Contents) (t : ℕ)
      → Good s h
      → Returns h (start_signals op json blank s t)
  start_signals-Returns s h t c =
      Calls.start_signals-Returns (library ag) json blank (Good-Steady h) s t c

  pub handle_recovered_connection-Returns :
      (s : Server op) (h : Host json.Contents) (nc : NewConnection op.Message) (t : ℕ)
      → Good s h
      → Returns h (handle_recovered_connection op json blank s nc t)
  handle_recovered_connection-Returns s h nc t c =
      Calls.handle_recovered_connection-Returns (library ag) json blank (Good-Steady h) s nc t c
