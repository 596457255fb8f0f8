-- ===== src/Server/Node/Run.antt =====
-- A server over its lifetime: started, woken by events, killed at any moment, also in the middle of
-- a batch or of a save, and started again from what it left on disk.
use mathlib.Core.Option.{some-injective}
use id2203_project.Base.{
  ℕ, ◌≤◌, ◌<◌, max, ◌≡◌, refl, sym, subst, ◌∙◌, Bool, Option, none, some, List, arith, All, String,
}
use id2203_project.Common.Messages.{ClusterMessage}
use id2203_project.Common.Spec.{view, view-empty}
use id2203_project.Server.Configs.{OmniPaxosKvConfig}
use id2203_project.Server.Database
use id2203_project.Server.Database.{Json, Files, Database, recover}
use id2203_project.Server.Database.Recovery.{JsonLaws, Recovers, CrashFiles, crash-Recovers}
use id2203_project.Server.Network.{Network}
use id2203_project.Server.Network.Peers.{IsWired}
use id2203_project.Server.Node.{OmniPaxos, Server, Host, snapshot_path}
use id2203_project.Server.Node.Handlers.{
  Event, new, or_fresh, apply_decided, cluster_loop, run_step, establish_step,
}
use id2203_project.Server.Node.Agreement.{Agreement}
use id2203_project.Server.Node.Invariant.{IsPrefix, IsConsistent}
use id2203_project.Server.Node.Decided.{apply_decided_lem}
use id2203_project.Server.Node.Steps.{with_parts}
use id2203_project.Server.Node.Rounds.{
  ReturnsBoth, FromCluster, IsGenuineEvent, cluster_loop-Returns, run_step-Returns,
  establish_step-Returns,
}

module _ {op : OmniPaxos} (json : Json) (blank : json.Contents) (ag : Agreement op) where
  or_fresh-IsPrefix :
      (r : Option (Database × ℕ))
      → ((d : Database) (idx : ℕ) → r ≡ some (d, idx) → IsPrefix json blank ag (view d.db) idx)
      → IsPrefix json blank ag (view (or_fresh r).0.db) (or_fresh r).1
  unfolding or_fresh Database.new
  or_fresh-IsPrefix none h = view-empty
  or_fresh-IsPrefix (some (d, idx)) h = h d idx refl

  -- A server that starts from files that recover to a prefix of the log is consistent.
  new-IsConsistent :
      (config : OmniPaxosKvConfig op.Quorum) (h : Host json.Contents) (readable : Bool)
      (o : op.State) (n : Network op.Message)
      → Recovers json blank (IsPrefix json blank ag) h.files (snapshot_path config.local.server_id)
      → ag.IsValid o
      → IsWired n
      → IsConsistent json blank ag (new op json blank config h.files readable o n) h
  unfolding new Database.set_snapshot_path
  new-IsConsistent config h readable o n disk v w =
      let r = recover json h.files readable (snapshot_path config.local.server_id) in
      let from_snapshot : max 0 (or_fresh r).1 ≡ (or_fresh r).1 = omega arith in
      record {
        valid = v;
        wired = w;
        store = rw from_snapshot (or_fresh-IsPrefix r (disk readable));
        path = refl;
        disk = disk;
      }

  -- What a killed server leaves on disk: the files of the moment between two messages, or what a
  -- save that was under way leaves.
  pub data Killed (s : Server op) (h : Host json.Contents) (f : Files json) : Type 0 where
    between : f ≡ h.files → Killed s h f
    in_save :
        (m : op.Message) (t : Server op) (n : ℕ)
        → ag.IsGenuine m
        → apply_decided op json blank (record s { omnipaxos = op.handle_incoming s.omnipaxos m })
          ≡ some (t, n)
        → 0 < n
        → CrashFiles json blank t.database h.files t.current_decided_idx
            (h.faults h.saves)
            (snapshot_path s.id)
            f
        → Killed s h f

  -- The states of a server and its host in a run. Where a server starts, the library restores a
  -- state of the run and the network has just been set up.
  pub data Run : Server op → Host json.Contents → Type 0 where
    boot :
        (config : OmniPaxosKvConfig op.Quorum) (h : Host json.Contents) (readable : Bool)
        (o : op.State) (n : Network op.Message)
        → h.files (snapshot_path config.local.server_id) ≡ none
        → ag.IsValid o
        → IsWired n
        → Run (new op json blank config h.files readable o n) h
    in_batch :
        {s s' : Server op} {h h' : Host json.Contents} {received : Bool}
        (ms : List (ℕ × ClusterMessage op.Message))
        → Run s h
        → All (FromCluster json blank ag) ms
        → cluster_loop op json blank s h ms Bool.false ≡ some (s', h', received)
        → Run s' h'
    waiting :
        {s s' : Server op} {h h' : Host json.Contents} {over : Bool} (ev : Event op json blank)
        → Run s h
        → IsGenuineEvent json blank ag ev
        → establish_step op json blank s h ev ≡ some (s', h', over)
        → Run s' h'
    round :
        {s s' : Server op} {h h' : Host json.Contents} {counter' : ℕ} (counter : ℕ)
        (ev : Event op json blank)
        → Run s h
        → IsGenuineEvent json blank ag ev
        → run_step op json blank s h counter ev ≡ some (s', h', counter')
        → Run s' h'
    restart :
        {s : Server op} {h : Host json.Contents} (f : Files json) (h' : Host json.Contents)
        (config : OmniPaxosKvConfig op.Quorum) (readable : Bool) (o : op.State)
        (n : Network op.Message)
        → Run s h
        → Killed s h f
        → h'.files ≡ f
        → config.local.server_id ≡ s.id
        → ag.IsValid o
        → IsWired n
        → Run (new op json blank config h'.files readable o n) h'

  -- What a step returns is what it was shown to return.
  returned :
      {A : Type 0} (r : Option (Server op × Host json.Contents × A)) (s : Server op)
      (h : Host json.Contents) (a : A)
      → ReturnsBoth json blank ag r
      → r ≡ some (s, h, a)
      → IsConsistent json blank ag s h
  returned {A} r s h a (s', h', a', e', c) e =
      subst (λ (t : Server op × Host json.Contents × A). IsConsistent json blank ag t.0 t.1)
        (some-injective (s', h', a') (s, h, a) (sym e' ∙ e)) c

  nothing-Recovers :
      (files : Files json) (path : String)
      → files path ≡ none
      → Recovers json blank (IsPrefix json blank ag) files path
  unfolding recover
  nothing-Recovers files path e readable d idx r = absurd (ground (arith, e, r))

  module _ (laws : JsonLaws json) where
    Killed-Recovers :
        (s : Server op) (h : Host json.Contents) (f : Files json)
        → IsConsistent json blank ag s h
        → Killed s h f
        → Recovers json blank (IsPrefix json blank ag) f (snapshot_path s.id)
    Killed-Recovers s h f c (between e) = rw e c.disk
    Killed-Recovers s h f c (in_save m t n g e some_new crash) =
        let o = op.handle_incoming s.omnipaxos m in
        let s0 = record s { omnipaxos = o } in
        let c0 =
          with_parts json blank ag s h o s.network s.omnipaxos_msg_buffer c
            (ag.handle_incoming-IsValid s.omnipaxos m g c.valid) c.wired in
        let (t', n', e', c', d, past) = apply_decided_lem json blank ag s0 h c0 in
        let (ct, id, past') =
          subst
            (λ (r : Server op × ℕ).
              IsConsistent json blank ag r.0 h
              × (r.0.id ≡ s.id)
              × (0 < r.1 → r.0.snapshot_decided_idx ≤ r.0.current_decided_idx))
            (some-injective (t', n') (t, n) (sym e' ∙ e)) (c', d.id, past) in
        let caught_up : max t.current_decided_idx t.snapshot_decided_idx ≡ t.current_decided_idx =
          omega (arith, past' some_new) in
        crash-Recovers json blank laws (IsPrefix json blank ag) t.database h.files
          t.current_decided_idx (h.faults h.saves) (snapshot_path s.id) f (rw (← id) ct.path) c.disk
          (rw caught_up at (ct.store)) crash

    -- In every state that a server reaches by starting, handling any sequence of genuine events,
    -- being killed at any point of a save or between messages, and starting again, its database
    -- holds what a prefix of the agreed log makes of an empty store, and so does what a recovery
    -- from its snapshot file would load. The OmniPaxos library is assumed to keep agreement and
    -- the JSON library to read back what it wrote.
    pub Run-IsConsistent :
        {s : Server op} {h : Host json.Contents} → Run s h → IsConsistent json blank ag s h
    Run-IsConsistent (boot config h readable o n e v w) =
        new-IsConsistent config h readable o n
          (nothing-Recovers h.files (snapshot_path config.local.server_id) e) v w
    Run-IsConsistent (in_batch {s} {s'} {h} {h'} {received} ms r g e) =
        returned (cluster_loop op json blank s h ms Bool.false) s' h' received
          (cluster_loop-Returns json blank ag laws s h ms Bool.false (Run-IsConsistent r) g) e
    Run-IsConsistent (waiting {s} {s'} {h} {h'} {over} ev r g e) =
        returned (establish_step op json blank s h ev) s' h' over
          (establish_step-Returns json blank ag laws s h ev (Run-IsConsistent r) g) e
    Run-IsConsistent (round {s} {s'} {h} {h'} {counter'} counter ev r g e) =
        returned (run_step op json blank s h counter ev) s' h' counter'
          (run_step-Returns json blank ag laws s h counter ev (Run-IsConsistent r) g) e
    Run-IsConsistent (restart {s} {h} f h' config readable o n r k e same v w) =
        new-IsConsistent config h' readable o n
          (rw (e, same) (Killed-Recovers s h f (Run-IsConsistent r) k)) v w
