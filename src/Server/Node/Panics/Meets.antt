-- ===== src/Server/Node/Panics/Meets.antt =====
-- The events in which a server reads an entry that is no command: each of them is a panic.
use id2203_project.Base.{ℕ, id_key, ◌≡◌, refl, Bool, true, false, none, some, List, ◌∷◌, text_key}
use id2203_project.Common.Messages.{ClusterMessage}
use id2203_project.Server.Database.{Json}
use id2203_project.Server.Node.{OmniPaxos, Server, Host}
use id2203_project.Server.Node.Handlers.{
  Event, timer, cluster_messages, client_messages, new_connection, cluster_loop,
  handle_cluster_messages, run_step, establish_step,
}
use id2203_project.Server.Node.Answers.{panics_on_other_entry}
use id2203_project.Server.Node.Panics.Loops.{BatchMeets, here, later, signalled, EventMeets}
use id2203_project.Server.Node.Program.{main_loop}

module _ {op : OmniPaxos} (json : Json) (blank : json.Contents) where
  -- Events of the main loop among which is such a batch.
  pub data MainMeets
      : Server op → Host json.Contents → ℕ → List (Event op json blank) → Type 0 where
    main_batch :
        {s : Server op} {h : Host json.Contents} {counter : ℕ} {events : List (Event op json blank)}
        (ev : Event op json blank)
        → EventMeets json blank s h ev
        → MainMeets s h counter (ev ∷ events)
    main_round :
        {s s' : Server op} {h h' : Host json.Contents} {counter counter' : ℕ}
        {events : List (Event op json blank)} (ev : Event op json blank)
        → run_step op json blank s h counter ev ≡ some (s', h', counter')
        → MainMeets s' h' counter' events
        → MainMeets s h counter (ev ∷ events)

  -- Events of a run, in the loop before the main one or in that.
  pub data RunMeets : Server op → Host json.Contents → List (Event op json blank) → Type 0 where
    first_batch :
        {s : Server op} {h : Host json.Contents} {events : List (Event op json blank)}
        (ev : Event op json blank)
        → EventMeets json blank s h ev
        → RunMeets s h (ev ∷ events)
    first_round :
        {s s' : Server op} {h h' : Host json.Contents} {events : List (Event op json blank)}
        (ev : Event op json blank)
        → establish_step op json blank s h ev ≡ some (s', h', false)
        → RunMeets s' h' events
        → RunMeets s h (ev ∷ events)
    led :
        {s s' : Server op} {h h' : Host json.Contents} {events : List (Event op json blank)}
        (ev : Event op json blank)
        → establish_step op json blank s h ev ≡ some (s', h', true)
        → MainMeets s' h' 0 events
        → RunMeets s h (ev ∷ events)

  cluster_loop-panics :
      {s : Server op} {h : Host json.Contents} {ms : List (ℕ × ClusterMessage op.Message)}
      (received : Bool)
      → BatchMeets json blank s h ms
      → cluster_loop op json blank s h ms received ≡ none
  unfolding cluster_loop
  cluster_loop-panics r (here {s} {h} from m reads) =
      let s1 = record s { omnipaxos = op.handle_incoming s.omnipaxos m } in
      rw
        (
          panics_on_other_entry op json blank s1 h reads.entries reads.behind reads.read
              reads.other,
          cluster_loop,
        )
        refl
  cluster_loop-panics r (later from m e meets) = rw (e, cluster_loop) (cluster_loop-panics r meets)
  cluster_loop-panics r (signalled from t meets) = cluster_loop-panics true meets

  handle_cluster_messages-panics :
      (s : Server op) (h : Host json.Contents) (ms : List (ℕ × ClusterMessage op.Message))
      → BatchMeets json blank s h ms
      → handle_cluster_messages op json blank s h ms ≡ none
  unfolding handle_cluster_messages
  handle_cluster_messages-panics s h ms meets =
      rw (cluster_loop-panics false meets, handle_cluster_messages) refl

  run_step-panics :
      (s : Server op) (h : Host json.Contents) (counter : ℕ) (ev : Event op json blank)
      → EventMeets json blank s h ev
      → run_step op json blank s h counter ev ≡ none
  unfolding run_step
  run_step-panics s h counter (timer now) meets = absurd meets
  run_step-panics s h counter (cluster_messages ms) meets =
      rw (handle_cluster_messages-panics s h ms meets) refl
  run_step-panics s h counter (client_messages ms) meets = absurd meets
  run_step-panics s h counter (new_connection nc now) meets = absurd meets

  pub establish_step-panics :
      (s : Server op) (h : Host json.Contents) (ev : Event op json blank)
      → EventMeets json blank s h ev
      → establish_step op json blank s h ev ≡ none
  unfolding establish_step
  establish_step-panics s h (timer now) meets = absurd meets
  establish_step-panics s h (cluster_messages ms) meets =
      rw (handle_cluster_messages-panics s h ms meets) refl
  establish_step-panics s h (client_messages ms) meets = absurd meets
  establish_step-panics s h (new_connection nc now) meets = absurd meets

  pub main_loop-panics :
      {s : Server op} {h : Host json.Contents} {counter : ℕ} {events : List (Event op json blank)}
      → MainMeets s h counter events
      → main_loop op json blank s h counter events ≡ none
  unfolding main_loop
  main_loop-panics (main_batch {s} {h} {counter} ev meets) =
      rw (run_step-panics s h counter ev meets, main_loop) refl
  main_loop-panics (main_round ev e meets) = rw (e, main_loop) (main_loop-panics meets)
