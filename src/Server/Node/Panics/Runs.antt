-- ===== src/Server/Node/Panics/Runs.antt =====
-- A whole run of a server panics exactly when it reads an entry that is no command.
use mathlib.Core.Option
use id2203_project.Base.{
  ℕ, id_key, ◌≡◌, refl, ap, ◌∙◌, Bool, true, false, Option, none, some, List, [], ◌∷◌, All, arith,
  ◌⊎◌, inl, inr, Bool-cases, Option-cases, if◌then◌else◌, text_key,
}
use id2203_project.Common.Output.{Files, FileFaults, stored, Succeeds}
use id2203_project.Server.Configs.{OmniPaxosKvConfig}
use id2203_project.Server.Database.{Json}
use id2203_project.Server.Node.{OmniPaxos, Server, Host}
use id2203_project.Server.Node.Handlers.{Event, establish_step}
use id2203_project.Server.Node.Agreement.{Library}
use id2203_project.Server.Node.Panics.{IsFine, ReturnsUnless}
use id2203_project.Server.Node.Panics.Loops.{IsSentEvent, run_step-Returns, establish_step-Returns}
use id2203_project.Server.Node.Program.{save_output, establish_initial_leader, main_loop, run}
use id2203_project.Server.Node.Program.Whole.{save_output-Succeeds}
use id2203_project.Server.Node.Panics.Meets.{
  MainMeets, main_batch, main_round, RunMeets, first_batch, first_round, led, establish_step-panics,
  main_loop-panics,
}

module _ {op : OmniPaxos} (lib : Library op) (json : Json) (blank : json.Contents) where
  main_loop-Returns :
      (s : Server op) (h : Host json.Contents) (counter : ℕ) (events : List (Event op json blank))
      → IsFine lib json blank s
      → All (IsSentEvent lib json blank) events
      → ReturnsUnless lib json blank
          (MainMeets json blank s h counter events)
          (main_loop op json blank s h counter events)
  unfolding main_loop
  main_loop-Returns s h counter [] f g = inl (s, h, counter, refl, f)
  main_loop-Returns s h counter (ev ∷ events) f g =
      elim (run_step-Returns lib json blank s h counter ev f g.0) [
        | inl (s1, h1, k, e, f1) ↦ elim (main_loop-Returns s1 h1 k events f1 g.1) [
          | inl (s2, h2, k2, e2, f2) ↦ inl (s2, h2, k2, rw (e, main_loop) e2, f2)
          | inr (e2, meets) ↦ inr (rw (e, main_loop) e2, main_round ev e meets)
        ]
        | inr (e, meets) ↦ inr (rw (e, main_loop) refl, main_batch ev meets)
      ]

module _ {op : OmniPaxos} (json : Json) (blank : json.Contents) where
  -- The main loop on the events that the first loop has left, when that is over.
  abbrev pub then_main :
      Option (Server op × Host json.Contents × Bool × List (Event op json blank))
      → Option (Server op × Host json.Contents × ℕ)
  then_main none = none
  then_main (some (s1, h1, over, left)) =
      if over then main_loop op json blank s1 h1 0 left else some (s1, h1, 0)

  -- The loops of `run`, one after the other.
  abbrev pub both_loops :
      Server op
      → Host json.Contents
      → List (Event op json blank)
      → Option (Server op × Host json.Contents × ℕ)
  both_loops s h events = then_main (establish_initial_leader op json blank s h events)

  both_loops-stops :
      (s : Server op) (h : Host json.Contents) (ev : Event op json blank)
      (events : List (Event op json blank))
      → establish_step op json blank s h ev ≡ none
      → both_loops s h (ev ∷ events) ≡ none
  unfolding establish_initial_leader
  both_loops-stops s h ev events e =
      let stops : establish_initial_leader op json blank s h (ev ∷ events) ≡ none =
        rw (e, establish_initial_leader) refl in
      ap then_main stops

  both_loops-goes :
      (s s' : Server op) (h h' : Host json.Contents) (ev : Event op json blank)
      (events : List (Event op json blank))
      → establish_step op json blank s h ev ≡ some (s', h', false)
      → both_loops s h (ev ∷ events) ≡ both_loops s' h' events
  unfolding establish_initial_leader
  both_loops-goes s s' h h' ev events e =
      let goes : establish_initial_leader op json blank s h (ev ∷ events)
          ≡ establish_initial_leader op json blank s' h' events =
        rw (e, establish_initial_leader) refl in
      ap then_main goes

  both_loops-led :
      (s s' : Server op) (h h' : Host json.Contents) (ev : Event op json blank)
      (events : List (Event op json blank))
      → establish_step op json blank s h ev ≡ some (s', h', true)
      → both_loops s h (ev ∷ events) ≡ main_loop op json blank s' h' 0 events
  unfolding establish_initial_leader
  both_loops-led s s' h h' ev events e =
      let led_now : establish_initial_leader op json blank s h (ev ∷ events)
          ≡ some (s', h', true, events) =
        rw (e, establish_initial_leader) refl in
      ap then_main led_now

  both_loops-panics :
      {s : Server op} {h : Host json.Contents} {events : List (Event op json blank)}
      → RunMeets json blank s h events
      → both_loops s h events ≡ none
  both_loops-panics (first_batch {s} {h} {events} ev meets) =
      both_loops-stops s h ev events (establish_step-panics json blank s h ev meets)
  both_loops-panics (first_round {s} {s'} {h} {h'} {events} ev e meets) =
      both_loops-goes s s' h h' ev events e ∙ both_loops-panics meets
  both_loops-panics (led {s} {s'} {h} {h'} {events} ev e meets) =
      both_loops-led s s' h h' ev events e ∙ main_loop-panics json blank meets

  run-both_loops :
      {Text : Type 0} (to_string_pretty : OmniPaxosKvConfig op.Quorum → Option Text) (s : Server op)
      (h : Host json.Contents) (events : List (Event op json blank)) (outputs outputs' : Files Text)
      (faults : FileFaults Text)
      → save_output op to_string_pretty s outputs faults ≡ (outputs', true)
      → run op json blank to_string_pretty s h events outputs faults
        ≡ Option.map
            (λ (r : Server op × Host json.Contents × ℕ). (r.0, r.1, outputs'))
            (both_loops s h events)
  unfolding run
  run-both_loops to_string_pretty s h events outputs outputs' faults saved =
      elim (Option-cases (establish_initial_leader op json blank s h events)) [
        | inl e ↦ rw (e, run) refl
        | inr ((s1, h1, over, left), e) ↦ rw (e, run) (rw saved refl)
      ]

module _ {op : OmniPaxos} (lib : Library op) (json : Json) (blank : json.Contents) where
  both_loops-Returns :
      (s : Server op) (h : Host json.Contents) (events : List (Event op json blank))
      → IsFine lib json blank s
      → All (IsSentEvent lib json blank) events
      → ReturnsUnless lib json blank
          (RunMeets json blank s h events)
          (both_loops json blank s h events)
  unfolding establish_initial_leader
  both_loops-Returns s h [] f g = inl (s, h, 0, refl, f)
  both_loops-Returns s h (ev ∷ events) f g =
      elim (establish_step-Returns lib json blank s h ev f g.0) [
        | inl (s1, h1, over, e, f1) ↦ elim (Bool-cases over) [
          | inl ended ↦
              let e1 = e ∙ ap (λ b. some (s1, h1, b)) ended in
              let goes = both_loops-led json blank s s1 h h1 ev events e1 in
              elim (main_loop-Returns lib json blank s1 h1 0 events f1 g.1) [
                | inl (s2, h2, k, e2, f2) ↦ inl (s2, h2, k, goes ∙ e2, f2)
                | inr (e2, meets) ↦ inr (goes ∙ e2, led ev e1 meets)
              ]
          | inr more ↦
              let e1 = e ∙ ap (λ b. some (s1, h1, b)) more in
              let goes = both_loops-goes json blank s s1 h h1 ev events e1 in
              elim (both_loops-Returns s1 h1 events f1 g.1) [
                | inl (s2, h2, k, e2, f2) ↦ inl (s2, h2, k, goes ∙ e2, f2)
                | inr (e2, meets) ↦ inr (goes ∙ e2, first_round ev e1 meets)
              ]
        ]
        | inr (e, meets) ↦ inr (both_loops-stops json blank s h ev events e, first_batch ev meets)
      ]

  -- A run of a server whose library is in a valid state and whose network is wired, when its
  -- configuration can be written to the output file, on any sequence of events in which the
  -- messages of the library are ones that nodes of the cluster send, those that bring snapshots
  -- included: it either handles all events, in the loop that waits for the first leader and then
  -- in the main loop if the first one ends, and leaves the library in a valid state, the network
  -- wired and the configuration in the output file; or it panics in one of these loops, in a batch
  -- of the cluster in which the library has news and returns an entry that is no command. Whenever
  -- a run comes to such a batch, it panics.
  pub run-ReturnsUnless :
      {Text : Type 0} (to_string_pretty : OmniPaxosKvConfig op.Quorum → Option Text) (s : Server op)
      (h : Host json.Contents) (events : List (Event op json blank)) (outputs : Files Text)
      (faults : FileFaults Text) (config_json : Text)
      → IsFine lib json blank s
      → All (IsSentEvent lib json blank) events
      → to_string_pretty s.config ≡ some config_json
      → Succeeds faults
      → (((s' : Server op) × (h' : Host json.Contents) × (outputs' : Files Text) × (run op json
                blank to_string_pretty s h events outputs faults
              ≡ some (s', h', outputs'))
            × IsFine lib json blank s'
            × (outputs' s.config.local.output_filepath ≡ some config_json))
          ⊎ ((run op json blank to_string_pretty s h events outputs faults ≡ none)
              × RunMeets json blank s h events))
        × (RunMeets json blank s h events
            → run op json blank to_string_pretty s h events outputs faults ≡ none)
  run-ReturnsUnless to_string_pretty s h events outputs faults config_json f g e ok =
      let path = s.config.local.output_filepath in
      let outputs' = stored outputs path config_json in
      let loops : run op json blank to_string_pretty s h events outputs faults
          ≡ Option.map (λ (r : Server op × Host json.Contents × ℕ). (r.0, r.1, outputs'))
              (both_loops json blank s h events) =
        run-both_loops json blank to_string_pretty s h events outputs outputs' faults
          (save_output-Succeeds to_string_pretty s outputs faults config_json e ok) in
      (
        elim (both_loops-Returns s h events f g) [
          | inl (s', h', k, returned, f') ↦ inl (
            s',
            h',
            outputs',
            loops ∙ rw returned refl,
            f',
            ground (arith, text_key.decides path path),
          )
          | inr (panics, meets) ↦ inr (loops ∙ rw panics refl, meets)
        ],
        λ meets. loops ∙ rw (both_loops-panics json blank meets) refl,
      )
