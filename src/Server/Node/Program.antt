-- ===== src/Server/Node/Program.antt =====
-- server/server.rs, `run` as a whole: the configuration is saved, then come the loop that waits for the
-- first leader and the main loop, on the events that arrive.
pub mod Whole
use mathlib.Core.Option
use id2203_project.Base.{ℕ, Bool, true, false, Option, none, some, List, [], ◌∷◌, if◌then◌else◌}
use id2203_project.Common.Output.{Files, FileFaults, write_output}
use id2203_project.Server.Configs.{OmniPaxosKvConfig}
use id2203_project.Server.Database.{Json}
use id2203_project.Server.Node.{OmniPaxos, Server, Host}
use id2203_project.Server.Node.Handlers.{Event, run_step, establish_step}

module _ {Text : Type 0} (op : OmniPaxos) where
  -- The text of the configuration comes from serde_json, which may refuse it.
  unfoldable pub save_output :
      (OmniPaxosKvConfig op.Quorum → Option Text)
      → Server op
      → Files Text
      → FileFaults Text
      → Files Text × Bool
  save_output to_string_pretty s outputs faults = elim (to_string_pretty s.config) [
    | none ↦ (outputs, false)
    | some config_json ↦ write_output outputs s.config.local.output_filepath config_json faults
  ]

module _ (op : OmniPaxos) (json : Json) (blank : json.Contents) where
  -- Rounds until the loop is over; the result says whether it is, and which events are left.
  unfoldable pub establish_initial_leader :
      Server op
      → Host json.Contents
      → List (Event op json blank)
      → Option (Server op × Host json.Contents × Bool × List (Event op json blank))
  establish_initial_leader s h [] = some (s, h, false, [])
  establish_initial_leader s h (ev ∷ events) = elim (establish_step op json blank s h ev) [
    | none ↦ none
    | some (s', h', over) ↦
        let rest = establish_initial_leader s' h' events in
        if over then some (s', h', true, events) else rest
  ]

  unfoldable pub main_loop :
      Server op
      → Host json.Contents
      → ℕ
      → List (Event op json blank)
      → Option (Server op × Host json.Contents × ℕ)
  main_loop s h counter [] = some (s, h, counter)
  main_loop s h counter (ev ∷ events) = elim (run_step op json blank s h counter ev) [
    | none ↦ none
    | some (s', h', counter') ↦ main_loop s' h' counter' events
  ]

  -- `expect`: an output that is not saved is a panic.
  unfoldable pub run :
      {Text : Type 0}
      → (OmniPaxosKvConfig op.Quorum → Option Text)
      → Server op
      → Host json.Contents
      → List (Event op json blank)
      → Files Text
      → FileFaults Text
      → Option (Server op × Host json.Contents × Files Text)
  run to_string_pretty s h events outputs faults =
      let (outputs', saved) = save_output op to_string_pretty s outputs faults in
      elim (establish_initial_leader s h events) [
        | none ↦ none
        | some (s1, h1, over, left) ↦
            if saved
            then Option.map (λ (r : Server op × Host json.Contents × ℕ). (r.0, r.1, outputs'))
                (if over then main_loop s1 h1 0 left else some (s1, h1, 0))
            else none
      ]
