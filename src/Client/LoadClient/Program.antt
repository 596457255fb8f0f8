-- ===== src/Client/LoadClient/Program.antt =====
-- client/client.rs, `run` from the start to the end: the start signal, the loop, and what is saved.
use id2203_project.Base.{ℕ, Bool, true, false, Option, none, some, List, [], ◌∷◌, if◌then◌else◌}
use id2203_project.Common.Messages.{ServerMessage}
use id2203_project.Common.Output.{Files, FileFaults}
use id2203_project.Client.Network
use id2203_project.Client.Results.{Formatters, save_results}
use id2203_project.Client.LoadClient.{LoadClient, Schedule, LoadEvent, begin, run_step}

module _ (Ratio Contents : Type 0) where
  -- The loop waits for events, or the client has finished, with its files.
  pub data Outcome : Type 0 where
    running : LoadClient Ratio → Schedule Ratio → Outcome
    finished : LoadClient Ratio → Files Contents → Outcome

module _ {Ratio : Type 0} where
  -- The loop on the events that come; the result says whether it is over.
  unfoldable pub run_loop :
      LoadClient Ratio
      → Schedule Ratio
      → List (LoadEvent Ratio)
      → Option (LoadClient Ratio × Schedule Ratio × Bool)
  run_loop c t [] = some (c, t, false)
  run_loop c t (ev ∷ events) = elim (run_step c t ev) [
    | none ↦ none
    | some (c', t', over) ↦
        let rest = run_loop c' t' events in if over then some (c', t', true) else rest
  ]

  module _ {Contents : Type 0} (formatters : Formatters Ratio Contents) where
    -- `expect`: results that are not saved are a panic.
    unfoldable pub saved :
        LoadClient Ratio
        → Files Contents
        → FileFaults Contents
        → FileFaults Contents
        → Option (Outcome Ratio Contents)
    saved c files summary_faults output_faults =
        let (files', ok) =
          save_results formatters c.client_data c.config files summary_faults output_faults in
        if ok then some (finished c files') else none

    unfoldable pub run :
        LoadClient Ratio
        → Option ServerMessage
        → ℕ
        → List (LoadEvent Ratio)
        → Files Contents
        → FileFaults Contents
        → FileFaults Contents
        → Option (Outcome Ratio Contents)
    run c first now events files summary_faults output_faults = elim (begin c first now) [
      | none ↦ none
      | some (ready, none) ↦ saved ready files summary_faults output_faults
      | some (ready, some t) ↦ elim (run_loop ready t events) [
        | none ↦ none
        | some (c', t', over) ↦
            if over
            then saved (record c' { network = Network.shutdown c'.network }) files summary_faults
                output_faults
            else some (running c' t')
      ]
    ]
