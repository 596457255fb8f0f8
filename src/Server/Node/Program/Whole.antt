-- ===== src/Server/Node/Program/Whole.antt =====
-- The main loop returns and keeps a consistent server consistent; the configuration is saved.
use id2203_project.Base.{ℕ, id_key, ◌≡◌, refl, true, Option, some, List, [], ◌∷◌, All, text_key}
use id2203_project.Common.Output.{Files, FileFaults, stored, Succeeds, write_output-Succeeds}
use id2203_project.Server.Configs.{OmniPaxosKvConfig}
use id2203_project.Server.Database.{Json}
use id2203_project.Server.Database.Recovery.{JsonLaws}
use id2203_project.Server.Node.{OmniPaxos, Server, Host}
use id2203_project.Server.Node.Handlers.{Event}
use id2203_project.Server.Node.Agreement.{Agreement}
use id2203_project.Server.Node.Steps.{Good}
use id2203_project.Server.Node.Rounds.{ReturnsBoth, IsGenuineEvent, run_step-Returns}
use id2203_project.Server.Node.Program.{save_output, main_loop}

module _ {op : OmniPaxos} where
  pub save_output-Succeeds :
      {Text : Type 0} (to_string_pretty : OmniPaxosKvConfig op.Quorum → Option Text) (s : Server op)
      (outputs : Files Text) (faults : FileFaults Text) (config_json : Text)
      → to_string_pretty s.config ≡ some config_json
      → Succeeds faults
      → save_output op to_string_pretty s outputs faults
        ≡ (stored outputs s.config.local.output_filepath config_json, true)
  unfolding save_output
  save_output-Succeeds to_string_pretty s outputs faults config_json e ok =
      rw (e, save_output)
        (write_output-Succeeds outputs s.config.local.output_filepath config_json faults ok)

module _ {op : OmniPaxos} (json : Json) (blank : json.Contents) (ag : Agreement op)
    (laws : JsonLaws json) where
  abbrev pub Genuine : List (Event op json blank) → Type 0
  Genuine events = All (IsGenuineEvent json blank ag) events

  pub main_loop-Returns :
      (s : Server op) (h : Host json.Contents) (counter : ℕ) (events : List (Event op json blank))
      → Good json blank ag s h
      → Genuine events
      → ReturnsBoth json blank ag (main_loop op json blank s h counter events)
  unfolding main_loop
  main_loop-Returns s h counter [] c g = (s, h, counter, refl, c)
  main_loop-Returns s h counter (ev ∷ events) c g =
      let (s', h', counter', e, c') = run_step-Returns json blank ag laws s h counter ev c g.0 in
      let (s2, h2, counter2, e2, c2) = main_loop-Returns s' h' counter' events c' g.1 in
      (s2, h2, counter2, rw (e, main_loop) e2, c2)
