-- ===== src/Client/Results.antt =====
-- client/data_collection.rs, `save_summary` and `to_csv`, and how client/client.rs saves its results with
-- them. The JSON and CSV libraries are parameters.
use id2203_project.Base.{String, Bool, false, Option, none, some, List, if◌then◌else◌}
use id2203_project.Common.Output.{Files, FileFaults, write_output}
use id2203_project.Client.Configs.{ClientConfig}
use id2203_project.Client.Data.{RequestData, ClientData}

-- serde_json's text of a configuration, which it may refuse, and the table of requests as csv.
pub record Formatters (Ratio Contents : Type 0) : Type 0 where
  pub to_string_pretty : ClientConfig Ratio → Option Contents
  pub csv : List RequestData → Contents

module _ {Ratio Contents : Type 0} (formatters : Formatters Ratio Contents) where
  unfoldable pub save_summary :
      ClientConfig Ratio → Files Contents → FileFaults Contents → Files Contents × Bool
  save_summary config files faults = elim (formatters.to_string_pretty config) [
    | none ↦ (files, false)
    | some config_json ↦ write_output files config.summary_filepath config_json faults
  ]

  unfoldable pub to_csv :
      ClientData → String → Files Contents → FileFaults Contents → Files Contents × Bool
  to_csv d file_path files faults =
      write_output files file_path (formatters.csv d.request_data) faults

  -- The table is written only after the summary has been.
  unfoldable pub save_results :
      ClientData
      → ClientConfig Ratio
      → Files Contents
      → FileFaults Contents
      → FileFaults Contents
      → Files Contents × Bool
  save_results d config files summary_faults output_faults =
      let (files', saved) = save_summary config files summary_faults in
      if saved then to_csv d config.output_filepath files' output_faults else (files', false)
