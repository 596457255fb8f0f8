-- ===== src/Client/LoadClient/Finish.antt =====
-- A load client begins, comes to its end, and saves its results.
use id2203_project.Base.{
  ℕ, ◌+◌, ◌≤◌, ◌<◌, ◌≡◌, refl, ap, subst, ◌∙◌, true, none, some, List, [], ◌∷◌, All, arith, inl,
  inr, List-cases, length, text_key,
}
use id2203_project.Common.Messages.{start_signal}
use id2203_project.Common.Output.{Files, FileFaults, stored, Succeeds, write_output-Succeeds}
use id2203_project.Client.Configs.{RequestInterval}
use id2203_project.Client.Data.{request_count}
use id2203_project.Client.Network
use id2203_project.Client.Results.{Formatters, save_results, save_summary, to_csv}
use id2203_project.Client.LoadClient.{LoadClient, Schedule, LoadEvent, begin}
use id2203_project.Client.ShimClient.{wait_until_sync_time}
use id2203_project.Client.LoadClient.Rounds.{IsTimed, IsRunning, timers-total}
use id2203_project.Client.LoadClient.Program.{finished, saved, run}
use id2203_project.Client.LoadClient.Ends.{
  GenuineFrom, interval_ticks, requests_until, run_loop-Ends,
}

module _ {Ratio : Type 0} where
  -- A client that has not begun: as many ids as requests, no end set, and intervals that have timers.
  pub record IsReady (c : LoadClient Ratio) : Type 0 where
    pub next_id : c.next_request_id ≡ request_count c.client_data
    pub no_end : c.final_request_count ≡ none
    pub timed : All IsTimed c.config.requests

  -- The configuration once the start signal has come.
  abbrev pub begun : LoadClient Ratio → ℕ → ℕ → LoadClient Ratio
  begun c start now = record c { config = (wait_until_sync_time c.config start now).0 }

  begin_lem :
      (c : LoadClient Ratio) (start now : ℕ) (i : RequestInterval Ratio)
      (rest : List (RequestInterval Ratio))
      → c.config.requests ≡ i ∷ rest
      → IsReady c
      → (t : Schedule Ratio) × (begin c (some (start_signal start)) now
          ≡ some (begun c start now, some t))
        × (t.intervals ≡ rest)
        × IsRunning (begun c start now) t
  unfolding begin
  begin_lem c start now i rest e ready =
      let timed : All IsTimed (i ∷ rest) = subst (All IsTimed) e ready.timed in
      let (request_interval, next_interval, made) = timers-total i timed.0 in
      (
        record {
          intervals = rest;
          read_ratio = i.read_ratio;
          request_interval = request_interval;
          next_interval = next_interval;
        },
        ground (arith, e, made),
        refl,
        record { next_id = ready.next_id; no_end = ready.no_end; timed = timed.1 },
      )

  begin-none :
      (c : LoadClient Ratio) (start now : ℕ)
      → c.config.requests ≡ []
      → begin c (some (start_signal start)) now ≡ some (begun c start now, none)
  unfolding begin
  begin-none c start now e = ground (arith, e)

  module _ {Contents : Type 0} (formatters : Formatters Ratio Contents) where
    -- The results of a client are on disk.
    abbrev pub IsSaved : LoadClient Ratio → Files Contents → Type 0
    IsSaved c files =
        files c.config.output_filepath ≡ some (formatters.csv c.client_data.request_data)

    saved-Succeeds :
        (c : LoadClient Ratio) (files : Files Contents) (f1 f2 : FileFaults Contents)
        (config_json : Contents)
        → formatters.to_string_pretty c.config ≡ some config_json
        → Succeeds f1
        → Succeeds f2
        → (files' : Files Contents) × (saved formatters c files f1 f2 ≡ some (finished c files'))
          × IsSaved c files'
    unfolding saved save_results save_summary to_csv
    saved-Succeeds c files f1 f2 config_json e ok1 ok2 =
        let config = c.config in
        let files1 = stored files config.summary_filepath config_json in
        let files2 =
          stored files1 config.output_filepath (formatters.csv c.client_data.request_data) in
        let summary : save_summary formatters config files f1 ≡ (files1, true) =
          rw (e, save_summary)
            (write_output-Succeeds files config.summary_filepath config_json f1 ok1) in
        let table : to_csv formatters c.client_data config.output_filepath files1 f2
            ≡ (files2, true) =
          write_output-Succeeds files1 config.output_filepath _ f2 ok2 in
        let results : save_results formatters c.client_data config files f1 f2 ≡ (files2, true) =
          rw (summary, save_results) table in
        (
          files2,
          rw (results, saved) refl,
          ground (arith, text_key.decides config.output_filepath config.output_filepath),
        )

    -- A load client that has the start signal finishes on any genuine events among which there are
    -- as many ticks that end an interval as it has intervals, when its intervals take at least a
    -- second (a timer of no seconds is a panic), its rates are at most a thousand requests in a
    -- second and its results can be written: it has made one request more for each tick for
    -- requests before the last interval ended, whether or not responses have come, and the table
    -- of its requests is in its output file.
    pub run-finishes :
        (c : LoadClient Ratio) (start now : ℕ) (events : List (LoadEvent Ratio))
        (files : Files Contents) (summary_faults output_faults : FileFaults Contents)
        (config_json : Contents)
        → IsReady c
        → GenuineFrom c.next_request_id events
        → length c.config.requests ≤ interval_ticks events
        → formatters.to_string_pretty (begun c start now).config ≡ some config_json
        → Succeeds summary_faults
        → Succeeds output_faults
        → (c' : LoadClient Ratio) × (files' : Files Contents) × (run formatters c
              (some (start_signal start))
              now
              events
              files
              summary_faults
              output_faults
            ≡ some (finished c' files'))
          × (request_count c'.client_data
              ≡ request_count c.client_data + requests_until (length c.config.requests) events)
          × IsSaved c' files'
    unfolding run
    run-finishes c start now events files f1 f2 config_json ready g ticks e ok1 ok2 =
        elim (List-cases c.config.requests) [
          | inl none_set ↦
              let (files', done, on_disk) =
                saved-Succeeds (begun c start now) files f1 f2 config_json e ok1 ok2 in
              (
                begun c start now,
                files',
                rw (begin-none c start now none_set, run) done,
                rw none_set (omega arith),
                on_disk,
              )
          | inr (i, rest, some_set) ↦
              let (t, starts, left, running_now) = begin_lem c start now i rest some_set ready in
              let few : length t.intervals < interval_ticks events =
                omega (arith, ap length left, ap length some_set, ticks) in
              let (c', t', over, same, counted) =
                run_loop-Ends events (begun c start now) t running_now g few in
              let closed : LoadClient Ratio = record c' { network = Network.shutdown c'.network } in
              let rendered : formatters.to_string_pretty c'.config ≡ some config_json =
                ap formatters.to_string_pretty same ∙ e in
              let (files', done, on_disk) =
                saved-Succeeds closed files f1 f2 config_json rendered ok1 ok2 in
              (
                closed,
                files',
                rw (starts, run) (rw (over, run) done),
                rw some_set (rw (ap length left) at counted),
                on_disk,
              )
        ]
