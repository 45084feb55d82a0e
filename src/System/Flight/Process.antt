-- ===== src/System/Flight/Process.antt =====
-- `main` of src/Client/Client.cpp in the asynchronous build. The course of moves is what the
-- environment makes of the calls.
use async_rpc_fbthrift.Common.{ℕ, true, List, Option, none, some, if◌then◌else◌, ◌>>=◌, Text}
use async_rpc_fbthrift.Stats.Csv.{Files}
use async_rpc_fbthrift.Stats.Manager.{erase_previous, destroy}
use async_rpc_fbthrift.Rpc.{Reply, value, failed}
use async_rpc_fbthrift.Message.Handler.{Board}
use async_rpc_fbthrift.Client.Main.{Response, is_finished, Summary, client_summary}
use async_rpc_fbthrift.System.Process.{
  stats_file, client_stats, Numbers, Arguments, read_arguments, delays,
}
use async_rpc_fbthrift.System.Flight.{Flight, Move, fly, take_off}

module _ (k : Numbers) where
  open k use {Float}

  -- What a run shows: the responses that the callbacks print, the last first, the sleeps and the
  -- summary.
  pub record Report : Type 0 where
    pub printed : List (ℕ × Response)
    pub sleeps : List Float
    pub summary : Summary

  -- `f.wait()` and what follows it. A course that does not bring the client to its end has no result.
  unfoldable pub collect_all : Files → Arguments k → Flight → Option (Reply Report × Files × Board)
  collect_all fs args f =
      if is_finished args.iterations f.run
      then (destroy fs f.run.client.client_stat_manager >>= λ written. some (
        value (record {
          printed = f.printed;
          sleeps = delays k args.iterations args.waiting_time args.decreasing_factor;
          summary = client_summary f.run.client args.iterations;
        }),
        written,
        f.board,
      ))
      else none

  -- The rounds of a client whose arguments are converted.
  unfoldable pub start_calls : Arguments k → List Move → ℕ → Board → Option Flight
  start_calls args course client_uid b =
      fly args.iterations client_uid args.client_id args.message course (take_off client_stats b)

  -- An argument that cannot be converted ends the process before its rounds.
  unfoldable pub run_async :
      Files → Option (Arguments k) → List Move → ℕ → Board → Option (Reply Report × Files × Board)
  unfolding collect_all start_calls
  run_async fs none course client_uid b = some (failed, fs, b)
  run_async fs (some args) course client_uid b =
      start_calls args course client_uid b >>= λ f. collect_all fs args f

  unfoldable pub async_main :
      Files → List Text → List Move → ℕ → Board → Option (Reply Report × Files × Board)
  unfolding run_async
  async_main fs argv course client_uid b =
      run_async (erase_previous fs stats_file true) (read_arguments k argv) course client_uid b
