-- ===== src/System/Flight/File.antt =====
-- What the asynchronous client leaves in its statistics file.
use async_rpc_fbthrift.Common.{
  ℕ, ◌-◌, ◌/◌, ◌≤◌, ◌<◌, Bool, true, false, List, [], ◌++◌, some, length, concat, All, Text, ◌≡◌,
  refl, sym, ap, some_inj, ◌∙◌, arith,
}
use async_rpc_fbthrift.Stats.Csv.{Files}
use async_rpc_fbthrift.Stats.Manager.{erase_previous, destroy, default_entry_count}
use async_rpc_fbthrift.Stats.Retention.{Entry, add_entries, rows_of}
use async_rpc_fbthrift.Stats.Reader.{read_table, read_table-destroy}
use async_rpc_fbthrift.Rpc.{value}
use async_rpc_fbthrift.Uid.Make.{Address, generate_local_uid}
use async_rpc_fbthrift.Message.Handler.{Board}
use async_rpc_fbthrift.Message.Laws.{IsBoard}
use async_rpc_fbthrift.Client.Main.{is_finished}
use async_rpc_fbthrift.System.Process.{
  stats_file, client_stats, Numbers, Arguments, read_arguments, delays,
}
use async_rpc_fbthrift.System.File.{client_stats-IsValid, erased_file, stats_file-named}
use async_rpc_fbthrift.System.Flight.{Flight, Move, fly, take_off}
use async_rpc_fbthrift.System.Flight.Order.{AreLossless}
use async_rpc_fbthrift.System.Flight.Laws.{fly-finished}
use async_rpc_fbthrift.System.Flight.Journal.{fly-IsJournal}
use async_rpc_fbthrift.System.Flight.Course.{course_entries}
use async_rpc_fbthrift.System.Flight.Process.{collect_all, start_calls, run_async, async_main}

-- Full buffers and a last, nonempty block that fits in one.
pub record IsCut (entries : List Entry) (blocks : List (List Entry)) (last : List Entry)
    : Type 0 where
  pub cut : entries ≡ concat blocks ++ last
  pub full : All (λ block. length block ≡ default_entry_count) blocks
  pub some_entry : 0 < length last
  pub fits : length last ≤ default_entry_count

module _ (k : Numbers) (fs : Files) (argv : List Text) (args : Arguments k) (course : List Move)
    (localhost : Bool) (hash : ℕ) (a : Address) (rand : ℕ) (b : Board) (f : Flight)
    (blocks : List (List Entry)) (last : List Entry) (parsed : read_arguments k argv ≡ some args)
    (lossless : AreLossless course) (vb : IsBoard b)
    (flew : fly args.iterations
        (generate_local_uid localhost hash a rand)
        args.client_id
        args.message
        course
        (take_off client_stats b)
      ≡ some f)
    (cut : IsCut
      (course_entries (generate_local_uid localhost hash a rand) course)
      blocks
      last) where
  written_stats :
      (fs' : Files) × (destroy (erase_previous fs stats_file true) f.run.client.client_stat_manager
        ≡ some fs')
      × (read_table (fs' stats_file) ≡ rows_of last)
  written_stats =
      let (m, fs', logged, closed, read) =
        read_table-destroy (erase_previous fs stats_file true) stats_file false default_entry_count
          2 false [] blocks last stats_file-named (erased_file fs) (omega arith) (omega arith)
          (omega arith) (omega arith) cut.full cut.some_entry cut.fits in
      let journal =
        fly-IsJournal args.iterations localhost hash a rand args.client_id args.message client_stats
          b client_stats-IsValid vb course f lossless flew in
      let same : m ≡ f.run.client.client_stat_manager =
        some_inj (sym logged ∙ ap (add_entries client_stats) (sym cut.cut) ∙ journal.logs) in
      (fs', ap (destroy (erase_previous fs stats_file true)) (sym same) ∙ closed, read)

  -- The asynchronous client's process, whose arguments can be converted, against the three services,
  -- whose logs are well formed, in a course of moves that brings it to its end and in which every
  -- request and reply is delivered: it prints what its callbacks were given, and a summary in which
  -- every call was successful. When its `main` has deleted the statistics, their file, whatever
  -- stood there before, is read back as the entries of the course's last block, in order, where the
  -- entries of all calls and replies are cut into full buffers and a last, nonempty block that fits
  -- in one; the others are lost.
  pub async_main-lossless :
      is_finished args.iterations f.run ≡ true
      → (fs' : Files) × (async_main k fs argv course (generate_local_uid localhost hash a rand) b
          ≡ some (
            value (record {
              printed = f.printed;
              sleeps = delays k args.iterations args.waiting_time args.decreasing_factor;
              summary = record {
                send_successes = args.iterations - args.iterations / 2;
                send_iterations = args.iterations - args.iterations / 2;
                find_successes = args.iterations / 2;
                find_iterations = args.iterations / 2;
              };
            }),
            fs',
            f.board,
          ))
        × (read_table (fs' stats_file) ≡ rows_of last)
  unfolding async_main run_async collect_all start_calls
  async_main-lossless over =
      let (fs', closed, read) = written_stats in
      let (summary, _) =
        fly-finished args.iterations (generate_local_uid localhost hash a rand) args.client_id
          args.message client_stats b course f client_stats-IsValid vb lossless flew over in
      (fs', rw (parsed, flew, over, closed, summary) refl, read)
