-- ===== src/Perf/Runs.antt =====
-- Two client threads of the benchmark on their shared statistics, run on small inputs.
use async_rpc_fbthrift.Common.{
  true, ℕ, ◌≡◌, ◌≤◌, length, text, Option, refl, false, none, some, [], ◌∷◌, arith, u32, pos,
}
use async_rpc_fbthrift.Perf.Counters.{print_stats, count, register_counter, text_ltb}
use async_rpc_fbthrift.Perf.Sums.{check_response, sum_answer}
use async_rpc_fbthrift.Perf.Classes.{sum_validator}
use async_rpc_fbthrift.Perf.Load.{
  throws_at_start, sums, Load, Process, running, ended_by_check, issue, started, add_if,
  received_by, run, new_load, needs_stream_test, registered_names, deliver,
}
use async_rpc_fbthrift.Perf.Registered.{is_name}
use async_rpc_fbthrift.Perf.LoadLaws.{starts, is_compiled}
use async_rpc_fbthrift.Perf.Expected.{outcome}
use async_rpc_fbthrift.Perf.Events.{suits, IsAnswered}
use async_rpc_fbthrift.Perf.Outcomes.{times_in}
use async_rpc_fbthrift.Perf.Clients.{
  Program, setting, Clients, moved, seen_by, no_clients, Work, begins, thread_starts, event, prints,
}
use async_rpc_fbthrift.Perf.ClientsLaws.{Work-counts}
use async_rpc_fbthrift.Perf.Tests.{counting, one_load, a_sum, sum_reply}

-- Two threads start a sum each, the reply to the second arrives, and the statistics are printed.
abbrev two_threads : Program
two_threads = record {
  stream_test = false;
  max_outstanding_ops = 1;
  num_clients = 2;
  draws = λ i j. sums;
  numbers = λ i j. (pos 3, pos 5);
  opens = λ i j. true;
}

abbrev load_or : Load counting → Option (Load counting) → Load counting
load_or l none = l
load_or l (some s) = s

abbrev load_behind : Load counting → Option (Process counting) → Load counting
load_behind l none = l
load_behind l (some (running s)) = s
load_behind l (some ended_by_check) = l

abbrev first : Load counting
first =
    load_or one_load
      (run counting 1 (setting two_threads 0) (new_load counting (setting two_threads 0) []))

abbrev with_first : Clients counting
with_first = moved counting 0 first (no_clients counting)

abbrev second : Load counting
second = load_or one_load (
    run counting 1 (setting two_threads 1)
      (new_load counting (setting two_threads 1) with_first.stats))

abbrev with_second : Clients counting
with_second = moved counting 1 second with_first

abbrev behind_reply : Load counting
behind_reply = load_behind one_load (
    deliver counting 1 (setting two_threads 1) [] a_sum [] sum_reply
      (seen_by counting with_second second))

first_runs :
    run counting 1 (setting two_threads 0) (new_load counting (setting two_threads 0) [])
    ≡ some first
unfolding run issue throws_at_start new_load
first_runs = refl

second_runs :
    run counting 1
      (setting two_threads 1)
      (new_load counting (setting two_threads 1) with_first.stats)
    ≡ some second
unfolding run issue throws_at_start new_load
second_runs = refl

reply_runs :
    deliver counting 1
      (setting two_threads 1)
      []
      a_sum
      []
      sum_reply
      (seen_by counting with_second second)
    ≡ some (running behind_reply)
unfolding deliver sum_validator check_response sum_answer add_if received_by run new_load issue
    throws_at_start register_counter text_ltb
reply_runs = refl

abbrev behind_print : Clients counting
behind_print = record (moved counting 1 behind_reply with_second) {
  stats = (print_stats counting 1 0 behind_reply.stats).1;
}

one_reply : Work counting two_threads 1 (outcome sums sum_reply ∷ []) behind_print
unfolding suits IsAnswered started run new_load issue throws_at_start
one_reply = prints 1 0 (
    event 1 second behind_reply [] a_sum [] sum_reply
      (thread_starts 1 second (thread_starts 0 first begins (omega arith) refl first_runs)
        (omega arith) refl second_runs)
      refl refl refl refl reply_runs)

Work-counts_example :
    ((k : ℕ) × (k ≤ 1)
      × (behind_reply.outstanding_ops ≡ pos k)
      × (length behind_reply.in_flight ≡ k))
    × (count counting (text "sum") behind_print.stats
        ≡ some (u32 (times_in (text "sum") (outcome sums sum_reply ∷ []))))
unfolding starts throws_at_start is_compiled needs_stream_test is_name registered_names
Work-counts_example =
    Work-counts counting two_threads 1 (outcome sums sum_reply ∷ []) behind_print 1 behind_reply
      (text "sum") (λ i j. refl) (omega arith) one_reply refl refl
