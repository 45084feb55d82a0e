-- ===== src/Perf/Tests.antt =====
-- The benchmark on small inputs, and the theorems about it at such inputs.
use async_rpc_fbthrift.Common.{
  ℕ, ◌+◌, ◌-◌, ◌/◌, ◌≡◌, ◌≤◌, ◌<◌, length, text, refl, true, false, none, some, List, [], ◌∷◌,
  arith, Text, u32, pos, All, if◌then◌else◌, leb,
}
use async_rpc_fbthrift.Perf.Counters.{Platform, count, register_all}
use async_rpc_fbthrift.Perf.CountersLaws.{is_sorted}
use async_rpc_fbthrift.Perf.Sums.{check_response, passes}
use async_rpc_fbthrift.Perf.SumsLaws.{answer_of, check_response-sum_answer}
use async_rpc_fbthrift.Perf.Classes.{Answer, returned}
use async_rpc_fbthrift.Perf.Load.{
  throws_at_start, semifuture_sums, future_done, sums, downloads, Callback, Load, Setting, running,
  run, new_load, needs_stream_test, registered_names, Event, reply_received, deliver,
}
use async_rpc_fbthrift.Perf.Registered.{is_name, counted, register_all-Knows}
use async_rpc_fbthrift.Perf.LoadLaws.{starts, IsLoad, IsCall, is_compiled}
use async_rpc_fbthrift.Perf.Start.{run-new_load, run-new_load_leaks}
use async_rpc_fbthrift.Perf.Delivery.{deliver-IsLoad}
use async_rpc_fbthrift.Perf.Expected.{outcome}
use async_rpc_fbthrift.Perf.Events.{left, suits, IsAnswered}
use async_rpc_fbthrift.Perf.Fill.{upload_chunk, stream_download_chunk}
use async_rpc_fbthrift.Perf.FillLaws.{chunks-bounds}
use async_rpc_fbthrift.Perf.Server.{
  chunk_letters, Request, calls_sum, calls_download, next_chunk, handler_names, Handler,
  new_handler, handle_all,
}
use async_rpc_fbthrift.Perf.ServerLaws.{handle_all-new_handler}
use async_rpc_fbthrift.Perf.Promised.{counter_of, asks_for, requests_of, responses_to}

-- Counters that add up at once, and whole numbers for `double`.
abbrev pub counting : Platform
counting = record {
  Cached = ℕ;
  fresh = 0;
  plus = λ c n. u32 (c + n);
  read_full = λ c. c;
  read_full-fresh = refl;
  read_full-plus = λ c n. refl;
  Double = ℕ;
  double = λ n. n;
  minus = λ a b. a - b;
  over = λ a b. a / b;
  larger = λ a b. if leb a b then b else a;
  and_also = λ a b. a + b;
}

-- Two outstanding sums.
abbrev two_sums : Setting
two_sums = record {
  stream_test = false;
  max_outstanding_ops = pos 2;
  draw = λ i. sums;
  numbers = λ i. (pos 3, pos 5);
  opens = λ i. true;
}

abbrev two_downloads : Setting
two_downloads = record {
  stream_test = false;
  max_outstanding_ops = pos 2;
  draw = λ i. downloads;
  numbers = λ i. (pos 3, pos 5);
  opens = λ i. true;
}

check_response-sum_answer_example :
    check_response (pos 3, pos 5) (answer_of (pos 3, pos 5)) ≡ passes
check_response-sum_answer_example = check_response-sum_answer (pos 3, pos 5)

run-new_load_example :
    (s : Load counting) × (run counting 2 two_sums (new_load counting two_sums []) ≡ some s)
    × IsLoad counting false 2 s
    × (c : ℕ) × (count counting (text "fatal") s.stats ≡ some c)
unfolding is_compiled needs_stream_test is_sorted starts throws_at_start suits outcome
run-new_load_example =
    run-new_load counting 2 two_sums [] semifuture_sums (future_done Answer.other_error)
      (text "fatal") (λ i. refl) refl refl refl refl refl

run-new_load_leaks_example :
    (s : Load counting) × (run counting 2 two_downloads (new_load counting two_downloads [])
      ≡ some s)
    × (s.outstanding_ops ≡ pos 2)
    × (s.in_flight ≡ [])
unfolding needs_stream_test
run-new_load_leaks_example = run-new_load_leaks counting 2 two_downloads [] refl (λ i. refl) refl

abbrev four_requests : List Request
four_requests =
    calls_download
    ∷ calls_sum (record { x = some (pos 3); y = none })
    ∷ next_chunk 0
    ∷ next_chunk 0
    ∷ []

handle_all-new_handler_example :
    (h : Handler counting) × (handle_all counting four_requests (new_handler counting (λ i. i) 4 [])
      ≡ some (responses_to (chunk_letters (λ i. i) 4 0) four_requests, h))
    × (count counting (text "s_upload") h.stats
        ≡ some (u32 (requests_of (text "s_upload") [] four_requests)))
unfolding is_name handler_names
handle_all-new_handler_example =
    handle_all-new_handler counting (λ i. i) 4 four_requests (text "s_upload") refl

-- The second chunk of the stream counts, the first does not.
s_upload_once : requests_of (text "s_upload") [] four_requests ≡ 1
unfolding requests_of counter_of asks_for
s_upload_once = refl

abbrev pub a_sum : Callback
a_sum = record { op = sums; is_oneway = false; request = (pos 3, pos 5) }

abbrev one_sum : Setting
one_sum = record two_sums { max_outstanding_ops = pos 1 }

abbrev pub one_load : Load counting
one_load = record {
  outstanding_ops = pos 1;
  in_flight = a_sum ∷ [];
  stats = register_all counting (registered_names false) [];
  drawn = 1;
}

one_load-IsLoad : IsLoad counting false 1 one_load
unfolding is_compiled needs_stream_test IsCall is_sorted
one_load-IsLoad = record {
  outstanding = refl;
  flying = refl;
  calls = ((refl, refl), tt);
  known = register_all-Knows counting false [] refl;
}

abbrev pub sum_reply : Event
sum_reply = reply_received (some (answer_of (pos 3, pos 5))) returned

deliver-IsLoad_example :
    (s' : Load counting) × (deliver counting 1 one_sum [] a_sum [] sum_reply one_load
      ≡ some (running s'))
    × IsLoad counting false (left 1 1 a_sum sum_reply) s'
    × ((name : Text)
        → count counting name s'.stats
          ≡ counted counting (outcome sums sum_reply) name (count counting name one_load.stats))
unfolding is_compiled needs_stream_test suits IsAnswered starts throws_at_start
deliver-IsLoad_example =
    deliver-IsLoad counting one_sum (λ i. refl) 1 1 1 [] a_sum [] sum_reply one_load refl
      one_load-IsLoad (omega arith) (omega arith) refl refl refl

chunks-bounds_example :
    (upload_chunk (λ i. i) 3 (0 ∷ 0 ∷ []) ≡ none)
    × (length (chunk_letters (λ i. i) 3 0) ≡ 3)
    × All (λ b. (b'A' ≤ b) × (b ≤ b'Z')) (chunk_letters (λ i. i) 3 0)
    × (bytes : List ℕ) × (stream_download_chunk (0 ∷ 0 ∷ []) ≡ some bytes)
    × (length bytes ≡ 2)
    × All (λ b. b < 26) bytes
chunks-bounds_example = chunks-bounds (λ i. i) 3 (0 ∷ 0 ∷ [])
