-- ===== src/Perf/Classes.antt =====
-- The classes of src/dep/perf/cpp2/util/SimpleOps.h and StreamOps.h: which counters of the statistics
-- each registers, and which one it adds to when a call ends.
use async_rpc_fbthrift.Common.{List, [], ◌∷◌, Option, none, some, Text, text, ℤ}
use async_rpc_fbthrift.Perf.Sums.{TwoInts, Verdict, passes, aborts, throws, check_response}

-- What `recv_…` does with a received state: it returns, or throws a `TApplicationException` of type
-- TIMEOUT or of another type, or another exception.
pub data Received : Type 0 where
  returned timed_out application_error other_error : Received

abbrev pub timeout : Text
timeout = text "timeout"

abbrev pub error : Text
error = text "error"

abbrev pub fatal : Text
fatal = text "fatal"

-- The counter that `asyncReceived` adds to.
unfoldable pub received_counter : Text → Received → Text
received_counter op_name returned = op_name
received_counter op_name timed_out = timeout
received_counter op_name application_error = error
received_counter op_name other_error = fatal

pub record OpClass : Type 0 where
  -- in the order in which the constructor registers them
  pub registered : List Text
  -- `asyncReceived`
  pub received : Received → Option Text
  -- `error`
  pub failed : Option Text

abbrev four_counters : Text → List Text
four_counters op_name = op_name ∷ timeout ∷ error ∷ fatal ∷ []

abbrev noop_name : Text
noop_name = text "noop"

unfoldable pub noop : OpClass
unfolding received_counter
noop = record {
  registered = four_counters noop_name;
  received = λ r. some (received_counter noop_name r);
  failed = some error;
}

-- `Noop::onewaySent`
unfoldable pub noop_oneway_sent : Text
noop_oneway_sent = noop_name

unfoldable pub sum : OpClass
unfolding received_counter
sum = record {
  registered = four_counters (text "sum");
  received = λ r. some (received_counter (text "sum") r);
  failed = some error;
}

unfoldable pub timeout_op : OpClass
unfolding received_counter
timeout_op = record {
  registered = four_counters (text "timeout_success");
  received = λ r. some (received_counter (text "timeout_success") r);
  failed = some error;
}

unfoldable pub download : OpClass
unfolding received_counter
download = record {
  registered = four_counters (text "download");
  received = λ r. some (received_counter (text "download") r);
  failed = some error;
}

unfoldable pub upload : OpClass
unfolding received_counter
upload = record {
  registered = four_counters (text "upload");
  received = λ r. some (received_counter (text "upload") r);
  failed = some error;
}

-- `StreamDownload` registers no counter for a time-out, and `asyncReceived` does nothing.
unfoldable pub stream_download : OpClass
stream_download = record {
  registered = text "s_download" ∷ error ∷ fatal ∷ [];
  received = λ r. none;
  failed = some error;
}

-- What `subscribeExTry` hands on: a chunk, an exception, or the end of the stream.
pub data Chunk : Type 0 where
  chunk broken ended : Chunk

unfoldable pub stream_counter : Chunk → Option Text
stream_counter chunk = some (text "s_download")
stream_counter broken = some fatal
stream_counter ended = none

-- The validator of `Sum::async`: an exception, also one of `recv_sum`, is left to `asyncReceived`.
unfoldable pub sum_validator : ℤ × ℤ → Option TwoInts → Verdict
sum_validator request none = passes
sum_validator request (some response) = swallowed (check_response request response)
  where
    swallowed : Verdict → Verdict
    swallowed passes = passes
    swallowed aborts = aborts
    swallowed throws = passes

-- The continuation of `SemiFutureSum::async` and `CoSum::async`: it adds to a counter and calls
-- `replyReceived` or `requestError`, or a check ends the process.
pub data Continuation : Type 0 where
  replies : Text → Continuation
  fails : Text → Continuation
  process_ends : Continuation

-- A response, or what reading it throws; `returned` does not occur there.
pub data Answer : Type 0 where
  answered : TwoInts → Answer
  timed_out application_error other_error : Answer

unfoldable pub after_checks : Text → Verdict → Continuation
after_checks op_name passes = replies op_name
after_checks op_name aborts = process_ends
after_checks op_name throws = fails fatal

unfoldable pub semifuture_sum_done : ℤ × ℤ → Answer → Continuation
unfolding after_checks
semifuture_sum_done request (answered response) =
    after_checks (text "semifuture_sum") (check_response request response)
semifuture_sum_done request Answer.timed_out = replies timeout
semifuture_sum_done request Answer.application_error = replies error
semifuture_sum_done request Answer.other_error = fails fatal

unfoldable pub co_sum_done : ℤ × ℤ → Answer → Continuation
unfolding after_checks
co_sum_done request (answered response) =
    after_checks (text "co_sum") (check_response request response)
co_sum_done request Answer.timed_out = replies timeout
co_sum_done request Answer.application_error = replies error
co_sum_done request Answer.other_error = fails fatal

-- The constructors of the two, which have no `asyncReceived` and no `error`.
unfoldable pub semifuture_sum : OpClass
semifuture_sum = record {
  registered = four_counters (text "semifuture_sum");
  received = λ r. none;
  failed = none;
}

unfoldable pub co_sum : OpClass
co_sum = record { registered = four_counters (text "co_sum"); received = λ r. none; failed = none }
