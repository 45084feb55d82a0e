-- ===== src/Perf/EventCounters.antt =====
-- Each event of a call adds to the counter that it is expected to add to.
use async_rpc_fbthrift.Common.{
  ◌≡◌, ap, subst, ◌∙◌, arith, Bool, true, Option, none, some, if◌then◌else◌, Text,
}
use async_rpc_fbthrift.Perf.Sums.{TwoInts, passes, check_response}
use async_rpc_fbthrift.Perf.SumsLaws.{check_response-sum_answer}
use async_rpc_fbthrift.Perf.Classes.{
  Received, Answer, answered, noop, noop_oneway_sent, sum, timeout_op, download, upload,
  stream_download, semifuture_sum, co_sum, received_counter, stream_counter, Chunk, after_checks,
  semifuture_sum_done, co_sum_done,
}
use async_rpc_fbthrift.Perf.Load.{
  OpType, needs_stream_test, registered_names, received_by, failed_by, Callback, is_oneway_op,
  continuation_of, Event, request_sent, reply_received, request_error, future_done, stream_item,
}
use async_rpc_fbthrift.Perf.Registered.{is_name, is_registered, continuation_counter}
use async_rpc_fbthrift.Perf.LoadLaws.{is_compiled, IsCall}
use async_rpc_fbthrift.Perf.Expected.{success_of, outcome}
use async_rpc_fbthrift.Perf.Events.{suits, IsAnswered, counter_of}

received_by-outcome :
    (stream_test : Bool) (op : OpType) (response : Option TwoInts) (r : Received)
    → is_compiled stream_test op ≡ true
    → suits op (reply_received response r) ≡ true
    → received_by stream_test op r ≡ outcome op (reply_received response r)
unfolding is_compiled needs_stream_test suits received_by outcome success_of noop sum timeout_op
    download upload received_counter
received_by-outcome stream_test op response r compiled suit = ground (arith, compiled, suit)

failed_by-outcome :
    (stream_test : Bool) (op : OpType)
    → is_compiled stream_test op ≡ true
    → suits op request_error ≡ true
    → failed_by stream_test op ≡ outcome op request_error
unfolding is_compiled needs_stream_test suits failed_by outcome success_of noop sum timeout_op
    download upload
failed_by-outcome stream_test op compiled suit = ground (arith, compiled, suit)

sent-outcome :
    (op : OpType)
    → (if is_oneway_op op then some noop_oneway_sent else none) ≡ outcome op request_sent
unfolding outcome success_of noop_oneway_sent
sent-outcome op = ground arith

-- A future's answer passes the checks where it is the server's.
continuation_of-outcome :
    (op : OpType) (cb : Callback) (a : Answer)
    → suits op (future_done a) ≡ true
    → IsAnswered cb (future_done a)
    → continuation_counter (continuation_of cb a op) ≡ outcome op (future_done a)
unfolding continuation_of IsAnswered semifuture_sum_done co_sum_done after_checks suits outcome
    success_of
continuation_of-outcome op cb (answered response) suit answer =
    let ok : check_response cb.request response ≡ passes =
      ap (check_response cb.request) answer ∙ check_response-sum_answer cb.request in
    ground (arith, ok, suit)
continuation_of-outcome op cb Answer.timed_out suit answer = ground (arith, suit)
continuation_of-outcome op cb Answer.application_error suit answer = ground (arith, suit)
continuation_of-outcome op cb Answer.other_error suit answer = ground (arith, suit)

stream_counter-outcome :
    (op : OpType) (item : Chunk)
    → suits op (stream_item item) ≡ true
    → stream_counter item ≡ outcome op (stream_item item)
unfolding stream_counter suits outcome success_of
stream_counter-outcome op item suit = ground (arith, suit)

pub counter_of-outcome :
    (stream_test : Bool) (cb : Callback) (e : Event)
    → IsCall stream_test cb
    → suits cb.op e ≡ true
    → IsAnswered cb e
    → counter_of stream_test cb e ≡ outcome cb.op e
unfolding counter_of IsCall
counter_of-outcome stream_test cb request_sent call suit answer = rw call.1 (sent-outcome cb.op)
counter_of-outcome stream_test cb (reply_received response r) call suit answer =
    received_by-outcome stream_test cb.op response r call.0 suit
counter_of-outcome stream_test cb request_error call suit answer =
    failed_by-outcome stream_test cb.op call.0 suit
counter_of-outcome stream_test cb (future_done a) call suit answer =
    continuation_of-outcome cb.op cb a suit answer
counter_of-outcome stream_test cb (stream_item item) call suit answer =
    stream_counter-outcome cb.op item suit

any_outcome :
    (stream_test : Bool) (op : OpType) (e : Event)
    → is_compiled stream_test op ≡ true
    → suits op e ≡ true
    → is_registered stream_test (outcome op e) ≡ true
unfolding is_compiled needs_stream_test suits outcome success_of is_registered is_name
    registered_names noop sum timeout_op download upload stream_download semifuture_sum co_sum
any_outcome stream_test op request_sent compiled suit = ground (arith, compiled, suit)
any_outcome stream_test op (reply_received response r) compiled suit =
    ground (arith, compiled, suit)
any_outcome stream_test op request_error compiled suit = ground (arith, compiled, suit)
any_outcome stream_test op (future_done a) compiled suit = ground (arith, compiled, suit)
any_outcome stream_test op (stream_item item) compiled suit = ground (arith, compiled, suit)

-- The counter that an event is expected to add to has been registered.
pub outcome-is_registered :
    (stream_test : Bool) (op : OpType) (e : Event) (name : Text)
    → is_compiled stream_test op ≡ true
    → suits op e ≡ true
    → outcome op e ≡ some name
    → is_name name (registered_names stream_test) ≡ true
unfolding is_registered
outcome-is_registered stream_test op e name compiled suit counter =
    subst (λ o. is_registered stream_test o ≡ true) counter
      (any_outcome stream_test op e compiled suit)
