-- ===== src/Perf/Expected.antt =====
-- What an event of a call of the benchmark's client stands for in the statistics, written out by
-- operation and event.
use async_rpc_fbthrift.Common.{Option, none, some, Text, text}
use async_rpc_fbthrift.Perf.Classes.{
  returned, timed_out, application_error, other_error, answered, Answer, chunk, broken, ended,
}
use async_rpc_fbthrift.Perf.Load.{
  OpType, noops, noop_oneways, sums, timeouts, downloads, uploads, streams, semifuture_sums,
  co_sums, Event, request_sent, reply_received, request_error, future_done, stream_item,
}

-- The counter of an operation's successes.
unfoldable pub success_of : OpType → Text
success_of noops = text "noop"
success_of noop_oneways = text "noop"
success_of sums = text "sum"
success_of timeouts = text "timeout_success"
success_of downloads = text "download"
success_of uploads = text "upload"
success_of streams = text "s_download"
success_of semifuture_sums = text "semifuture_sum"
success_of co_sums = text "co_sum"

-- The counter that an event is to add 1 to, if any: a one-way call is successful once it is sent, a
-- stream with each chunk, and the others with their response. A one-way call that fails counts
-- nowhere, and so does a stream that ends.
unfoldable pub outcome : OpType → Event → Option Text
unfolding success_of
outcome noop_oneways request_sent = some (success_of noop_oneways)
outcome op request_sent = none
outcome op (reply_received response returned) = some (success_of op)
outcome op (reply_received response timed_out) = some (text "timeout")
outcome op (reply_received response application_error) = some (text "error")
outcome op (reply_received response other_error) = some (text "fatal")
outcome noop_oneways request_error = none
outcome op request_error = some (text "error")
outcome op (future_done (answered response)) = some (success_of op)
outcome op (future_done Answer.timed_out) = some (text "timeout")
outcome op (future_done Answer.application_error) = some (text "error")
outcome op (future_done Answer.other_error) = some (text "fatal")
outcome op (stream_item chunk) = some (success_of op)
outcome op (stream_item broken) = some (text "fatal")
outcome op (stream_item ended) = none
