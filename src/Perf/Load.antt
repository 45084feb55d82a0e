-- ===== src/Perf/Load.antt =====
-- `Operation`, `Runner` and `LoadCallback` of src/dep/perf/cpp2/util/Operation.h and Runner.h.
use async_rpc_fbthrift.Common.{
  ℕ, zero, suc, ◌+◌, ◌&&◌, not, Bool, true, false, if◌then◌else◌, List, [], ◌∷◌, ◌++◌, Option, none,
  some, ◌>>=◌, ℤ, up, down, ltz, Text,
}
use async_rpc_fbthrift.Perf.Counters.{Platform, Counters, add, register_all}
use async_rpc_fbthrift.Perf.Sums.{TwoInts, Verdict, passes, aborts, throws}
use async_rpc_fbthrift.Perf.Classes.{
  Received, Chunk, chunk, broken, ended, Answer, Continuation, replies, fails, process_ends, noop,
  noop_oneway_sent, sum, timeout_op, download, upload, stream_download, semifuture_sum, co_sum,
  stream_counter, sum_validator, semifuture_sum_done, co_sum_done,
}

-- `OP_TYPE`
pub data OpType : Type 0 where
  noops noop_oneways sums timeouts downloads uploads streams semifuture_sums co_sums : OpType

-- The operations that are only compiled with `STREAM_PERF_TEST`.
unfoldable pub needs_stream_test : OpType → Bool
needs_stream_test downloads = true
needs_stream_test uploads = true
needs_stream_test streams = true
needs_stream_test _ = false

-- The names that the constructor of `Operation` registers, in the order of its members.
unfoldable pub registered_names : Bool → List Text
unfolding noop sum timeout_op download upload stream_download semifuture_sum co_sum
registered_names stream_test =
    noop.registered
    ++ (sum.registered
        ++ (timeout_op.registered
            ++ ((if stream_test
                  then download.registered ++ (upload.registered ++ stream_download.registered)
                  else [])
                ++ (semifuture_sum.registered ++ co_sum.registered))))

-- A call on its way: the `LoadCallback`, with the numbers of a sum. A stream has no callback, but a
-- subscription.
pub record Callback : Type 0 where
  pub op : OpType
  pub is_oneway : Bool
  pub request : ℤ × ℤ

abbrev pub is_oneway_op : OpType → Bool
is_oneway_op noop_oneways = true
is_oneway_op _ = false

-- What `async` hands to the client for an operation; the `default` drops the callback.
unfoldable pub started : Bool → OpType → ℤ × ℤ → List Callback
unfolding needs_stream_test
started stream_test op request =
    let cb : Callback = record { op = op; is_oneway = is_oneway_op op; request = request } in
    if needs_stream_test op then (if stream_test then cb ∷ [] else []) else cb ∷ []

-- `asyncReceived` of the class of an operation; for the others the counter stays, and for most a
-- line is logged.
unfoldable pub received_by : Bool → OpType → Received → Option Text
unfolding noop sum timeout_op download upload
received_by stream_test noops r = noop.received r
received_by stream_test sums r = sum.received r
received_by stream_test timeouts r = timeout_op.received r
received_by stream_test downloads r = if stream_test then download.received r else none
received_by stream_test uploads r = if stream_test then upload.received r else none
received_by stream_test _ r = none

-- `error` of the class of an operation.
unfoldable pub failed_by : Bool → OpType → Option Text
unfolding noop sum timeout_op download upload
failed_by stream_test noops = noop.failed
failed_by stream_test sums = sum.failed
failed_by stream_test timeouts = timeout_op.failed
failed_by stream_test downloads = if stream_test then download.failed else none
failed_by stream_test uploads = if stream_test then upload.failed else none
failed_by stream_test _ = none

-- The build, the largest number of outstanding calls, and what the two random generators give.
pub record Setting : Type 0 where
  pub stream_test : Bool
  pub max_outstanding_ops : ℤ
  pub draw : ℕ → OpType
  pub numbers : ℕ → ℤ × ℤ
  -- where a stream is drawn: whether `sync_streamDownload` returns one, and does not throw
  pub opens : ℕ → Bool

-- `StreamDownload::async` throws where its `sync_streamDownload` does.
unfoldable pub throws_at_start : Bool → OpType → Bool → Bool
throws_at_start stream_test streams opened = stream_test && not opened
throws_at_start stream_test _ opened = false

-- What can happen to a call. `requestSent` of a call that is not one-way does nothing.
pub data Event : Type 0 where
  request_sent : Event
  reply_received : Option TwoInts → Received → Event
  request_error : Event
  future_done : Answer → Event
  stream_item : Chunk → Event

-- What the validator of a callback finds; only `Sum::async` sets one.
unfoldable pub validated : Callback → Option TwoInts → OpType → Verdict
validated cb response sums = sum_validator cb.request response
validated cb response _ = passes

-- The continuation of the two operations that have a future.
unfoldable pub continuation_of : Callback → Answer → OpType → Continuation
continuation_of cb a semifuture_sums = semifuture_sum_done cb.request a
continuation_of cb a _ = co_sum_done cb.request a

module _ (p : Platform) where
  pub record Load : Type 0 where
    pub outstanding_ops : ℤ
    pub in_flight : List Callback
    pub stats : Counters p
    -- how often the runner has drawn
    pub drawn : ℕ

  -- A process that goes on, or that a failed check has ended.
  pub data Process : Type 0 where
    running : Load → Process
    ended_by_check : Process

  unfoldable pub add_if : Option Text → Counters p → Option (Counters p)
  unfolding add
  add_if none stats = some stats
  add_if (some name) stats = add p name stats

  -- `Operation::async`, with what the runner draws for it; `none` is an exception.
  unfoldable pub issue : Setting → Load → Option Load
  unfolding started throws_at_start
  issue g s =
      if throws_at_start g.stream_test (g.draw s.drawn) (g.opens s.drawn)
      then none
      else some (record s {
        outstanding_ops = up s.outstanding_ops;
        in_flight = s.in_flight ++ started g.stream_test (g.draw s.drawn) (g.numbers s.drawn);
        drawn = s.drawn + 1;
      })

  -- `Runner::run`, with fuel for the rounds of its loop: `none` when that runs out, or when an
  -- exception leaves the loop.
  unfoldable pub run : ℕ → Setting → Load → Option Load
  run zero g s = if ltz s.outstanding_ops g.max_outstanding_ops then none else some s
  run (suc fuel) g s =
      let rest = issue g s >>= run fuel g in
      if ltz s.outstanding_ops g.max_outstanding_ops then rest else some s

  -- A call of `Operation` that ends one, and `finishCall` behind it.
  unfoldable pub finish : ℕ → Setting → Option Text → List Callback → Load → Option Process
  finish fuel g counter others s = do
    stats ← add_if counter s.stats
    s' ←
        run fuel g
          (record s { outstanding_ops = down s.outstanding_ops; in_flight = others; stats = stats })
    some (running s')

  abbrev pub go_on : Verdict → Option Process → Option Process
  go_on passes rest = rest
  go_on throws rest = rest
  go_on aborts rest = some ended_by_check

  unfoldable pub continue : ℕ → Setting → Continuation → List Callback → Load → Option Process
  unfolding finish
  continue fuel g (replies name) others s = finish fuel g (some name) others s
  continue fuel g (fails name) others s = finish fuel g (some name) others s
  continue fuel g process_ends others s = some ended_by_check

  -- A stream that ends leaves the number of outstanding calls, without a new call in its place.
  unfoldable pub stream_step : Setting → Chunk → List Callback → Load → Option Process
  unfolding stream_counter
  stream_step g chunk others s = do
    stats ← add_if (stream_counter chunk) s.stats
    some (running (record s { stats = stats }))
  stream_step g broken others s = do
    stats ← add_if (stream_counter broken) s.stats
    some (
        running (record s {
          outstanding_ops = down s.outstanding_ops;
          in_flight = others;
          stats = stats;
        }))
  stream_step g ended others s =
      some (running (record s { outstanding_ops = down s.outstanding_ops; in_flight = others }))

  -- One event of the call cb, which is in flight between `before` and `after`.
  unfoldable pub deliver :
      ℕ → Setting → List Callback → Callback → List Callback → Event → Load → Option Process
  unfolding finish continue stream_step validated continuation_of
  deliver fuel g before cb after request_sent s =
      let rest = finish fuel g (some noop_oneway_sent) (before ++ after) s in
      if cb.is_oneway then rest else some (running s)
  deliver fuel g before cb after (reply_received response r) s =
      let rest = finish fuel g (received_by g.stream_test cb.op r) (before ++ after) s in
      go_on (validated cb response cb.op) rest
  deliver fuel g before cb after request_error s =
      finish fuel g (failed_by g.stream_test cb.op) (before ++ after) s
  deliver fuel g before cb after (future_done a) s =
      continue fuel g (continuation_of cb a cb.op) (before ++ after) s
  deliver fuel g before cb after (stream_item item) s = stream_step g item (before ++ after) s

  -- `Operation::Operation` and the runner of a new client thread.
  unfoldable pub new_load : Setting → Counters p → Load
  unfolding register_all registered_names
  new_load g stats = record {
    outstanding_ops = ℤ.pos 0;
    in_flight = [];
    stats = register_all p (registered_names g.stream_test) stats;
    drawn = 0;
  }
