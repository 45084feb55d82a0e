-- ===== src/Perf/Delivery.antt =====
-- Every event of a call of the benchmark's client, answered by the benchmark's server.
use async_rpc_fbthrift.Common.{
  ℕ, ◌≤◌, Bool, true, false, List, ◌∷◌, ◌++◌, Option, none, some, ◌≡◌, refl, ap, inl, inr, arith,
  Text, Bool-cases, ◌∙◌, pos, All, subst,
}
use async_rpc_fbthrift.Perf.Counters.{Platform, count}
use async_rpc_fbthrift.Perf.Sums.{TwoInts, passes, check_response}
use async_rpc_fbthrift.Perf.SumsLaws.{check_response-sum_answer}
use async_rpc_fbthrift.Perf.Classes.{
  Received, Answer, answered, Continuation, replies, fails, process_ends, Chunk, noop_oneway_sent,
  semifuture_sum_done, co_sum_done, sum_validator, after_checks,
}
use async_rpc_fbthrift.Perf.Load.{
  OpType, needs_stream_test, received_by, failed_by, Callback, Load, Setting, running, finish,
  continue, validated, continuation_of, Event, request_sent, reply_received, request_error,
  future_done, stream_item, deliver,
}
use async_rpc_fbthrift.Perf.Registered.{
  is_registered, counted, received_by-is_registered, failed_by-is_registered, one_way-is_registered,
  semifuture_sum_done-is_registered, continuation_counter,
}
use async_rpc_fbthrift.Perf.LoadLaws.{starts, is_compiled, IsCall, IsLoad}
use async_rpc_fbthrift.Perf.Expected.{outcome}
use async_rpc_fbthrift.Perf.EventCounters.{counter_of-outcome}
use async_rpc_fbthrift.Perf.Events.{
  suits, IsAnswered, counter_of, left, All-middle, ends, streams_on,
}

-- The validator and the checks accept the server's answer.
validated-passes :
    (cb : Callback) (response : Option TwoInts) (r : Received) (op : OpType)
    → IsAnswered cb (reply_received response r)
    → validated cb response op ≡ passes
unfolding validated sum_validator IsAnswered
validated-passes cb none r op h = ground arith
validated-passes cb (some response) r op h =
    let ok : check_response cb.request response ≡ passes =
      ap (check_response cb.request) h ∙ check_response-sum_answer cb.request in
    ground (arith, ok)

adds : Continuation → Bool
adds (replies k) = true
adds (fails k) = true
adds process_ends = false

-- A future that the server answers does not end the process.
continuation_of-adds :
    (cb : Callback) (a : Answer) (op : OpType)
    → IsAnswered cb (future_done a)
    → adds (continuation_of cb a op) ≡ true
unfolding continuation_of IsAnswered semifuture_sum_done co_sum_done after_checks adds
continuation_of-adds cb (answered response) op h =
    let ok : check_response cb.request response ≡ passes =
      ap (check_response cb.request) h ∙ check_response-sum_answer cb.request in
    ground (arith, ok)
continuation_of-adds cb Answer.timed_out op h = ground arith
continuation_of-adds cb Answer.application_error op h = ground arith
continuation_of-adds cb Answer.other_error op h = ground arith

continuation_of-is_registered :
    (stream_test : Bool) (cb : Callback) (a : Answer) (op : OpType)
    → is_registered stream_test (continuation_counter (continuation_of cb a op)) ≡ true
unfolding continuation_of
continuation_of-is_registered stream_test cb a op =
    let (semifuture, co) = semifuture_sum_done-is_registered stream_test cb.request a in
    ground (arith, semifuture, co)

continue-eq-finish :
    (p : Platform) (fuel : ℕ) (g : Setting) (c : Continuation) (others : List Callback) (s : Load p)
    → adds c ≡ true
    → continue p fuel g c others s ≡ finish p fuel g (continuation_counter c) others s
unfolding continue adds
continue-eq-finish p fuel g (replies k) others s h = refl
continue-eq-finish p fuel g (fails k) others s h = refl
continue-eq-finish p fuel g process_ends others s h = absurd (ground arith)

-- A stream is only on its way in a build that has streams.
stream_build :
    (stream_test : Bool) (op : OpType) (item : Chunk)
    → is_compiled stream_test op ≡ true
    → suits op (stream_item item) ≡ true
    → stream_test ≡ true
unfolding is_compiled needs_stream_test suits
stream_build stream_test op item c h = ground arith

module _ (p : Platform) (g : Setting) (all_start : (i : ℕ) → starts g i ≡ true) where
  deliver-counter_of :
      (fuel n k : ℕ) (before : List Callback) (cb : Callback) (after : List Callback) (e : Event)
      (s : Load p)
      → g.max_outstanding_ops ≡ pos n
      → IsLoad p g.stream_test k s
      → k ≤ n
      → n ≤ fuel
      → s.in_flight ≡ before ++ cb ∷ after
      → suits cb.op e ≡ true
      → IsAnswered cb e
      → (s' : Load p) × (deliver p fuel g before cb after e s ≡ some (running s'))
        × IsLoad p g.stream_test (left n k cb e) s'
        × ((name : Text)
            → count p name s'.stats
              ≡ counted p (counter_of g.stream_test cb e) name (count p name s.stats))
  unfolding deliver left counter_of counted IsCall
  deliver-counter_of fuel n k before cb after request_sent s most v le enough split suit answer =
      elim (Bool-cases cb.is_oneway) [
        | inl one_way ↦ rw one_way (
            ends p g all_start fuel n k before cb after s most v le enough split
              (some noop_oneway_sent) (one_way-is_registered g.stream_test))
        | inr two_way ↦ (s, rw two_way refl, rw two_way v, λ name. rw two_way refl)
      ]
  deliver-counter_of fuel n k before cb after (reply_received response r) s most v le enough split
        suit answer =
      rw (validated-passes cb response r cb.op answer) (
        ends p g all_start fuel n k before cb after s most v le enough split
          (received_by g.stream_test cb.op r) (received_by-is_registered g.stream_test cb.op r))
  deliver-counter_of fuel n k before cb after request_error s most v le enough split suit answer =
      ends p g all_start fuel n k before cb after s most v le enough split
        (failed_by g.stream_test cb.op) (failed_by-is_registered g.stream_test cb.op)
  deliver-counter_of fuel n k before cb after (future_done a) s most v le enough split suit answer =
      rw
        (continue-eq-finish p fuel g (continuation_of cb a cb.op) (before ++ after) s
          (continuation_of-adds cb a cb.op answer))
        (ends p g all_start fuel n k before cb after s most v le enough split _
          (continuation_of-is_registered g.stream_test cb a cb.op))
  deliver-counter_of fuel n k before cb after (stream_item item) s most v le enough split suit
        answer =
      let (call, calls) =
        All-middle (IsCall g.stream_test) before cb after
          (subst (All (IsCall g.stream_test)) split v.calls) in
      streams_on p g all_start fuel n k before cb after s most v le enough split item
        (stream_build g.stream_test cb.op item call.0 suit)

  -- Let k calls be on their way, as many as the runner counts and at most the largest number n, in a
  -- build that has every operation that is drawn, and whose streams are opened. Any event that suits
  -- one of the calls, where a response that can be read is the server's answer, is handled without
  -- reaching a counter that is not registered and without a failed check. It adds 1 to the counter
  -- that is written out for its operation and event, if there is one, modulo 2^32, and to no other;
  -- behind it n calls are on their way again, except that the end of a stream leaves one call less,
  -- and that a chunk, or `requestSent` of a call with a reply, changes none.
  pub deliver-IsLoad :
      (fuel n k : ℕ) (before : List Callback) (cb : Callback) (after : List Callback) (e : Event)
      (s : Load p)
      → g.max_outstanding_ops ≡ pos n
      → IsLoad p g.stream_test k s
      → k ≤ n
      → n ≤ fuel
      → s.in_flight ≡ before ++ cb ∷ after
      → suits cb.op e ≡ true
      → IsAnswered cb e
      → (s' : Load p) × (deliver p fuel g before cb after e s ≡ some (running s'))
        × IsLoad p g.stream_test (left n k cb e) s'
        × ((name : Text)
            → count p name s'.stats ≡ counted p (outcome cb.op e) name (count p name s.stats))
  deliver-IsLoad fuel n k before cb after e s most v le enough split suit answer =
      let (call, calls) =
        All-middle (IsCall g.stream_test) before cb after
          (subst (All (IsCall g.stream_test)) split v.calls) in
      let (s', done, v', counts) =
        deliver-counter_of fuel n k before cb after e s most v le enough split suit answer in
      let expected = counter_of-outcome g.stream_test cb e call suit answer in
      (
        s',
        done,
        v',
        λ name. counts name ∙ ap (λ o. counted p o name (count p name s.stats)) expected,
      )
