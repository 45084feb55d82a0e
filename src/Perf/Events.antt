-- ===== src/Perf/Events.antt =====
-- The events of a call of the benchmark's client: which can happen, what they count, and what they
-- leave on its way.
use async_rpc_fbthrift.Common.{
  ℕ, suc, ◌-◌, ◌≤◌, Bool, true, false, if◌then◌else◌, List, [], ◌∷◌, ◌++◌, Option, none, some, ◌≡◌,
  refl, ap, arith, Text, ◌∙◌, sym, pos, length, All, subst, down,
}
use async_rpc_fbthrift.Perf.Counters.{Platform, Counters, count}
use async_rpc_fbthrift.Perf.SumsLaws.{answer_of}
use async_rpc_fbthrift.Perf.Classes.{
  answered, Chunk, chunk, broken, ended, stream_counter, noop_oneway_sent,
}
use async_rpc_fbthrift.Perf.Load.{
  OpType, noop_oneways, streams, semifuture_sums, co_sums, received_by, failed_by, Callback, Load,
  Setting, running, finish, continuation_of, Event, request_sent, reply_received, request_error,
  future_done, stream_item, stream_step,
}
use async_rpc_fbthrift.Perf.Registered.{
  is_registered, Knows, counted, add_if-Knows, stream_counter-is_registered, continuation_counter,
}
use async_rpc_fbthrift.Perf.LoadLaws.{starts, IsCall, IsLoad, finish-IsLoad}

-- The events that the transport has for a call of an operation.
unfoldable pub suits : OpType → Event → Bool
suits semifuture_sums (future_done a) = true
suits semifuture_sums _ = false
suits co_sums (future_done a) = true
suits co_sums _ = false
suits streams (stream_item item) = true
suits streams _ = false
suits noop_oneways request_sent = true
suits noop_oneways request_error = true
suits noop_oneways _ = false
suits _ request_sent = true
suits _ (reply_received response r) = true
suits _ request_error = true
suits _ _ = false

-- A response that can be read is the server's answer.
unfoldable pub IsAnswered : Callback → Event → Type 0
IsAnswered cb (reply_received (some response) r) = response ≡ answer_of cb.request
IsAnswered cb (future_done (answered response)) = response ≡ answer_of cb.request
IsAnswered cb _ = Unit

-- The counter that an event adds to.
unfoldable pub counter_of : Bool → Callback → Event → Option Text
counter_of stream_test cb request_sent = if cb.is_oneway then some noop_oneway_sent else none
counter_of stream_test cb (reply_received response r) = received_by stream_test cb.op r
counter_of stream_test cb request_error = failed_by stream_test cb.op
counter_of stream_test cb (future_done a) = continuation_counter (continuation_of cb a cb.op)
counter_of stream_test cb (stream_item item) = stream_counter item

-- How many calls are on their way behind an event, of k before it and at most n.
unfoldable pub left : ℕ → ℕ → Callback → Event → ℕ
left n k cb request_sent = if cb.is_oneway then n else k
left n k cb (stream_item chunk) = k
left n k cb (stream_item broken) = k - 1
left n k cb (stream_item ended) = k - 1
left n k cb _ = n

pub All-middle :
    {A : Type 0} (P : A → Type 0) (xs : List A) (a : A) (ys : List A)
    → All P (xs ++ a ∷ ys)
    → P a × All P (xs ++ ys)
All-middle P [] a ys h = h
All-middle P (x ∷ xs) a ys h = let (q, r) = All-middle P xs a ys h.1 in (q, (h.0, r))

length-middle :
    {A : Type 0} (xs : List A) (a : A) (ys : List A)
    → length (xs ++ a ∷ ys) ≡ suc (length (xs ++ ys))
length-middle [] a ys = refl
length-middle (x ∷ xs) a ys = ap suc (length-middle xs a ys)

module _ (p : Platform) (g : Setting) (all_start : (i : ℕ) → starts g i ≡ true) where
  -- A well-formed load with k + 1 calls, of which cb is one.
  record Flying (k : ℕ) (before : List Callback) (cb : Callback) (after : List Callback)
      (s : Load p) : Type 0 where
    outstanding : s.outstanding_ops ≡ pos (suc k)
    flying : length (before ++ after) ≡ k
    call : IsCall g.stream_test cb
    calls : All (IsCall g.stream_test) (before ++ after)

  Flying-of-IsLoad :
      (k : ℕ) (before : List Callback) (cb : Callback) (after : List Callback) (s : Load p)
      → IsLoad p g.stream_test k s
      → s.in_flight ≡ before ++ cb ∷ after
      → (j : ℕ) × (k ≡ suc j) × Flying j before cb after s
  Flying-of-IsLoad k before cb after s v e =
      let (call, calls) =
        All-middle (IsCall g.stream_test) before cb after
          (subst (All (IsCall g.stream_test)) e v.calls) in
      let size : k ≡ suc (length (before ++ after)) =
        sym v.flying ∙ ap length e ∙ length-middle before cb after in
      (
        length (before ++ after),
        size,
        record {
          outstanding = v.outstanding ∙ ap pos size;
          flying = refl;
          call = call;
          calls = calls;
        },
      )

  module _ (fuel n k : ℕ) (before : List Callback) (cb : Callback) (after : List Callback)
      (s : Load p) (most : g.max_outstanding_ops ≡ pos n) (v : IsLoad p g.stream_test k s)
      (le : k ≤ n) (enough : n ≤ fuel) (split : s.in_flight ≡ before ++ cb ∷ after) where
    -- A call that ends with a counter: the runner fills up.
    pub ends :
        (counter : Option Text)
        → is_registered g.stream_test counter ≡ true
        → (s' : Load p) × (finish p fuel g counter (before ++ after) s ≡ some (running s'))
          × IsLoad p g.stream_test n s'
          × ((name : Text) → count p name s'.stats ≡ counted p counter name (count p name s.stats))
    ends counter registered =
        let (j, size, f) = Flying-of-IsLoad k before cb after s v split in
        finish-IsLoad p g all_start fuel n j counter (before ++ after) s most f.outstanding f.flying
          f.calls v.known registered (omega (arith, size)) (omega (arith, size))

    one_less :
        (j : ℕ)
        → k ≡ suc j
        → Flying j before cb after s
        → (stats : Counters p) → Knows p g.stream_test stats
        → IsLoad p g.stream_test (k - 1) (record s {
          outstanding_ops = down s.outstanding_ops;
          in_flight = before ++ after;
          stats = stats;
        })
    one_less j size f stats known = record {
      outstanding = ap down f.outstanding ∙ ap pos (omega (arith, size));
      flying = f.flying ∙ omega (arith, size);
      calls = f.calls;
      known = known;
    }

    -- The events of a stream.
    pub streams_on :
        (item : Chunk)
        → g.stream_test ≡ true
        → (s' : Load p) × (stream_step p g item (before ++ after) s ≡ some (running s'))
          × IsLoad p g.stream_test (left n k cb (stream_item item)) s'
          × ((name : Text)
              → count p name s'.stats ≡ counted p (stream_counter item) name (count p name s.stats))
    unfolding stream_step left stream_counter counted
    streams_on chunk h =
        let (stats, e, known, counts) =
          add_if-Knows p g.stream_test (stream_counter chunk) s.stats v.known
            (rw h (stream_counter-is_registered chunk)) in
        (
          record s { stats = stats },
          rw e refl,
          record { outstanding = v.outstanding; flying = v.flying; calls = v.calls; known = known },
          counts,
        )
    streams_on broken h =
        let (j, size, f) = Flying-of-IsLoad k before cb after s v split in
        let (stats, e, known, counts) =
          add_if-Knows p g.stream_test (stream_counter broken) s.stats v.known
            (rw h (stream_counter-is_registered broken)) in
        (
          record s {
            outstanding_ops = down s.outstanding_ops;
            in_flight = before ++ after;
            stats = stats;
          },
          rw e refl,
          one_less j size f stats known,
          counts,
        )
    streams_on ended h =
        let (j, size, f) = Flying-of-IsLoad k before cb after s v split in
        (
          record s { outstanding_ops = down s.outstanding_ops; in_flight = before ++ after },
          refl,
          one_less j size f s.stats v.known,
          λ name. refl,
        )
