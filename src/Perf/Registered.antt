-- ===== src/Perf/Registered.antt =====
-- Every counter that the benchmark's client adds to has been registered.
use async_rpc_fbthrift.Common.{
  ℕ, ◌+◌, Bool, true, false, ◌||◌, if◌then◌else◌, List, [], ◌∷◌, Option, none, some, ◌>>=◌, ◌≡◌,
  refl, inl, inr, u32, arith, ℤ, Text, text, text_eq, text_eq_iff, Bool-cases, ◌∙◌,
}
use async_rpc_fbthrift.Perf.Counters.{
  Platform, Counters, register_counter, register_all, add, count,
}
use async_rpc_fbthrift.Perf.CountersLaws.{
  is_sorted, or_zero, register_counter-is_sorted, count-register_counter, count-add_size,
}
use async_rpc_fbthrift.Perf.Sums.{Verdict, check_response}
use async_rpc_fbthrift.Perf.Classes.{
  Received, Answer, answered, Continuation, replies, fails, process_ends, noop, noop_oneway_sent,
  sum, timeout_op, download, upload, stream_download, semifuture_sum, co_sum, received_counter,
  after_checks, semifuture_sum_done, co_sum_done, Chunk, stream_counter,
}
use async_rpc_fbthrift.Perf.Load.{OpType, registered_names, received_by, failed_by, add_if}

unfoldable pub is_name : Text → List Text → Bool
is_name k [] = false
is_name k (j ∷ names) = text_eq k j || is_name k names

-- Where an operation adds to a counter, its name is one of the registered.
unfoldable pub is_registered : Bool → Option Text → Bool
unfolding is_name
is_registered stream_test none = true
is_registered stream_test (some k) = is_name k (registered_names stream_test)

pub received_by-is_registered :
    (stream_test : Bool) (op : OpType) (r : Received)
    → is_registered stream_test (received_by stream_test op r) ≡ true
unfolding is_registered received_by registered_names noop sum timeout_op download upload
    stream_download semifuture_sum co_sum received_counter is_name
received_by-is_registered stream_test op r = ground arith

pub failed_by-is_registered :
    (stream_test : Bool) (op : OpType) → is_registered stream_test (failed_by stream_test op) ≡ true
unfolding is_registered failed_by registered_names noop sum timeout_op download upload
    stream_download semifuture_sum co_sum is_name
failed_by-is_registered stream_test op = ground arith

-- What the continuation of a sum adds to.
abbrev pub continuation_counter : Continuation → Option Text
continuation_counter (replies k) = some k
continuation_counter (fails k) = some k
continuation_counter process_ends = none

after_checks-is_registered :
    (stream_test : Bool) (v : Verdict)
    → (is_registered stream_test (continuation_counter (after_checks (text "semifuture_sum") v))
        ≡ true)
      × (is_registered stream_test (continuation_counter (after_checks (text "co_sum") v)) ≡ true)
unfolding is_registered after_checks registered_names noop sum timeout_op download upload
    stream_download semifuture_sum co_sum is_name
after_checks-is_registered stream_test v = (ground arith, ground arith)

pub semifuture_sum_done-is_registered :
    (stream_test : Bool) (request : ℤ × ℤ) (a : Answer)
    → (is_registered stream_test (continuation_counter (semifuture_sum_done request a)) ≡ true)
      × (is_registered stream_test (continuation_counter (co_sum_done request a)) ≡ true)
unfolding semifuture_sum_done co_sum_done is_registered registered_names noop sum is_name
semifuture_sum_done-is_registered stream_test request (answered response) =
    after_checks-is_registered stream_test (check_response request response)
semifuture_sum_done-is_registered stream_test request Answer.timed_out =
    (ground arith, ground arith)
semifuture_sum_done-is_registered stream_test request Answer.application_error =
    (ground arith, ground arith)
semifuture_sum_done-is_registered stream_test request Answer.other_error =
    (ground arith, ground arith)

pub stream_counter-is_registered : (item : Chunk) → is_registered true (stream_counter item) ≡ true
unfolding is_registered stream_counter registered_names noop sum timeout_op download upload
    stream_download semifuture_sum co_sum is_name
stream_counter-is_registered item = ground arith

pub one_way-is_registered :
    (stream_test : Bool) → is_registered stream_test (some noop_oneway_sent) ≡ true
unfolding is_registered registered_names noop sum noop_oneway_sent is_name
one_way-is_registered stream_test = ground arith

module _ (p : Platform) where
  -- Every name that the client's operations use has a counter.
  unfoldable pub Knows : Bool → Counters p → Type 0
  Knows stream_test m =
      (k : Text)
      → is_name k (registered_names stream_test) ≡ true
      → (c : ℕ) × (count p k m ≡ some c)

  -- The number of a counter once an operation has added to it, or to another.
  unfoldable pub counted : Option Text → Text → Option ℕ → Option ℕ
  counted none k before = before
  counted (some name) k before =
      if text_eq k name then (before >>= λ c. some (u32 (c + 1))) else before

  pub add_if-Knows :
      (stream_test : Bool) (name : Option Text) (m : Counters p)
      → Knows stream_test m
      → is_registered stream_test name ≡ true
      → (m' : Counters p) × (add_if p name m ≡ some m')
        × Knows stream_test m'
        × ((k : Text) → count p k m' ≡ counted name k (count p k m))
  unfolding add_if is_registered add counted Knows
  add_if-Knows stream_test none m knows known = (m, refl, knows, λ k. refl)
  add_if-Knows stream_test (some name) m knows known =
      let (c, before) = knows name known in
      let (m', e, after) = count-add_size p name 1 c m before in
      (
        m',
        e,
        λ k k_known.
            let (d, known_before) = knows k k_known in
            elim (Bool-cases (text_eq k name)) [
              | inl same ↦ (u32 (c + 1), after k ∙ rw same refl)
              | inr other ↦ (d, after k ∙ rw other known_before)
            ],
        λ k. after k ∙ ground (arith, before, text_eq_iff k name),
      )

  pub register_all-keeps :
      (names : List Text) (k : Text) (c : ℕ) (m : Counters p)
      → is_sorted p m ≡ true
      → count p k m ≡ some c
      → count p k (register_all p names m) ≡ some c
  unfolding register_all or_zero
  register_all-keeps [] k c m s h = h
  register_all-keeps (name ∷ names) k c m s h =
      register_all-keeps names k c (register_counter p name m)
        (register_counter-is_sorted p name m s)
        (count-register_counter p name k m s ∙ ground (arith, h))

  register_all-known :
      (names : List Text) (k : Text) (m : Counters p)
      → is_sorted p m ≡ true
      → is_name k names ≡ true
      → (c : ℕ) × (count p k (register_all p names m) ≡ some c)
  unfolding register_all is_name
  register_all-known [] k m s h = absurd (ground arith)
  register_all-known (name ∷ names) k m s h = elim (Bool-cases (text_eq k name)) [
    | inl e ↦ (
      or_zero p (count p k m),
      register_all-keeps names k _ (register_counter p name m)
          (register_counter-is_sorted p name m s) (count-register_counter p name k m s ∙ rw e refl),
    )
    | inr e ↦
        register_all-known names k (register_counter p name m)
          (register_counter-is_sorted p name m s) (ground (arith, h, e))
  ]

  pub register_all-Knows :
      (stream_test : Bool) (m : Counters p)
      → is_sorted p m ≡ true
      → Knows stream_test (register_all p (registered_names stream_test) m)
  unfolding Knows
  register_all-Knows stream_test m s k known =
      register_all-known (registered_names stream_test) k m s known
