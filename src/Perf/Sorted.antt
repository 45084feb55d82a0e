-- ===== src/Perf/Sorted.antt =====
-- No step of the benchmark's client disturbs the order of the counters.
use async_rpc_fbthrift.Common.{
  ℕ, zero, suc, Bool-cases, true, ◌&&◌, List, [], ◌∷◌, ◌++◌, Option, none, some, ◌≡◌, refl, sym, ap,
  ◌∙◌, inl, inr, arith, Text, text_eq, bind-some, some_inj, ltz, down,
}
use async_rpc_fbthrift.Perf.Counters.{
  Platform, Counters, add, add_size, register_counter, register_all, print_stats, print, text_ltb,
}
use async_rpc_fbthrift.Perf.CountersLaws.{is_below, is_sorted, register_counter-is_sorted}
use async_rpc_fbthrift.Perf.Classes.{
  Chunk, chunk, broken, ended, Continuation, replies, fails, process_ends, noop_oneway_sent,
  stream_counter,
}
use async_rpc_fbthrift.Perf.Sums.{Verdict, passes, aborts, throws}
use async_rpc_fbthrift.Perf.Load.{
  throws_at_start, Callback, Load, Setting, Process, running, ended_by_check, add_if, issue, run,
  finish, go_on, continue, stream_step, validated, continuation_of, received_by, failed_by, Event,
  request_sent, reply_received, request_error, future_done, stream_item, deliver,
}

module _ (p : Platform) where
  add_size-is_below :
      (name k : Text) (sz : ℕ) (m m' : Counters p)
      → add_size p name sz m ≡ some m'
      → is_below p k m' ≡ is_below p k m
  unfolding add_size is_below
  add_size-is_below name k sz [] m' h = absurd (ground (arith, h))
  add_size-is_below name k sz ((j, c) ∷ m) m' h = elim (Bool-cases (text_eq name j)) [
    | inl same ↦ ap (is_below p k) (sym (some_inj (rw same at h)))
    | inr other ↦
        let (m₁, e, last) = bind-some (add_size p name sz m) _ (rw other at h) in
        ap (is_below p k) (sym (some_inj last))
        ∙ ap (λ b. text_ltb k j && b) (add_size-is_below name k sz m m₁ e)
  ]

  add_size-is_sorted :
      (name : Text) (sz : ℕ) (m m' : Counters p)
      → add_size p name sz m ≡ some m'
      → is_sorted p m' ≡ is_sorted p m
  unfolding add_size is_sorted
  add_size-is_sorted name sz [] m' h = absurd (ground (arith, h))
  add_size-is_sorted name sz ((j, c) ∷ m) m' h = elim (Bool-cases (text_eq name j)) [
    | inl same ↦ ap (is_sorted p) (sym (some_inj (rw same at h)))
    | inr other ↦
        let (m₁, e, last) = bind-some (add_size p name sz m) _ (rw other at h) in
        ap (is_sorted p) (sym (some_inj last))
        ∙ ap (λ b. b && is_sorted p m₁) (add_size-is_below name j sz m m₁ e)
        ∙ ap (λ b. is_below p j m && b) (add_size-is_sorted name sz m m₁ e)
  ]

  pub register_all-is_sorted :
      (names : List Text) (m : Counters p)
      → is_sorted p m ≡ true
      → is_sorted p (register_all p names m) ≡ true
  unfolding register_all
  register_all-is_sorted [] m s = s
  register_all-is_sorted (name ∷ names) m s =
      register_all-is_sorted names (register_counter p name m)
        (register_counter-is_sorted p name m s)

  print_stats-is_below :
      (secs total : p.Double) (k : Text) (m : Counters p)
      → is_below p k (print_stats p secs total m).1 ≡ is_below p k m
  unfolding print_stats is_below
  print_stats-is_below secs total k [] = refl
  print_stats-is_below secs total k ((j, c) ∷ m) =
      ap (λ b. text_ltb k j && b)
        (print_stats-is_below secs (p.and_also total (print p secs c).0) k m)

  pub print_stats-is_sorted :
      (secs total : p.Double) (m : Counters p)
      → is_sorted p (print_stats p secs total m).1 ≡ is_sorted p m
  unfolding print_stats is_sorted
  print_stats-is_sorted secs total [] = refl
  print_stats-is_sorted secs total ((j, c) ∷ m) =
      let rest = p.and_also total (print p secs c).0 in
      ap (λ b. b && is_sorted p (print_stats p secs rest m).1) (print_stats-is_below secs rest j m)
      ∙ ap (λ b. is_below p j m && b) (print_stats-is_sorted secs rest m)

  issue-stats : (g : Setting) (s s' : Load p) → issue p g s ≡ some s' → s'.stats ≡ s.stats
  unfolding issue
  issue-stats g s s' h =
      elim (Bool-cases (throws_at_start g.stream_test (g.draw s.drawn) (g.opens s.drawn))) [
        | inl thrown ↦ absurd (ground (arith, rw thrown at h))
        | inr quiet ↦ ap (λ (x : Load p). x.stats) (sym (some_inj (rw quiet at h)))
      ]

  pub run-stats :
      (fuel : ℕ) (g : Setting) (s s' : Load p) → run p fuel g s ≡ some s' → s'.stats ≡ s.stats
  unfolding run
  run-stats zero g s s' h = elim (Bool-cases (ltz s.outstanding_ops g.max_outstanding_ops)) [
    | inl more ↦ absurd (ground (arith, rw more at h))
    | inr full ↦ ap (λ (x : Load p). x.stats) (sym (some_inj (rw full at h)))
  ]
  run-stats (suc fuel) g s s' h = elim (Bool-cases (ltz s.outstanding_ops g.max_outstanding_ops)) [
    | inl more ↦
        let (s₁, e, rest) = bind-some (issue p g s) _ (rw more at h) in
        run-stats fuel g s₁ s' rest ∙ issue-stats g s s₁ e
    | inr full ↦ ap (λ (x : Load p). x.stats) (sym (some_inj (rw full at h)))
  ]

  add_if-is_sorted :
      (counter : Option Text) (m m' : Counters p)
      → add_if p counter m ≡ some m'
      → is_sorted p m' ≡ is_sorted p m
  unfolding add_if add
  add_if-is_sorted none m m' h = ap (is_sorted p) (sym (some_inj h))
  add_if-is_sorted (some name) m m' h = add_size-is_sorted name 1 m m' h

  -- A process that goes on has its counters in order if they were before.
  Ordered : Load p → Option (Process p) → Type 0
  Ordered s o = (u : Load p) → o ≡ some (running u) → is_sorted p u.stats ≡ is_sorted p s.stats

  finish-Ordered :
      (fuel : ℕ) (g : Setting) (counter : Option Text) (others : List Callback) (s : Load p)
      → Ordered s (finish p fuel g counter others s)
  unfolding Ordered finish
  finish-Ordered fuel g counter others s u h =
      let (stats, e, rest) = bind-some (add_if p counter s.stats) _ h in
      let (s', e', last) = bind-some (run p fuel g _) _ rest in
      let same : s' ≡ u = cc last in
      ap (λ (x : Load p). is_sorted p x.stats) (sym same)
      ∙ ap (is_sorted p) (run-stats fuel g _ s' e')
      ∙ add_if-is_sorted counter s.stats stats e

  ended-Ordered : (s : Load p) → Ordered s (some ended_by_check)
  unfolding Ordered
  ended-Ordered s u h = absurd (ground (arith, h))

  same-Ordered : (s : Load p) → Ordered s (some (running s))
  unfolding Ordered
  same-Ordered s u h =
      let same : s ≡ u = cc h in ap (λ (x : Load p). is_sorted p x.stats) (sym same)

  continue-Ordered :
      (fuel : ℕ) (g : Setting) (c : Continuation) (others : List Callback) (s : Load p)
      → Ordered s (continue p fuel g c others s)
  unfolding continue
  continue-Ordered fuel g (replies name) others s = finish-Ordered fuel g (some name) others s
  continue-Ordered fuel g (fails name) others s = finish-Ordered fuel g (some name) others s
  continue-Ordered fuel g process_ends others s = ended-Ordered s

  stream_step-Ordered :
      (g : Setting) (item : Chunk) (others : List Callback) (s : Load p)
      → Ordered s (stream_step p g item others s)
  unfolding stream_step Ordered
  stream_step-Ordered g chunk others s u h =
      let (stats, e, last) = bind-some (add_if p (stream_counter chunk) s.stats) _ h in
      let same : record s { stats = stats } ≡ u = cc last in
      ap (λ (x : Load p). is_sorted p x.stats) (sym same)
      ∙ add_if-is_sorted (stream_counter chunk) s.stats stats e
  stream_step-Ordered g broken others s u h =
      let (stats, e, last) = bind-some (add_if p (stream_counter broken) s.stats) _ h in
      let same : record s {
        outstanding_ops = down s.outstanding_ops;
        in_flight = others;
        stats = stats;
      }
          ≡ u =
        cc last in
      ap (λ (x : Load p). is_sorted p x.stats) (sym same)
      ∙ add_if-is_sorted (stream_counter broken) s.stats stats e
  stream_step-Ordered g ended others s u h =
      let same : record s { outstanding_ops = down s.outstanding_ops; in_flight = others } ≡ u =
        cc h in
      ap (λ (x : Load p). is_sorted p x.stats) (sym same)

  go_on-Ordered :
      (s : Load p) (v : Verdict) (o : Option (Process p)) → Ordered s o → Ordered s (go_on p v o)
  go_on-Ordered s passes o h = h
  go_on-Ordered s throws o h = h
  go_on-Ordered s aborts o h = ended-Ordered s

  deliver-Ordered :
      (fuel : ℕ) (g : Setting) (before : List Callback) (cb : Callback) (after : List Callback)
      (e : Event) (s : Load p)
      → Ordered s (deliver p fuel g before cb after e s)
  unfolding deliver
  deliver-Ordered fuel g before cb after request_sent s = elim (Bool-cases cb.is_oneway) [
    | inl one_way ↦ rw one_way (finish-Ordered fuel g (some noop_oneway_sent) (before ++ after) s)
    | inr two_way ↦ rw two_way (same-Ordered s)
  ]
  deliver-Ordered fuel g before cb after (reply_received response r) s =
      go_on-Ordered s (validated cb response cb.op) _
        (finish-Ordered fuel g (received_by g.stream_test cb.op r) (before ++ after) s)
  deliver-Ordered fuel g before cb after request_error s =
      finish-Ordered fuel g (failed_by g.stream_test cb.op) (before ++ after) s
  deliver-Ordered fuel g before cb after (future_done a) s =
      continue-Ordered fuel g (continuation_of cb a cb.op) (before ++ after) s
  deliver-Ordered fuel g before cb after (stream_item item) s =
      stream_step-Ordered g item (before ++ after) s

  -- An event keeps the counters in their order.
  pub deliver-is_sorted :
      (fuel : ℕ) (g : Setting) (before : List Callback) (cb : Callback) (after : List Callback)
      (e : Event) (s u : Load p)
      → deliver p fuel g before cb after e s ≡ some (running u)
      → is_sorted p u.stats ≡ is_sorted p s.stats
  unfolding Ordered
  deliver-is_sorted fuel g before cb after e s u h = deliver-Ordered fuel g before cb after e s u h
