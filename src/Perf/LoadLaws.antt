-- ===== src/Perf/LoadLaws.antt =====
-- The runner keeps its number of outstanding calls.
use async_rpc_fbthrift.Common.{
  ℕ, zero, suc, ◌+◌, ◌≤◌, Bool, true, false, not, ◌&&◌, ◌||◌, List, [], ◌∷◌, ◌++◌, Option, some,
  ◌≡◌, refl, ap, inl, inr, arith, Text, Bool-cases, ◌∙◌, ℤ, pos, length, All, length-append, ltb,
  subst, ltz, up, down,
}
use async_rpc_fbthrift.Perf.Counters.{Platform, count}
use async_rpc_fbthrift.Perf.Load.{
  OpType, needs_stream_test, throws_at_start, started, is_oneway_op, Callback, Load, Setting,
  running, issue, run, finish,
}
use async_rpc_fbthrift.Perf.Registered.{is_registered, Knows, counted, add_if-Knows}

-- The build has the operation.
unfoldable pub is_compiled : Bool → OpType → Bool
is_compiled stream_test op = stream_test || not (needs_stream_test op)

-- The build has the operation of the i-th draw, and where it is a stream, it is opened.
unfoldable pub starts : Setting → ℕ → Bool
unfolding is_compiled
starts g i =
    is_compiled g.stream_test (g.draw i)
    && not (throws_at_start g.stream_test (g.draw i) (g.opens i))

-- A call that the build can have on its way, as `async` makes it.
unfoldable pub IsCall : Bool → Callback → Type 0
IsCall stream_test cb = (is_compiled stream_test cb.op ≡ true) × (cb.is_oneway ≡ is_oneway_op cb.op)

started-one :
    (stream_test : Bool) (op : OpType) (request : ℤ × ℤ)
    → is_compiled stream_test op ≡ true
    → (cb : Callback) × (started stream_test op request ≡ cb ∷ []) × IsCall stream_test cb
unfolding started is_compiled IsCall
started-one stream_test op request h = (
  record { op = op; is_oneway = is_oneway_op op; request = request },
  ground (arith, h),
  (h, refl),
)

All-append-one :
    {A : Type 0} (P : A → Type 0) (xs : List A) (a : A) → All P xs → P a → All P (xs ++ a ∷ [])
All-append-one P [] a h p = (p, tt)
All-append-one P (x ∷ xs) a h p = (h.0, All-append-one P xs a h.1 p)

-- Both sides of a conjunction.
both : {a b : Bool} → (a && not b) ≡ true → (a ≡ true) × (b ≡ false)
both {a} {b} h = (ground (arith, h), ground (arith, h))

equal : (k n : ℕ) → k ≤ n → ltb k n ≡ false → k ≡ n
equal k n le room = ground arith

module _ (p : Platform) where
  -- k calls are on their way, and the runner counts k; every counter that they use is registered.
  pub record IsLoad (stream_test : Bool) (k : ℕ) (s : Load p) : Type 0 where
    pub outstanding : s.outstanding_ops ≡ pos k
    pub flying : length s.in_flight ≡ k
    pub calls : All (IsCall stream_test) s.in_flight
    pub known : Knows p stream_test s.stats

  module _ (g : Setting) (all_start : (i : ℕ) → starts g i ≡ true) where
    issue-IsLoad :
        (k : ℕ) (s : Load p)
        → IsLoad g.stream_test k s
        → (s' : Load p) × (issue p g s ≡ some s')
          × IsLoad g.stream_test (k + 1) s'
          × (s'.stats ≡ s.stats)
    unfolding issue starts
    issue-IsLoad k s v =
        let (compiled, quiet) = both (all_start s.drawn) in
        let (cb, e, call) =
          started-one g.stream_test (g.draw s.drawn) (g.numbers s.drawn) compiled in
        let s' : Load p = record s {
          outstanding_ops = up s.outstanding_ops;
          in_flight = s.in_flight ++ started g.stream_test (g.draw s.drawn) (g.numbers s.drawn);
          drawn = s.drawn + 1;
        } in
        (
          s',
          rw quiet refl,
          record {
            outstanding = ap up v.outstanding;
            flying =
                ap (λ new. length (s.in_flight ++ new)) e
                ∙ omega (arith, length-append s.in_flight (cb ∷ []), v.flying);
            calls = rw e (All-append-one (IsCall g.stream_test) s.in_flight cb v.calls call);
            known = v.known;
          },
          refl,
        )

    -- With fuel for n rounds the loop ends, with n calls on their way.
    pub run-IsLoad :
        (fuel n k : ℕ) (s : Load p)
        → g.max_outstanding_ops ≡ pos n
        → IsLoad g.stream_test k s
        → k ≤ n
        → n ≤ k + fuel
        → (s' : Load p) × (run p fuel g s ≡ some s')
          × IsLoad g.stream_test n s'
          × (s'.stats ≡ s.stats)
    unfolding run
    run-IsLoad zero n k s most v le enough =
        let full : ltz s.outstanding_ops g.max_outstanding_ops ≡ false =
          rw (v.outstanding, most) (ground arith) in
        (
          s,
          rw full refl,
          subst (λ k. IsLoad g.stream_test k s) (equal k n le (ground (arith, enough))) v,
          refl,
        )
    run-IsLoad (suc fuel) n k s most v le enough = elim (Bool-cases (ltb k n)) [
      | inl room ↦
          let more : ltz s.outstanding_ops g.max_outstanding_ops ≡ true =
            rw (v.outstanding, most) room in
          let (s₁, e₁, v₁, same₁) = issue-IsLoad k s v in
          let (s', e, v', same) =
            run-IsLoad fuel n (k + 1) s₁ most v₁ (ground (arith, room)) (omega arith) in
          (s', rw (more, e₁) e, v', same ∙ same₁)
      | inr room ↦
          let full : ltz s.outstanding_ops g.max_outstanding_ops ≡ false =
            rw (v.outstanding, most) room in
          (s, rw full refl, subst (λ k. IsLoad g.stream_test k s) (equal k n le room) v, refl)
    ]

    -- A call ends and the runner takes it up from there.
    pub finish-IsLoad :
        (fuel n k : ℕ) (counter : Option Text) (others : List Callback) (s : Load p)
        → g.max_outstanding_ops ≡ pos n
        → s.outstanding_ops ≡ pos (suc k)
        → length others ≡ k
        → All (IsCall g.stream_test) others
        → Knows p g.stream_test s.stats
        → is_registered g.stream_test counter ≡ true
        → k ≤ n
        → n ≤ k + fuel
        → (s' : Load p) × (finish p fuel g counter others s ≡ some (running s'))
          × IsLoad g.stream_test n s'
          × ((name : Text) → count p name s'.stats ≡ counted p counter name (count p name s.stats))
    unfolding finish
    finish-IsLoad fuel n k counter others s most out flying calls known registered le enough =
        let (stats, e, known', after) =
          add_if-Knows p g.stream_test counter s.stats known registered in
        let (s', e', v, same) =
          run-IsLoad fuel n k
            (record s {
              outstanding_ops = down s.outstanding_ops;
              in_flight = others;
              stats = stats;
            })
            most
            (record { outstanding = ap down out; flying = flying; calls = calls; known = known' })
            le enough in
        (s', rw (e, e') refl, v, λ name. ap (count p name) same ∙ after name)
