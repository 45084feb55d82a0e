-- ===== src/Perf/Start.antt =====
-- What the runner of a new client thread starts.
use async_rpc_fbthrift.Common.{
  ℕ, zero, suc, ◌+◌, ◌≤◌, Bool, true, false, [], ◌++◌, some, ◌≡◌, refl, ap, inl, inr, arith,
  Bool-cases, ◌∙◌, Text, ℤ, pos, ltb, ltz, up,
}
use async_rpc_fbthrift.Perf.Counters.{Platform, Counters, count}
use async_rpc_fbthrift.Perf.CountersLaws.{is_sorted}
use async_rpc_fbthrift.Perf.Load.{
  OpType, needs_stream_test, throws_at_start, started, Load, Setting, Event, issue, run, new_load,
}
use async_rpc_fbthrift.Perf.Registered.{Knows, register_all-Knows}
use async_rpc_fbthrift.Perf.Expected.{outcome}
use async_rpc_fbthrift.Perf.Events.{suits}
use async_rpc_fbthrift.Perf.EventCounters.{outcome-is_registered}
use async_rpc_fbthrift.Perf.LoadLaws.{starts, is_compiled, IsLoad, run-IsLoad}

module _ (p : Platform) where
  -- In a build that has every operation that is drawn, and whose streams are opened, the first `run` of
  -- a client thread ends within n rounds, n being the largest number of outstanding calls. Then n
  -- calls are on their way, the runner counts n, and for each event that suits an operation of the
  -- build, the counter that is written out for it, if there is one, is registered.
  pub run-new_load :
      (n : ℕ) (g : Setting) (stats : Counters p) (op : OpType) (e : Event) (name : Text)
      → ((i : ℕ) → starts g i ≡ true)
      → g.max_outstanding_ops ≡ pos n
      → is_sorted p stats ≡ true
      → is_compiled g.stream_test op ≡ true
      → suits op e ≡ true
      → outcome op e ≡ some name
      → (s : Load p) × (run p n g (new_load p g stats) ≡ some s)
        × IsLoad p g.stream_test n s
        × (c : ℕ) × (count p name s.stats ≡ some c)
  unfolding new_load Knows
  run-new_load n g stats op e name all_start most sorted compiled suit counter =
      let (s, ran, v, same) =
        run-IsLoad p g all_start n n 0 (new_load p g stats) most
          (record {
            outstanding = refl;
            flying = refl;
            calls = tt;
            known = register_all-Knows p g.stream_test stats sorted;
          })
          (omega arith) (omega arith) in
      let (c, shown) =
        v.known name (outcome-is_registered g.stream_test op e name compiled suit counter) in
      (s, ran, v, c, shown)

  started-none :
      (stream_test : Bool) (op : OpType) (request : ℤ × ℤ)
      → is_compiled stream_test op ≡ false
      → started stream_test op request ≡ []
  unfolding started is_compiled
  started-none stream_test op request h = ground (arith, h)

  run_leaks :
      (fuel n k : ℕ) (g : Setting) (s : Load p)
      → ((i : ℕ) → is_compiled g.stream_test (g.draw i) ≡ false)
      → g.max_outstanding_ops ≡ pos n
      → s.outstanding_ops ≡ pos k
      → s.in_flight ≡ []
      → k ≤ n
      → n ≤ k + fuel
      → (s' : Load p) × (run p fuel g s ≡ some s')
        × (s'.outstanding_ops ≡ pos n)
        × (s'.in_flight ≡ [])
  unfolding run issue throws_at_start is_compiled needs_stream_test
  run_leaks zero n k g s missing most out flying le enough =
      let full : ltz s.outstanding_ops g.max_outstanding_ops ≡ false =
        rw (out, most) (ground arith) in
      (s, rw full refl, out ∙ ap pos (omega arith), flying)
  run_leaks (suc fuel) n k g s missing most out flying le enough = elim (Bool-cases (ltb k n)) [
    | inl room ↦
        let more : ltz s.outstanding_ops g.max_outstanding_ops ≡ true = rw (out, most) room in
        let quiet : throws_at_start g.stream_test (g.draw s.drawn) (g.opens s.drawn) ≡ false =
          ground (arith, missing s.drawn) in
        let issued : Load p = record s {
          outstanding_ops = up s.outstanding_ops;
          in_flight = s.in_flight ++ started g.stream_test (g.draw s.drawn) (g.numbers s.drawn);
          drawn = s.drawn + 1;
        } in
        let (s', e, out', flying') =
          run_leaks fuel n (k + 1) g issued missing most (ap up out)
            (rw flying
              (started-none g.stream_test (g.draw s.drawn) (g.numbers s.drawn) (missing s.drawn)))
            (ground (arith, room)) (omega arith) in
        (s', rw (more, quiet) e, out', flying')
    | inr room ↦
        let full : ltz s.outstanding_ops g.max_outstanding_ops ≡ false = rw (out, most) room in
        (s, rw full refl, out ∙ ap pos (ground (arith, room)), flying)
  ]

  -- In a build without `STREAM_PERF_TEST` a client thread that only draws operations of that test
  -- counts n outstanding calls when its first `run` ends, and none is on its way, so nothing ever
  -- brings it back to `run`.
  pub run-new_load_leaks :
      (n : ℕ) (g : Setting) (stats : Counters p)
      → g.stream_test ≡ false
      → ((i : ℕ) → needs_stream_test (g.draw i) ≡ true)
      → g.max_outstanding_ops ≡ pos n
      → (s : Load p) × (run p n g (new_load p g stats) ≡ some s)
        × (s.outstanding_ops ≡ pos n)
        × (s.in_flight ≡ [])
  unfolding new_load is_compiled
  run-new_load_leaks n g stats plain needed most =
      run_leaks n n 0 g (new_load p g stats) (λ i. rw (plain, needed i) refl) most refl refl
        (omega arith) (omega arith)
