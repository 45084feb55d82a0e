-- ===== src/Perf/ClientsLaws.antt =====
-- What the client threads of the benchmark count together.
use async_rpc_fbthrift.Common.{
  ℕ, ◌≤◌, true, List, [], ◌∷◌, ◌++◌, Option, some, ◌≡◌, refl, sym, ap, subst, ◌∙◌, arith, Text, pos,
  u32, length,
}
use async_rpc_fbthrift.Perf.Counters.{Platform, count, register_all}
use async_rpc_fbthrift.Perf.CountersLaws.{is_sorted, or_zero}
use async_rpc_fbthrift.Perf.Load.{
  Callback, Load, running, registered_names, Event, deliver, run, new_load,
}
use async_rpc_fbthrift.Perf.Registered.{is_name, counted, register_all-Knows}
use async_rpc_fbthrift.Perf.LoadLaws.{starts, IsLoad, run-IsLoad}
use async_rpc_fbthrift.Perf.Expected.{outcome}
use async_rpc_fbthrift.Perf.Events.{suits, IsAnswered, left}
use async_rpc_fbthrift.Perf.Delivery.{deliver-IsLoad}
use async_rpc_fbthrift.Perf.Outcomes.{
  times_in, increased, increased_fresh, counted-times_in, left-le,
}
use async_rpc_fbthrift.Perf.Sorted.{register_all-is_sorted, deliver-is_sorted}
use async_rpc_fbthrift.Perf.Clients.{
  Program, setting, Clients, seen_by, moved, Work, begins, thread_starts, event, prints,
}
use async_rpc_fbthrift.Perf.Together.{
  count-register_all_zero, Fine, Together, Fine-set, count-register_all, begins-Together,
  prints-Together,
}

module _ (p : Platform) (c : Program) (fuel : ℕ)
    (all_start : (i j : ℕ) → starts (setting c i) j ≡ true)
    (enough : c.max_outstanding_ops ≤ fuel) where
  starts-Together :
      (i : ℕ) (l : Load p) (s : Clients p) (outcomes : List (Option Text))
      → Together p c outcomes s
      → run p fuel (setting c i) (new_load p (setting c i) s.stats) ≡ some l
      → Together p c outcomes (moved p i l s)
  unfolding new_load Fine
  starts-Together i l s outcomes v h =
      let (l', e, load, same) =
        run-IsLoad p (setting c i) (all_start i) fuel c.max_outstanding_ops 0
          (new_load p (setting c i) s.stats) refl
          (record {
            outstanding = refl;
            flying = refl;
            calls = tt;
            known = register_all-Knows p c.stream_test s.stats v.sorted;
          })
          (omega arith) (omega arith) in
      let equal : l' ≡ l = cc (e, h) in
      let mine = subst (IsLoad p c.stream_test c.max_outstanding_ops) equal load in
      let stats : l.stats ≡ register_all p (registered_names c.stream_test) s.stats =
        ap (λ (x : Load p). x.stats) (sym equal) ∙ same in
      let sorted =
        ap (is_sorted p) stats
        ∙ register_all-is_sorted p (registered_names c.stream_test) s.stats v.sorted in
      record {
        sorted = sorted;
        threads =
            Fine-set p c s.stats l.stats i l s.loads mine.known
              (c.max_outstanding_ops, omega arith, mine) v.threads;
        counters = λ name known.
            count-register_all p c name l.stats sorted mine.known known
            ∙ ap (count p name) stats
            ∙ v.counters name known;
      }

  event-Together :
      (i : ℕ) (l l' : Load p) (before : List Callback) (cb : Callback) (after : List Callback)
      (e : Event) (s : Clients p) (outcomes : List (Option Text))
      → Together p c outcomes s
      → s.loads i ≡ some l
      → l.in_flight ≡ before ++ cb ∷ after
      → suits cb.op e ≡ true
      → IsAnswered cb e
      → deliver p fuel (setting c i) before cb after e (seen_by p s l) ≡ some (running l')
      → Together p c (outcome cb.op e ∷ outcomes) (moved p i l' s)
  unfolding Fine
  event-Together i l l' before cb after e s outcomes v at split suit answer h =
      let (k, bound, load) = subst (Fine p c s.stats) at (v.threads i) in
      let (l'', delivered, load', counts) =
        deliver-IsLoad p (setting c i) (all_start i) fuel c.max_outstanding_ops k before cb after e
          (seen_by p s l) refl load bound enough split suit answer in
      let equal : l'' ≡ l' = cc (delivered, h) in
      let n = left c.max_outstanding_ops k cb e in
      let mine = subst (IsLoad p c.stream_test n) equal load' in
      let sorted =
        deliver-is_sorted p fuel (setting c i) before cb after e (seen_by p s l) l' h ∙ v.sorted in
      record {
        sorted = sorted;
        threads =
            Fine-set p c s.stats l'.stats i l' s.loads mine.known
              (n, left-le c.max_outstanding_ops k cb e bound, mine) v.threads;
        counters = λ name known.
            count-register_all p c name l'.stats sorted mine.known known
            ∙ ap (λ (x : Load p). count p name x.stats) (sym equal)
            ∙ counts name
            ∙ ap (counted p (outcome cb.op e) name) (
                sym (count-register_all p c name s.stats v.sorted load.known known)
                ∙ v.counters name known)
            ∙ counted-times_in p (outcome cb.op e) outcomes name
                (count p name (register_all p (registered_names c.stream_test) []));
      }

  Work-Together :
      {outcomes : List (Option Text)} {s : Clients p}
      → Work p c fuel outcomes s
      → Together p c outcomes s
  Work-Together begins = begins-Together p c
  Work-Together (thread_starts {s} {outcomes} i l work bound idle h) =
      starts-Together i l s outcomes (Work-Together work) h
  Work-Together (event {s} {outcomes} i l l' before cb after e work at split suit answer h) =
      event-Together i l l' before cb after e s outcomes (Work-Together work) at split suit answer h
  Work-Together (prints {s} {outcomes} secs total work) =
      prints-Together p c secs total s outcomes (Work-Together work)

-- Let any number of client threads of the benchmark start, in a build that has every operation that
-- they draw, and whose streams are opened, and then let any events happen to their calls, in any
-- order over the threads, that suit them, each response that can be read being the server's answer,
-- while the main thread prints the statistics. Then each thread that has started has as many calls
-- on their way as its runner counts, at most the largest number, and each counter that the
-- operations register shows the number of all events for whose operation and kind it is written
-- out, modulo 2^32.
pub Work-counts :
    (p : Platform) (c : Program) (fuel : ℕ) (outcomes : List (Option Text)) (s : Clients p) (i : ℕ)
    (l : Load p) (name : Text)
    → ((i j : ℕ) → starts (setting c i) j ≡ true)
    → c.max_outstanding_ops ≤ fuel
    → Work p c fuel outcomes s
    → s.loads i ≡ some l
    → is_name name (registered_names c.stream_test) ≡ true
    → ((k : ℕ) × (k ≤ c.max_outstanding_ops)
        × (l.outstanding_ops ≡ pos k)
        × (length l.in_flight ≡ k))
      × (count p name s.stats ≡ some (u32 (times_in name outcomes)))
unfolding Fine or_zero count is_sorted
Work-counts p c fuel outcomes s i l name all_start enough work at known =
    let v = Work-Together p c fuel all_start enough work in
    let (k, bound, load) = subst (Fine p c s.stats) at (v.threads i) in
    (
      (k, bound, load.outstanding, load.flying),
      sym (count-register_all p c name s.stats v.sorted load.known known)
          ∙ v.counters name known
          ∙ ap (λ o. increased o (times_in name outcomes))
              (count-register_all_zero p (registered_names c.stream_test) name [] refl known)
          ∙ increased_fresh (times_in name outcomes),
    )
