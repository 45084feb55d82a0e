-- ===== src/Perf/Together.antt =====
-- What holds of the client threads of the benchmark together between two events.
use async_rpc_fbthrift.Common.{
  ℕ, ◌≤◌, Bool-cases, true, ◌==◌, List, [], ◌∷◌, Option, none, some, ◌≡◌, refl, sym, ap, ◌∙◌, inl,
  inr, arith, Text, text_eq,
}
use async_rpc_fbthrift.Perf.Counters.{
  Platform, Counters, count, register_counter, register_all, print_stats,
}
use async_rpc_fbthrift.Perf.CountersLaws.{
  is_sorted, or_zero, register_counter-is_sorted, count-register_counter, count-print_stats,
}
use async_rpc_fbthrift.Perf.Load.{Load, registered_names}
use async_rpc_fbthrift.Perf.Registered.{is_name, Knows, register_all-keeps}
use async_rpc_fbthrift.Perf.LoadLaws.{IsLoad}
use async_rpc_fbthrift.Perf.Outcomes.{times_in, increased, increased_zero}
use async_rpc_fbthrift.Perf.Sorted.{print_stats-is_sorted}
use async_rpc_fbthrift.Perf.Clients.{Program, Clients, set_load, no_clients}

pub count-register_all_zero :
    (p : Platform) (names : List Text) (k : Text) (m : Counters p)
    → is_sorted p m ≡ true
    → is_name k names ≡ true
    → count p k (register_all p names m) ≡ some (or_zero p (count p k m))
unfolding register_all is_name or_zero
count-register_all_zero p [] k m sorted known = absurd (ground (arith, known))
count-register_all_zero p (name ∷ names) k m sorted known =
    let sorted' = register_counter-is_sorted p name m sorted in
    let after = count-register_counter p name k m sorted in
    elim (Bool-cases (text_eq k name)) [
      | inl same ↦
          register_all-keeps p names k _ (register_counter p name m) sorted' (after ∙ rw same refl)
      | inr other ↦
          let kept : count p k (register_counter p name m) ≡ count p k m = after ∙ rw other refl in
          count-register_all_zero p names k (register_counter p name m) sorted'
            (ground (arith, known, other))
          ∙ ap (λ o. some (or_zero p o)) kept
    ]

module _ (p : Platform) (c : Program) where
  abbrev names : List Text
  names = registered_names c.stream_test

  -- The load of a thread is well formed on the statistics.
  unfoldable pub Fine : Counters p → Option (Load p) → Type 0
  Fine m none = Unit
  Fine m (some l) =
      (k : ℕ) × (k ≤ c.max_outstanding_ops) × IsLoad p c.stream_test k (record l { stats = m })

  pub record Together (outcomes : List (Option Text)) (s : Clients p) : Type 0 where
    pub sorted : is_sorted p s.stats ≡ true
    pub threads : (i : ℕ) → Fine s.stats (s.loads i)
    pub counters :
        (name : Text)
        → is_name name names ≡ true
        → count p name (register_all p names s.stats)
          ≡ increased (count p name (register_all p names [])) (times_in name outcomes)

  -- A thread that knows the counters knows them on other statistics that have them.
  Fine-other :
      (m m' : Counters p) (o : Option (Load p)) → Knows p c.stream_test m' → Fine m o → Fine m' o
  unfolding Fine
  Fine-other m m' none knows fine = tt
  Fine-other m m' (some l) knows (k, bound, v) = (
    k,
    bound,
    record { outstanding = v.outstanding; flying = v.flying; calls = v.calls; known = knows },
  )

  pub Fine-set :
      (m m' : Counters p) (i : ℕ) (l : Load p) (loads : ℕ → Option (Load p))
      → Knows p c.stream_test m'
      → Fine m' (some l)
      → ((j : ℕ) → Fine m (loads j))
      → (j : ℕ) → Fine m' (set_load p i l loads j)
  Fine-set m m' i l loads knows mine others j = elim (Bool-cases (j == i)) [
    | inl me ↦ rw me mine
    | inr other ↦ rw other (Fine-other m m' (loads j) knows (others j))
  ]

  -- Registering again leaves the registered counters.
  pub count-register_all :
      (name : Text) (m : Counters p)
      → is_sorted p m ≡ true
      → Knows p c.stream_test m
      → is_name name names ≡ true
      → count p name (register_all p names m) ≡ count p name m
  unfolding Knows
  count-register_all name m sorted knows known =
      let (n, e) = knows name known in register_all-keeps p names name n m sorted e ∙ sym e

  pub begins-Together : Together [] (no_clients p)
  unfolding is_sorted Fine times_in
  begins-Together = record {
    sorted = refl;
    threads = λ i. tt;
    counters = λ name known. increased_zero (count p name (register_all p names []));
  }

  Fine-print_stats :
      (secs total : p.Double) (m : Counters p) (o : Option (Load p))
      → Fine m o
      → Fine (print_stats p secs total m).1 o
  unfolding Fine Knows
  Fine-print_stats secs total m none fine = tt
  Fine-print_stats secs total m (some l) (k, bound, v) =
      let knows : Knows p c.stream_test (print_stats p secs total m).1 = λ name known.
        let (n, e) = v.known name known in (n, count-print_stats p secs total name m ∙ e) in
      (
        k,
        bound,
        record { outstanding = v.outstanding; flying = v.flying; calls = v.calls; known = knows },
      )

  pub prints-Together :
      (secs total : p.Double) (s : Clients p) (outcomes : List (Option Text))
      → Together outcomes s
      → Together outcomes (record s { stats = (print_stats p secs total s.stats).1 })
  prints-Together secs total s outcomes v =
      let sorted = print_stats-is_sorted p secs total s.stats ∙ v.sorted in
      record {
        sorted = sorted;
        threads = λ i. Fine-print_stats secs total s.stats (s.loads i) (v.threads i);
        counters = λ name known.
            count-register_all_zero p names name (print_stats p secs total s.stats).1 sorted known
            ∙ ap (λ o. some (or_zero p o)) (count-print_stats p secs total name s.stats)
            ∙ sym (count-register_all_zero p names name s.stats v.sorted known)
            ∙ v.counters name known;
      }
