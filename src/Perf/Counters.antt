-- ===== src/Perf/Counters.antt =====
-- `Counter` and `QPSStats` of src/dep/perf/cpp2/util/Counter.h and QPSStats.h.
use async_rpc_fbthrift.Common.{
  ℕ, ◌+◌, Bool, true, false, ◌&&◌, ◌||◌, ltb, ◌==◌, if◌then◌else◌, List, [], ◌∷◌, Option, none,
  some, ◌>>=◌, ◌≡◌, u32, Text, text_eq,
}

-- What the benchmark takes from elsewhere: `folly::ThreadCachedInt<uint32_t>`, whose documentation
-- promises that `readFull` is the sum of all increments, and the arithmetic of `double`.
pub record Platform : Type 1 where
  pub Cached : Type 0
  pub fresh : Cached
  pub plus : Cached → ℕ → Cached
  pub read_full : Cached → ℕ
  pub read_full-fresh : read_full fresh ≡ 0
  pub read_full-plus : (c : Cached) (n : ℕ) → read_full (plus c n) ≡ u32 (read_full c + n)
  pub Double : Type 0
  pub double : ℕ → Double
  pub minus : Double → Double → Double
  pub over : Double → Double → Double
  pub larger : Double → Double → Double
  pub and_also : Double → Double → Double

-- `operator<` of `std::string`.
unfoldable pub text_ltb : Text → Text → Bool
text_ltb [] [] = false
text_ltb [] (b ∷ t) = true
text_ltb (a ∷ s) [] = false
text_ltb (a ∷ s) (b ∷ t) = ltb a b || (a == b && text_ltb s t)

module _ (p : Platform) where
  open p use {Cached, fresh, plus, read_full, Double, double, minus, over, larger, and_also}

  pub record Counter : Type 0 where
    pub value : Cached
    pub last_query_count : Double
    pub max_per_sec : Double

  unfoldable pub new_counter : Counter
  new_counter = record { value = fresh; last_query_count = double 0; max_per_sec = double 0 }

  -- `operator+=`
  unfoldable pub increase : ℕ → Counter → Counter
  increase inc c = record c { value = plus c.value inc }

  -- `print`, without the line that it logs.
  unfoldable pub print : Double → Counter → Double × Counter
  print secs c =
      let query_count = double (read_full c.value) in
      let last_sec_avg = over (minus query_count c.last_query_count) secs in
      (
        last_sec_avg,
        record c {
          last_query_count = query_count;
          max_per_sec = larger c.max_per_sec last_sec_avg;
        },
      )

  -- `std::map`, in the order of its keys.
  abbrev pub Counters : Type 0
  Counters = List (Text × Counter)

  -- `registerCounter`: `emplace` leaves a counter that is there as it is.
  unfoldable pub register_counter : Text → Counters → Counters
  unfolding new_counter
  register_counter name [] = (name, new_counter) ∷ []
  register_counter name ((j, c) ∷ m) =
      if text_eq name j
      then (j, c) ∷ m
      else (if text_ltb name j
          then (name, new_counter) ∷ (j, c) ∷ m
          else (j, c) ∷ register_counter name m)

  unfoldable pub register_all : List Text → Counters → Counters
  register_all [] m = m
  register_all (name ∷ names) m = register_all names (register_counter name m)

  -- `add(name, sz)`. For a name that is not registered, `operator[]` makes a null pointer, which is
  -- then dereferenced: `none`.
  unfoldable pub add_size : Text → ℕ → Counters → Option Counters
  unfolding increase
  add_size name sz [] = none
  add_size name sz ((j, c) ∷ m) =
      if text_eq name j
      then some ((j, increase sz c) ∷ m)
      else (add_size name sz m >>= λ m'. some ((j, c) ∷ m'))

  unfoldable pub add : Text → Counters → Option Counters
  unfolding add_size
  add name m = add_size name 1 m

  -- `printStats`: the total that it logs, on top of what is summed so far.
  unfoldable pub print_stats : Double → Double → Counters → Double × Counters
  unfolding print
  print_stats secs total [] = (total, [])
  print_stats secs total ((j, c) ∷ m) =
      let (avg, c') = print secs c in
      let (total', m') = print_stats secs (and_also total avg) m in (total', (j, c') ∷ m')

  -- The number that a registered counter shows.
  unfoldable pub count : Text → Counters → Option ℕ
  count name [] = none
  count name ((j, c) ∷ m) = if text_eq name j then some (read_full c.value) else count name m
