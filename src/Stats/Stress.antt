-- ===== src/Stats/Stress.antt =====
-- `server_stats_stress` of src/shared/ServerStats.cpp. The clock is a parameter: `clock i` is the
-- time that round i reads.
use async_rpc_fbthrift.Common.{
  ℕ, zero, suc, ◌+◌, ◌*◌, ◌/◌, ◌^◌, ◌≤◌, ◌<◌, ◌≡◌, refl, ◌∙◌, Bool, Option, some, List, [], ◌∷◌,
  arith, ◌>>=◌, length, Text, Option-cases, inl, inr,
}
use async_rpc_fbthrift.Stats.Csv.{Files, write_file}
use async_rpc_fbthrift.Stats.Dump.{csv}
use async_rpc_fbthrift.Stats.Manager.{Manager, new_manager, add_entry, destroy}
use async_rpc_fbthrift.Stats.Retention.{Entry, rows_of, add_entries, destroy-add_entries}

-- The rounds that are left, from round i on. Each logs the same time twice.
stress_loop : (ℕ → ℕ) → ℕ → ℕ → Manager → Option Manager
stress_loop clock zero i m = some m
stress_loop clock (suc rounds) i m = add_entry m i (clock i) >>= λ m₁.
    add_entry m₁ i (clock i) >>= λ m₂. stress_loop clock rounds (i + 1) m₂

pub server_stats_stress : (ℕ → ℕ) → ℕ → Manager → Option Manager
server_stats_stress clock entry_test_number m = stress_loop clock entry_test_number 0 m

-- `server_stats_stress_measurement`: how many milliseconds the rounds took beyond their sleeps, where
-- `elapsed` is what the clock shows for them, the arithmetic of `float` is an argument, and the
-- waiting time is not negative.
pub server_stats_stress_measurement :
    {F : Type 0} → (ℕ → F) → (F → F → F) → ℕ → (ℕ → ℕ) → ℕ → ℕ → Manager → Option (F × Manager)
unfolding server_stats_stress
server_stats_stress_measurement float minus elapsed clock entry_number waiting_time_us m =
    server_stats_stress clock entry_number m >>= λ m'.
    some (minus (float elapsed) (float (entry_number * waiting_time_us / 1000)), m')

-- Round i, twice, for each round.
pub stress_entries : (ℕ → ℕ) → ℕ → ℕ → List Entry
stress_entries clock zero i = []
stress_entries clock (suc n) i = (i, clock i) ∷ (i, clock i) ∷ stress_entries clock n (i + 1)

length-stress_entries : (clock : ℕ → ℕ) (n i : ℕ) → length (stress_entries clock n i) ≡ 2 * n
unfolding stress_entries
length-stress_entries clock zero i = omega arith
length-stress_entries clock (suc n) i = omega (arith, length-stress_entries clock n (i + 1))

stress_loop-eq-add_entries :
    (clock : ℕ → ℕ) (n i : ℕ) (m : Manager)
    → stress_loop clock n i m ≡ add_entries m (stress_entries clock n i)
unfolding stress_loop stress_entries add_entries
stress_loop-eq-add_entries clock zero i m = refl
stress_loop-eq-add_entries clock (suc n) i m = elim (Option-cases (add_entry m i (clock i))) [
  | inl e ↦ rw e
  | inr (m₁, e) ↦ elim (Option-cases (add_entry m₁ i (clock i))) [
    | inl e' ↦ rw (e, e')
    | inr (m₂, e') ↦ rw (e, e') (stress_loop-eq-add_entries clock n (i + 1) m₂)
  ]
]

-- The stress test on a new manager is defined as long as its entries fit in one buffer, and the
-- destructor then writes two equal lines for each round, in order.
pub destroy-server_stats_stress :
    (fs : Files) (name : Text) (async_dumping overwrite : Bool) (entries buffers n : ℕ)
    (clock : ℕ → ℕ)
    → entries < 2 ^ 32
    → 0 < buffers
    → buffers < 2 ^ 32
    → 0 < n
    → 2 * n ≤ entries
    → (m : Manager) × (server_stats_stress clock n
          (new_manager name async_dumping entries buffers overwrite)
        ≡ some m)
      × (destroy fs m
          ≡ some (write_file fs name overwrite (csv (rows_of (stress_entries clock n 0)))))
unfolding server_stats_stress
destroy-server_stats_stress fs name async_dumping overwrite entries buffers n clock he hb hb' hn
      fits =
    let (m, ran, wrote) =
      destroy-add_entries fs name async_dumping entries buffers overwrite []
        (stress_entries clock n 0) (omega arith) he hb hb' tt
        (omega (arith, length-stress_entries clock n 0))
        (omega (arith, length-stress_entries clock n 0)) in
    (m, stress_loop-eq-add_entries clock n 0 _ ∙ ran, wrote)

-- A measurement logs what the stress test does, and its result is the difference of the two times.
pub server_stats_stress_measurement-eq_add_entries :
    {F : Type 0} (float : ℕ → F) (minus : F → F → F) (elapsed : ℕ) (clock : ℕ → ℕ) (n wait : ℕ)
    (m m' : Manager)
    → add_entries m (stress_entries clock n 0) ≡ some m'
    → server_stats_stress_measurement float minus elapsed clock n wait m
      ≡ some (minus (float elapsed) (float (n * wait / 1000)), m')
unfolding server_stats_stress_measurement
server_stats_stress_measurement-eq_add_entries float minus elapsed clock n wait m m' h =
    rw (stress_loop-eq-add_entries clock n 0 m, h) refl
