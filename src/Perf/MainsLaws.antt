-- ===== src/Perf/MainsLaws.antt =====
-- The loop of the statistics ends on time, and the choice of a connection.
use async_rpc_fbthrift.Common.{
  ℕ, zero, suc, ◌+◌, ◌-◌, ◌≤◌, ◌<◌, false, List, [], ◌∷◌, map, none, some, ◌>>=◌, ◌≡◌, refl, inl,
  inr, arith, Bool-cases, ◌∙◌, pos, ltb, ltb→lt, lt→ltb, All, sub_nat,
}
use async_rpc_fbthrift.Perf.Mains.{stats_loop, client_stats_loop, server_stats_loop, or_forever}

pub total : List ℕ → ℕ
total [] = 0
total (n ∷ ns) = n + total ns

sub_nat-pos : (t e : ℕ) → e ≤ t → sub_nat t e ≡ pos (t - e)
sub_nat-pos t e h = ground arith

-- A round that is not the last.
one_interval :
    (fuel t i e : ℕ)
    → e + suc i < t
    → stats_loop (suc fuel) (pos t) (pos (suc i)) (pos e) ≡ (
        stats_loop fuel (pos t) (pos (suc i)) (pos (e + suc i)) >>= λ sleeps.
        some (pos (suc i) ∷ sleeps))
unfolding stats_loop
one_interval fuel t i e h =
    rw (sub_nat-pos t e (omega arith), lt→ltb (suc i) (t - e) (omega arith), lt→ltb (e + suc i) t h)
      refl

last_interval :
    (fuel t i e : ℕ)
    → e < t
    → t ≤ e + suc i
    → stats_loop (suc fuel) (pos t) (pos (suc i)) (pos e) ≡ some (pos (t - e) ∷ [])
unfolding stats_loop
last_interval fuel t i e h k =
    let no_more : ltb (suc i) (t - e) ≡ false = ground (arith, k) in
    let over : ltb (e + (t - e)) t ≡ false = ground (arith, h) in
    rw (sub_nat-pos t e (omega arith), no_more, over) refl

-- From e seconds on, the loop runs until t.
stats_loop-sleeps :
    (fuel t i e : ℕ)
    → e < t
    → t ≤ e + fuel
    → (sleeps : List ℕ) × (stats_loop fuel (pos t) (pos (suc i)) (pos e) ≡ some (map pos sleeps))
      × (total sleeps ≡ t - e)
      × All (λ n. n ≤ suc i) sleeps
unfolding total
stats_loop-sleeps zero t i e h k = absurd (omega arith)
stats_loop-sleeps (suc fuel) t i e h k = elim (Bool-cases (ltb (e + suc i) t)) [
  | inl more ↦
      let (sleeps, ran, sum, short) =
        stats_loop-sleeps fuel t i (e + suc i) (ltb→lt (e + suc i) t more) (omega arith) in
      (
        suc i ∷ sleeps,
        one_interval fuel t i e (ltb→lt (e + suc i) t more) ∙ rw ran refl,
        omega (arith, sum, ltb→lt (e + suc i) t more),
        (omega arith, short),
      )
  | inr last ↦ (
    (t - e) ∷ [],
    last_interval fuel t i e h (ground (arith, last)),
    omega arith,
    (ground (arith, last), tt),
  )
]

-- With a positive time limit and a positive interval, the loops of the client and of the server end
-- within as many rounds as the limit has seconds. They sleep for exactly the limit in all, and never
-- longer than the interval at once.
pub client_stats_loop-sleeps :
    (t i : ℕ)
    → 0 < t
    → (sleeps : List ℕ) × (client_stats_loop t (pos t) (pos (suc i)) ≡ some (map pos sleeps))
      × (server_stats_loop t (pos t) (pos (suc i)) ≡ some (map pos sleeps))
      × (total sleeps ≡ t)
      × All (λ n. n ≤ suc i) sleeps
unfolding client_stats_loop server_stats_loop or_forever
client_stats_loop-sleeps zero i h = absurd (omega arith)
client_stats_loop-sleeps (suc t) i h =
    let (sleeps, ran, sum, short) = stats_loop-sleeps (suc t) (suc t) i 0 h (omega arith) in
    (sleeps, ran, ran, omega (arith, sum), short)

no_interval : (fuel t : ℕ) → stats_loop fuel (pos (suc t)) (pos 0) (pos 0) ≡ none
unfolding stats_loop
no_interval zero t = refl
no_interval (suc fuel) t =
    rw
      (
        sub_nat-pos (suc t) 0 (omega arith),
        lt→ltb 0 (suc t - 0) (omega arith),
        lt→ltb 0 (suc t) (omega arith),
        no_interval fuel t,
      )
      refl

-- With the interval 0 neither loop ever ends, whatever the time limit is.
pub client_stats_loop-interval_zero :
    (fuel t : ℕ)
    → (client_stats_loop fuel (pos t) (pos 0) ≡ none)
      × (server_stats_loop fuel (pos t) (pos 0) ≡ none)
unfolding client_stats_loop server_stats_loop or_forever
client_stats_loop-interval_zero fuel zero = (no_interval fuel 99999999, no_interval fuel 99999999)
client_stats_loop-interval_zero fuel (suc t) = (no_interval fuel t, no_interval fuel t)
