-- ===== src/Perf/Outcomes.antt =====
-- How often a counter is added to by the events of the benchmark's calls.
use async_rpc_fbthrift.Common.{
  ℕ, zero, suc, ◌+◌, ◌≤◌, if◌then◌else◌, List, [], ◌∷◌, Option, none, some, ◌>>=◌, ◌≡◌, refl, ap,
  inl, inr, arith, Text, text_eq, Bool-cases, ◌∙◌, u32,
}
use async_rpc_fbthrift.Perf.Counters.{Platform}
use async_rpc_fbthrift.Perf.Load.{Callback, Event}
use async_rpc_fbthrift.Perf.Registered.{counted}
use async_rpc_fbthrift.Perf.Events.{left}

-- How many of the outcomes add to a counter.
unfoldable pub times_in : Text → List (Option Text) → ℕ
times_in name [] = 0
times_in name (none ∷ outcomes) = times_in name outcomes
times_in name (some k ∷ outcomes) = (if text_eq name k then 1 else 0) + times_in name outcomes

-- An optional number behind n additions of 1, modulo 2^32.
abbrev pub increased : Option ℕ → ℕ → Option ℕ
increased none n = none
increased (some c) zero = some c
increased (some c) (suc n) = some (u32 (c + suc n))

increased-suc :
    (o : Option ℕ) (n : ℕ) → (increased o n >>= λ c. some (u32 (c + 1))) ≡ increased o (suc n)
increased-suc none n = refl
increased-suc (some c) zero = refl
increased-suc (some c) (suc n) =
    let sum : u32 (u32 (c + suc n) + 1) ≡ u32 (c + suc (suc n)) = omega arith in ap some sum

pub increased_zero : (o : Option ℕ) → o ≡ increased o 0
increased_zero none = refl
increased_zero (some c) = refl

pub increased_fresh : (n : ℕ) → increased (some 0) n ≡ some (u32 n)
increased_fresh zero = refl
increased_fresh (suc n) = ap (λ k. some (u32 k)) (omega arith)

-- One more outcome.
pub counted-times_in :
    (p : Platform) (outcome : Option Text) (outcomes : List (Option Text)) (name : Text)
    (o : Option ℕ)
    → counted p outcome name (increased o (times_in name outcomes))
      ≡ increased o (times_in name (outcome ∷ outcomes))
unfolding counted times_in
counted-times_in p none outcomes name o = refl
counted-times_in p (some k) outcomes name o = elim (Bool-cases (text_eq name k)) [
  | inl same ↦
      let more : suc (times_in name outcomes) ≡ 1 + times_in name outcomes = omega arith in
      rw same (increased-suc o (times_in name outcomes) ∙ ap (increased o) more)
  | inr other ↦
      let none_more : times_in name outcomes ≡ 0 + times_in name outcomes = omega arith in
      rw other (ap (increased o) none_more)
]

pub left-le : (n k : ℕ) (cb : Callback) (e : Event) → k ≤ n → left n k cb e ≤ n
unfolding left
left-le n k cb e h = ground arith
