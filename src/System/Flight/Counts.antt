-- ===== src/System/Flight/Counts.antt =====
-- How often a round stands in the lists of a flight.
use async_rpc_fbthrift.Common.{
  ℕ, ◌+◌, ◌≤◌, true, ◌==◌, List, [], ◌∷◌, some, ◌≡◌, refl, inl, inr, arith, Bool-cases,
}
use async_rpc_fbthrift.Rpc.{Reply}
use async_rpc_fbthrift.Client.Main.{Response, is_pending, remove}
use async_rpc_fbthrift.Client.Successes.{one_if}
use async_rpc_fbthrift.System.Flight.{Move, sends, serves, receives, reply_to, without}

unfoldable pub times : ℕ → List ℕ → ℕ
times i [] = 0
times i (j ∷ js) = one_if (i == j) + times i js

unfoldable pub answers_to : ℕ → List (ℕ × Reply Response) → ℕ
answers_to i [] = 0
answers_to i ((j, r) ∷ rs) = one_if (i == j) + answers_to i rs

-- How often the message service has handled the call of round i.
unfoldable pub serves_of : ℕ → List Move → ℕ
serves_of i [] = 0
serves_of i (sends time ∷ past) = serves_of i past
serves_of i (serves j p ∷ past) = one_if (i == j) + serves_of i past
serves_of i (receives j time ∷ past) = serves_of i past

pub times-remove :
    (i j : ℕ) (js : List ℕ)
    → is_pending j js ≡ true
    → times i js ≡ one_if (i == j) + times i (remove j js)
unfolding times is_pending remove one_if
times-remove i j [] h = absurd (ground arith)
times-remove i j (k ∷ js) h = elim (Bool-cases (j == k)) [
  | inl same ↦ rw same (ground (arith, same))
  | inr other ↦ rw other (ground (arith, other, h, times-remove i j js))
]

pub times-is_pending : (i : ℕ) (js : List ℕ) → is_pending i js ≡ true → 1 ≤ times i js
unfolding times is_pending one_if
times-is_pending i [] h = absurd (ground arith)
times-is_pending i (k ∷ js) h = ground (arith, times-is_pending i js)

pub is_pending-times : (i : ℕ) (js : List ℕ) → 1 ≤ times i js → is_pending i js ≡ true
unfolding times is_pending one_if
is_pending-times i [] h = absurd (omega (arith, h))
is_pending-times i (k ∷ js) h = ground (arith, is_pending-times i js)

pub answers_to-without :
    (i j : ℕ) (rs : List (ℕ × Reply Response)) (r : Reply Response)
    → reply_to j rs ≡ some r
    → answers_to i rs ≡ one_if (i == j) + answers_to i (without j rs)
unfolding answers_to reply_to without one_if
answers_to-without i j [] r h = absurd (ground arith)
answers_to-without i j ((k, r') ∷ rs) r h = elim (Bool-cases (j == k)) [
  | inl same ↦ rw same (ground (arith, same))
  | inr other ↦ rw other (ground (arith, other, h, answers_to-without i j rs r))
]

-- A reply on its way can be received.
pub reply_to-answers_to :
    (i : ℕ) (rs : List (ℕ × Reply Response))
    → 1 ≤ answers_to i rs
    → (r : Reply Response) × (reply_to i rs ≡ some r)
unfolding answers_to reply_to one_if
reply_to-answers_to i [] h = absurd (omega (arith, h))
reply_to-answers_to i ((k, r') ∷ rs) h = elim (Bool-cases (i == k)) [
  | inl same ↦ rw same (r', refl)
  | inr other ↦ rw other (reply_to-answers_to i rs (ground (arith, other, h)))
]
