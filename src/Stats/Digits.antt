-- ===== src/Stats/Digits.antt =====
-- The decimal digits that `file << number` writes, read from the front.
use async_rpc_fbthrift.Common.{
  ℕ, zero, suc, ◌+◌, ◌*◌, ◌/◌, ◌%◌, ◌≤◌, ◌<◌, ◌≡◌, ap, ◌∙◌, arith, ltb, ltb→lt, [], ◌∷◌, ◌++◌, Text,
  Bool-cases, inl, inr,
}
use async_rpc_fbthrift.Stats.Csv.{digits_before, decimal}

digits_before-last :
    (fuel n : ℕ) (rest : Text) → n < 10 → digits_before (suc fuel) n rest ≡ (b'0' + n) ∷ rest
unfolding digits_before
digits_before-last fuel n rest h = ground arith

digits_before-more :
    (fuel n : ℕ) (rest : Text)
    → 10 ≤ n
    → digits_before (suc fuel) n rest ≡ digits_before fuel (n / 10) ((b'0' + n % 10) ∷ rest)
unfolding digits_before
digits_before-more fuel n rest h = ground arith

-- A function that reads a digit as ten times what it has, and the digit, reads a number.
module _ {ℓ} {X : Type ℓ} (read : ℕ → Text → X)
    (digit : (n d : ℕ) (s : Text) → d < 10 → read n ((b'0' + d) ∷ s) ≡ read (n * 10 + d) s) where
  read-digits_before :
      (fuel n : ℕ) (rest s : Text)
      → n < fuel
      → read 0 (digits_before fuel n rest ++ s) ≡ read n (rest ++ s)
  read-digits_before zero n rest s h = absurd (omega arith)
  read-digits_before (suc fuel) n rest s h = elim (Bool-cases (ltb n 10)) [
    | inl last ↦
        let whole : 0 * 10 + n ≡ n = omega arith in
        rw (digits_before-last fuel n rest (ltb→lt n 10 last))
          (digit 0 n (rest ++ s) (ltb→lt n 10 last) ∙ ap (λ k. read k (rest ++ s)) whole)
    | inr more ↦
        let whole : n / 10 * 10 + n % 10 ≡ n = omega arith in
        rw (digits_before-more fuel n rest (ground (arith, more))) (
          read-digits_before fuel (n / 10) ((b'0' + n % 10) ∷ rest) s (ground (arith, more))
          ∙ digit (n / 10) (n % 10) (rest ++ s) (omega arith)
          ∙ ap (λ k. read k (rest ++ s)) whole)
  ]

  pub read-decimal : (n : ℕ) (s : Text) → read 0 (decimal n ++ s) ≡ read n s
  unfolding decimal
  read-decimal n s = read-digits_before (suc n) n [] s (omega arith)

digits_before-first :
    (fuel n : ℕ) (rest : Text)
    → n < fuel
    → (d : ℕ) × (t : Text) × (d < 10) × (digits_before fuel n rest ≡ (b'0' + d) ∷ t)
digits_before-first zero n rest h = absurd (omega arith)
digits_before-first (suc fuel) n rest h = elim (Bool-cases (ltb n 10)) [
  | inl last ↦ (n, rest, ltb→lt n 10 last, digits_before-last fuel n rest (ltb→lt n 10 last))
  | inr more ↦
      let (d, t, small, e) =
        digits_before-first fuel (n / 10) ((b'0' + n % 10) ∷ rest) (ground (arith, more)) in
      (d, t, small, digits_before-more fuel n rest (ground (arith, more)) ∙ e)
]

-- A number starts with a digit.
pub decimal-first : (n : ℕ) → (d : ℕ) × (t : Text) × (d < 10) × (decimal n ≡ (b'0' + d) ∷ t)
unfolding decimal
decimal-first n = digits_before-first (suc n) n [] (omega arith)
