-- ===== src/Uid/Scan.antt =====
-- What `generate_local_uid` of src/shared/Utils.cpp makes of the text that `hostname -i` prints.
use async_rpc_fbthrift.Common.{
  ℕ, suc, ◌+◌, ◌-◌, ◌*◌, ◌%◌, ◌^◌, ◌<◌, true, false, some, Option-cases, ◌≢◌, ◌>>=◌, List, [], ◌∷◌,
  ◌++◌, lt→ltb, ◌==◌, Text, ◌≡◌, refl, sym, ap, ◌∙◌, inl, inr, arith,
}
use async_rpc_fbthrift.Rpc.{value}
use async_rpc_fbthrift.Stats.Csv.{decimal}
use async_rpc_fbthrift.Stats.Digits.{read-decimal, decimal-first}
use async_rpc_fbthrift.Uid.Make.{Address, host_number, local_uid, generate_local_uid}
use async_rpc_fbthrift.Uid.Host.{
  is_space, is_digit, skip_space, read_digits, starts_with_digit, missing, scanned, scan_digits,
  scan_sign, scan_long, behind_dot, behind_scan, scan_numbers, address_of, scan_address,
  host_local_uid,
}
use async_rpc_fbthrift.Uid.Exec.{has_no_nul, exec-all}

-- An address as text.
abbrev pub dotted : Address → Text → Text
dotted a rest =
    decimal a.is_3
    ++ (b'.' ∷ (decimal a.is_2 ++ (b'.' ∷ (decimal a.is_1 ++ (b'.' ∷ (decimal a.is_0 ++ rest))))))

read_digits-digit :
    (n d : ℕ) (s : Text) → d < 10 → read_digits n ((b'0' + d) ∷ s) ≡ read_digits (n * 10 + d) s
unfolding read_digits
read_digits-digit n d s h =
    let digit : is_digit (b'0' + d) ≡ true = ground (arith, h) in
    let same : n * 10 + (b'0' + d - b'0') ≡ n * 10 + d = omega arith in rw (digit, same)

read_digits-stop : (n : ℕ) (s : Text) → starts_with_digit s ≡ false → read_digits n s ≡ (n, s)
unfolding read_digits starts_with_digit
read_digits-stop n [] h = refl
read_digits-stop n (c ∷ s) h = rw h refl

digit_first : (d : ℕ) (s : Text) → d < 10 → starts_with_digit ((b'0' + d) ∷ s) ≡ true
unfolding starts_with_digit
digit_first d s h = ground (arith, h)

scan_digits-decimal :
    (n : ℕ) (s : Text)
    → n < 2 ^ 63
    → starts_with_digit s ≡ false
    → scan_digits false (decimal n ++ s) ≡ scanned n s
unfolding scan_digits
scan_digits-decimal n s small stop =
    let (d, t, h, e) = decimal-first n in
    let read : read_digits 0 (decimal n ++ s) ≡ (n, s) =
      read-decimal read_digits read_digits-digit n s ∙ read_digits-stop n s stop in
    let first : starts_with_digit (decimal n ++ s) ≡ true =
      ap (λ x. starts_with_digit (x ++ s)) e ∙ digit_first d (t ++ s) h in
    rw (first, read, lt→ltb n (2 ^ 63) small) refl

-- A digit is neither space nor a sign.
scan_long-digit :
    (d : ℕ) (s : Text) → d < 10 → scan_long ((b'0' + d) ∷ s) ≡ scan_digits false ((b'0' + d) ∷ s)
unfolding scan_long skip_space scan_sign
scan_long-digit d s h =
    let no_space : is_space (b'0' + d) ≡ false = ground (arith, h) in
    let no_minus : (b'0' + d == b'-') ≡ false = ground (arith, h) in
    let no_plus : (b'0' + d == b'+') ≡ false = ground (arith, h) in
    rw (no_space, no_minus, no_plus) refl

scan_long-decimal :
    (n : ℕ) (s : Text)
    → n < 2 ^ 63
    → starts_with_digit s ≡ false
    → scan_long (decimal n ++ s) ≡ scanned n s
scan_long-decimal n s small stop =
    let (d, t, h, e) = decimal-first n in
    ap (λ x. scan_long (x ++ s)) e
    ∙ scan_long-digit d (t ++ s) h
    ∙ ap (λ x. scan_digits false (x ++ s)) (sym e)
    ∙ scan_digits-decimal n s small stop

scan_numbers-dot :
    (k n : ℕ) (s : Text) (vs : List ℕ)
    → n < 2 ^ 63
    → scan_numbers k s ≡ some vs
    → scan_numbers (suc k) (decimal n ++ (b'.' ∷ s)) ≡ some (n ∷ vs)
unfolding scan_numbers behind_scan behind_dot starts_with_digit
scan_numbers-dot k n s vs small rest = rw (scan_long-decimal n (b'.' ∷ s) small refl, rest) refl

scan_numbers-last :
    (n : ℕ) (s : Text)
    → n < 2 ^ 63
    → starts_with_digit s ≡ false
    → scan_numbers 1 (decimal n ++ s) ≡ some (n ∷ [])
unfolding scan_numbers behind_scan
scan_numbers-last n s small stop = elim (Option-cases (behind_dot s)) [
  | inl nothing ↦ rw (scan_long-decimal n s small stop, nothing) refl
  | inr (t, more) ↦ rw (scan_long-decimal n s small stop, more) refl
]

-- Each number of the address is a `long`.
pub record IsAddress (a : Address) : Type 0 where
  pub is_3 : a.is_3 < 2 ^ 63
  pub is_2 : a.is_2 < 2 ^ 63
  pub is_1 : a.is_1 < 2 ^ 63
  pub is_0 : a.is_0 < 2 ^ 63

scan_address-dotted :
    (a : Address) (rest : Text)
    → IsAddress a
    → starts_with_digit rest ≡ false
    → scan_address (dotted a rest) ≡ some a
unfolding scan_address address_of
scan_address-dotted a rest v stop =
    let last = scan_numbers-last a.is_0 rest v.is_0 stop in
    let two = scan_numbers-dot 1 a.is_1 (decimal a.is_0 ++ rest) (a.is_0 ∷ []) v.is_1 last in
    let three = scan_numbers-dot 2 a.is_2 _ _ v.is_2 two in
    ap (λ o. o >>= λ vs. some (address_of vs)) (scan_numbers-dot 3 a.is_3 _ _ v.is_3 three)

-- Without `LOCALHOST`: when `hostname -i` prints four numbers, each below 2^63, with dots between
-- them, in front of anything that holds no zero byte and starts with no digit, the identifier is
-- computed from these four numbers.
pub host_local_uid-dotted :
    (a : Address) (rest : Text) (rand : ℕ)
    → IsAddress a
    → starts_with_digit rest ≡ false
    → has_no_nul (dotted a rest) ≡ true
    → host_local_uid (some (dotted a rest)) rand ≡ some (value (generate_local_uid false 0 a rand))
unfolding host_local_uid
host_local_uid-dotted a rest rand v stop clean =
    let (all, _) = exec-all (dotted a rest) clean in
    rw (all, scan_address-dotted a rest v stop) refl

scan_long-missing :
    (c : ℕ) (s : Text)
    → is_space c ≡ false
    → is_digit c ≡ false
    → c ≢ b'-'
    → c ≢ b'+'
    → scan_long (c ∷ s) ≡ missing
unfolding scan_long skip_space scan_sign scan_digits starts_with_digit
scan_long-missing c s no_space no_digit no_minus no_plus =
    let minus : (c == b'-') ≡ false = ground (arith, no_minus) in
    let plus : (c == b'+') ≡ false = ground (arith, no_plus) in
    rw (no_space, minus, plus, no_digit) refl

scan_address-missing :
    (s : Text)
    → scan_long s ≡ missing
    → scan_address s ≡ some (record { is_3 = 0; is_2 = 0; is_1 = 0; is_0 = 0 })
unfolding scan_address scan_numbers behind_scan address_of
scan_address-missing s h = rw h refl

-- Without `LOCALHOST`: when `hostname -i` prints a text without zero bytes whose first byte is
-- neither space nor a sign nor a digit, as for an address in the notation `::1`, the identifier is
-- that of the host number 0, so two such machines with the same `rand() % 16` have the same.
pub host_local_uid-no_number :
    (c : ℕ) (s : Text) (rand : ℕ)
    → is_space c ≡ false
    → is_digit c ≡ false
    → c ≢ b'-'
    → c ≢ b'+'
    → has_no_nul (c ∷ s) ≡ true
    → host_local_uid (some (c ∷ s)) rand ≡ some (value (local_uid 0 (rand % 16)))
unfolding host_local_uid generate_local_uid host_number
host_local_uid-no_number c s rand no_space no_digit no_minus no_plus clean =
    let (all, _) = exec-all (c ∷ s) clean in
    let scanned_none =
      scan_address-missing (c ∷ s) (scan_long-missing c s no_space no_digit no_minus no_plus) in
    rw (all, scanned_none) refl
