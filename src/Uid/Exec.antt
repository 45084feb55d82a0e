-- ===== src/Uid/Exec.antt =====
-- `exec` of src/shared/Utils.cpp returns what the command prints.
use async_rpc_fbthrift.Common.{
  ℕ, zero, suc, ◌≤◌, ◌<◌, Bool, Bool-cases, true, false, ◌&&◌, not, none, some, [], ◌∷◌, ◌++◌, ◌==◌,
  length, Text, ◌≡◌, refl, sym, ap, ◌∙◌, inl, inr, arith,
}
use mathlib.Core.List.{append_assoc, append-nil}
use async_rpc_fbthrift.Rpc.{value, failed}
use async_rpc_fbthrift.Uid.Host.{fgets, c_string, exec_loop, exec}

abbrev pub has_no_nul : Text → Bool
has_no_nul [] = true
has_no_nul (c ∷ s) = not (c == 0) && has_no_nul s

-- One `fgets` splits the text, and reads on.
record Splits (k : ℕ) (s : Text) : Type 0 where
  whole : (fgets k s).0 ++ (fgets k s).1 ≡ s
  shorter : length (fgets k s).1 ≤ length s
  line_no_nul : has_no_nul s ≡ true → has_no_nul (fgets k s).0 ≡ true
  rest_no_nul : has_no_nul s ≡ true → has_no_nul (fgets k s).1 ≡ true

fgets-Splits : (k : ℕ) (s : Text) → Splits k s
unfolding fgets
fgets-Splits zero s = record {
  whole = refl;
  shorter = omega arith;
  line_no_nul = λ h. refl;
  rest_no_nul = λ h. h;
}
fgets-Splits (suc k) [] = record {
  whole = refl;
  shorter = omega arith;
  line_no_nul = λ h. refl;
  rest_no_nul = λ h. h;
}
fgets-Splits (suc k) (c ∷ s) =
    let rest = fgets-Splits k s in
    elim (Bool-cases (c == b'\n')) [
      | inl last ↦ record {
        whole = rw last refl;
        shorter = rw last (omega arith);
        line_no_nul = λ h. rw last (ground (arith, h));
        rest_no_nul = λ h. rw last (ground (arith, h));
      }
      | inr inside ↦ record {
        whole = rw inside (ap (λ t. c ∷ t) rest.whole);
        shorter = rw inside (omega (arith, rest.shorter));
        line_no_nul = λ h. rw inside (ground (arith, h, rest.line_no_nul));
        rest_no_nul = λ h. rw inside (rest.rest_no_nul (ground (arith, h)));
      }
    ]

fgets-advances : (k c : ℕ) (s : Text) → length (fgets (suc k) (c ∷ s)).1 < length (c ∷ s)
unfolding fgets
fgets-advances k c s =
    let shorter = (fgets-Splits k s).shorter in
    elim (Bool-cases (c == b'\n')) [
      | inl last ↦ rw last (omega arith)
      | inr inside ↦ rw inside (omega (arith, shorter))
    ]

c_string-whole : (s : Text) → has_no_nul s ≡ true → c_string s ≡ s
unfolding c_string
c_string-whole [] h = refl
c_string-whole (c ∷ s) h =
    let rest = c_string-whole s (ground (arith, h)) in
    let no_nul : (c == 0) ≡ false = ground (arith, h) in rw no_nul (ap (λ t. c ∷ t) rest)

exec_loop-all :
    (rounds : ℕ) (result s : Text)
    → length s < rounds
    → has_no_nul s ≡ true
    → exec_loop rounds result s ≡ some (result ++ s)
unfolding exec_loop
exec_loop-all zero result s room h = absurd (omega arith)
exec_loop-all (suc rounds) result [] room h = ap some (sym (append-nil result))
exec_loop-all (suc rounds) result (c ∷ s) room h =
    let read = fgets-Splits 127 (c ∷ s) in
    let line = c_string-whole (fgets 127 (c ∷ s)).0 (read.line_no_nul h) in
    exec_loop-all rounds (result ++ c_string (fgets 127 (c ∷ s)).0) (fgets 127 (c ∷ s)).1
      (omega (arith, fgets-advances 126 c s)) (read.rest_no_nul h)
    ∙ ap some (
        ap (λ t. (result ++ t) ++ (fgets 127 (c ∷ s)).1) line
        ∙ append_assoc result (fgets 127 (c ∷ s)).0 (fgets 127 (c ∷ s)).1
        ∙ ap (λ t. result ++ t) read.whole)

-- `exec` ends for every command whose output holds no zero byte, however long it is and however it
-- is cut into lines, and returns the whole output; without a pipe it throws.
pub exec-all :
    (output : Text)
    → has_no_nul output ≡ true
    → (exec (some output) ≡ some (value output)) × (exec none ≡ some failed)
unfolding exec
exec-all output h = (rw (exec_loop-all (suc (length output)) [] output (omega arith) h) refl, refl)
