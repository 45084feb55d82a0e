-- ===== src/Uid/Host.antt =====
-- `exec` of src/shared/Utils.cpp, and the part of `generate_local_uid` that reads the host's
-- address out of what the command printed: `sscanf` with "%ld.%ld.%ld.%ld". What `popen` gives to
-- read is an argument. `fgets` and `sscanf` are as the C standard says; `none` is undefined
-- behaviour.
use async_rpc_fbthrift.Common.{
  ℕ, zero, suc, ◌+◌, ◌-◌, ◌*◌, ◌^◌, Bool, true, false, ◌&&◌, ◌||◌, Option, none, some, List, [],
  ◌∷◌, ◌++◌, ltb, leb, ◌==◌, if◌then◌else◌, ◌>>=◌, length, Text, u64,
}
use async_rpc_fbthrift.Rpc.{Reply, value, failed}
use async_rpc_fbthrift.Uid.Make.{Address, generate_local_uid}

-- `fgets(buffer, k + 1, pipe)` where there is something to read: the line, at most k bytes of it,
-- and what is left.
unfoldable pub fgets : ℕ → Text → Text × Text
fgets zero s = ([], s)
fgets (suc k) [] = ([], [])
fgets (suc k) (c ∷ s) =
    let rest = fgets k s in if c == b'\n' then (c ∷ [], s) else (c ∷ rest.0, rest.1)

-- The text of a buffer: up to its first zero byte.
unfoldable pub c_string : Text → Text
c_string [] = []
c_string (c ∷ s) = let rest = c_string s in if c == 0 then [] else c ∷ rest

-- `while (fgets(...) != nullptr) result += buffer.data()`, with at most so many rounds.
unfoldable pub exec_loop : ℕ → Text → Text → Option Text
exec_loop zero result s = none
exec_loop (suc rounds) result [] = some result
exec_loop (suc rounds) result (c ∷ s) =
    let read = fgets 127 (c ∷ s) in exec_loop rounds (result ++ c_string (read.0)) (read.1)

-- Without a pipe it throws.
unfoldable pub exec : Option Text → Option (Reply Text)
unfolding exec_loop
exec none = some failed
exec (some output) = exec_loop (suc (length output)) [] output >>= λ result. some (value result)

abbrev pub is_space : ℕ → Bool
is_space c = (c == b' ') || (leb 9 c && leb c 13)

abbrev pub is_digit : ℕ → Bool
is_digit c = leb b'0' c && leb c b'9'

unfoldable pub skip_space : Text → Text
skip_space [] = []
skip_space (c ∷ s) = let rest = skip_space s in if is_space c then rest else c ∷ s

-- The digits at the start, behind those that make n.
unfoldable pub read_digits : ℕ → Text → ℕ × Text
read_digits n [] = (n, [])
read_digits n (c ∷ s) =
    let more = read_digits (n * 10 + (c - b'0')) s in if is_digit c then more else (n, c ∷ s)

unfoldable pub starts_with_digit : Text → Bool
starts_with_digit [] = false
starts_with_digit (c ∷ s) = is_digit c

-- What `%ld` finds: no number, one that is no `long`, or the `uint64_t` of one and the text behind
-- it.
pub data Scan : Type 0 where
  missing : Scan
  no_long : Scan
  scanned : ℕ → Text → Scan

unfoldable pub scan_digits : Bool → Text → Scan
unfolding starts_with_digit read_digits
scan_digits negative s =
    let read = read_digits 0 s in
    let stored = if negative then u64 (2 ^ 64 - read.0) else read.0 in
    let fits = if negative then leb (read.0) (2 ^ 63) else ltb (read.0) (2 ^ 63) in
    if starts_with_digit s then (if fits then scanned stored (read.1) else no_long) else missing

unfoldable pub scan_sign : Text → Scan
unfolding scan_digits
scan_sign [] = missing
scan_sign (c ∷ s) =
    if c == b'-'
    then scan_digits true s
    else (if c == b'+' then scan_digits false s else scan_digits false (c ∷ s))

unfoldable pub scan_long : Text → Scan
unfolding scan_sign skip_space
scan_long s = scan_sign (skip_space s)

unfoldable pub behind_dot : Text → Option Text
behind_dot [] = none
behind_dot (c ∷ s) = if c == b'.' then some s else none

-- Behind a number, and behind a try for one; `more` reads on.
abbrev pub behind_number : (Text → Option (List ℕ)) → ℕ → Option Text → Option (List ℕ)
behind_number more v none = some (v ∷ [])
behind_number more v (some t) = more t >>= λ vs. some (v ∷ vs)

unfoldable pub behind_scan : (Text → Option (List ℕ)) → Scan → Option (List ℕ)
unfolding behind_dot
behind_scan more missing = some []
behind_scan more no_long = none
behind_scan more (scanned v rest) = behind_number more v (behind_dot rest)

-- Up to k numbers with a dot between them, as far as the text matches.
unfoldable pub scan_numbers : ℕ → Text → Option (List ℕ)
unfolding scan_long behind_scan
scan_numbers zero s = some []
scan_numbers (suc k) s = behind_scan (λ t. scan_numbers k t) (scan_long s)

-- `is` starts as {0,0,0,0}.
unfoldable pub address_of : List ℕ → Address
address_of [] = record { is_3 = 0; is_2 = 0; is_1 = 0; is_0 = 0 }
address_of (a ∷ []) = record { is_3 = a; is_2 = 0; is_1 = 0; is_0 = 0 }
address_of (a ∷ b ∷ []) = record { is_3 = a; is_2 = b; is_1 = 0; is_0 = 0 }
address_of (a ∷ b ∷ c ∷ []) = record { is_3 = a; is_2 = b; is_1 = c; is_0 = 0 }
address_of (a ∷ b ∷ c ∷ d ∷ _) = record { is_3 = a; is_2 = b; is_1 = c; is_0 = d }

unfoldable pub scan_address : Text → Option Address
unfolding scan_numbers address_of
scan_address s = scan_numbers 4 s >>= λ vs. some (address_of vs)

-- `generate_local_uid` without `LOCALHOST`, from what `hostname -i` prints.
unfoldable pub host_local_uid : Option Text → ℕ → Option (Reply ℕ)
unfolding exec scan_address
host_local_uid output rand = exec output >>= λ sip. elim sip [
  | failed ↦ some failed
  | value s ↦ scan_address s >>= λ a. some (value (generate_local_uid false 0 a rand))
]
