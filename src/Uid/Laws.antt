-- ===== src/Uid/Laws.antt =====
-- What a query's identifier tells of its client and its number.
use Prim.Native.Nat.{bit_or}
use async_rpc_fbthrift.Common.{
  ℕ, ◌+◌, ◌*◌, ◌/◌, ◌%◌, ◌^◌, ◌<◌, ◌≡◌, ◌↔◌, ap, arith, Bool, false, i64_of_u64, u64_of_i64,
  u64_of_i64-i64_of_u64,
}
use async_rpc_fbthrift.Uid.Bits.{bit_or-eq-add}
use async_rpc_fbthrift.Uid.Make.{
  Address, shl, shr, host_number, local_uid, generate_local_uid, get_query_uid,
}

-- The bits of a query number that an identifier keeps: the low 28.
query_bits : (n : ℕ) → shr (shl n 36) 36 ≡ n % 2 ^ 28
query_bits n = omega arith

-- Every client's identifier leaves the low 28 bits free.
local_uid-multiple : (ip random : ℕ) → local_uid ip random ≡ local_uid ip random / 2 ^ 28 * 2 ^ 28
unfolding local_uid
local_uid-multiple ip random = omega arith

or_with : (x k y q : ℕ) → x ≡ q * 2 ^ k → y < 2 ^ k → bit_or x y ≡ x + y
or_with x k y q e h = rw e (bit_or-eq-add q k y h)

local_uid-eq :
    (ip random : ℕ) → random < 16 → local_uid ip random ≡ (ip * 16 + random) % 2 ^ 36 * 2 ^ 28
unfolding local_uid
local_uid-eq ip random h = omega (arith, or_with (shl ip 4) 4 random (ip % 2 ^ 60) (omega arith) h)

host_number-eq :
    (a : Address) → a.is_3 < 256 → a.is_0 < 256 → host_number a ≡ a.is_3 * 16843008 + a.is_0
unfolding host_number
host_number-eq a h3 h0 =
    rw
      (
        or_with (shl a.is_3 24) 24 (shl a.is_3 16) a.is_3 (omega arith) (omega arith),
        or_with (shl a.is_3 24 + shl a.is_3 16) 16 (shl a.is_3 8) (a.is_3 * 257) (omega arith)
            (omega arith),
        or_with (shl a.is_3 24 + shl a.is_3 16 + shl a.is_3 8) 8 a.is_0 (a.is_3 * 65793)
            (omega arith) (omega arith),
      )
      (omega arith)

local_uid-lt : (ip random : ℕ) → local_uid ip random < 2 ^ 64
unfolding local_uid
local_uid-lt ip random = omega arith

module _ (client n : ℕ) (free : client ≡ client / 2 ^ 28 * 2 ^ 28) where
  uid-eq-add : get_query_uid client n ≡ client + n % 2 ^ 28
  unfolding get_query_uid
  uid-eq-add = omega (
    arith,
    or_with client 28 (n % 2 ^ 28) (client / 2 ^ 28) free (omega arith),
    ap (bit_or client) (query_bits n),
  )

  uid-fields :
      client < 2 ^ 64
      → (get_query_uid client n ≡ client + n % 2 ^ 28)
        × (get_query_uid client n / 2 ^ 28 ≡ client / 2 ^ 28)
        × (get_query_uid client n % 2 ^ 28 ≡ n % 2 ^ 28)
        × (u64_of_i64 (i64_of_u64 (get_query_uid client n)) ≡ get_query_uid client n)
  uid-fields small = (
    uid-eq-add,
    omega (arith, uid-eq-add),
    omega (arith, uid-eq-add),
    u64_of_i64-i64_of_u64 _ (omega (arith, uid-eq-add)),
  )

-- For a client's identifier, of any address, hash and random number, and any query number: the
-- identifier of the query is the client's plus the number modulo 2^28. So its high 36 bits are the
-- client's, its low 28 bits the query's, and it survives the way through the signed `i64` of the
-- interface.
pub get_query_uid-fields :
    (localhost : Bool) (hash : ℕ) (a : Address) (rand n : ℕ)
    → let client = generate_local_uid localhost hash a rand in
      let uid = get_query_uid client n in
      (uid ≡ client + n % 2 ^ 28)
      × (uid / 2 ^ 28 ≡ client / 2 ^ 28)
      × (uid % 2 ^ 28 ≡ n % 2 ^ 28)
      × (u64_of_i64 (i64_of_u64 uid) ≡ uid)
unfolding generate_local_uid
get_query_uid-fields localhost hash a rand n =
    uid-fields (generate_local_uid localhost hash a rand) n (local_uid-multiple _ (rand % 16))
      (local_uid-lt _ (rand % 16))

-- Two queries have one identifier exactly when their clients have and their numbers agree modulo
-- 2^28.
pub get_query_uid_iff :
    (localhost : Bool) (hash hash' : ℕ) (a a' : Address) (rand rand' n n' : ℕ)
    → let client = generate_local_uid localhost hash a rand in
      let client' = generate_local_uid localhost hash' a' rand' in
      (get_query_uid client n ≡ get_query_uid client' n')
      ↔ ((client ≡ client') × (n % 2 ^ 28 ≡ n' % 2 ^ 28))
get_query_uid_iff localhost hash hash' a a' rand rand' n n' =
    let f = get_query_uid-fields localhost hash a rand n in
    let f' = get_query_uid-fields localhost hash' a' rand' n' in
    (λ e. (omega arith, omega arith), λ e. omega (arith, e.0, e.1))

-- Two hosts whose addresses have octets below 256 make the same client identifier exactly when the
-- first and the last octet agree and the random numbers agree modulo 16: the two octets in the
-- middle are not looked at.
pub generate_local_uid_iff :
    (hash hash' : ℕ) (a a' : Address) (rand rand' : ℕ)
    → a.is_3 < 256
    → a.is_0 < 256
    → a'.is_3 < 256
    → a'.is_0 < 256
    → (generate_local_uid false hash a rand ≡ generate_local_uid false hash' a' rand')
      ↔ ((a.is_3 ≡ a'.is_3) × (a.is_0 ≡ a'.is_0) × (rand % 16 ≡ rand' % 16))
unfolding generate_local_uid
generate_local_uid_iff hash hash' a a' rand rand' h3 h0 h3' h0' =
    let u = local_uid-eq (host_number a) (rand % 16) (omega arith) in
    let u' = local_uid-eq (host_number a') (rand' % 16) (omega arith) in
    let k = host_number-eq a h3 h0 in
    let k' = host_number-eq a' h3' h0' in
    (λ e. (omega arith, omega arith, omega arith), λ e. omega (arith, e.0, e.1, e.2))
