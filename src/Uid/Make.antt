-- ===== src/Uid/Make.antt =====
-- `generate_local_uid` and `get_query_uid` of src/shared/Utils.cpp, on `uint64_t`. The output of
-- `hostname -i`, the hash of the thread and `rand()` are arguments.
use Prim.Native.Nat.{bit_or}
use async_rpc_fbthrift.Common.{ℕ, ◌*◌, ◌/◌, ◌%◌, ◌^◌, Bool, if◌then◌else◌, u64}

-- x << k and x >> k.
abbrev pub shl : ℕ → ℕ → ℕ
shl x k = u64 (x * 2 ^ k)

abbrev pub shr : ℕ → ℕ → ℕ
shr x k = x / 2 ^ k

-- The four numbers that `sscanf` reads, the last one of the text in `is_0`; a number that it does
-- not find stays 0.
pub record Address : Type 0 where
  pub is_3 : ℕ
  pub is_2 : ℕ
  pub is_1 : ℕ
  pub is_0 : ℕ

unfoldable pub host_number : Address → ℕ
host_number a = bit_or (bit_or (bit_or (shl a.is_3 24) (shl a.is_3 16)) (shl a.is_3 8)) a.is_0

unfoldable pub local_uid : ℕ → ℕ → ℕ
local_uid ip random = shl (bit_or (shl ip 4) random) 28

-- With `LOCALHOST` the number is the hash of the thread.
unfoldable pub generate_local_uid : Bool → ℕ → Address → ℕ → ℕ
unfolding host_number local_uid
generate_local_uid localhost thread_hash address rand =
    local_uid (if localhost then thread_hash else host_number address) (rand % 16)

unfoldable pub get_query_uid : ℕ → ℕ → ℕ
get_query_uid local_uid query_number = bit_or local_uid (shr (shl query_number 36) 36)
