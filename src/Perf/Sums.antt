-- ===== src/Perf/Sums.antt =====
-- The sums of the benchmark: `async_eb_sum` of src/dep/perf/cpp2/server/BenchmarkHandler.h, and the
-- checks of src/dep/perf/cpp2/util/SimpleOps.h.
use async_rpc_fbthrift.Common.{
  ℕ, ◌+◌, ◌==◌, if◌then◌else◌, Option, none, some, ℤ, pos, u32, sub32, u32_of_i32, i32_of_u32,
}

-- Both fields are optional `i32`.
pub record TwoInts : Type 0 where
  pub x : Option ℤ
  pub y : Option ℤ

abbrev pub value_or_zero : Option ℤ → ℤ
value_or_zero none = pos 0
value_or_zero (some z) = z

-- The server's answer: static_cast<uint32_t>(x) + y and static_cast<uint32_t>(x) - y, stored in `i32`.
unfoldable pub sum_answer : TwoInts → TwoInts
sum_answer input =
    let x = u32_of_i32 (value_or_zero input.x) in
    let y = u32_of_i32 (value_or_zero input.y) in
    record { x = some (i32_of_u32 (u32 (x + y))); y = some (i32_of_u32 (sub32 x y)) }

-- What the checks of a client expect: static_cast<uint32_t>(x) + y and static_cast<uint32_t>(x) - y.
abbrev pub sum_of : ℤ → ℤ → ℕ
sum_of x y = u32 (u32_of_i32 x + u32_of_i32 y)

abbrev pub difference_of : ℤ → ℤ → ℕ
difference_of x y = sub32 (u32_of_i32 x) (u32_of_i32 y)

-- What the two checks of a client do: a failed `CHECK_EQ` ends the process, and `*` of a field that
-- is not set throws.
pub data Verdict : Type 0 where
  passes aborts throws : Verdict

unfoldable pub check_difference : ℤ → ℤ → Option ℤ → Verdict
check_difference x y none = throws
check_difference x y (some r) = if difference_of x y == u32_of_i32 r then passes else aborts

unfoldable pub check_sum : ℤ → ℤ → Option ℤ → Verdict → Verdict
check_sum x y none rest = throws
check_sum x y (some r) rest = if sum_of x y == u32_of_i32 r then rest else aborts

-- The request that a client draws, and the response to it.
unfoldable pub check_response : ℤ × ℤ → TwoInts → Verdict
unfolding check_sum check_difference
check_response (x, y) response = check_sum x y response.x (check_difference x y response.y)
