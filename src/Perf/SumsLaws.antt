-- ===== src/Perf/SumsLaws.antt =====
-- The server's sums against the checks of the client.
use async_rpc_fbthrift.Common.{
  ℕ, ◌+◌, ◌-◌, ◌%◌, ◌^◌, ◌<◌, ◌≡◌, refl, sym, ◌==◌, true, some, arith, ℤ, ◌+ℤ◌, ◌-ℤ◌, u32, sub32,
  u32_of_i32, i32_of_u32, ==_iff, u32_of_i32-i32_of_u32,
}
use async_rpc_fbthrift.Perf.Sums.{
  TwoInts, value_or_zero, passes, sum_answer, check_response, check_sum, check_difference,
}

-- The server's answer to a request of a client.
abbrev pub answer_of : ℤ × ℤ → TwoInts
answer_of (x, y) = sum_answer (record { x = some x; y = some y })

below : (n : ℕ) → n % 2 ^ 32 < 2 ^ 32
below n = omega arith

same_word : (n : ℕ) → ((n % 2 ^ 32) == u32_of_i32 (i32_of_u32 (n % 2 ^ 32))) ≡ true
same_word n =
    (==_iff (n % 2 ^ 32) (u32_of_i32 (i32_of_u32 (n % 2 ^ 32)))).1
      (sym (u32_of_i32-i32_of_u32 (n % 2 ^ 32) (below n)))

-- The server's answer to every request passes both checks of the client, whatever wraps around.
pub check_response-sum_answer :
    (request : ℤ × ℤ) → check_response request (answer_of request) ≡ passes
unfolding check_response check_sum check_difference sum_answer
check_response-sum_answer (x, y) =
    rw (same_word (u32_of_i32 x + u32_of_i32 y), same_word (u32_of_i32 x + 2 ^ 32 - u32_of_i32 y))
      refl

-- The number of an `i32` that an integer is equal to modulo 2^32.
abbrev pub wrapped : ℤ → ℤ
wrapped z = i32_of_u32 (u32_of_i32 z)

u32-sum : (x y : ℤ) → u32 (u32_of_i32 x + u32_of_i32 y) ≡ u32_of_i32 (x +ℤ y)
u32-sum (ℤ.pos m) (ℤ.pos n) = omega arith
u32-sum (ℤ.pos m) (ℤ.negsuc n) = ground arith
u32-sum (ℤ.negsuc m) (ℤ.pos n) = ground arith
u32-sum (ℤ.negsuc m) (ℤ.negsuc n) = omega arith

u32-difference : (x y : ℤ) → sub32 (u32_of_i32 x) (u32_of_i32 y) ≡ u32_of_i32 (x -ℤ y)
u32-difference (ℤ.pos m) (ℤ.pos n) = ground arith
u32-difference (ℤ.pos m) (ℤ.negsuc n) = omega arith
u32-difference (ℤ.negsuc m) (ℤ.pos n) = omega arith
u32-difference (ℤ.negsuc m) (ℤ.negsuc n) = ground arith

-- The server's answer has the sum and the difference of the integers, wrapped once.
pub sum_answer-wrapped :
    (input : TwoInts)
    → sum_answer input ≡ record {
      x = some (wrapped (value_or_zero input.x +ℤ value_or_zero input.y));
      y = some (wrapped (value_or_zero input.x -ℤ value_or_zero input.y));
    }
unfolding sum_answer
sum_answer-wrapped input =
    rw
      (
        u32-sum (value_or_zero input.x) (value_or_zero input.y),
        u32-difference (value_or_zero input.x) (value_or_zero input.y),
      )
      refl
