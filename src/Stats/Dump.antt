-- ===== src/Stats/Dump.antt =====
-- What `dump_matrix` writes for a table of pairs.
use async_rpc_fbthrift.Common.{
  ℕ, zero, suc, ◌+◌, ◌^◌, ◌≤◌, ◌<◌, ◌≡◌, refl, Bool, some, List, [], ◌∷◌, ◌++◌, arith, u32, length,
  take, All, Text, pos,
}
use async_rpc_fbthrift.Stats.Csv.{
  Files, write_file, decimal, cell_loop, row_text, row_loop, limit_rows, dump_matrix,
}
use async_rpc_fbthrift.Stats.Shape.{IsPair}

-- The line of an entry: the two numbers, a comma between them.
abbrev pub csv_line : List ℕ → Text
csv_line (q ∷ t ∷ rest) = (decimal q ++ b',' ∷ []) ++ (decimal t ++ b'\n' ∷ [])
csv_line row = []

unfoldable pub csv : List (List ℕ) → Text
csv [] = []
csv (row ∷ rows) = csv_line row ++ csv rows

row_text-pair : (row : List ℕ) → IsPair row → row_text 2 row ≡ some (csv_line row)
unfolding row_text cell_loop
row_text-pair [] h = absurd (omega arith)
row_text-pair (x ∷ []) h = absurd (omega arith)
row_text-pair (q ∷ t ∷ []) h = refl
row_text-pair (q ∷ t ∷ z ∷ row) h = absurd (omega arith)

row_loop-shift :
    (n i c : ℕ) (row : List ℕ) (rows : List (List ℕ))
    → row_loop n (suc i) c (row ∷ rows) ≡ row_loop n i c rows
unfolding row_loop
row_loop-shift zero i c row rows = refl
row_loop-shift (suc n) i c row rows =
    let e : suc i + 1 ≡ suc (i + 1) = omega arith in
    let next : row_loop n (suc i + 1) c (row ∷ rows) ≡ row_loop n (i + 1) c rows =
      rw e (row_loop-shift n (i + 1) c row rows) in
    ground (arith, next)

row_loop-pairs :
    (n : ℕ) (rows : List (List ℕ))
    → n ≤ length rows
    → All IsPair rows
    → row_loop n 0 2 rows ≡ some (csv (take n rows))
unfolding row_loop csv
row_loop-pairs zero rows h p = refl
row_loop-pairs (suc n) [] h p = absurd (omega arith)
row_loop-pairs (suc n) (row ∷ rows) h p =
    rw (
      row_text-pair row p.0,
      row_loop-shift n 0 2 row rows,
      row_loop-pairs n rows (omega arith) p.1,
    )

limit_rows-le : (until size : ℕ) → until ≤ size → limit_rows size (pos until) ≡ until
unfolding limit_rows
limit_rows-le until size h = ground arith

-- A table of pairs is written as the lines of its first `until` rows, or of all if there are fewer.
pub dump_matrix-pairs :
    (fs : Files) (name : Text) (rows : List (List ℕ)) (until : ℕ) (overwrite : Bool)
    → 0 < length rows
    → length rows < 2 ^ 32
    → All IsPair rows
    → until ≤ length rows
    → dump_matrix fs name rows (pos until) overwrite
      ≡ some (write_file fs name overwrite (csv (take until rows)))
unfolding dump_matrix
dump_matrix-pairs fs name [] until overwrite some_row small pairs h = absurd (omega arith)
dump_matrix-pairs fs name (row ∷ rows) until overwrite some_row small pairs h =
    let size : u32 (suc (length rows)) ≡ suc (length rows) = omega arith in
    let width : u32 (length row) ≡ 2 = omega (arith, pairs.0) in
    rw (size, width, limit_rows-le until (suc (length rows)) h)
      (ground (arith, row_loop-pairs until (row ∷ rows) h pairs))
