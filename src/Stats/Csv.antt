-- ===== src/Stats/Csv.antt =====
-- `dump_matrix` and `save_test_file` of src/shared/ServerStats.cpp, over a store of text files.
use async_rpc_fbthrift.Common.{
  ℕ, zero, suc, ◌+◌, ◌/◌, ◌%◌, Bool, true, false, Option, none, some, List, [], ◌∷◌, ◌++◌, ltb,
  ◌==◌, if◌then◌else◌, ◌>>=◌, length, get_elem?, u32, sub32, Text, text, text_eq, ℤ, pos, negsuc,
}

-- The files of the machine, by name; one that does not exist reads as empty.
abbrev pub Files : Type 0
Files = Text → Text

-- `open`, the insertions and `close` of an `ofstream`. The empty name names no file: the stream
-- fails to open, and what is inserted is dropped.
unfoldable pub write_file : Files → Text → Bool → Text → Files
write_file fs [] truncate content other = fs other
write_file fs (c ∷ name) truncate content other =
    if text_eq (c ∷ name) other then (if truncate then [] else fs other) ++ content else fs other

-- The decimal digits of a number, most significant first, before `rest`.
unfoldable pub digits_before : ℕ → ℕ → Text → Text
digits_before zero n rest = rest
digits_before (suc fuel) n rest = elim (ltb n 10) [
  | true ↦ (b'0' + n) ∷ rest
  | false ↦ digits_before fuel (n / 10) ((b'0' + n % 10) ∷ rest)
]

-- `file << n`: a number of at most n + 1 digits.
unfoldable pub decimal : ℕ → Text
unfolding digits_before
decimal n = digits_before (suc n) n []

-- `for (j; j < col_count - 1; j++) file << data[i][j] << ","`, with the rounds that are left.
unfoldable pub cell_loop : ℕ → ℕ → List ℕ → Option Text
cell_loop zero j row = some []
cell_loop (suc rounds) j row = elim (get_elem? row j) [
  | none ↦ none
  | some v ↦ cell_loop rounds (j + 1) row >>= λ rest. some (decimal v ++ (b',' ∷ rest))
]

-- One round of the outer loop: the cells, the last one and the end of the line.
unfoldable pub row_text : ℕ → List ℕ → Option Text
row_text col_count row = cell_loop (sub32 col_count 1) 0 row >>= λ cells.
    get_elem? row (sub32 col_count 1) >>= λ last. some (cells ++ (decimal last ++ b'\n' ∷ []))

-- `for (i; i < row_count; i++)`, with the rounds that are left.
unfoldable pub row_loop : ℕ → ℕ → ℕ → List (List ℕ) → Option Text
row_loop zero i col_count rows = some []
row_loop (suc rounds) i col_count rows = elim (get_elem? rows i) [
  | none ↦ none
  | some row ↦ row_text col_count row >>= λ line.
      row_loop rounds (i + 1) col_count rows >>= λ rest. some (line ++ rest)
]

-- `until >= 0 && until < row_count`, on `int64_t`.
unfoldable pub limit_rows : ℕ → ℤ → ℕ
limit_rows row_count (pos until) = if ltb until row_count then until else row_count
limit_rows row_count (negsuc n) = row_count

unfoldable pub dump_matrix : Files → Text → List (List ℕ) → ℤ → Bool → Option Files
unfolding write_file
dump_matrix fs filename rows until overwrite =
    let row_count = u32 (length rows) in
    if row_count == 0
    then some fs
    else (get_elem? rows 0 >>= λ first.
        row_loop (limit_rows row_count until) 0 (u32 (length first)) rows >>= λ content.
        some (write_file fs filename overwrite content))

-- The row i of the test matrix, from its column j on.
test_row : ℕ → ℕ → ℕ → List ℕ
test_row i j zero = []
test_row i j (suc n) = u32 (i + j) ∷ test_row i (j + 1) n

test_rows : ℕ → ℕ → ℕ → List (List ℕ)
test_rows i zero col_count = []
test_rows i (suc n) col_count = test_row i 0 col_count ∷ test_rows (i + 1) n col_count

unfoldable pub save_test_file : Files → ℕ → ℕ → Option Files
unfolding test_rows test_row dump_matrix
save_test_file fs row_count col_count =
    dump_matrix fs (text "example.csv") (test_rows 0 row_count col_count) (negsuc 0) true
