-- ===== src/Stats/Reader.antt =====
-- A reader of the tables that the statistics are written as, and what it finds in a file that a
-- manager has written.
use async_rpc_fbthrift.Common.{
  ℕ, ◌+◌, ◌-◌, ◌*◌, ◌^◌, ◌≤◌, ◌<◌, ◌≡◌, ◌≢◌, refl, sym, ap, ◌∙◌, Bool, true, false, some, List, [],
  ◌∷◌, ◌++◌, arith, ◌==◌, if◌then◌else◌, length, concat, All, Text, text_eq_iff,
}
use mathlib.Core.List.{append_assoc, append-nil}
use async_rpc_fbthrift.Stats.Csv.{Files, write_file, decimal}
use async_rpc_fbthrift.Stats.Manager.{Manager, new_manager, destroy}
use async_rpc_fbthrift.Stats.Digits.{read-decimal}
use async_rpc_fbthrift.Stats.Dump.{csv, csv_line}
use async_rpc_fbthrift.Stats.Retention.{Entry, row_of, rows_of, add_entries, destroy-add_entries}

-- The lines of a text as rows of numbers, with the number and the cells read so far; what stands
-- behind the last line break is dropped.
unfoldable pub read_rows : ℕ → List ℕ → Text → List (List ℕ)
read_rows n cells [] = []
read_rows n cells (c ∷ s) =
    let next_cell = read_rows 0 (cells ++ n ∷ []) s in
    let next_row = (cells ++ n ∷ []) ∷ read_rows 0 [] s in
    let next_digit = read_rows (n * 10 + (c - b'0')) cells s in
    if c == b',' then next_cell else (if c == b'\n' then next_row else next_digit)

unfoldable pub read_table : Text → List (List ℕ)
unfolding read_rows
read_table s = read_rows 0 [] s

read_rows-digit :
    (n d : ℕ) (cells : List ℕ) (s : Text)
    → d < 10
    → read_rows n cells ((b'0' + d) ∷ s) ≡ read_rows (n * 10 + d) cells s
unfolding read_rows
read_rows-digit n d cells s h =
    let no_comma : (b'0' + d == b',') ≡ false = ground (arith, h) in
    let no_break : (b'0' + d == b'\n') ≡ false = ground (arith, h) in
    let digit : n * 10 + (b'0' + d - b'0') ≡ n * 10 + d = omega arith in
    rw (no_comma, no_break, digit)

read_rows-decimal :
    (n : ℕ) (cells : List ℕ) (s : Text) → read_rows 0 cells (decimal n ++ s) ≡ read_rows n cells s
read_rows-decimal n cells s =
    read-decimal (λ n. read_rows n cells) (λ n d s h. read_rows-digit n d cells s h) n s

read_rows-csv_line :
    (e : Entry) (s : Text) → read_rows 0 [] (csv_line (row_of e) ++ s) ≡ row_of e ∷ read_rows 0 [] s
unfolding read_rows
read_rows-csv_line (q, t) s =
    let opened : csv_line (row_of (q, t)) ++ s ≡ decimal q ++ (b',' ∷ (decimal t ++ (b'\n' ∷ s))) =
      simp append_assoc in
    rw opened (read_rows-decimal q [] _ ∙ read_rows-decimal t (q ∷ []) _)

-- Lines that a manager has written, in front of any others, are read as the entries that it logged.
pub read_table-csv :
    (es : List Entry) (s : Text) → read_table (csv (rows_of es) ++ s) ≡ rows_of es ++ read_table s
unfolding read_table csv
read_table-csv [] s = refl
read_table-csv (e ∷ es) s =
    let opened : csv (rows_of (e ∷ es)) ++ s ≡ csv_line (row_of e) ++ (csv (rows_of es) ++ s) =
      append_assoc (csv_line (row_of e)) (csv (rows_of es)) s in
    rw opened (read_rows-csv_line e _ ∙ ap (λ rows. row_of e ∷ rows) (read_table-csv es s))

write_file_self :
    (fs : Files) (name content : Text) (truncate : Bool)
    → name ≢ []
    → write_file fs name truncate content name ≡ (if truncate then [] else fs name) ++ content
unfolding write_file
write_file_self fs [] content truncate named = absurd (named refl)
write_file_self fs (c ∷ name) content truncate named =
    rw ((text_eq_iff (c ∷ name) (c ∷ name)).1 refl)

read_table-csv_all : (es : List Entry) → read_table (csv (rows_of es)) ≡ rows_of es
unfolding read_table read_rows
read_table-csv_all es =
    ap read_table (sym (append-nil (csv (rows_of es))))
    ∙ read_table-csv es []
    ∙ append-nil (rows_of es)

read_back :
    (overwrite : Bool) (before : Text) (old last : List Entry)
    → before ≡ csv (rows_of old)
    → read_table ((if overwrite then [] else before) ++ csv (rows_of last))
      ≡ (if overwrite then [] else rows_of old) ++ rows_of last
read_back true before old last h = read_table-csv_all last
read_back false before old last h = rw h (
    read_table-csv old (csv (rows_of last))
    ∙ ap (λ rows. rows_of old ++ rows) (read_table-csv_all last))

-- What a manager logs can be read back from its file. Where a new manager with a named file has
-- logged full buffers and then a last, nonempty block that fits in one, its destructor leaves a
-- file that is read as exactly the entries of the last block, in order and with both numbers,
-- behind the entries that earlier runs had left there, or alone where the manager overwrites its
-- file.
pub read_table-destroy :
    (fs : Files) (name : Text) (async_dumping : Bool) (entries buffers : ℕ) (overwrite : Bool)
    (old : List Entry) (blocks : List (List Entry)) (last : List Entry)
    → name ≢ []
    → fs name ≡ csv (rows_of old)
    → 0 < entries
    → entries < 2 ^ 32
    → 0 < buffers
    → buffers < 2 ^ 32
    → All (λ block. length block ≡ entries) blocks
    → 0 < length last
    → length last ≤ entries
    → (m : Manager) × (fs' : Files) × (add_entries
          (new_manager name async_dumping entries buffers overwrite)
          (concat blocks ++ last)
        ≡ some m)
      × (destroy fs m ≡ some fs')
      × (read_table (fs' name) ≡ (if overwrite then [] else rows_of old) ++ rows_of last)
read_table-destroy fs name async_dumping entries buffers overwrite old blocks last named before he
      he' hb hb' full some_entry h =
    let (m, ran, wrote) =
      destroy-add_entries fs name async_dumping entries buffers overwrite blocks last he he' hb hb'
        full some_entry h in
    (
      m,
      write_file fs name overwrite (csv (rows_of last)),
      ran,
      wrote,
      ap read_table (write_file_self fs name (csv (rows_of last)) overwrite named)
          ∙ read_back overwrite (fs name) old last before,
    )
