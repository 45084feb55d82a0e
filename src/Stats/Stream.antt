-- ===== src/Stats/Stream.antt =====
-- `ServerStatsManager` of src/shared/ServerStats.h and ServerStats.cpp, in the version that writes
-- through an open stream (no `VECTOR_BUFFER_VERSION`).
use async_rpc_fbthrift.Common.{
  ℕ, ◌+◌, ◌≡◌, sym, ap, ◌∙◌, Bool, List, [], ◌∷◌, ◌++◌, arith, leb, if◌then◌else◌, u32, Text,
}
use mathlib.Core.List.{append_assoc, append-nil}
use async_rpc_fbthrift.Stats.Csv.{Files, write_file, decimal}
use async_rpc_fbthrift.Stats.Manager.{erase_previous}
use async_rpc_fbthrift.Stats.Dump.{csv, csv_line}
use async_rpc_fbthrift.Stats.Retention.{Entry, row_of, rows_of}

pub record Stream : Type 0 where
  -- what the stream has handed to the file, and what it still holds
  pub flushed : Text
  pub pending : Text
  pub entry_cursor : ℕ
  pub entry_count : ℕ

-- The constructor: the stream stays open until the destructor closes it.
pub new_stream : ℕ → Stream
new_stream entry_count = record {
  flushed = [];
  pending = [];
  entry_cursor = 0;
  entry_count = entry_count;
}

-- `file_stream.flush()` and the reset of the cursor.
flush_full : Stream → Stream
flush_full s =
    if leb s.entry_count s.entry_cursor
    then record s { flushed = s.flushed ++ s.pending; pending = []; entry_cursor = 0 }
    else s

pub add_entry : Stream → ℕ → ℕ → Stream
unfolding flush_full
add_entry s query_id epoch_time = record (flush_full s) {
  pending =
      (flush_full s).pending
      ++ ((decimal query_id ++ b',' ∷ []) ++ (decimal epoch_time ++ b'\n' ∷ []));
  entry_cursor = u32 ((flush_full s).entry_cursor + 1);
}

pub add_entries : Stream → List Entry → Stream
add_entries s [] = s
add_entries s ((q, t) ∷ es) = add_entries (add_entry s q t) es

-- `close` in the destructor flushes; the file was opened by the constructor, which may have erased it.
pub destroy : Files → Text → Bool → Bool → Stream → Files
destroy fs filename overwrite erase_previous_file s =
    write_file (erase_previous fs filename erase_previous_file) filename overwrite
      (s.flushed ++ s.pending)

inserted : Stream → Text
inserted s = s.flushed ++ s.pending

inserted-add_entry :
    (s : Stream) (q t : ℕ) → inserted (add_entry s q t) ≡ inserted s ++ csv_line (row_of (q, t))
unfolding inserted add_entry
inserted-add_entry s q t =
    ground (arith, append_assoc s.flushed s.pending (csv_line (row_of (q, t))))

inserted-add_entries :
    (s : Stream) (es : List Entry) → inserted (add_entries s es) ≡ inserted s ++ csv (rows_of es)
unfolding add_entries csv
inserted-add_entries s [] = sym (append-nil _)
inserted-add_entries s ((q, t) ∷ es) =
    inserted-add_entries (add_entry s q t) es
    ∙ ap (λ x. x ++ csv (rows_of es)) (inserted-add_entry s q t)
    ∙ append_assoc (inserted s) _ _

-- Every entry of every sequence reaches the file, in order, whatever the entry count.
pub destroy-add_entries_all :
    (fs : Files) (name : Text) (overwrite erase : Bool) (count : ℕ) (es : List Entry)
    → destroy fs name overwrite erase (add_entries (new_stream count) es)
      ≡ write_file (erase_previous fs name erase) name overwrite (csv (rows_of es))
unfolding destroy new_stream inserted
destroy-add_entries_all fs name overwrite erase count es =
    ap (write_file (erase_previous fs name erase) name overwrite)
      (inserted-add_entries (new_stream count) es)
