-- ===== src/Stats/Tests.antt =====
-- The log of src/shared/ServerStats.cpp on small inputs, and the theorems about it at such inputs.
use async_rpc_fbthrift.Common.{
  ℕ, ◌<◌, ◌≡◌, refl, true, false, none, some, List, [], ◌∷◌, ◌++◌, arith, text, concat,
  if◌then◌else◌,
}
use async_rpc_fbthrift.Stats.Csv.{
  Files, write_file, decimal, row_loop, row_text, cell_loop, limit_rows, save_test_file,
}
use async_rpc_fbthrift.Stats.Manager.{
  Manager, new_manager, add_entry, write_entry, destroy, erase_previous,
}
use async_rpc_fbthrift.Stats.Invariant.{Added, add_entry-Added}
use async_rpc_fbthrift.Stats.Shape.{IsValid, new_manager-IsValid}
use async_rpc_fbthrift.Stats.Dump.{csv}
use async_rpc_fbthrift.Stats.Retention.{Entry, rows_of, add_entries, destroy-add_entries}
use async_rpc_fbthrift.Stats.Reader.{read_table, read_table-destroy}
use async_rpc_fbthrift.Stats.Race.{
  Threads, start, Reach, here, next, enter_room, write_entry-Reach_two,
}
use async_rpc_fbthrift.Stats.Stream
use async_rpc_fbthrift.Stats.Stream.{new_stream, destroy-add_entries_all}

abbrev no_files : Files
no_files name = []

-- Two buffers of two entries.
abbrev small : Manager
small = new_manager (text "s.csv") false 2 2 false

small-IsValid : IsValid small
small-IsValid =
    new_manager-IsValid (text "s.csv") false 2 2 false (omega arith) (omega arith) (omega arith)
      (omega arith)

small_room : small.entry_cursor < small.entry_count
unfolding new_manager
small_room = omega arith

save_test_file_runs :
    (fs : Files)
    → (save_test_file fs 2 3)
      ≡ some (write_file fs (text "example.csv") true (text "0,1,2\n1,2,3\n"))
unfolding save_test_file decimal row_loop row_text cell_loop limit_rows
save_test_file_runs fs = refl

add_entry-Added_example : (m' : Manager) × (add_entry small 7 100 ≡ some m') × Added small m' 7 100
add_entry-Added_example = add_entry-Added small 7 100 small-IsValid

abbrev one_block : List (List Entry)
one_block = ((1, 10) ∷ (2, 20) ∷ []) ∷ []

destroy-add_entries_example :
    (m : Manager) × (add_entries
        (new_manager (text "s.csv") false 2 2 false)
        (concat one_block ++ (3, 30) ∷ [])
      ≡ some m)
    × (destroy no_files m
        ≡ some (write_file no_files (text "s.csv") false (csv (rows_of ((3, 30) ∷ [])))))
destroy-add_entries_example =
    destroy-add_entries no_files (text "s.csv") false 2 2 false one_block ((3, 30) ∷ [])
      (omega arith) (omega arith) (omega arith) (omega arith) (refl, tt) (omega arith) (omega arith)

-- An earlier run has left one entry.
abbrev one_old : Files
one_old name = csv (rows_of ((9, 90) ∷ []))

read_table-destroy_example :
    (m : Manager) × (fs' : Files) × (add_entries
        (new_manager (text "s.csv") false 2 2 false)
        (concat one_block ++ (3, 30) ∷ [])
      ≡ some m)
    × (destroy one_old m ≡ some fs')
    × (read_table (fs' (text "s.csv"))
        ≡ (if false then [] else rows_of ((9, 90) ∷ [])) ++ rows_of ((3, 30) ∷ []))
read_table-destroy_example =
    read_table-destroy one_old (text "s.csv") false 2 2 false ((9, 90) ∷ []) one_block
      ((3, 30) ∷ []) (λ e. cc e) refl (omega arith) (omega arith) (omega arith) (omega arith)
      (refl, tt) (omega arith) (omega arith)

read_table_runs : read_table (text "12,345\n6,7\n8") ≡ (12 ∷ 345 ∷ []) ∷ (6 ∷ 7 ∷ []) ∷ []
unfolding read_table
read_table_runs = refl

entered : Reach 1 (start small) (record (start small) { ready = 1 })
entered = next here (enter_room (start small) (omega arith) small_room)

write_entry-Reach_two_example :
    (s : Threads) × Reach 2 (start small) s
    × (0 < s.ready)
    × ((q t : ℕ) → write_entry s.manager q t ≡ none)
write_entry-Reach_two_example = write_entry-Reach_two 2 small (omega arith) small-IsValid small_room

destroy-add_entries_all_example :
    Stream.destroy no_files
      (text "s.csv")
      false
      true
      (Stream.add_entries (new_stream 2) ((1, 10) ∷ (2, 20) ∷ (3, 30) ∷ []))
    ≡ write_file
        (erase_previous no_files (text "s.csv") true)
        (text "s.csv")
        false
        (csv (rows_of ((1, 10) ∷ (2, 20) ∷ (3, 30) ∷ [])))
destroy-add_entries_all_example =
    destroy-add_entries_all no_files (text "s.csv") false true 2 ((1, 10) ∷ (2, 20) ∷ (3, 30) ∷ [])
