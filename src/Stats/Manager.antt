-- ===== src/Stats/Manager.antt =====
-- `ServerStatsManager` of src/shared/ServerStats.h and ServerStats.cpp, in the version with buffers
-- in memory (`VECTOR_BUFFER_VERSION`).
use async_rpc_fbthrift.Common.{
  ℕ, ◌+◌, ◌%◌, Bool, true, Option, none, some, List, [], ◌∷◌, leb, ◌==◌, if◌then◌else◌, ◌>>=◌,
  get_elem?, set, replicate, u32, Text, pos,
}
use async_rpc_fbthrift.Stats.Csv.{Files, write_file, dump_matrix}

pub record Manager : Type 0 where
  pub data_buffers : List (List (List ℕ))
  pub filename : Text
  pub overwrite : Bool
  pub async_dumping : Bool
  pub active_buffer : ℕ
  pub entry_cursor : ℕ
  pub entry_count : ℕ
  pub buffer_count : ℕ

abbrev pub default_entry_count : ℕ
default_entry_count = 32768

-- The constructor: the buffers are filled with zeros.
unfoldable pub new_manager : Text → Bool → ℕ → ℕ → Bool → Manager
new_manager filename async_dumping entry_count buffer_count overwrite = record {
  data_buffers = replicate buffer_count (replicate entry_count (replicate 2 0));
  filename = filename;
  overwrite = overwrite;
  async_dumping = async_dumping;
  active_buffer = 0;
  entry_cursor = 0;
  entry_count = entry_count;
  buffer_count = buffer_count;
}

-- The constructor's effect on the files.
unfoldable pub erase_previous : Files → Text → Bool → Files
unfolding write_file
erase_previous fs filename erase_previous_file =
    if erase_previous_file then write_file fs filename true [] else fs

-- `if (entry_cursor >= entry_count)`: start the next buffer. `none` is the division by zero.
unfoldable pub rotate : Manager → Option Manager
rotate m =
    if leb m.entry_count m.entry_cursor
    then (if m.buffer_count == 0
        then none
        else some (record m {
          active_buffer = u32 (m.active_buffer + 1) % m.buffer_count;
          entry_cursor = 0;
        }))
    else some m

-- `data_buffers[b][e][k] = v`; `none` is an index out of bounds.
unfoldable pub assign : List (List (List ℕ)) → ℕ → ℕ → ℕ → ℕ → Option (List (List (List ℕ)))
assign buffers b e k v = get_elem? buffers b >>= λ buffer. get_elem? buffer e >>= λ entry.
    get_elem? entry k >>= λ _. some (set buffers b (set buffer e (set entry k v)))

-- What `add_entry` does under its lock.
unfoldable pub write_entry : Manager → ℕ → ℕ → Option Manager
unfolding assign
write_entry m query_id epoch_time = do
  with_id ← assign m.data_buffers m.active_buffer m.entry_cursor 0 query_id
  with_time ← assign with_id m.active_buffer m.entry_cursor 1 epoch_time
  some (record m { data_buffers = with_time; entry_cursor = u32 (m.entry_cursor + 1) })

unfoldable pub add_entry : Manager → ℕ → ℕ → Option Manager
add_entry m query_id epoch_time = do rotated ← rotate m; write_entry rotated query_id epoch_time

pub get_entry_count : Manager → ℕ
get_entry_count m = m.entry_count

-- `(filename == "") ? this->filename : filename`
abbrev pub name_or_own : Text → Text → Text
name_or_own [] own = own
name_or_own (c ∷ name) own = c ∷ name

-- The future of `async` waits in its destructor, so the dump is over when the function returns.
-- In that mode the name is handed on as it is.
unfoldable pub dump_server_stats : Files → Manager → Text → ℕ → Option Files
dump_server_stats fs m filename until = get_elem? m.data_buffers m.active_buffer >>= λ buffer.
    dump_matrix fs (if m.async_dumping then filename else name_or_own filename m.filename) buffer
      (pos until) m.overwrite

-- The destructor.
unfoldable pub destroy : Files → Manager → Option Files
unfolding dump_server_stats
destroy fs m = dump_server_stats fs m m.filename m.entry_cursor
