-- ===== src/Perf/Fill.antt =====
-- The loops that fill the chunks of src/dep/perf/cpp2/util/StreamOps.h, on the buffer that
-- `reserve(0, chunkSize)` makes room for. `none` is a write behind that room.
use async_rpc_fbthrift.Common.{
  ℕ, zero, suc, ◌+◌, ◌%◌, List, Option, none, some, ◌>>=◌, if◌then◌else◌, ltb, length, set, u32,
}

-- `buffer[i] = (uint8_t)v`
unfoldable pub write_byte : List ℕ → ℕ → ℕ → Option (List ℕ)
write_byte buffer i v = if ltb i (length buffer) then some (set buffer i (v % 256)) else none

-- `for (; i < end; ++i) buffer[i] = ...`, with the rounds that are left.
unfoldable pub fill : (ℕ → ℕ) → ℕ → ℕ → List ℕ → Option (List ℕ)
unfolding write_byte
fill byte zero i buffer = some buffer
fill byte (suc rounds) i buffer =
    write_byte buffer i (byte i) >>= λ written. fill byte rounds (i + 1) written

-- `Upload::Upload`: the loop runs to the flag; `memory` is the room for `chunkSize` bytes, as the
-- allocator left it. `rand i` is the i-th number of `rand()`.
unfoldable pub upload_chunk : (ℕ → ℕ) → ℕ → List ℕ → Option (List ℕ)
unfolding fill
upload_chunk rand flag memory = fill (λ i. rand i % 26 + b'A') flag 0 memory

-- `StreamDownload::StreamDownload`: the loop runs to `chunkSize`.
unfoldable pub stream_download_chunk : List ℕ → Option (List ℕ)
unfolding fill
stream_download_chunk memory = fill (λ i. u32 (i + b'A') % 26) (length memory) 0 memory
