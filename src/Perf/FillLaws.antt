-- ===== src/Perf/FillLaws.antt =====
-- What the chunks of the benchmark's client hold.
use async_rpc_fbthrift.Common.{
  ℕ, zero, suc, ◌+◌, ◌%◌, ◌<◌, ◌≤◌, List, [], ◌∷◌, ◌++◌, none, some, Bool-cases, inl, inr,
  if◌then◌else◌, drop, ltb, ltb→lt, lt→ltb, length, set, take, take-set, length-set, All, u32, ◌≡◌,
  refl, sym, ap, ◌∙◌, arith,
}
use mathlib.Core.List.{append_assoc, append-nil}
use async_rpc_fbthrift.Perf.Fill.{write_byte, fill, upload_chunk, stream_download_chunk}
use async_rpc_fbthrift.Perf.Server.{chunk_letters}

-- The bytes from index i on.
abbrev bytes_from : (ℕ → ℕ) → ℕ → ℕ → List ℕ
bytes_from byte zero i = []
bytes_from byte (suc n) i = byte i % 256 ∷ bytes_from byte n (i + 1)

take-drop : (xs : List ℕ) (n : ℕ) → take n xs ++ drop n xs ≡ xs
take-drop xs zero = refl
take-drop [] (suc n) = refl
take-drop (x ∷ xs) (suc n) = ap (◌∷◌ x) (take-drop xs n)

drop-set : (xs : List ℕ) (i k v : ℕ) → i < k → drop k (set xs i v) ≡ drop k xs
drop-set xs i zero v h = absurd (omega arith)
drop-set [] i (suc k) v h = refl
drop-set (x ∷ xs) zero (suc k) v h = refl
drop-set (x ∷ xs) (suc i) (suc k) v h = drop-set xs i k v (omega arith)

write_byte-room :
    (buffer : List ℕ) (i v : ℕ)
    → i < length buffer
    → write_byte buffer i v ≡ some (set buffer i (v % 256))
unfolding write_byte
write_byte-room buffer i v room = rw (lt→ltb i (length buffer) room) refl

-- A loop within the buffer leaves what stands in front of it and behind it.
fill-eq :
    (byte : ℕ → ℕ) (n i : ℕ) (buffer : List ℕ)
    → i + n ≤ length buffer
    → fill byte n i buffer ≡ some (take i buffer ++ (bytes_from byte n i ++ drop (i + n) buffer))
unfolding fill
fill-eq byte zero i buffer h =
    let stop : i ≡ i + 0 = omega arith in
    ap some (sym (take-drop buffer i) ∙ ap (λ k. take i buffer ++ drop k buffer) stop)
fill-eq byte (suc n) i buffer h =
    let v = byte i % 256 in
    let next : suc i ≡ i + 1 = omega arith in
    let stop : i + 1 + n ≡ i + suc n = omega arith in
    let written : take (i + 1) (set buffer i v) ≡ take i buffer ++ v ∷ [] =
      ap (λ k. take k (set buffer i v)) (sym next) ∙ take-set buffer i v (omega arith) in
    let behind : drop (i + 1 + n) (set buffer i v) ≡ drop (i + suc n) buffer =
      drop-set buffer i (i + 1 + n) v (omega arith) ∙ ap (λ k. drop k buffer) stop in
    rw (write_byte-room buffer i (byte i) (omega arith)) (
      fill-eq byte n (i + 1) (set buffer i v) (omega (arith, length-set buffer i v))
      ∙ ap (λ t. some (t ++ (bytes_from byte n (i + 1) ++ drop (i + 1 + n) (set buffer i v))))
          written
      ∙ ap some (
          append_assoc (take i buffer) (v ∷ [])
            (bytes_from byte n (i + 1) ++ drop (i + 1 + n) (set buffer i v)))
      ∙ ap (λ t. some (take i buffer ++ v ∷ (bytes_from byte n (i + 1) ++ t))) behind)

fill-start :
    (byte : ℕ → ℕ) (n : ℕ) (buffer : List ℕ)
    → n ≤ length buffer
    → fill byte n 0 buffer ≡ some (bytes_from byte n 0 ++ drop n buffer)
fill-start byte n buffer h =
    let stop : 0 + n ≡ n = omega arith in
    fill-eq byte n 0 buffer (omega arith)
    ∙ ap (λ k. some (bytes_from byte n 0 ++ drop k buffer)) stop

-- A loop behind the end of the buffer.
fill-eq-none :
    (byte : ℕ → ℕ) (n i : ℕ) (buffer : List ℕ)
    → i ≤ length buffer
    → length buffer < i + n
    → fill byte n i buffer ≡ none
unfolding fill write_byte
fill-eq-none byte zero i buffer le lt = absurd (omega arith)
fill-eq-none byte (suc n) i buffer le lt = elim (Bool-cases (ltb i (length buffer))) [
  | inl room ↦ rw room (
      fill-eq-none byte n (i + 1) (set buffer i (byte i % 256))
        (ground (arith, room, length-set buffer i (byte i % 256)))
        (ground (arith, lt, length-set buffer i (byte i % 256))))
  | inr full ↦ rw full refl
]

chunk_letters-eq :
    (rand : ℕ → ℕ) (n i : ℕ) → bytes_from (λ i. rand i % 26 + b'A') n i ≡ chunk_letters rand n i
unfolding chunk_letters
chunk_letters-eq rand zero i = refl
chunk_letters-eq rand (suc n) i =
    let same : (rand i % 26 + b'A') % 256 ≡ rand i % 26 + b'A' = omega arith in
    rw same (ap (◌∷◌ (rand i % 26 + b'A')) (chunk_letters-eq rand n (i + 1)))

chunk_letters-IsLetter :
    (rand : ℕ → ℕ) (n i : ℕ)
    → (length (chunk_letters rand n i) ≡ n)
      × All (λ b. (b'A' ≤ b) × (b ≤ b'Z')) (chunk_letters rand n i)
unfolding chunk_letters
chunk_letters-IsLetter rand zero i = (refl, tt)
chunk_letters-IsLetter rand (suc n) i =
    let (size, letters) = chunk_letters-IsLetter rand n (i + 1) in
    (ap suc size, ((omega arith, omega arith), letters))

upload_chunk-eq :
    (rand : ℕ → ℕ) (flag : ℕ) (memory : List ℕ)
    → upload_chunk rand flag memory ≡ (
        if ltb (length memory) flag
        then none
        else some (chunk_letters rand flag 0 ++ drop flag memory))
unfolding upload_chunk
upload_chunk-eq rand flag memory = elim (Bool-cases (ltb (length memory) flag)) [
  | inl small ↦ rw small (
      fill-eq-none (λ i. rand i % 26 + b'A') flag 0 memory (omega arith)
        (omega (arith, ltb→lt (length memory) flag small)))
  | inr fits ↦ rw fits (
      fill-start (λ i. rand i % 26 + b'A') flag memory (ground (arith, fits))
      ∙ ap (λ t. some (t ++ drop flag memory)) (chunk_letters-eq rand flag 0))
]

low_bytes :
    (n i : ℕ)
    → (length (bytes_from (λ i. u32 (i + b'A') % 26) n i) ≡ n)
      × All (λ b. b < 26) (bytes_from (λ i. u32 (i + b'A') % 26) n i)
low_bytes zero i = (refl, tt)
low_bytes (suc n) i = let (size, low) = low_bytes n (i + 1) in (ap suc size, (omega arith, low))

drop_all : (xs : List ℕ) → drop (length xs) xs ≡ []
drop_all [] = refl
drop_all (x ∷ xs) = drop_all xs

stream_download_chunk-low :
    (memory : List ℕ)
    → (bytes : List ℕ) × (stream_download_chunk memory ≡ some bytes)
      × (length bytes ≡ length memory)
      × All (λ b. b < 26) bytes
unfolding stream_download_chunk
stream_download_chunk-low memory =
    let (size, low) = low_bytes (length memory) 0 in
    (
      bytes_from (λ i. u32 (i + b'A') % 26) (length memory) 0,
      fill-start (λ i. u32 (i + b'A') % 26) (length memory) memory (omega arith)
          ∙ ap (λ t. some (bytes_from (λ i. u32 (i + b'A') % 26) (length memory) 0 ++ t))
              (drop_all memory)
          ∙ ap some (append-nil (bytes_from (λ i. u32 (i + b'A') % 26) (length memory) 0)),
      size,
      low,
    )

-- For a buffer with room for `chunkSize` bytes, `Upload` writes behind this room exactly when the
-- flag is larger. Otherwise it writes as many bytes as the flag says, which are those of the
-- server's chunk and letters from A to Z, and leaves the rest of the room as it was: nothing is
-- left when `chunkSize` is the flag, as `Operation` has it. `StreamDownload` fills its whole
-- buffer, each write within it, and every byte that it writes is below 26: a control character,
-- where the other chunks hold letters.
pub chunks-bounds :
    (rand : ℕ → ℕ) (flag : ℕ) (memory : List ℕ)
    → (upload_chunk rand flag memory ≡ (
        if ltb (length memory) flag
        then none
        else some (chunk_letters rand flag 0 ++ drop flag memory)))
      × (length (chunk_letters rand flag 0) ≡ flag)
      × All (λ b. (b'A' ≤ b) × (b ≤ b'Z')) (chunk_letters rand flag 0)
      × (bytes : List ℕ) × (stream_download_chunk memory ≡ some bytes)
      × (length bytes ≡ length memory)
      × All (λ b. b < 26) bytes
chunks-bounds rand flag memory =
    let (size, letters) = chunk_letters-IsLetter rand flag 0 in
    let (bytes, e, size', low) = stream_download_chunk-low memory in
    (upload_chunk-eq rand flag memory, size, letters, bytes, e, size', low)
