-- ===== src/ChatRoom/Pages.antt =====
-- The pages of messages that `getMessages` answers with.
use async_rpc_fbthrift.Common.{
  ℕ, zero, suc, ◌+◌, ◌-◌, leb, if◌then◌else◌, ◌^◌, ◌≤◌, ◌<◌, true, false, ◌&&◌, List, [], ◌∷◌, ◌++◌,
  none, some, ◌>>=◌, get_elem?, length, take, drop, pos, negsuc, ltb, ltb→lt, lt→ltb, u32,
  i32_of_u32, ◌≡◌, refl, ap, arith, ◌∙◌, sym, subst, Bool-cases, inl, inr,
}
use async_rpc_fbthrift.ChatRoom.Handler.{Message, message_at, get_loop, get_messages}

-- The page of at most n messages from index k on.
unfoldable pub page : ℕ → List Message → ℕ → List Message
page n buffer k = take n (drop k buffer)

next_message :
    (buffer : List Message) (k : ℕ)
    → k < length buffer
    → (m : Message) × (get_elem? buffer k ≡ some m) × (drop k buffer ≡ m ∷ drop (suc k) buffer)
next_message [] k h = absurd (omega arith)
next_message (m ∷ buffer) zero h = (m, refl, refl)
next_message (m ∷ buffer) (suc k) h = next_message buffer k (omega arith)

drop-end : (buffer : List Message) (k : ℕ) → length buffer ≤ k → drop k buffer ≡ []
drop-end [] zero h = refl
drop-end [] (suc k) h = refl
drop-end (m ∷ buffer) zero h = absurd (omega arith)
drop-end (m ∷ buffer) (suc k) h = drop-end buffer k (omega arith)

take-nil : (n : ℕ) (none_left : List Message) → none_left ≡ [] → take n none_left ≡ []
take-nil zero none_left h = refl
take-nil (suc n) none_left h = rw h refl

le→not_ltb : (a b : ℕ) → b ≤ a → ltb a b ≡ false
le→not_ltb a b h = ground arith

-- A round of the loop that stops it.
get_loop-stop :
    (fuel count most k : ℕ) (buffer : List Message)
    → (ltb k (length buffer) && ltb count most) ≡ false
    → get_loop (suc fuel) (pos most) buffer (pos (length buffer)) (pos k) (pos count)
      ≡ some ([], pos k)
unfolding get_loop
get_loop-stop fuel count most k buffer h = rw h refl

get_loop-past :
    (fuel count n : ℕ) (buffer : List Message) (k : ℕ)
    → length buffer ≤ k
    → get_loop (suc fuel) (pos (count + n)) buffer (pos (length buffer)) (pos k) (pos count)
      ≡ some (page n buffer k, pos (k + length (page n buffer k)))
unfolding page
get_loop-past fuel count n buffer k h =
    let empty : page n buffer k ≡ [] = take-nil n (drop k buffer) (drop-end buffer k h) in
    get_loop-stop fuel count (count + n) k buffer (rw (le→not_ltb k (length buffer) h) refl)
    ∙ rw empty (ap (λ i. some ([], pos i)) (omega arith))

-- A round that takes a message.
get_loop-more :
    (fuel count most k : ℕ) (buffer : List Message) (m : Message)
    → ltb k (length buffer) ≡ true
    → ltb count most ≡ true
    → get_elem? buffer k ≡ some m
    → get_loop (suc fuel) (pos most) buffer (pos (length buffer)) (pos k) (pos count) ≡ (
        get_loop fuel (pos most) buffer (pos (length buffer)) (pos (k + 1)) (pos (count + 1))
        >>= λ out. some (m ∷ out.0, out.1))
unfolding get_loop message_at
get_loop-more fuel count most k buffer m more room at = rw (more, room, at) refl

-- With count messages gathered and n more to go.
get_loop-page :
    (fuel count n : ℕ) (buffer : List Message) (k : ℕ)
    → length buffer ≤ k + fuel
    → get_loop (suc fuel) (pos (count + n)) buffer (pos (length buffer)) (pos k) (pos count)
      ≡ some (page n buffer k, pos (k + length (page n buffer k)))
unfolding get_loop page message_at
get_loop-page fuel count zero buffer k h =
    get_loop-stop fuel count (count + 0) k buffer (ground arith)
    ∙ ap (λ i. some ([], pos i)) (omega arith)
get_loop-page zero count (suc n) buffer k h =
    get_loop-past zero count (suc n) buffer k (omega arith)
get_loop-page (suc fuel) count (suc n) buffer k h = elim (Bool-cases (ltb k (length buffer))) [
  | inl more ↦
      let (m, at, rest) = next_message buffer k (ltb→lt k (length buffer) more) in
      let room : ltb count (count + suc n) ≡ true = lt→ltb count (count + suc n) (omega arith) in
      let later = get_loop-page fuel (count + 1) n buffer (k + 1) (omega arith) in
      let same : count + 1 + n ≡ count + suc n = omega arith in
      let next : k + 1 ≡ suc k = omega arith in
      get_loop-more (suc fuel) count (count + suc n) k buffer m more room at
      ∙ rw (← same, later, rest, next)
          (ap (λ i. some (m ∷ take n (drop (suc k) buffer), pos i)) (omega arith))
  | inr over ↦ get_loop-past (suc fuel) count (suc n) buffer k (ground (arith, over))
]

small_size : (n : ℕ) → n < 2 ^ 31 → i32_of_u32 (u32 n) ≡ pos n
small_size n h = ground arith

-- In a room with less than 2^31 messages, a request with the index k is answered with the messages from
-- k on, at most as many as the flag allows, and with the index behind the last of them; without a
-- token it is answered from the first message on.
pub get_messages-page :
    (n : ℕ) (buffer : List Message) (k : ℕ)
    → length buffer < 2 ^ 31
    → (get_messages (pos n) buffer (some (pos k))
        ≡ some (page n buffer k, pos (k + length (page n buffer k))))
      × (get_messages (pos n) buffer none ≡ some (page n buffer 0, pos (length (page n buffer 0))))
unfolding get_messages
get_messages-page n buffer k small =
    let from : (k : ℕ)
        → get_loop (suc (length buffer)) (pos n) buffer (pos (length buffer)) (pos k) (pos 0)
          ≡ some (page n buffer k, pos (k + length (page n buffer k))) =
      λ k.
        subst
          (λ most.
            get_loop (suc (length buffer)) (pos most) buffer (pos (length buffer)) (pos k) (pos 0)
            ≡ some (page n buffer k, pos (k + length (page n buffer k))))
          (omega arith) (get_loop-page (length buffer) 0 n buffer k (omega arith)) in
    (
      rw (small_size (length buffer) small) (from k),
      rw (small_size (length buffer) small)
          (from 0 ∙ ap (λ i. some (page n buffer 0, pos i)) (omega arith)),
    )

-- A negative index reads in front of the buffer, in every room that has a message.
pub get_messages-negative :
    (n k : ℕ) (buffer : List Message)
    → 0 < n
    → length buffer < 2 ^ 31
    → get_messages (pos n) buffer (some (negsuc k)) ≡ none
unfolding get_messages get_loop message_at
get_messages-negative n k buffer room small =
    rw (small_size (length buffer) small, lt→ltb 0 n room) refl

take-drop : (n : ℕ) (xs : List Message) → take n xs ++ drop (length (take n xs)) xs ≡ xs
take-drop zero xs = refl
take-drop (suc n) [] = refl
take-drop (suc n) (x ∷ xs) = ap (◌∷◌ x) (take-drop n xs)

drop-drop : (k j : ℕ) (xs : List Message) → drop j (drop k xs) ≡ drop (k + j) xs
drop-drop zero j xs = ap (λ i. drop i xs) (omega arith)
drop-drop (suc k) j [] = drop-end [] j (omega arith) ∙ sym (drop-end [] (suc k + j) (omega arith))
drop-drop (suc k) j (x ∷ xs) =
    let same : suc (k + j) ≡ suc k + j = omega arith in
    drop-drop k j xs ∙ ap (λ i. drop i (x ∷ xs)) same

pub page-drop :
    (n : ℕ) (buffer : List Message) (k : ℕ)
    → page n buffer k ++ drop (k + length (page n buffer k)) buffer ≡ drop k buffer
unfolding page
page-drop n buffer k =
    ap (λ rest. page n buffer k ++ rest) (sym (drop-drop k (length (page n buffer k)) buffer))
    ∙ take-drop n (drop k buffer)

pub drop-append :
    (k : ℕ) (xs : List Message) (m : Message)
    → k ≤ length xs
    → drop k (xs ++ m ∷ []) ≡ drop k xs ++ m ∷ []
drop-append zero xs m h = refl
drop-append (suc k) [] m h = absurd (omega arith)
drop-append (suc k) (x ∷ xs) m h = drop-append k xs m (omega arith)

length-take_le : (n : ℕ) (xs : List Message) → length (take n xs) ≤ length xs
length-take_le zero xs = omega arith
length-take_le (suc n) [] = omega arith
length-take_le (suc n) (x ∷ xs) = omega (arith, length-take_le n xs)

length-drop : (k : ℕ) (xs : List Message) → k ≤ length xs → k + length (drop k xs) ≡ length xs
length-drop zero xs h = omega arith
length-drop (suc k) [] h = absurd (omega arith)
length-drop (suc k) (x ∷ xs) h = omega (arith, length-drop k xs (omega arith))

pub length-page :
    (n k : ℕ) (buffer : List Message)
    → k ≤ length buffer
    → k + length (page n buffer k) ≤ length buffer
unfolding page
length-page n k buffer h = omega (arith, length-take_le n (drop k buffer), length-drop k buffer h)

length-take :
    (n : ℕ) (xs : List Message) → length (take n xs) ≡ (if leb n (length xs) then n else length xs)
length-take zero xs = ground arith
length-take (suc n) [] = ground arith
length-take (suc n) (x ∷ xs) = ground (arith, length-take n xs)

-- A page has as many messages as the flag allows, or all that are left.
pub length-page_eq :
    (n k : ℕ) (buffer : List Message)
    → k ≤ length buffer
    → length (page n buffer k) ≡ (if leb n (length buffer - k) then n else length buffer - k)
unfolding page
length-page_eq n k buffer h =
    let left : length (drop k buffer) ≡ length buffer - k = omega (arith, length-drop k buffer h) in
    length-take n (drop k buffer) ∙ ap (λ l. if leb n l then n else l) left
