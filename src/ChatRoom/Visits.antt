-- ===== src/ChatRoom/Visits.antt =====
-- What a visit of the example client does to the room, and what it shows of it.
use async_rpc_fbthrift.Common.{
  ℕ, zero, suc, ◌+◌, ◌^◌, ◌≤◌, ◌<◌, true, List, [], ◌∷◌, ◌++◌, some, get_elem?, length,
  length-append, take, Text, text, ℤ, pos, ◌≡◌, ◌↔◌, refl, arith,
}
use async_rpc_fbthrift.Rpc.{Delivery, delivered, request_lost, reply_lost, remote}
use async_rpc_fbthrift.ChatRoom.Handler.{Message, send_message}
use async_rpc_fbthrift.ChatRoom.Pages.{page, get_messages-page}
use async_rpc_fbthrift.ChatRoom.Client.{
  Log, messages, request_failed, example_text, fetch, log_messages, chat_client, front,
  chat_room_test,
}

abbrev pub own_message : ℤ → Text → Message
own_message time sender = record { message = example_text; sender = sender; timestamp = time }

-- The specification of a visit: what is logged, and the room behind it.
abbrev pub room_after : Delivery → Message → List Message → List Message
room_after delivered own buffer = buffer ++ own ∷ []
room_after request_lost own buffer = buffer
room_after reply_lost own buffer = buffer ++ own ∷ []

abbrev pub logged : Delivery → Delivery → ℕ → List Message → Log
logged delivered delivered most room = messages (take most room)
logged delivered request_lost most room = request_failed
logged delivered reply_lost most room = request_failed
logged request_lost d most room = request_failed
logged reply_lost d most room = request_failed

fetch-room :
    (d : Delivery) (most : ℕ) (room : List Message)
    → length room < 2 ^ 31
    → fetch d (pos most) (async_rpc_fbthrift.Rpc.value tt) room
      ≡ some (logged delivered d most room, room)
unfolding fetch log_messages remote page
fetch-room delivered most room small =
    let (_, whole) = get_messages-page most room 0 small in rw whole refl
fetch-room request_lost most room small = refl
fetch-room reply_lost most room small =
    let (_, whole) = get_messages-page most room 0 small in rw whole refl

get_elem?-take-end :
    (most : ℕ) (xs : List Message) (m : Message)
    → (get_elem? (take most (xs ++ m ∷ [])) (length xs) ≡ some m) ↔ (length xs < most)
get_elem?-take-end zero xs m = (λ h. absurd (ground (arith, h)), λ h. absurd (omega (arith, h)))
get_elem?-take-end (suc most) [] m = (λ h. omega arith, λ h. refl)
get_elem?-take-end (suc most) (x ∷ xs) m =
    let rest = get_elem?-take-end most xs m in
    (λ h. omega (arith, rest.0 h), λ h. rest.1 (omega (arith, h)))

visit_room :
    (d d' : Delivery) (most : ℕ) (time : ℤ) (sender : Text) (buffer : List Message)
    → length (buffer ++ own_message time sender ∷ []) < 2 ^ 31
    → chat_client d d' (pos most) time (some sender) buffer
      ≡ some (
        logged d d' most (room_after d (own_message time sender) buffer),
        room_after d (own_message time sender) buffer,
      )
unfolding chat_client fetch send_message remote
visit_room delivered d' most time sender buffer small =
    fetch-room d' most (buffer ++ own_message time sender ∷ []) small
visit_room request_lost d' most time sender buffer small = refl
visit_room reply_lost d' most time sender buffer small = refl

-- A visit of the example client to a room with fewer than 2^31 - 1 messages, where the environment
-- has a `USER`: it posts its message exactly when its first request arrives; if all is delivered it
-- logs the messages of the room from the first one on, as many as the flag allows, and else that
-- its request failed. Its own message is at its place among those exactly when the room had fewer
-- messages than the flag allows.
pub chat_client-visit :
    (d d' : Delivery) (most : ℕ) (time : ℤ) (sender : Text) (buffer : List Message)
    → length buffer + 1 < 2 ^ 31
    → let own = own_message time sender in
      (chat_client d d' (pos most) time (some sender) buffer
        ≡ some (logged d d' most (room_after d own buffer), room_after d own buffer))
      × ((get_elem? (take most (buffer ++ own ∷ [])) (length buffer) ≡ some own)
          ↔ (length buffer < most))
unfolding chat_client send_message remote
chat_client-visit d d' most time sender buffer small =
    let own = own_message time sender in
    let more : length (buffer ++ own ∷ []) < 2 ^ 31 =
      omega (arith, small, length-append buffer (own ∷ [])) in
    (visit_room d d' most time sender buffer more, get_elem?-take-end most buffer own)

take-nil : (n : ℕ) → take {A = Message} n [] ≡ []
take-nil zero = refl
take-nil (suc n) = refl

-- The test of the handler passes, whenever it runs, if an answer may have two messages.
pub chat_room_test-passes :
    (most : ℕ) (time time' : ℤ) → 2 ≤ most → chat_room_test (pos most) time time' ≡ some true
unfolding chat_room_test front send_message page
chat_room_test-passes zero time time' h = absurd (omega (arith, h))
chat_room_test-passes (suc zero) time time' h = absurd (omega (arith, h))
chat_room_test-passes (suc (suc most)) time time' h =
    let own = own_message time (text "UnitTest") in
    let own' = own_message time' (text "UnitTest") in
    let (_, once) = get_messages-page (suc (suc most)) (own ∷ []) 0 (omega arith) in
    let (_, twice) = get_messages-page (suc (suc most)) (own ∷ own' ∷ []) 0 (omega arith) in
    rw (once, twice, take-nil most) refl
