-- ===== src/ChatRoom/Tests.antt =====
-- The chat room on small inputs, and the theorems about it at such inputs.
use async_rpc_fbthrift.Common.{
  ◌≡◌, some, length, List, [], ◌∷◌, ◌++◌, get_elem?, take, ◌<◌, ◌↔◌, arith, text, pos,
}
use async_rpc_fbthrift.ChatRoom.Handler.{Message}
use async_rpc_fbthrift.Rpc.{delivered}
use async_rpc_fbthrift.ChatRoom.Client.{chat_client}
use async_rpc_fbthrift.ChatRoom.Visits.{own_message, logged, chat_client-visit}
use async_rpc_fbthrift.ChatRoom.Laws.{
  Room, Event, posts, polls, room_steps, posted, new_room, gets, room_steps-posted,
}

abbrev greeting : Message
greeting = record { message = text "hi"; sender = text "Ann"; timestamp = pos 5 }

abbrev question : Message
question = record { message = text "how?"; sender = text "Bob"; timestamp = pos 6 }

abbrev two_messages : List Message
two_messages = greeting ∷ question ∷ []

abbrev talk : List Event
talk =
    posts (pos 5) (text "hi") (text "Ann")
    ∷ polls
    ∷ posts (pos 6) (text "how?") (text "Bob")
    ∷ polls
    ∷ []

room_steps-posted_example :
    (r : Room) × (missing : List Message) × (room_steps (pos 1000) talk new_room ≡ some r)
    × (r.buffer ≡ posted talk)
    × (r.received ++ missing ≡ posted talk)
    × (length r.received ≡ gets 1000 0 0 talk)
room_steps-posted_example = room_steps-posted 1000 talk (omega arith)

chat_client-visit_example :
    let own = own_message (pos 7) (text "Cleo") in
    (chat_client delivered delivered (pos 2) (pos 7) (some (text "Cleo")) two_messages
      ≡ some (logged delivered delivered 2 (two_messages ++ own ∷ []), two_messages ++ own ∷ []))
    × ((get_elem? (take 2 (two_messages ++ own ∷ [])) 2 ≡ some own) ↔ (2 < 2))
chat_client-visit_example =
    chat_client-visit delivered delivered 2 (pos 7) (text "Cleo") two_messages (omega arith)
