-- ===== src/ChatRoom/Client.antt =====
-- The chat room's example client, src/old/example/client/ChatRoomClient.cpp, and the test of its
-- handler, src/old/example/test/ChatRoomTest.cpp. What the transport does with a call is an argument;
-- a call that it fails throws, and the client catches that.
use async_rpc_fbthrift.Common.{
  Bool, ◌&&◌, ◌==◌, List, [], ◌∷◌, Option, none, some, ◌>>=◌, length, Text, text, text_eq, ℤ,
}
use async_rpc_fbthrift.Rpc.{Reply, value, failed, Delivery, remote}
use async_rpc_fbthrift.ChatRoom.Handler.{Message, get_messages, send_message}

-- What the client logs.
pub data Log : Type 0 where
  messages : List Message → Log
  request_failed : Log

abbrev pub example_text : Text
example_text = text "This is an example!"

-- The two handlers as they answer a call; a request of this client has no token.
abbrev pub send_handler : ℤ → Text → Text → List Message → Option (Reply (Unit {0}) × List Message)
send_handler time message sender buffer = some (value tt, send_message time message sender buffer)

abbrev pub get_handler : ℤ → List Message → Option (Reply (List Message) × List Message)
get_handler most buffer = get_messages most buffer none >>= λ out. some (value (out.0), buffer)

-- Behind `sync_getMessages`, and behind `sync_sendMessage`.
unfoldable pub log_messages : Reply (List Message) → List Message → Option (Log × List Message)
log_messages failed buffer = some (request_failed, buffer)
log_messages (value ms) buffer = some (messages ms, buffer)

unfoldable pub fetch : Delivery → ℤ → Reply (Unit {0}) → List Message → Option (Log × List Message)
unfolding log_messages remote
fetch d most failed buffer = some (request_failed, buffer)
fetch d most (value sent) buffer =
    remote d (get_handler most) buffer >>= λ out. log_messages out.0 out.1

-- `main`, where the environment has a `USER` or none: a std::string is made from a null pointer then,
-- which is undefined.
unfoldable pub chat_client :
    Delivery → Delivery → ℤ → ℤ → Option Text → List Message → Option (Log × List Message)
unfolding fetch
chat_client d_send d_get most time user buffer = user >>= λ sender.
    remote d_send (send_handler time example_text sender) buffer >>= λ out.
    fetch d_get most out.0 out.1

-- `messages_ref()->front()`
unfoldable pub front : List Message → Option Message
front [] = none
front (m ∷ ms) = some m

-- The test's expectations: the first answer has one message, the one that was sent, and the second
-- answer has two.
unfoldable pub chat_room_test : ℤ → ℤ → ℤ → Option Bool
unfolding front
chat_room_test most time time' = do
  let once = send_message time example_text (text "UnitTest") []
  response ← get_messages most once none
  first ← front response.0
  let twice = send_message time' example_text (text "UnitTest") once
  again ← get_messages most twice none
  some (
      length response.0 == 1
      && (text_eq first.message example_text
          && (text_eq first.sender (text "UnitTest") && length again.0 == 2)))
