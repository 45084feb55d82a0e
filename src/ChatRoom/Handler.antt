-- ===== src/ChatRoom/Handler.antt =====
-- `ChatRoomServiceHandler` of src/old/example/server/ChatRoomService.h and ChatRoomService.cpp, under
-- the lock of its buffer.
use async_rpc_fbthrift.Common.{
  ℕ, zero, suc, ◌&&◌, if◌then◌else◌, List, [], ◌∷◌, ◌++◌, Option, none, some, ◌>>=◌, get_elem?,
  length, Text, ℤ, pos, negsuc, ltz, up, u32, i32_of_u32,
}

pub record Message : Type 0 where
  pub message : Text
  pub sender : Text
  pub timestamp : ℤ

-- FLAGS_max_messages_per_get
abbrev pub default_max_messages : ℤ
default_max_messages = pos 1000

-- lockedMessage[i]; `none` is an index out of bounds.
unfoldable pub message_at : List Message → ℤ → Option Message
message_at buffer (pos n) = get_elem? buffer n
message_at buffer (negsuc n) = none

-- The loop, with fuel for its rounds: the messages and the last index.
unfoldable pub get_loop : ℕ → ℤ → List Message → ℤ → ℤ → ℤ → Option (List Message × ℤ)
unfolding message_at
get_loop zero most buffer size i count = none
get_loop (suc fuel) most buffer size i count =
    let rest = get_loop fuel most buffer size (up i) (up count) in
    if ltz i size && ltz count most
    then (message_at buffer i >>= λ m. rest >>= λ out. some (m ∷ out.0, out.1))
    else some ([], i)

abbrev index_of : Option ℤ → ℤ
index_of none = pos 0
index_of (some index) = index

-- `getMessages`, with the index of the request's token, if it has one: the messages and the index of
-- the new token. The size is an `int`.
unfoldable pub get_messages : ℤ → List Message → Option ℤ → Option (List Message × ℤ)
unfolding get_loop
get_messages most buffer token =
    get_loop (suc (length buffer)) most buffer (i32_of_u32 (u32 (length buffer))) (index_of token)
      (pos 0)

-- `sendMessage`, at the time that the clock shows.
unfoldable pub send_message : ℤ → Text → Text → List Message → List Message
send_message time message sender buffer =
    buffer ++ record { message = message; sender = sender; timestamp = time } ∷ []
