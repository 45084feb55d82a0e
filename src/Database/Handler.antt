-- ===== src/Database/Handler.antt =====
-- `MockDatabaseHandler` of src/MockDatabase/MockDatabase.h and MockDatabase.cpp. The handler sleeps
-- for `waiting_time` in each call, which changes no state.
use async_rpc_fbthrift.Common.{
  Bool, true, List, [], ◌∷◌, ◌++◌, Option, none, some, if◌then◌else◌, ◌>>=◌, Text, text, text_eq, ℤ,
  u64_of_i64,
}
use async_rpc_fbthrift.Stats.Manager.{Manager, add_entry}
use async_rpc_fbthrift.Rpc.{Reply, value, Times}

-- The map of the last messages, by client.
abbrev pub Messages : Type 0
Messages = List (Text × Text)

unfoldable pub lookup : Text → Messages → Option Text
lookup k [] = none
lookup k ((j, v) ∷ m) = if text_eq j k then some v else lookup k m

-- `m[k] = v`
unfoldable pub insert : Text → Text → Messages → Messages
insert k v [] = (k, v) ∷ []
insert k v ((j, w) ∷ m) = if text_eq j k then (k, v) ∷ m else (j, w) ∷ insert k v m

pub record Database : Type 0 where
  pub last_messages : Messages
  pub manager : Manager

-- What is answered for a client: its last message, or the warning.
unfoldable pub message_or_warning : Text → Option Text → Text
message_or_warning client_id none =
    text "WARNING: This user " ++ (client_id ++ text " didn't post any message or doesn't exist...")
message_or_warning client_id (some message) = message

unfoldable pub find_last_message : Times → Text → ℤ → Database → Option (Reply Text × Database)
find_last_message t client_id query_uid db = do
  arrived ← add_entry db.manager (u64_of_i64 query_uid) t.arrival
  let result = message_or_warning client_id (lookup client_id db.last_messages)
  left ← add_entry arrived (u64_of_i64 query_uid) t.departure
  some (value result, record db { manager = left })

unfoldable pub store_message : Times → Text → Text → ℤ → Database → Option (Reply Bool × Database)
store_message t client_id message query_uid db = do
  arrived ← add_entry db.manager (u64_of_i64 query_uid) t.arrival
  let stored = insert client_id message db.last_messages
  left ← add_entry arrived (u64_of_i64 query_uid) t.departure
  some (value true, record { last_messages = stored; manager = left })

-- The calls that the server receives, one after the other.
pub data Call : Type 0 where
  finds : Times → ℤ → Text → Call
  stores : Times → ℤ → Text → Text → Call

unfoldable pub serve : Database → List Call → Option Database
serve db [] = some db
serve db (finds t uid client ∷ cs) = find_last_message t client uid db >>= λ out. serve (out.1) cs
serve db (stores t uid client message ∷ cs) =
    store_message t client message uid db >>= λ out. serve (out.1) cs
