-- ===== src/Client/Main.antt =====
-- The load generator of src/Client/Client.cpp: its loop over the calls, the callbacks of the replies
-- and its summary. What `stoi` makes of an argument, the clock and what becomes of a call are
-- arguments. The delays between the calls change no state.
use async_rpc_fbthrift.Common.{
  ℕ, zero, suc, ◌+◌, ◌-◌, ◌/◌, ◌%◌, Bool, true, false, ◌||◌, ◌&&◌, ltb, ◌==◌, if◌then◌else◌, List,
  [], ◌∷◌, Option, none, some, ◌>>=◌, get_elem?, Text, ℤ, pos, negsuc, u64_of_i64,
}
use async_rpc_fbthrift.Stats.Manager.{Manager, add_entry}
use async_rpc_fbthrift.Uid.Make.{get_query_uid}
use async_rpc_fbthrift.Message.Handler.{MessageResponse, StatusResponse}
use async_rpc_fbthrift.Rpc.{Reply, value, failed}

-- The global variables.
pub record Client : Type 0 where
  pub find_success_counter : ℕ
  pub send_success_counter : ℕ
  pub client_stat_manager : Manager

-- `iterations` from `argv`, where `none` is an exception of `stoi`.
unfoldable pub read_iterations : (Text → Option ℤ) → List Text → Option ℕ
read_iterations stoi argv = given (get_elem? argv 1)
  where
    positive : ℤ → ℕ
    positive (pos zero) = 10
    positive (pos (suc n)) = suc n
    positive (negsuc n) = 10

    given : Option Text → Option ℕ
    given none = some 10
    given (some arg) = stoi arg >>= λ z. some (positive z)

-- `onFindReply` and `onSendReply`.
unfoldable pub on_find_reply : ℕ → MessageResponse → Client → Option Client
on_find_reply time resp c =
    add_entry c.client_stat_manager (u64_of_i64 resp.query_uid) time >>= λ m. some (record {
      find_success_counter = c.find_success_counter + 1;
      send_success_counter = c.send_success_counter;
      client_stat_manager = m;
    })

unfoldable pub on_send_reply : ℕ → StatusResponse → Client → Option Client
on_send_reply time resp c =
    add_entry c.client_stat_manager (u64_of_i64 resp.query_uid) time >>= λ m. some (record {
      find_success_counter = c.find_success_counter;
      send_success_counter = c.send_success_counter + 1;
      client_stat_manager = m;
    })

-- Round i calls `find_last_message` or `send_message`.
unfoldable pub is_find : ℕ → Bool
is_find i = i % 2 == 1

-- The reply to the call of round i: a response of the call's own kind, or an exception.
pub record Response : Type 0 where
  pub message : Text
  pub ok : Bool
  pub query_uid : ℤ

unfoldable pub on_reply : ℕ → ℕ → Response → Client → Option Client
unfolding is_find on_find_reply on_send_reply
on_reply i time r c =
    if is_find i
    then on_find_reply time (record { message = r.message; query_uid = r.query_uid }) c
    else on_send_reply time (record { ok = r.ok; query_uid = r.query_uid }) c

-- What the two versions of a round do first.
unfoldable pub log_call : ℕ → ℕ → ℕ → Client → Option Client
log_call client_uid i time c = do
  m ← add_entry c.client_stat_manager (get_query_uid client_uid i) time
  some (record c { client_stat_manager = m })

-- The program between its start and its summary: the next round, and the calls without a reply.
pub record Run : Type 0 where
  pub client : Client
  pub next : ℕ
  pub pending : List ℕ

unfoldable pub is_pending : ℕ → List ℕ → Bool
is_pending i [] = false
is_pending i (j ∷ js) = i == j || is_pending i js

unfoldable pub remove : ℕ → List ℕ → List ℕ
remove i [] = []
remove i (j ∷ js) = if i == j then js else j ∷ remove i js

-- What happens in the asynchronous build, with the time that the clock shows.
pub data Event : Type 0 where
  calls : ℕ → Event
  replies : ℕ → ℕ → Response → Event
  errors : ℕ → Event

-- One event; `none` also if it cannot happen, in a round behind the last or for a call that does not
-- wait for a reply.
unfoldable pub step : ℕ → ℕ → Event → Run → Option Run
unfolding log_call on_reply is_pending remove
step iterations client_uid (calls time) s =
    if ltb s.next iterations
    then (log_call client_uid s.next time s.client >>= λ c.
        some (record { client = c; next = s.next + 1; pending = s.next ∷ s.pending }))
    else none
step iterations client_uid (replies i time r) s =
    if is_pending i s.pending
    then (on_reply i time r s.client >>= λ c.
        some (record s { client = c; pending = remove i s.pending }))
    else none
step iterations client_uid (errors i) s =
    if is_pending i s.pending then some (record s { pending = remove i s.pending }) else none

unfoldable pub steps : ℕ → ℕ → List Event → Run → Option Run
steps iterations client_uid [] s = some s
steps iterations client_uid (e ∷ es) s =
    step iterations client_uid e s >>= λ s'. steps iterations client_uid es s'

unfoldable pub start : Manager → Run
start m = record {
  client = record { find_success_counter = 0; send_success_counter = 0; client_stat_manager = m };
  next = 0;
  pending = [];
}

unfoldable pub is_empty : List ℕ → Bool
is_empty [] = true
is_empty (i ∷ is) = false

-- `collectAll` is done when every round is over and no call waits.
unfoldable pub is_finished : ℕ → Run → Bool
is_finished iterations s = s.next == iterations && is_empty s.pending

-- The synchronous build: the rounds from i on, with the two times and the reply of each. An exception
-- of the call leaves `main`.
unfoldable pub sync_loop :
    ℕ → ℕ → ℕ → (ℕ → ℕ) → (ℕ → ℕ) → (ℕ → Reply Response) → Client → Option (Reply Client)
unfolding log_call on_reply
sync_loop zero client_uid i call_time reply_time reply c = some (value c)
sync_loop (suc rounds) client_uid i call_time reply_time reply c =
    log_call client_uid i (call_time i) c >>= λ c₁.
    answered (reply i) c₁ (λ c₂. sync_loop rounds client_uid (i + 1) call_time reply_time reply c₂)
  where
    answered : Reply Response → Client → (Client → Option (Reply Client)) → Option (Reply Client)
    answered failed c₁ rest = some failed
    answered (value r) c₁ rest = on_reply i (reply_time i) r c₁ >>= rest

-- The four numbers of the summary.
pub record Summary : Type 0 where
  pub send_successes : ℕ
  pub send_iterations : ℕ
  pub find_successes : ℕ
  pub find_iterations : ℕ

unfoldable pub client_summary : Client → ℕ → Summary
client_summary c iterations = record {
  send_successes = c.send_success_counter;
  send_iterations = iterations - iterations / 2;
  find_successes = c.find_success_counter;
  find_iterations = iterations / 2;
}
