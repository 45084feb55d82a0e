-- ===== src/System/Flight.antt =====
-- The asynchronous client (src/Client/Client.cpp without CLIENT_SYNC) whose calls are served by the
-- handlers of src/MessageService: calls and replies are on their way, and the environment chooses
-- which of them arrives next. One event of the client, and one call of a handler, is one step.
pub mod Counts
pub mod Steps
pub mod Serve
pub mod Tracks
pub mod Order
pub mod Smooth
pub mod Laws
pub mod Landing
pub mod Overtaking
pub mod Losses
pub mod Answers
pub mod Safe
pub mod Safety
pub mod Course
pub mod Journal
pub mod Process
pub mod File
mod Tests
mod Runs
use async_rpc_fbthrift.Common.{
  ℕ, ◌+◌, ◌==◌, if◌then◌else◌, List, [], ◌∷◌, Option, none, some, ◌>>=◌, Text, i64_of_u64,
}
use async_rpc_fbthrift.Stats.Manager.{Manager}
use async_rpc_fbthrift.Rpc.{Reply, value, failed}
use async_rpc_fbthrift.Uid.Make.{get_query_uid}
use async_rpc_fbthrift.Message.Handler.{Board}
use async_rpc_fbthrift.Client.Main.{
  Run, Response, is_pending, remove, Event, calls, replies, errors, step, start,
}
use async_rpc_fbthrift.System.Converse.{Plan, call}

-- The program and the services, the calls that the message service has not answered, the replies
-- that the client has not received, and the responses that its callbacks have printed, the last
-- first. Each is named by its round.
pub record Flight : Type 0 where
  pub run : Run
  pub board : Board
  pub sent : List ℕ
  pub answers : List (ℕ × Reply Response)
  pub printed : List (ℕ × Response)

-- The client goes through its next round, the message service handles the call of round i, or the
-- client's event loop receives the reply to it. The clock readings are those of the client; in a
-- plan they are not used.
pub data Move : Type 0 where
  sends : ℕ → Move
  serves : ℕ → Plan → Move
  receives : ℕ → ℕ → Move

unfoldable pub reply_to : ℕ → List (ℕ × Reply Response) → Option (Reply Response)
reply_to i [] = none
reply_to i ((j, r) ∷ rs) = if i == j then some r else reply_to i rs

unfoldable pub without : ℕ → List (ℕ × Reply Response) → List (ℕ × Reply Response)
without i [] = []
without i ((j, r) ∷ rs) = if i == j then rs else (j, r) ∷ without i rs

-- `thenValue(onFindReply)` or `thenValue(onSendReply)`, and `thenError(onError)`.
abbrev pub event_of : ℕ → ℕ → Reply Response → Event
event_of i time (value r) = replies i time r
event_of i time failed = errors i

abbrev pub print_reply : ℕ → Reply Response → List (ℕ × Response) → List (ℕ × Response)
print_reply i (value r) rs = (i, r) ∷ rs
print_reply i failed rs = rs

-- One move; `none` also if it cannot happen.
unfoldable pub move : ℕ → ℕ → Text → Text → Move → Flight → Option Flight
unfolding reply_to without
move iterations client_uid client_id message (sends time) f =
    step iterations client_uid (calls time) f.run >>= λ run.
    some (record f { run = run; sent = f.run.next ∷ f.sent })
move iterations client_uid client_id message (serves i p) f =
    if is_pending i f.sent
    then (call p client_id message i (i64_of_u64 (get_query_uid client_uid i)) f.board >>= λ out.
        some (record f { board = out.1; sent = remove i f.sent; answers = (i, out.0) ∷ f.answers }))
    else none
move iterations client_uid client_id message (receives i time) f = reply_to i f.answers >>= λ r.
    step iterations client_uid (event_of i time r) f.run >>= λ run.
    some
      (record f { run = run; answers = without i f.answers; printed = print_reply i r f.printed })

-- A course of moves, the newest first.
unfoldable pub fly : ℕ → ℕ → Text → Text → List Move → Flight → Option Flight
unfolding move
fly iterations client_uid client_id message [] f = some f
fly iterations client_uid client_id message (mv ∷ past) f =
    fly iterations client_uid client_id message past f >>= λ f'.
    move iterations client_uid client_id message mv f'

unfoldable pub take_off : Manager → Board → Flight
unfolding start
take_off m b = record { run = start m; board = b; sent = []; answers = []; printed = [] }
