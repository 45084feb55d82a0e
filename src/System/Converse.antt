-- ===== src/System/Converse.antt =====
-- The loop of the synchronous client (src/Client/Client.cpp with CLIENT_SYNC), whose calls are
-- served by the handlers of src/MessageService. What the transport and the clocks do in a round is
-- an argument.
use async_rpc_fbthrift.Common.{
  ℕ, zero, suc, ◌+◌, false, if◌then◌else◌, List, [], ◌∷◌, Option, some, ◌>>=◌, Text, ℤ, i64_of_u64,
}
use async_rpc_fbthrift.Rpc.{Reply, value, failed, Delivery, remote, Build}
use async_rpc_fbthrift.Uid.Make.{get_query_uid}
use async_rpc_fbthrift.Message.Handler.{
  MessageResponse, StatusResponse, Board, Course, find_last_message, send_message,
}
use async_rpc_fbthrift.Client.Main.{Client, Response, is_find, log_call, on_reply}

pub record System : Type 0 where
  pub client : Client
  pub board : Board

-- What the environment chooses for a round: the client's two clock readings, the message service's
-- build and thread, what becomes of the client's call, and the course of the calls behind it.
pub record Plan : Type 0 where
  pub call_time : ℕ
  pub reply_time : ℕ
  pub build : Build
  pub tid : ℕ
  pub to_service : Delivery
  pub course : Course

-- `resp` as `onFindReply` and `onSendReply` read it.
abbrev pub found_response : Reply MessageResponse → Reply Response
found_response failed = failed
found_response (value r) =
    value (record { message = r.message; ok = false; query_uid = r.query_uid })

abbrev pub sent_response : Reply StatusResponse → Reply Response
sent_response failed = failed
sent_response (value r) = value (record { message = []; ok = r.ok; query_uid = r.query_uid })

-- `client->sync_find_last_message(...)` or `client->sync_send_message(...)`.
unfoldable pub call : Plan → Text → Text → ℕ → ℤ → Board → Option (Reply Response × Board)
call p client_id message i query_uid b =
    let found =
      remote p.to_service
        (find_last_message p.build p.course.to_mock p.tid p.course.times p.course.mock_times
          client_id query_uid)
        b in
    let sent =
      remote p.to_service (send_message p.build p.tid p.course client_id message query_uid) b in
    if is_find i
    then (found >>= λ out. some (found_response (out.0), out.1))
    else (sent >>= λ out. some (sent_response (out.0), out.1))

-- Behind the call. An exception leaves `main`.
unfoldable pub replied : ℕ → ℕ → Reply Response → Client → Board → Option (Reply Response × System)
replied i time failed c b = some (failed, record { client = c; board = b })
replied i time (value r) c b =
    on_reply i time r c >>= λ c'. some (value r, record { client = c'; board = b })

unfoldable pub round : Plan → ℕ → Text → Text → ℕ → System → Option (Reply Response × System)
unfolding call replied
round p client_uid client_id message i s = log_call client_uid i p.call_time s.client >>= λ c.
    call p client_id message i (i64_of_u64 (get_query_uid client_uid i)) s.board >>= λ out.
    replied i p.reply_time out.0 c out.1

abbrev pub prepend : Response → Reply (List Response) → Reply (List Response)
prepend r failed = failed
prepend r (value rs) = value (r ∷ rs)

abbrev pub go_on :
    Reply Response × System
    → (System → Option (Reply (List Response) × System))
    → Option (Reply (List Response) × System)
go_on (failed, s) rest = some (failed, s)
go_on (value r, s) rest = rest s >>= λ out. some (prepend r (out.0), out.1)

-- The rounds from i on, with the responses that the callbacks were given.
unfoldable pub converse :
    ℕ → (ℕ → Plan) → ℕ → Text → Text → ℕ → System → Option (Reply (List Response) × System)
unfolding round
converse zero plan client_uid client_id message i s = some (value [], s)
converse (suc rounds) plan client_uid client_id message i s =
    round (plan i) client_uid client_id message i s >>= λ out.
    go_on out (λ s'. converse rounds plan client_uid client_id message (i + 1) s')
