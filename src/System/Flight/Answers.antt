-- ===== src/System/Flight/Answers.antt =====
-- One call of the client at the message service, whatever gets lost on the way.
use async_rpc_fbthrift.Common.{
  ℕ, Bool, Bool-cases, true, false, ◌&&◌, if◌then◌else◌, some, Text, ℤ, ◌≡◌, ◌⊎◌, refl, ap, ◌∙◌,
  inl, inr,
}
use async_rpc_fbthrift.Rpc.{Reply, value, failed}
use async_rpc_fbthrift.Database.Handler.{lookup, message_or_warning}
use async_rpc_fbthrift.Sanitize.Laws.{reaches, reply_of, view}
use async_rpc_fbthrift.Message.Handler.{Board, find_last_message, send_message}
use async_rpc_fbthrift.Message.Laws.{
  IsBoard, through, status_of, response_of, send_message-defined, find_last_message-board,
}
use async_rpc_fbthrift.Client.Main.{Response, is_find}
use async_rpc_fbthrift.System.Converse.{Plan, call, found_response, sent_response}
use async_rpc_fbthrift.System.Flight.Serve.{held_if, response_now}
use async_rpc_fbthrift.System.Flight.Losses.{
  remote-through, sent-cases, IsBoard-reaches, view-reaches, and_false, view-send, found-cases,
  found_response-now, sent_response-now,
}

-- What a call leaves behind: a response as the database holds it now, or an exception; and the
-- message, or what was there before.
pub record Answered (client_id message : Text) (i : ℕ) (uid : ℤ) (b b' : Board) (r : Reply Response)
    : Type 0 where
  pub board : IsBoard b'
  pub reply :
      (r ≡ failed)
      ⊎ (r ≡ value (response_now client_id message (view b.backend.database client_id) i uid))
  pub stored : Bool
  pub held :
      view b'.backend.database client_id
      ≡ held_if stored message (view b.backend.database client_id)
  pub by_send : stored ≡ true → is_find i ≡ false

module _ (p : Plan) (client_id message : Text) (i : ℕ) (uid : ℤ) (b : Board) (v : IsBoard b) where
  find-Answered :
      is_find i ≡ true
      → (r : Reply Response) × (b' : Board) × (call p client_id message i uid b ≡ some (r, b'))
        × Answered client_id message i uid b b' r
  unfolding call
  find-Answered find =
      let held = view b.backend.database client_id in
      let (b', e, v', same) =
        find_last_message-board p.build p.course.to_mock p.tid p.course.times p.course.mock_times
          client_id uid b v in
      let e' =
        remote-through p.to_service
          (find_last_message p.build p.course.to_mock p.tid p.course.times p.course.mock_times
            client_id uid)
          b b' _ e in
      (
        found_response (
            through p.to_service (
              response_of uid
                (through p.course.to_mock (value (message_or_warning client_id held))))),
        if reaches p.to_service then b' else b,
        rw (find, e') refl,
        record {
          board = IsBoard-reaches p.to_service b b' v v';
          reply =
              found_response-now client_id message i uid held find
                (found-cases p.to_service p.course.to_mock (message_or_warning client_id held) uid);
          stored = reaches p.to_service && false;
          held =
              view-reaches p.to_service false client_id message b b' (ap (lookup client_id) same);
          by_send = λ h. absurd (cc (h, and_false (reaches p.to_service)));
        },
      )

  send-Answered :
      is_find i ≡ false
      → (r : Reply Response) × (b' : Board) × (call p client_id message i uid b ≡ some (r, b'))
        × Answered client_id message i uid b b' r
  unfolding call
  send-Answered send =
      let held = view b.backend.database client_id in
      let (b', e, v', after) =
        send_message-defined p.build p.tid p.course client_id message uid b v in
      let e' =
        remote-through p.to_service (send_message p.build p.tid p.course client_id message uid) b b'
          _ e in
      (
        sent_response (
            through p.to_service
              (status_of uid (through p.course.to_sanit (reply_of message p.course.to_mock)))),
        if reaches p.to_service then b' else b,
        rw (send, e') refl,
        record {
          board = IsBoard-reaches p.to_service b b' v v';
          reply =
              sent_response-now client_id message i uid held p.to_service
                (through p.course.to_sanit (reply_of message p.course.to_mock)) send
                (sent-cases message p.course.to_sanit p.course.to_mock);
          stored = reaches p.to_service && (reaches p.course.to_sanit && reaches p.course.to_mock);
          held =
              view-reaches p.to_service (reaches p.course.to_sanit && reaches p.course.to_mock)
                client_id message b b' (after client_id ∙ view-send p.course client_id message b);
          by_send = λ h. send;
        },
      )

  -- In every course a call is answered.
  pub call-Answered :
      (r : Reply Response) × (b' : Board) × (call p client_id message i uid b ≡ some (r, b'))
      × Answered client_id message i uid b b' r
  call-Answered = elim (Bool-cases (is_find i)) [
    | inl find ↦ find-Answered find
    | inr send ↦ send-Answered send
  ]
