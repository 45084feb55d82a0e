-- ===== src/System/Flight/Serve.antt =====
-- One call of the client at the message service, whatever has been handled before it.
use async_rpc_fbthrift.Common.{
  ℕ, Bool, Bool-cases, false, not, ◌&&◌, if◌then◌else◌, [], Option, some, Text, text_eq_iff, ℤ, ◌≡◌,
  refl, ap, ◌∙◌, inl, inr, arith,
}
use async_rpc_fbthrift.Rpc.{
  Reply, value, failed, Delivery, delivered, request_lost, reply_lost, remote,
}
use async_rpc_fbthrift.Database.Handler.{lookup, message_or_warning}
use async_rpc_fbthrift.Sanitize.Laws.{is_refused, reply_of, view, view_after}
use async_rpc_fbthrift.Message.Handler.{Board, find_last_message, send_message}
use async_rpc_fbthrift.Message.Laws.{
  IsBoard, is_stored, through, status_of, response_of, send_message-defined,
  find_last_message-board,
}
use async_rpc_fbthrift.Message.Logs.{and_true}
use async_rpc_fbthrift.Client.Main.{Response, is_find}
use async_rpc_fbthrift.System.Converse.{Plan, call, found_response, sent_response}
use async_rpc_fbthrift.System.Rounds.{IsLossless}

-- A remote call keeps what the handler keeps.
remote-defined {ℓ κ} :
    {S R : Type ℓ} (P : S → Type κ) (d : Delivery) (handler : S → Option (Reply R × S)) (s s' : S)
    (r : Reply R)
    → handler s ≡ some (r, s')
    → P s
    → P s'
    → (r' : Reply R) × (s'' : S) × (remote d handler s ≡ some (r', s'')) × P s''
unfolding remote
remote-defined P delivered handler s s' r e v v' = (r, s', e, v')
remote-defined P request_lost handler s s' r e v v' = (failed, s, refl, v)
remote-defined P reply_lost handler s s' r e v v' = (failed, s', rw e refl, v')

-- In every course a call is answered, and the logs stay well formed.
pub call-defined :
    (p : Plan) (client_id message : Text) (i : ℕ) (uid : ℤ) (b : Board)
    → IsBoard b
    → (r : Reply Response) × (b' : Board) × (call p client_id message i uid b ≡ some (r, b'))
      × IsBoard b'
unfolding call
call-defined p client_id message i uid b v =
    let (b₁, e₁, v₁, _) = send_message-defined p.build p.tid p.course client_id message uid b v in
    let (r₁, c₁, d₁, w₁) =
      remote-defined IsBoard p.to_service
        (send_message p.build p.tid p.course client_id message uid) b b₁ _ e₁ v v₁ in
    let (b₂, e₂, v₂, _) =
      find_last_message-board p.build p.course.to_mock p.tid p.course.times p.course.mock_times
        client_id uid b v in
    let (r₂, c₂, d₂, w₂) =
      remote-defined IsBoard p.to_service
        (find_last_message p.build p.course.to_mock p.tid p.course.times p.course.mock_times
          client_id uid)
        b b₂ _ e₂ v v₂ in
    elim (Bool-cases (is_find i)) [
      | inl find ↦ (found_response r₂, c₂, rw (find, d₂) refl, w₂)
      | inr send ↦ (sent_response r₁, c₁, rw (send, d₁) refl, w₁)
    ]

-- What the database holds for the client, `before` being what it held at the start, once a
-- `send_message` has been handled or not.
abbrev pub held_if : Bool → Text → Option Text → Option Text
held_if handled message before =
    if handled && not (is_refused message) then some message else before

-- The response to the call of round i, where the database holds the given message.
abbrev pub response_now : Text → Text → Option Text → ℕ → ℤ → Response
response_now client_id message held i uid =
    if is_find i
    then record { message = message_or_warning client_id held; ok = false; query_uid = uid }
    else record { message = []; ok = not (is_refused message); query_uid = uid }

module _ (p : Plan) (lossless : IsLossless p) (client_id message : Text) (i : ℕ) (uid : ℤ)
    (b : Board) (v : IsBoard b) where
  serves_send :
      is_find i ≡ false
      → (b' : Board) × (call p client_id message i uid b
          ≡ some (
            value (response_now client_id message (view b.backend.database client_id) i uid),
            b',
          ))
        × IsBoard b'
        × (view b'.backend.database client_id
            ≡ held_if (not (is_find i)) message (view b.backend.database client_id))
  unfolding call remote
  serves_send send =
      let (b', e, v', after) =
        send_message-defined p.build p.tid p.course client_id message uid b v in
      let known : through p.course.to_sanit (reply_of message p.course.to_mock)
          ≡ value (not (is_refused message)) =
        rw (lossless.to_sanit, lossless.to_mock) (ground arith) in
      let sent = e ∙ ap (λ r. some (status_of uid r, b')) known in
      let stored : is_stored message p.course ≡ not (is_refused message) =
        rw (lossless.to_sanit, lossless.to_mock) (and_true (not (is_refused message))) in
      (
        b',
        rw (send, lossless.to_service, sent) refl,
        v',
        after client_id
            ∙ ap (λ x. view_after x client_id message b.backend.database client_id) stored
            ∙ rw (send, (text_eq_iff client_id client_id).1 refl) refl,
      )

  pub call-lossless :
      (b' : Board) × (call p client_id message i uid b
        ≡ some
            (value (response_now client_id message (view b.backend.database client_id) i uid), b'))
      × IsBoard b'
      × (view b'.backend.database client_id
          ≡ held_if (not (is_find i)) message (view b.backend.database client_id))
  unfolding call remote
  call-lossless = elim (Bool-cases (is_find i)) [
    | inr send ↦ serves_send send
    | inl find ↦
        let (b', e, v', same) =
          find_last_message-board p.build p.course.to_mock p.tid p.course.times p.course.mock_times
            client_id uid b v in
        let arrived : response_of uid (
              through p.course.to_mock
                (value (message_or_warning client_id (view b.backend.database client_id))))
            ≡ value (record {
              message = message_or_warning client_id (view b.backend.database client_id);
              query_uid = uid;
            }) =
          rw lossless.to_mock refl in
        let found = e ∙ ap (λ r. some (r, b')) arrived in
        (
          b',
          rw (find, lossless.to_service, found) refl,
          v',
          ap (lookup client_id) same ∙ rw find refl,
        )
  ]
