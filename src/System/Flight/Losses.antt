-- ===== src/System/Flight/Losses.antt =====
-- What may get lost on the way of a call, and what it stores then.
use async_rpc_fbthrift.Common.{
  ℕ, Bool, Bool-cases, true, false, not, ◌&&◌, if◌then◌else◌, Option, some, Text, text_eq_iff, ℤ,
  ◌≡◌, ◌⊎◌, refl, ◌∙◌, inl, inr,
}
use async_rpc_fbthrift.Rpc.{
  Reply, value, failed, Delivery, delivered, request_lost, reply_lost, remote,
}
use async_rpc_fbthrift.Database.Handler.{message_or_warning}
use async_rpc_fbthrift.Sanitize.Laws.{is_refused, reaches, reply_of, view, view_after}
use async_rpc_fbthrift.Message.Handler.{Board, Course}
use async_rpc_fbthrift.Message.Laws.{IsBoard, is_stored, through, status_of, response_of}
use async_rpc_fbthrift.Client.Main.{Response, is_find}
use async_rpc_fbthrift.System.Converse.{found_response, sent_response}
use async_rpc_fbthrift.System.Flight.Serve.{held_if, response_now}

-- A reply through a delivery is the reply or an exception.
through-cases {ℓ} :
    {R : Type ℓ} (d : Delivery) (r : Reply R) → (through d r ≡ failed) ⊎ (through d r ≡ r)
through-cases delivered r = inr refl
through-cases request_lost r = inl refl
through-cases reply_lost r = inl refl

reply_of-cases :
    (message : Text) (d : Delivery)
    → (reply_of message d ≡ failed) ⊎ (reply_of message d ≡ value (not (is_refused message)))
reply_of-cases message d = elim (Bool-cases (is_refused message)) [
  | inl refused ↦ inr (rw refused refl)
  | inr accepted ↦ kinds d accepted
]
  where
    kinds :
        (d : Delivery)
        → is_refused message ≡ false
        → (reply_of message d ≡ failed) ⊎ (reply_of message d ≡ value (not (is_refused message)))
    kinds delivered accepted = inr (rw accepted refl)
    kinds request_lost accepted = inl (rw accepted refl)
    kinds reply_lost accepted = inl (rw accepted refl)

pub sent-cases :
    (message : Text) (d d' : Delivery)
    → (through d (reply_of message d') ≡ failed)
      ⊎ (through d (reply_of message d') ≡ value (not (is_refused message)))
sent-cases message d d' = elim (through-cases d (reply_of message d')) [
  | inl lost ↦ inl lost
  | inr same ↦ elim (reply_of-cases message d') [
    | inl lost ↦ inl (same ∙ lost)
    | inr known ↦ inr (same ∙ known)
  ]
]

pub remote-through {ℓ} :
    {S R : Type ℓ} (d : Delivery) (handler : S → Option (Reply R × S)) (s s' : S) (r : Reply R)
    → handler s ≡ some (r, s')
    → remote d handler s ≡ some (through d r, if reaches d then s' else s)
unfolding remote
remote-through delivered handler s s' r e = e
remote-through request_lost handler s s' r e = refl
remote-through reply_lost handler s s' r e = rw e refl

pub IsBoard-reaches :
    (d : Delivery) (b b' : Board) → IsBoard b → IsBoard b' → IsBoard (if reaches d then b' else b)
IsBoard-reaches delivered b b' v v' = v'
IsBoard-reaches request_lost b b' v v' = v
IsBoard-reaches reply_lost b b' v v' = v'

pub view-reaches :
    (d : Delivery) (stored : Bool) (client_id message : Text) (b b' : Board)
    → view b'.backend.database client_id
      ≡ held_if stored message (view b.backend.database client_id)
    → view (if reaches d then b' else b).backend.database client_id
      ≡ held_if (reaches d && stored) message (view b.backend.database client_id)
view-reaches delivered stored client_id message b b' h = h
view-reaches request_lost stored client_id message b b' h = refl
view-reaches reply_lost stored client_id message b b' h = h

pub and_false : (b : Bool) → (b && false) ≡ false
and_false true = refl
and_false false = refl

-- What a `send_message` stores, as the view of its client.
pub view-send :
    (c : Course) (client_id message : Text) (b : Board)
    → view_after (is_stored message c) client_id message b.backend.database client_id
      ≡ held_if
          (reaches c.to_sanit && reaches c.to_mock)
          message
          (view b.backend.database client_id)
view-send c client_id message b =
    rw ((text_eq_iff client_id client_id).1 refl)
      (regroup (reaches c.to_sanit) (reaches c.to_mock) (is_refused message))
  where
    regroup :
        (x y refused : Bool)
        → (if x && (not refused && y) then some message else view b.backend.database client_id)
          ≡ (if (x && y) && not refused then some message else view b.backend.database client_id)
    regroup true true true = refl
    regroup true true false = refl
    regroup true false true = refl
    regroup true false false = refl
    regroup false y refused = refl

pub found-cases :
    (d d' : Delivery) (m : Text) (uid : ℤ)
    → (found_response (through d (response_of uid (through d' (value m)))) ≡ failed)
      ⊎ (found_response (through d (response_of uid (through d' (value m))))
          ≡ value (record { message = m; ok = false; query_uid = uid }))
found-cases delivered delivered m uid = inr refl
found-cases delivered request_lost m uid = inl refl
found-cases delivered reply_lost m uid = inl refl
found-cases request_lost d' m uid = inl refl
found-cases reply_lost d' m uid = inl refl

pub found_response-now :
    (client_id message : Text) (i : ℕ) (uid : ℤ) (held : Option Text) {r : Reply Response}
    → is_find i ≡ true
    → (r ≡ failed)
      ⊎ (r
          ≡ value
              (record { message = message_or_warning client_id held; ok = false; query_uid = uid }))
    → (r ≡ failed) ⊎ (r ≡ value (response_now client_id message held i uid))
found_response-now client_id message i uid held find (inl lost) = inl lost
found_response-now client_id message i uid held find (inr known) = inr (rw find known)

pub sent_response-now :
    (client_id message : Text) (i : ℕ) (uid : ℤ) (held : Option Text) (d : Delivery)
    (x : Reply Bool)
    → is_find i ≡ false
    → (x ≡ failed) ⊎ (x ≡ value (not (is_refused message)))
    → (sent_response (through d (status_of uid x)) ≡ failed)
      ⊎ (sent_response (through d (status_of uid x))
          ≡ value (response_now client_id message held i uid))
sent_response-now client_id message i uid held delivered x send (inl lost) = inl (rw lost refl)
sent_response-now client_id message i uid held delivered x send (inr known) =
    inr (rw (send, known) refl)
sent_response-now client_id message i uid held request_lost x send known = inl refl
sent_response-now client_id message i uid held reply_lost x send known = inl refl
