-- ===== src/System/Flight/Overtaking.antt =====
-- A call of the asynchronous client may be handled before an earlier one.
use async_rpc_fbthrift.Common.{
  ℕ, ◌<◌, true, false, List, [], ◌∷◌, some, Text, i64_of_u64, ◌≡◌, refl, ap, ◌∙◌, arith,
}
use async_rpc_fbthrift.Stats.Manager.{Manager}
use async_rpc_fbthrift.Stats.Shape.{IsValid}
use async_rpc_fbthrift.Uid.Make.{get_query_uid}
use async_rpc_fbthrift.Database.Handler.{message_or_warning}
use async_rpc_fbthrift.Sanitize.Laws.{view}
use async_rpc_fbthrift.Message.Handler.{Board}
use async_rpc_fbthrift.Message.Laws.{IsBoard}
use async_rpc_fbthrift.Client.Main.{Response, is_pending, is_find, remove}
use async_rpc_fbthrift.System.Converse.{Plan}
use async_rpc_fbthrift.System.Rounds.{IsLossless}
use async_rpc_fbthrift.System.Flight.{
  Flight, Move, sends, serves, receives, reply_to, fly, take_off,
}
use async_rpc_fbthrift.System.Flight.Serve.{response_now, call-lossless}
use async_rpc_fbthrift.System.Flight.Tracks.{
  IsFlight, take_off-IsFlight, sends-IsFlight, serves-IsFlight, receives-IsFlight,
}
use async_rpc_fbthrift.System.Flight.Order.{AreLossless}

module _ (iterations uid : ℕ) (client_id message : Text) (m : Manager) (b : Board)
    (two : 1 < iterations) (v : IsValid m) (vb : IsBoard b) where
  -- The first two rounds are over, and no call has been handled.
  two_sent :
      (f : Flight) × (fly iterations uid client_id message (sends 0 ∷ sends 0 ∷ []) (take_off m b)
        ≡ some f)
      × IsFlight iterations (sends 0 ∷ sends 0 ∷ []) f
      × (f.sent ≡ 1 ∷ 0 ∷ [])
      × (f.run.pending ≡ 1 ∷ 0 ∷ [])
      × (f.board ≡ b)
      × (f.printed ≡ [])
  unfolding fly take_off async_rpc_fbthrift.Client.Main.start
  two_sent =
      let (c₁, f₁, e₁, ran₁, v₁) =
        sends-IsFlight iterations uid client_id message [] (take_off m b)
          (take_off-IsFlight iterations m b v vb) 0 (omega (arith, two)) in
      let next₁ : f₁.run.next ≡ 1 = ap (λ (x : Flight). x.run.next) e₁ in
      let (c₂, f₂, e₂, ran₂, v₂) =
        sends-IsFlight iterations uid client_id message (sends 0 ∷ []) f₁ v₁ 0 (rw next₁ two) in
      (
        f₂,
        rw ran₁ ran₂,
        v₂,
        ap (λ (x : Flight). x.sent) e₂ ∙ rw next₁ (ap (λ (x : Flight). 1 ∷ x.sent) e₁),
        ap (λ (x : Flight). x.run.pending) e₂
            ∙ rw next₁ (ap (λ (x : Flight). 1 ∷ x.run.pending) e₁),
        ap (λ (x : Flight). x.board) e₂ ∙ ap (λ (x : Flight). x.board) e₁,
        ap (λ (x : Flight). x.printed) e₂ ∙ ap (λ (x : Flight). x.printed) e₁,
      )

-- A `find_last_message` may overtake the `send_message` before it, although nothing is lost: with
-- at least two rounds, in some course of the asynchronous client with the services, the client has
-- called `send_message` in its first round and `find_last_message` in its second, the second is
-- answered while the first still waits, and what it prints is what the database held for the
-- client at the start, or the warning.
pub fly-overtaken :
    (iterations uid : ℕ) (client_id message : Text) (m : Manager) (b : Board) (p : Plan)
    → 1 < iterations
    → IsValid m
    → IsBoard b
    → IsLossless p
    → (past : List Move) × (f : Flight) × AreLossless past
      × (fly iterations uid client_id message past (take_off m b) ≡ some f)
      × (f.run.pending ≡ 0 ∷ [])
      × (f.printed
          ≡ (
            1,
            record {
              message = message_or_warning client_id (view b.backend.database client_id);
              ok = false;
              query_uid = i64_of_u64 (get_query_uid uid 1);
            },
          )
            ∷ [])
unfolding fly is_pending reply_to remove is_find
fly-overtaken iterations uid client_id message m b p two v vb lossless =
    let (f₂, ran₂, v₂, sent₂, pending₂, board₂, printed₂) =
      two_sent iterations uid client_id message m b two v vb in
    let waits : is_pending 1 f₂.sent ≡ true = rw sent₂ refl in
    let (b', e, vb', _) =
      call-lossless p lossless client_id message 1 (i64_of_u64 (get_query_uid uid 1)) f₂.board
        v₂.board in
    let (f₃, e₃, ran₃, v₃) =
      serves-IsFlight iterations uid client_id message _ f₂ v₂ 1 p _ b' waits e vb' in
    let on_way : reply_to 1 f₃.answers ≡ some _ = ap (λ (x : Flight). reply_to 1 x.answers) e₃ in
    let (c₄, f₄, e₄, ran₄, v₄) =
      receives-IsFlight iterations uid client_id message _ f₃ v₃ 1 0 _ on_way in
    (
      receives 1 0 ∷ serves 1 p ∷ sends 0 ∷ sends 0 ∷ [],
      f₄,
      (lossless, tt),
      rw (ran₂, ran₃) ran₄,
      ap (λ (x : Flight). x.run.pending) e₄
          ∙ ap (λ (x : Flight). remove 1 x.run.pending) e₃
          ∙ ap (remove 1) pending₂,
      ap (λ (x : Flight). x.printed) e₄
          ∙ ap
              (λ (x : Flight).
                (
                  1,
                  response_now client_id message (view f₂.board.backend.database client_id) 1
                      (i64_of_u64 (get_query_uid uid 1)),
                )
                ∷ x.printed)
              e₃
          ∙ rw (board₂, printed₂) refl,
    )
