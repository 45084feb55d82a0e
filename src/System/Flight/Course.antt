-- ===== src/System/Flight/Course.antt =====
-- What a course of moves makes of the client's rounds and entries, and how each kind of move
-- changes the client.
use async_rpc_fbthrift.Common.{
  ℕ, ◌+◌, Bool-cases, ltb, List, [], ◌∷◌, ◌++◌, some, Text, ℤ, Option, i64_of_u64, u64_of_i64, ◌≡◌,
  refl, sym, ap, ◌∙◌, arith, inl, inr, bind-some, some_inj,
}
use async_rpc_fbthrift.Stats.Manager.{Manager, add_entry}
use async_rpc_fbthrift.Stats.Retention.{Entry, add_entries}
use async_rpc_fbthrift.Uid.Make.{get_query_uid}
use async_rpc_fbthrift.Client.Main.{
  Run, Response, calls, replies, is_find, is_pending, step, log_call, on_reply,
}
use async_rpc_fbthrift.System.Converse.{Plan, call}
use async_rpc_fbthrift.System.Talk.{log_call-logs, on_reply-logs}
use async_rpc_fbthrift.System.Journal.{add_entries-both}
use async_rpc_fbthrift.System.Flight.{Flight, Move, sends, serves, receives, move}
use async_rpc_fbthrift.System.Flight.Serve.{response_now}

-- The rounds that a course begins, and the entries that it makes, in their order.
unfoldable pub rounds_begun : List Move → ℕ
rounds_begun [] = 0
rounds_begun (sends time ∷ past) = rounds_begun past + 1
rounds_begun (serves i p ∷ past) = rounds_begun past
rounds_begun (receives i time ∷ past) = rounds_begun past

unfoldable pub course_entries : ℕ → List Move → List Entry
unfolding rounds_begun
course_entries uid [] = []
course_entries uid (sends time ∷ past) =
    course_entries uid past ++ (get_query_uid uid (rounds_begun past), time) ∷ []
course_entries uid (serves i p ∷ past) = course_entries uid past
course_entries uid (receives i time ∷ past) =
    course_entries uid past ++ (get_query_uid uid i, time) ∷ []

pub step-calls :
    (iterations uid time : ℕ) (r r' : Run)
    → step iterations uid (calls time) r ≡ some r'
    → (add_entry r.client.client_stat_manager (get_query_uid uid r.next) time
        ≡ some r'.client.client_stat_manager)
      × (r'.next ≡ r.next + 1)
unfolding step
step-calls iterations uid time r r' h = elim (Bool-cases (ltb r.next iterations)) [
  | inr over ↦ absurd (ground (arith, h, over))
  | inl left ↦
      let (c, e, last) = bind-some (log_call uid r.next time r.client) _ (rw left at h) in
      let same = some_inj last in
      (
        log_call-logs uid r.next time r.client c e
            ∙ ap (λ (x : Run). some x.client.client_stat_manager) same,
        sym (ap (λ (x : Run). x.next) same),
      )
]

pub step-replies :
    (iterations uid i time : ℕ) (resp : Response) (r r' : Run)
    → step iterations uid (replies i time resp) r ≡ some r'
    → (add_entry r.client.client_stat_manager (u64_of_i64 resp.query_uid) time
        ≡ some r'.client.client_stat_manager)
      × (r'.next ≡ r.next)
unfolding step
step-replies iterations uid i time resp r r' h = elim (Bool-cases (is_pending i r.pending)) [
  | inr over ↦ absurd (ground (arith, h, over))
  | inl waits ↦
      let (c, e, last) = bind-some (on_reply i time resp r.client) _ (rw waits at h) in
      let same = some_inj last in
      (
        on_reply-logs i time resp r.client c e
            ∙ ap (λ (x : Run). some x.client.client_stat_manager) same,
        sym (ap (λ (x : Run). x.next) same),
      )
]

pub response_now-query_uid :
    (client_id message : Text) (held : Option Text) (i : ℕ) (uid : ℤ)
    → (response_now client_id message held i uid).query_uid ≡ uid
response_now-query_uid client_id message held i uid = elim (Bool-cases (is_find i)) [
  | inl find ↦ rw find refl
  | inr send ↦ rw send refl
]

pub add_one :
    (m m₁ m₂ : Manager) (xs : List Entry) (q t : ℕ)
    → add_entries m xs ≡ some m₁
    → add_entry m₁ q t ≡ some m₂
    → add_entries m (xs ++ (q, t) ∷ []) ≡ some m₂
unfolding add_entries
add_one m m₁ m₂ xs q t e₁ e₂ = add_entries-both m m₁ m₂ xs ((q, t) ∷ []) e₁ (rw e₂ refl)

pub serves-run :
    (iterations uid : ℕ) (client_id message : Text) (i : ℕ) (p : Plan) (f f' : Flight)
    → move iterations uid client_id message (serves i p) f ≡ some f'
    → f.run ≡ f'.run
unfolding move
serves-run iterations uid client_id message i p f f' h = elim (Bool-cases (is_pending i f.sent)) [
  | inr served ↦ absurd (ground (arith, h, served))
  | inl waits ↦
      let (out, e, last) =
        bind-some (call p client_id message i (i64_of_u64 (get_query_uid uid i)) f.board) _
          (rw waits at h) in
      ap (λ (x : Flight). x.run) (some_inj last)
]
