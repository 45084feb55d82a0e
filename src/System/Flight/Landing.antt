-- ===== src/System/Flight/Landing.antt =====
-- Every flight can land, and a later call may overtake an earlier one.
use async_rpc_fbthrift.Common.{
  ℕ, zero, suc, ◌+◌, ◌-◌, ◌*◌, ◌≤◌, ◌<◌, true, ltb, ◌==◌, List, [], ◌∷◌, ◌++◌, some, Text,
  i64_of_u64, length, length-append, ◌≡◌, refl, ap, ◌∙◌, inl, inr, arith, ==_iff, Bool-cases,
  ltb→lt,
}
use mathlib.Core.List.{append_assoc}
use async_rpc_fbthrift.Stats.Manager.{Manager}
use async_rpc_fbthrift.Stats.Shape.{IsValid}
use async_rpc_fbthrift.Rpc.{Reply}
use async_rpc_fbthrift.Uid.Make.{get_query_uid}
use async_rpc_fbthrift.Message.Handler.{Board}
use async_rpc_fbthrift.Message.Laws.{IsBoard}
use async_rpc_fbthrift.Client.Main.{Response, is_pending, remove, is_finished, is_empty}
use async_rpc_fbthrift.Client.Successes.{one_if}
use async_rpc_fbthrift.System.Converse.{Plan}
use async_rpc_fbthrift.System.Flight.{
  Flight, Move, sends, serves, receives, reply_to, without, move, fly, take_off,
}
use async_rpc_fbthrift.System.Flight.Counts.{times, answers_to}
use async_rpc_fbthrift.System.Flight.Serve.{call-defined}
use async_rpc_fbthrift.System.Flight.Tracks.{
  IsFlight, sends-IsFlight, serves-IsFlight, receives-IsFlight,
}
use async_rpc_fbthrift.System.Flight.Laws.{fly-IsFlight}

-- What is still to be done: three moves for a round, two for a call, one for a reply.
unfoldable pub work_left : ℕ → Flight → ℕ
work_left iterations f = (iterations - f.run.next) * 3 + length f.sent * 2 + length f.answers

length-remove :
    (i : ℕ) (js : List ℕ) → is_pending i js ≡ true → length js ≡ suc (length (remove i js))
unfolding is_pending remove
length-remove i [] h = absurd (ground (arith, h))
length-remove i (j ∷ js) h = elim (Bool-cases (i == j)) [
  | inl same ↦ rw same refl
  | inr other ↦ rw other (ap suc (length-remove i js (rw other at h)))
]

length-without :
    (i : ℕ) (rs : List (ℕ × Reply Response)) (r : Reply Response)
    → reply_to i rs ≡ some r
    → length rs ≡ suc (length (without i rs))
unfolding reply_to without
length-without i [] r h = absurd (ground (arith, h))
length-without i ((j, r') ∷ rs) r h = elim (Bool-cases (i == j)) [
  | inl same ↦ rw same refl
  | inr other ↦ rw other (ap suc (length-without i rs r (rw other at h)))
]

no_times-is_empty : (js : List ℕ) → ((i : ℕ) → times i js ≡ 0) → is_empty js ≡ true
unfolding is_empty times one_if
no_times-is_empty [] h = refl
no_times-is_empty (j ∷ js) h = absurd (ground (arith, h j, (==_iff j j).1 refl))

module _ (iterations uid : ℕ) (client_id message : Text) (p : Plan) where
  -- One more move, unless the client is done.
  data Goes (past : List Move) (f : Flight) : Type 0 where
    done : is_finished iterations f.run ≡ true → Goes past f
    goes :
        (mv : Move) (f' : Flight)
        → move iterations uid client_id message mv f ≡ some f'
        → IsFlight iterations (mv ∷ past) f'
        → work_left iterations f' < work_left iterations f
        → Goes past f

  next_move :
      (past : List Move) (f : Flight) (sent : List ℕ) (answers : List (ℕ × Reply Response))
      → IsFlight iterations past f
      → f.sent ≡ sent
      → f.answers ≡ answers
      → Goes past f
  unfolding work_left is_finished times answers_to reply_to is_pending
  next_move past f sent ((i, r) ∷ rs) v es ea =
      let on_way : reply_to i f.answers ≡ some r = rw (ea, (==_iff i i).1 refl) refl in
      let (c, f', e, ran, v') =
        receives-IsFlight iterations uid client_id message past f v i 0 r on_way in
      goes (receives i 0) f' ran v' (rw e (omega (arith, length-without i f.answers r on_way)))
  next_move past f (i ∷ js) [] v es ea =
      let waits : is_pending i f.sent ≡ true = rw (es, (==_iff i i).1 refl) refl in
      let (r, b, e, vb) =
        call-defined p client_id message i (i64_of_u64 (get_query_uid uid i)) f.board v.board in
      let (f', e', ran, v') =
        serves-IsFlight iterations uid client_id message past f v i p r b waits e vb in
      goes (serves i p) f' ran v' (rw e' (omega (arith, length-remove i f.sent waits)))
  next_move past f [] [] v es ea = elim (Bool-cases (ltb f.run.next iterations)) [
    | inl left ↦
        let lt = ltb→lt f.run.next iterations left in
        let (c, f', e, ran, v') = sends-IsFlight iterations uid client_id message past f v 0 lt in
        goes (sends 0) f' ran v' (rw e (omega (arith, lt)))
    | inr over ↦
        let all : f.run.next ≡ iterations = ground (arith, over, v.bounded) in
        let idle : (i : ℕ) → times i f.run.pending ≡ 0 = λ i. v.waiting i ∙ rw (es, ea) refl in
        done (rw ((==_iff f.run.next iterations).1 all, no_times-is_empty f.run.pending idle) refl)
  ]

  lands :
      (fuel : ℕ) (past : List Move) (start f : Flight)
      → work_left iterations f ≤ fuel
      → IsFlight iterations past f
      → fly iterations uid client_id message past start ≡ some f
      → (more : List Move) × (f' : Flight) × (fly iterations uid client_id message
            (more ++ past)
            start
          ≡ some f')
        × (is_finished iterations f'.run ≡ true)
        × (length more ≤ fuel)
  unfolding fly
  lands zero past start f enough v h = elim (next_move past f f.sent f.answers v refl refl) [
    | done over ↦ ([], f, h, over, omega arith)
    | goes mv f' ran v' less ↦ absurd (omega (arith, less, enough))
  ]
  lands (suc fuel) past start f enough v h = elim (next_move past f f.sent f.answers v refl refl) [
    | done over ↦ ([], f, h, over, omega arith)
    | goes mv f' ran v' less ↦
        let (more, f'', e, over, few) =
          lands fuel (mv ∷ past) start f' (omega (arith, less, enough)) v' (rw h ran) in
        let regroup : (more ++ mv ∷ []) ++ past ≡ more ++ mv ∷ past =
          append_assoc more (mv ∷ []) past in
        (more ++ mv ∷ [], f'', rw regroup e, over, omega (arith, few, length-append more (mv ∷ [])))
  ]

-- From every state that the asynchronous client with the services can reach, whatever got lost on
-- the way, some course of at most as many moves as there is work left brings the client to its end:
-- three moves for each round that has not begun, two for each call that the message service has not
-- handled, and one for each reply on its way. The rest of the calls may be handled by any plan.
pub fly-lands :
    (iterations uid : ℕ) (client_id message : Text) (m : Manager) (b : Board) (past : List Move)
    (f : Flight) (p : Plan)
    → IsValid m
    → IsBoard b
    → fly iterations uid client_id message past (take_off m b) ≡ some f
    → (more : List Move) × (f' : Flight) × (fly iterations uid client_id message
          (more ++ past)
          (take_off m b)
        ≡ some f')
      × (is_finished iterations f'.run ≡ true)
      × (length more ≤ work_left iterations f)
fly-lands iterations uid client_id message m b past f p v vb h =
    lands iterations uid client_id message p (work_left iterations f) past (take_off m b) f
      (omega arith) (fly-IsFlight iterations uid client_id message m b v vb past f h) h
