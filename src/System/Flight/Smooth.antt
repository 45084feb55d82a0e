-- ===== src/System/Flight/Smooth.antt =====
-- What every move of the client with the services keeps, when nothing is lost.
use async_rpc_fbthrift.Common.{
  ℕ, ◌+◌, ◌≤◌, Bool, true, false, not, ◌==◌, ==_iff, List, [], ◌∷◌, Option, some, Text, i64_of_u64,
  All, All-map, ◌≡◌, refl, sym, ap, subst, ◌∙◌, arith, inl, inr, Bool-cases, some_inj,
}
use async_rpc_fbthrift.Stats.Manager.{Manager}
use async_rpc_fbthrift.Rpc.{Reply, value}
use async_rpc_fbthrift.Uid.Make.{get_query_uid}
use async_rpc_fbthrift.Sanitize.Laws.{view}
use async_rpc_fbthrift.Message.Handler.{Board}
use async_rpc_fbthrift.Client.Main.{Response, is_find, is_pending, start}
use async_rpc_fbthrift.Client.Laws.{pending_of-remove}
use async_rpc_fbthrift.Client.Successes.{one_if, pending_of, issued, issued-suc}
use async_rpc_fbthrift.System.Converse.{Plan}
use async_rpc_fbthrift.System.Rounds.{IsLossless}
use async_rpc_fbthrift.System.Flight.{
  Flight, Move, sends, serves, receives, reply_to, without, move, take_off,
}
use async_rpc_fbthrift.System.Flight.Counts.{times, serves_of, times-is_pending}
use async_rpc_fbthrift.System.Flight.Serve.{held_if, response_now, call-lossless}
use async_rpc_fbthrift.System.Flight.Tracks.{
  IsFlight, printed_of, issued-zero, answered-is_pending, sends-IsFlight, serves-IsFlight,
  receives-IsFlight, move-Fits,
}
use async_rpc_fbthrift.System.Flight.Order.{
  AreLossless, handled_send, send_before, expected, held_if-held_if,
}

pub All-without {κ} :
    (P : ℕ × Reply Response → Type κ) (i : ℕ) (rs : List (ℕ × Reply Response))
    → All P rs
    → All P (without i rs)
unfolding without
All-without P i [] h = h
All-without P i ((j, r) ∷ rs) h = elim (Bool-cases (i == j)) [
  | inl same ↦ rw same (h.1)
  | inr other ↦ rw other (h.0, All-without P i rs h.1)
]

pub All-reply_to {κ} :
    (P : ℕ × Reply Response → Type κ) (i : ℕ) (rs : List (ℕ × Reply Response)) (r : Reply Response)
    → All P rs
    → reply_to i rs ≡ some r
    → P (i, r)
unfolding reply_to
All-reply_to P i [] r h e = absurd (ground (arith, e))
All-reply_to P i ((j, r') ∷ rs) r h e = elim (Bool-cases (i == j)) [
  | inl same ↦
      let at_i : j ≡ i = sym ((==_iff i j).0 same) in
      let at_r : r' ≡ r = some_inj (rw same at e) in
      subst (λ k. P (k, r)) at_i (subst (λ x. P (j, x)) at_r h.0)
  | inr other ↦ All-reply_to P i rs r h.1 (rw other at e)
]

module _ (uid : ℕ) (client_id message : Text) (before : Option Text) where
  abbrev pub AnswerFits : List Move → ℕ × Reply Response → Type 0
  AnswerFits past a =
      (1 ≤ serves_of a.0 past) × (a.1 ≡ value (expected uid client_id message before past a.0))

  abbrev pub PrintFits : List Move → ℕ × Response → Type 0
  PrintFits past a =
      (1 ≤ serves_of a.0 past) × (a.1 ≡ expected uid client_id message before past a.0)

  pub record IsSmooth (past : List Move) (f : Flight) : Type 0 where
    pub holds : view f.board.backend.database client_id ≡ held_if (handled_send past) message before
    pub answers : All (AnswerFits past) f.answers
    pub printed : All (PrintFits past) f.printed
    pub complete :
        (kind : Bool)
        → printed_of kind f.printed + pending_of kind f.run.pending ≡ issued kind f.run.next

  pub take_off-IsSmooth :
      (m : Manager) (b : Board)
      → before ≡ view b.backend.database client_id
      → IsSmooth [] (take_off m b)
  unfolding take_off start handled_send printed_of pending_of
  take_off-IsSmooth m b e = record {
    holds = sym e;
    answers = tt;
    printed = tt;
    complete = λ kind. sym (issued-zero kind);
  }

  -- A call that waits has not been handled.
  pub other-round :
      (iterations i j : ℕ) (past : List Move) (f : Flight)
      → IsFlight iterations past f
      → is_pending i f.sent ≡ true
      → 1 ≤ serves_of j past
      → (j == i) ≡ false
  unfolding one_if
  other-round iterations i j past f v waits old = elim (Bool-cases (j == i)) [
    | inl same ↦
        let at_j : i ≡ j = sym ((==_iff j i).0 same) in
        let held = subst (λ k. 1 ≤ times k f.sent) at_j (times-is_pending i f.sent waits) in
        absurd (ground (arith, held, old, v.handled j))
    | inr other ↦ other
  ]

  module _ (iterations : ℕ) (past : List Move) (f : Flight) (v : IsFlight iterations past f)
      (s : IsSmooth past f) where
    -- What was handled before stays as it was.
    handled-before :
        (i j : ℕ) (p : Plan)
        → is_pending i f.sent ≡ true
        → 1 ≤ serves_of j past
        → (1 ≤ serves_of j (serves i p ∷ past))
          × (expected uid client_id message before (serves i p ∷ past) j
              ≡ expected uid client_id message before past j)
    unfolding send_before serves_of
    handled-before i j p waits old =
        (omega (arith, old), rw (other-round iterations i j past f v waits old) refl)

    serves-IsSmooth :
        (i : ℕ) (p : Plan) (f' : Flight)
        → IsLossless p
        → move iterations uid client_id message (serves i p) f ≡ some f'
        → is_pending i f.sent ≡ true
        → IsSmooth (serves i p ∷ past) f'
    unfolding handled_send send_before serves_of one_if
    serves-IsSmooth i p f' lossless h waits =
        let (b, e, vb, held) =
          call-lossless p lossless client_id message i (i64_of_u64 (get_query_uid uid i)) f.board
            v.board in
        let (f₁, e₁, ran, _) =
          serves-IsFlight iterations uid client_id message past f v i p _ b waits e vb in
        let self : (i == i) ≡ true = (==_iff i i).1 refl in
        let new : AnswerFits (serves i p ∷ past) (
          i,
          value (
              response_now client_id message (view f.board.backend.database client_id) i
                (i64_of_u64 (get_query_uid uid i))),
        ) =
          (rw self (omega arith), rw (self, s.holds) refl) in
        subst (IsSmooth (serves i p ∷ past)) (sym (some_inj (sym h ∙ ran) ∙ e₁)) (record {
          holds =
              held
              ∙ ap (held_if (not (is_find i)) message) s.holds
              ∙ held_if-held_if (not (is_find i)) (handled_send past) message before;
          answers = (
            new,
            All-map (AnswerFits past) (AnswerFits (serves i p ∷ past)) f.answers
                (λ a q.
                  let (old, same) = handled-before i (a.0) p waits (q.0) in
                  (old, q.1 ∙ ap value (sym same)))
                s.answers,
          );
          printed =
              All-map (PrintFits past) (PrintFits (serves i p ∷ past)) f.printed
                (λ a q.
                  let (old, same) = handled-before i (a.0) p waits (q.0) in (old, q.1 ∙ sym same))
                s.printed;
          complete = s.complete;
        })

    pub move-IsSmooth :
        (mv : Move) (f' : Flight)
        → AreLossless (mv ∷ past)
        → move iterations uid client_id message mv f ≡ some f'
        → IsSmooth (mv ∷ past) f'
    unfolding handled_send send_before serves_of printed_of pending_of
    move-IsSmooth (sends time) f' lossless h =
        let (c, f₁, e₁, ran, _) =
          sends-IsFlight iterations uid client_id message past f v time
            (move-Fits iterations uid client_id message (sends time) f f' h) in
        subst (IsSmooth (sends time ∷ past)) (sym (some_inj (sym h ∙ ran) ∙ e₁)) (record {
          holds = s.holds;
          answers = s.answers;
          printed = s.printed;
          complete = λ kind. omega (arith, s.complete kind, issued-suc kind f.run.next);
        })
    move-IsSmooth (serves i p) f' lossless h =
        serves-IsSmooth i p f' lossless.0 h
          (move-Fits iterations uid client_id message (serves i p) f f' h)
    move-IsSmooth (receives i time) f' lossless h =
        let (r, e) = move-Fits iterations uid client_id message (receives i time) f f' h in
        let (c, f₁, e₁, ran, _) =
          receives-IsFlight iterations uid client_id message past f v i time r e in
        let (old, same) = All-reply_to (AnswerFits past) i f.answers r s.answers e in
        subst (IsSmooth (receives i time ∷ past)) (sym (some_inj (sym h ∙ ran) ∙ e₁)) (record {
          holds = s.holds;
          answers = All-without (AnswerFits past) i f.answers s.answers;
          printed = rw same ((old, refl), s.printed);
          complete = λ kind. rw same (
              omega (
                arith,
                s.complete kind,
                pending_of-remove kind i f.run.pending
                    (answered-is_pending iterations uid client_id message past f v i r e),
              ));
        })
