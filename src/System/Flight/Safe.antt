-- ===== src/System/Flight/Safe.antt =====
-- What every move keeps of the responses that the client can get, whatever gets lost.
use async_rpc_fbthrift.Common.{
  ℕ, ◌≤◌, Bool, true, false, not, ◌||◌, ◌==◌, ==_iff, List, ◌∷◌, Option, some, Text, i64_of_u64,
  All, All-map, ◌≡◌, ◌⊎◌, refl, sym, ap, subst, ◌∙◌, inl, inr, arith, some_inj,
}
use async_rpc_fbthrift.Rpc.{Reply, value, failed}
use async_rpc_fbthrift.Uid.Make.{get_query_uid}
use async_rpc_fbthrift.Sanitize.Laws.{view}
use async_rpc_fbthrift.Client.Main.{Response, is_find, is_pending}
use async_rpc_fbthrift.Client.Successes.{one_if}
use async_rpc_fbthrift.System.Converse.{Plan}
use async_rpc_fbthrift.System.Flight.{
  Flight, Move, sends, serves, receives, without, print_reply, move,
}
use async_rpc_fbthrift.System.Flight.Counts.{serves_of}
use async_rpc_fbthrift.System.Flight.Serve.{held_if, response_now}
use async_rpc_fbthrift.System.Flight.Answers.{call-Answered}
use async_rpc_fbthrift.System.Flight.Tracks.{
  IsFlight, sends-IsFlight, serves-IsFlight, receives-IsFlight, move-Fits,
}
use async_rpc_fbthrift.System.Flight.Order.{handled_send, send_before, held_if-held_if}
use async_rpc_fbthrift.System.Flight.Smooth.{All-without, All-reply_to, other-round}

sent_or :
    (i : ℕ) (a b : Bool) (past : List Move)
    → (a ≡ true → is_find i ≡ false)
    → (b ≡ true → handled_send past ≡ true)
    → a || b ≡ true
    → (not (is_find i) || handled_send past) ≡ true
sent_or i true b past here before h = rw (here refl) refl
sent_or i false b past here before h = ground (arith, before h)

module _ (uid : ℕ) (client_id message : Text) (before : Option Text) where
  -- A response that the query of round i can have: as the database held the client's message or
  -- what was there before, the message only if a `send_message` was handled before.
  pub record CanGet (past : List Move) (i : ℕ) (r : Response) : Type 0 where
    pub handled : Bool
    pub response :
        r
        ≡ response_now client_id message
            (held_if handled message before)
            i
            (i64_of_u64 (get_query_uid uid i))
    pub by_send : handled ≡ true → send_before i past ≡ true

  abbrev pub AnswerCan : List Move → ℕ × Reply Response → Type 0
  AnswerCan past a =
      (1 ≤ serves_of a.0 past)
      × ((a.1 ≡ failed) ⊎ ((r : Response) × (a.1 ≡ value r) × CanGet past a.0 r))

  abbrev pub PrintCan : List Move → ℕ × Response → Type 0
  PrintCan past a = (1 ≤ serves_of a.0 past) × CanGet past a.0 a.1

  pub record IsSafe (past : List Move) (f : Flight) : Type 0 where
    pub handled : Bool
    pub holds : view f.board.backend.database client_id ≡ held_if handled message before
    pub by_send : handled ≡ true → handled_send past ≡ true
    pub answers : All (AnswerCan past) f.answers
    pub printed : All (PrintCan past) f.printed

  -- A move in between that handles no call.
  CanGet-later :
      (past past' : List Move) (i : ℕ) (r : Response)
      → send_before i past' ≡ send_before i past
      → CanGet past i r
      → CanGet past' i r
  CanGet-later past past' i r same c = record {
    handled = c.handled;
    response = c.response;
    by_send = λ h. same ∙ c.by_send h;
  }

  AnswerCan-later :
      (past past' : List Move) (a : ℕ × Reply Response)
      → send_before a.0 past' ≡ send_before a.0 past
      → serves_of a.0 past' ≡ serves_of a.0 past
      → AnswerCan past a
      → AnswerCan past' a
  AnswerCan-later past past' a same times (old, inl lost) = (omega (arith, old, times), inl lost)
  AnswerCan-later past past' a same times (old, inr (r, e, c)) =
      (omega (arith, old, times), inr (r, e, CanGet-later past past' (a.0) r same c))

  PrintCan-later :
      (past past' : List Move) (a : ℕ × Response)
      → send_before a.0 past' ≡ send_before a.0 past
      → serves_of a.0 past' ≡ serves_of a.0 past
      → PrintCan past a
      → PrintCan past' a
  PrintCan-later past past' a same times (old, c) =
      (omega (arith, old, times), CanGet-later past past' (a.0) (a.1) same c)

  -- What is printed of a reply that is received.
  PrintCan-print_reply :
      (past : List Move) (i : ℕ) (r : Reply Response) (rs : List (ℕ × Response))
      → AnswerCan past (i, r)
      → All (PrintCan past) rs
      → All (PrintCan past) (print_reply i r rs)
  PrintCan-print_reply past i r rs (old, inl lost) printed = rw lost printed
  PrintCan-print_reply past i r rs (old, inr (x, e, c)) printed = rw e ((old, c), printed)

  module _ (iterations : ℕ) (past : List Move) (f : Flight) (v : IsFlight iterations past f)
      (s : IsSafe past f) where
    -- What was handled before stays as it was.
    CanGet-serves :
        (i j : ℕ) (p : Plan) (r : Response)
        → is_pending i f.sent ≡ true
        → 1 ≤ serves_of j past
        → CanGet past j r
        → (1 ≤ serves_of j (serves i p ∷ past)) × CanGet (serves i p ∷ past) j r
    unfolding send_before serves_of
    CanGet-serves i j p r waits old c =
        let other = other-round uid client_id message before iterations i j past f v waits old in
        (
          omega (arith, old),
          record {
            handled = c.handled;
            response = c.response;
            by_send = λ h. rw other (c.by_send h);
          },
        )

    AnswerCan-serves :
        (i : ℕ) (p : Plan) (a : ℕ × Reply Response)
        → is_pending i f.sent ≡ true
        → AnswerCan past a
        → AnswerCan (serves i p ∷ past) a
    unfolding serves_of
    AnswerCan-serves i p a waits (old, inl lost) = (omega (arith, old), inl lost)
    AnswerCan-serves i p a waits (old, inr (r, e, c)) =
        let (old', c') = CanGet-serves i (a.0) p r waits old c in (old', inr (r, e, c'))

    serves-IsSafe :
        (i : ℕ) (p : Plan) (f' : Flight)
        → move iterations uid client_id message (serves i p) f ≡ some f'
        → is_pending i f.sent ≡ true
        → IsSafe (serves i p ∷ past) f'
    unfolding handled_send send_before serves_of one_if
    serves-IsSafe i p f' h waits =
        let (r, b, e, w) =
          call-Answered p client_id message i (i64_of_u64 (get_query_uid uid i)) f.board v.board in
        let (f₁, e₁, ran, _) =
          serves-IsFlight iterations uid client_id message past f v i p r b waits e w.board in
        let self : (i == i) ≡ true = (==_iff i i).1 refl in
        let now : Response =
          response_now client_id message (view f.board.backend.database client_id) i
            (i64_of_u64 (get_query_uid uid i)) in
        let new : CanGet (serves i p ∷ past) i now = record {
          handled = s.handled;
          response = rw s.holds refl;
          by_send = λ h. rw self (s.by_send h);
        } in
        let answer : (r ≡ failed)
            ⊎ ((x : Response) × (r ≡ value x) × CanGet (serves i p ∷ past) i x) =
          elim w.reply [ inl lost ↦ inl lost | inr known ↦ inr (now, known, new) ] in
        subst (IsSafe (serves i p ∷ past)) (sym (some_inj (sym h ∙ ran) ∙ e₁)) (record {
          handled = w.stored || s.handled;
          holds =
              w.held
              ∙ ap (held_if w.stored message) s.holds
              ∙ held_if-held_if w.stored s.handled message before;
          by_send = λ h'. sent_or i w.stored s.handled past w.by_send s.by_send h';
          answers = (
            (rw self (omega arith), answer),
            All-map (AnswerCan past) (AnswerCan (serves i p ∷ past)) f.answers
                (λ a q. AnswerCan-serves i p a waits q) s.answers,
          );
          printed =
              All-map (PrintCan past) (PrintCan (serves i p ∷ past)) f.printed
                (λ a q. CanGet-serves i (a.0) p (a.1) waits (q.0) (q.1)) s.printed;
        })

    pub move-IsSafe :
        (mv : Move) (f' : Flight)
        → move iterations uid client_id message mv f ≡ some f'
        → IsSafe (mv ∷ past) f'
    unfolding handled_send send_before serves_of
    move-IsSafe (sends time) f' h =
        let (c, f₁, e₁, ran, _) =
          sends-IsFlight iterations uid client_id message past f v time
            (move-Fits iterations uid client_id message (sends time) f f' h) in
        subst (IsSafe (sends time ∷ past)) (sym (some_inj (sym h ∙ ran) ∙ e₁)) (record {
          handled = s.handled;
          holds = s.holds;
          by_send = s.by_send;
          answers =
              All-map (AnswerCan past) (AnswerCan (sends time ∷ past)) f.answers
                (λ a q. AnswerCan-later past (sends time ∷ past) a refl refl q) s.answers;
          printed =
              All-map (PrintCan past) (PrintCan (sends time ∷ past)) f.printed
                (λ a q. PrintCan-later past (sends time ∷ past) a refl refl q) s.printed;
        })
    move-IsSafe (serves i p) f' h =
        serves-IsSafe i p f' h (move-Fits iterations uid client_id message (serves i p) f f' h)
    move-IsSafe (receives i time) f' h =
        let (r, e) = move-Fits iterations uid client_id message (receives i time) f f' h in
        let (c, f₁, e₁, ran, _) =
          receives-IsFlight iterations uid client_id message past f v i time r e in
        let new = receives i time ∷ past in
        let got : AnswerCan past (i, r) = All-reply_to (AnswerCan past) i f.answers r s.answers e in
        subst (IsSafe new) (sym (some_inj (sym h ∙ ran) ∙ e₁)) (record {
          handled = s.handled;
          holds = s.holds;
          by_send = s.by_send;
          answers =
              All-map (AnswerCan past) (AnswerCan new) (without i f.answers)
                (λ a q. AnswerCan-later past new a refl refl q)
                (All-without (AnswerCan past) i f.answers s.answers);
          printed =
              All-map (PrintCan past) (PrintCan new) (print_reply i r f.printed)
                (λ a q. PrintCan-later past new a refl refl q)
                (PrintCan-print_reply past i r f.printed got s.printed);
        })
