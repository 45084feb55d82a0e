-- ===== src/System/Flight/Laws.antt =====
-- The asynchronous client with the services, when nothing is lost.
use async_rpc_fbthrift.Common.{
  ℕ, zero, suc, ◌-◌, ◌/◌, ◌≤◌, true, false, List, [], ◌∷◌, Option, some, Text, All, All-map, ◌≡◌,
  refl, ap, subst, ◌∙◌, arith, sym, bind-some, some_inj, ==_iff,
}
use async_rpc_fbthrift.Stats.Manager.{Manager}
use async_rpc_fbthrift.Stats.Shape.{IsValid}
use async_rpc_fbthrift.Sanitize.Laws.{view}
use async_rpc_fbthrift.Message.Handler.{Board}
use async_rpc_fbthrift.Message.Laws.{IsBoard}
use async_rpc_fbthrift.Client.Main.{is_find, is_finished, is_empty, client_summary}
use async_rpc_fbthrift.Client.Laws.{pending_of-is_empty}
use async_rpc_fbthrift.Client.Successes.{one_if, issued, client_summary-issued}
use async_rpc_fbthrift.System.Rounds.{held}
use async_rpc_fbthrift.System.Flight.{Flight, Move, sends, serves, receives, fly, take_off}
use async_rpc_fbthrift.System.Flight.Counts.{times, serves_of}
use async_rpc_fbthrift.System.Flight.Serve.{held_if}
use async_rpc_fbthrift.System.Flight.Tracks.{IsFlight, move-Fits, move-IsFlight, take_off-IsFlight}
use async_rpc_fbthrift.System.Flight.Order.{AreLossless, handled_send, expected}
use async_rpc_fbthrift.System.Flight.Smooth.{IsSmooth, PrintFits, take_off-IsSmooth, move-IsSmooth}

pub AreLossless-past : (mv : Move) (past : List Move) → AreLossless (mv ∷ past) → AreLossless past
AreLossless-past (sends time) past h = h
AreLossless-past (serves i p) past h = h.1
AreLossless-past (receives i time) past h = h

module _ (iterations uid : ℕ) (client_id message : Text) (m : Manager) (b : Board) (v : IsValid m)
    (vb : IsBoard b) where
  pub fly-IsFlight :
      (past : List Move) (f : Flight)
      → fly iterations uid client_id message past (take_off m b) ≡ some f
      → IsFlight iterations past f
  unfolding fly
  fly-IsFlight [] f h =
      subst (IsFlight iterations []) (some_inj h) (take_off-IsFlight iterations m b v vb)
  fly-IsFlight (mv ∷ past) f h =
      let (f₁, e₁, last) =
        bind-some (fly iterations uid client_id message past (take_off m b)) _ h in
      let (f₂, e₂, w) =
        move-IsFlight iterations uid client_id message past f₁ (fly-IsFlight past f₁ e₁) mv
          (move-Fits iterations uid client_id message mv f₁ f last) in
      subst (IsFlight iterations (mv ∷ past)) (some_inj (sym e₂ ∙ last)) w

  pub fly-IsSmooth :
      (past : List Move) (f : Flight)
      → AreLossless past
      → fly iterations uid client_id message past (take_off m b) ≡ some f
      → IsSmooth uid client_id message (view b.backend.database client_id) past f
  unfolding fly
  fly-IsSmooth [] f lossless h =
      subst (IsSmooth uid client_id message (view b.backend.database client_id) []) (some_inj h)
        (take_off-IsSmooth uid client_id message (view b.backend.database client_id) m b refl)
  fly-IsSmooth (mv ∷ past) f lossless h =
      let (f₁, e₁, last) =
        bind-some (fly iterations uid client_id message past (take_off m b)) _ h in
      move-IsSmooth uid client_id message (view b.backend.database client_id) iterations past f₁
        (fly-IsFlight past f₁ e₁) (fly-IsSmooth past f₁ (AreLossless-past mv past lossless) e₁) mv f
        lossless last

  -- The asynchronous client, whose log is well formed, against the three services, whose logs are
  -- well formed, in any course of moves in which every request and reply is delivered. The order in
  -- which the message service handles the calls decides what the client prints: behind a
  -- `send_message` whether the message is refused; behind a `find_last_message` the client's message
  -- if it is not refused and a `send_message` was handled before this call, and else what the
  -- database held for the client at the start, or the warning; always with the query's own
  -- identifier. The database holds the message as soon as a `send_message` was handled, if it is
  -- not refused, and until then what it held at the start.
  pub fly-printed :
      (past : List Move) (f : Flight)
      → AreLossless past
      → fly iterations uid client_id message past (take_off m b) ≡ some f
      → let before = view b.backend.database client_id in
        All (λ a. a.1 ≡ expected uid client_id message before past a.0) f.printed
        × (view f.board.backend.database client_id ≡ held_if (handled_send past) message before)
  fly-printed past f lossless h =
      let s = fly-IsSmooth past f lossless h in
      (
        All-map (PrintFits uid client_id message (view b.backend.database client_id) past) _
            f.printed (λ a q. q.1) s.printed,
        s.holds,
      )

handled_send-none :
    (past : List Move) → ((i : ℕ) → serves_of i past ≡ 0) → handled_send past ≡ false
unfolding handled_send serves_of one_if
handled_send-none [] h = refl
handled_send-none (sends time ∷ past) h = handled_send-none past h
handled_send-none (serves i p ∷ past) h = absurd (ground (arith, h i, (==_iff i i).1 refl))
handled_send-none (receives i time ∷ past) h = handled_send-none past h

handled_send-first : (past : List Move) → 1 ≤ serves_of 0 past → handled_send past ≡ true
unfolding handled_send serves_of one_if is_find
handled_send-first [] h = absurd (omega (arith, h))
handled_send-first (sends time ∷ past) h = handled_send-first past h
handled_send-first (serves i p ∷ past) h = ground (arith, h, handled_send-first past)
handled_send-first (receives i time ∷ past) h = handled_send-first past h

times-is_empty : (i : ℕ) (js : List ℕ) → is_empty js ≡ true → times i js ≡ 0
unfolding is_empty times
times-is_empty i [] h = refl
times-is_empty i (j ∷ js) h = absurd (ground (arith, h))

-- What the database holds at the end.
held_if-held :
    (iterations : ℕ) (past : List Move) (f : Flight) (message : Text) (before : Option Text)
    → IsFlight iterations past f
    → is_finished iterations f.run ≡ true
    → held_if (handled_send past) message before ≡ held message before iterations
unfolding is_finished one_if
held_if-held zero past f message before v over =
    let unserved : (i : ℕ) → serves_of i past ≡ 0 = λ i. ground (arith, over, v.handled i) in
    rw (handled_send-none past unserved) refl
held_if-held (suc n) past f message before v over =
    let empty = times-is_empty 0 f.run.pending (ground (arith, over)) in
    let served : 1 ≤ serves_of 0 past = ground (arith, over, v.handled 0, v.waiting 0, empty) in
    rw (handled_send-first past served) (ground arith)

-- When the asynchronous client, whose log is well formed, comes to its end against the three
-- services, whose logs are well formed, and every request and reply is delivered: in whichever
-- order the calls were handled and the replies came in, its summary counts every call as
-- successful, and the database holds for the client what the synchronous client would leave there:
-- the message, if there was a round and it is not refused, and else what it held before.
pub fly-finished :
    (iterations uid : ℕ) (client_id message : Text) (m : Manager) (b : Board) (past : List Move)
    (f : Flight)
    → IsValid m
    → IsBoard b
    → AreLossless past
    → fly iterations uid client_id message past (take_off m b) ≡ some f
    → is_finished iterations f.run ≡ true
    → (client_summary f.run.client iterations ≡ record {
      send_successes = iterations - iterations / 2;
      send_iterations = iterations - iterations / 2;
      find_successes = iterations / 2;
      find_iterations = iterations / 2;
    })
      × (view f.board.backend.database client_id
          ≡ held message (view b.backend.database client_id) iterations)
unfolding is_finished
fly-finished iterations uid client_id message m b past f v vb lossless h over =
    let w = fly-IsFlight iterations uid client_id message m b v vb past f h in
    let s = fly-IsSmooth iterations uid client_id message m b v vb past f lossless h in
    let all : f.run.next ≡ iterations = ground (arith, over) in
    let empty : is_empty f.run.pending ≡ true = ground (arith, over) in
    (
      client_summary-issued f.run.client iterations (λ kind.
          w.counted kind
          ∙ omega (arith, s.complete kind, pending_of-is_empty kind f.run.pending empty)
          ∙ ap (issued kind) all),
      s.holds ∙ held_if-held iterations past f message (view b.backend.database client_id) w over,
    )
