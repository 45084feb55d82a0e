-- ===== src/System/Flight/Tracks.antt =====
-- What every move of the client with the services keeps, whatever gets lost.
use async_rpc_fbthrift.Common.{
  ℕ, ◌+◌, ◌≤◌, ◌<◌, Bool, true, false, ltb, List, [], ◌∷◌, some, Text, i64_of_u64, ◌≡◌, refl, ◌∙◌,
  arith, lt→ltb, ltb→lt, inl, inr, Bool-cases, bind-some,
}
use async_rpc_fbthrift.Stats.Manager.{Manager}
use async_rpc_fbthrift.Stats.Shape.{IsValid}
use async_rpc_fbthrift.Rpc.{Reply, value, failed}
use async_rpc_fbthrift.Uid.Make.{get_query_uid}
use async_rpc_fbthrift.Message.Handler.{Board}
use async_rpc_fbthrift.Message.Laws.{IsBoard}
use async_rpc_fbthrift.Client.Main.{Client, Response, is_pending, remove, step, start}
use async_rpc_fbthrift.Client.Successes.{
  one_if, is_kind, successes, start-issued, issued, log_call-successes, on_reply-successes,
}
use async_rpc_fbthrift.System.Converse.{Plan, call}
use async_rpc_fbthrift.System.Flight.{
  Flight, Move, sends, serves, receives, reply_to, without, print_reply, move, take_off,
}
use async_rpc_fbthrift.System.Flight.Counts.{
  times, answers_to, serves_of, times-remove, is_pending-times, answers_to-without,
}
use async_rpc_fbthrift.System.Flight.Serve.{call-defined}

-- How many responses of the kind were printed.
unfoldable pub printed_of : Bool → List (ℕ × Response) → ℕ
printed_of kind [] = 0
printed_of kind ((i, r) ∷ rs) = one_if (is_kind kind i) + printed_of kind rs

-- The call of each round so far waits at the message service or has been handled there once; each
-- call that the client waits for is there or its reply is on the way.
pub record IsFlight (iterations : ℕ) (past : List Move) (f : Flight) : Type 0 where
  pub valid : IsValid f.run.client.client_stat_manager
  pub board : IsBoard f.board
  pub bounded : f.run.next ≤ iterations
  pub handled : (i : ℕ) → times i f.sent + serves_of i past ≡ one_if (ltb i f.run.next)
  pub waiting : (i : ℕ) → times i f.run.pending ≡ times i f.sent + answers_to i f.answers
  pub counted : (kind : Bool) → successes kind f.run.client ≡ printed_of kind f.printed

pub issued-zero : (kind : Bool) → issued kind 0 ≡ 0
unfolding issued
issued-zero true = refl
issued-zero false = refl

pub take_off-IsFlight :
    (iterations : ℕ) (m : Manager) (b : Board)
    → IsValid m
    → IsBoard b
    → IsFlight iterations [] (take_off m b)
unfolding take_off start times serves_of answers_to printed_of one_if
take_off-IsFlight iterations m b v vb = record {
  valid = v;
  board = vb;
  bounded = omega arith;
  handled = λ i. ground arith;
  waiting = λ i. refl;
  counted = λ kind. start-issued kind m ∙ issued-zero kind;
}

-- Whether a move can happen.
abbrev pub Fits : ℕ → Move → Flight → Type 0
Fits iterations (sends time) f = f.run.next < iterations
Fits iterations (serves i p) f = is_pending i f.sent ≡ true
Fits iterations (receives i time) f = (r : Reply Response) × (reply_to i f.answers ≡ some r)

module _ (iterations uid : ℕ) (client_id message : Text) (past : List Move) (f : Flight)
    (v : IsFlight iterations past f) where
  pub sends-IsFlight :
      (time : ℕ)
      → f.run.next < iterations
      → (c : Client) × (f' : Flight) × (f' ≡ record f {
        run = record { client = c; next = f.run.next + 1; pending = f.run.next ∷ f.run.pending };
        sent = f.run.next ∷ f.sent;
      })
        × (move iterations uid client_id message (sends time) f ≡ some f')
        × IsFlight iterations (sends time ∷ past) f'
  unfolding move step times serves_of one_if
  sends-IsFlight time h =
      let (c, e, valid, same) = log_call-successes uid f.run.next time f.run.client v.valid in
      (
        c,
        _,
        refl,
        rw (lt→ltb f.run.next iterations h, e) refl,
        record {
          valid = valid;
          board = v.board;
          bounded = omega (arith, h);
          handled = λ i. ground (arith, v.handled i);
          waiting = λ i. ground (arith, v.waiting i);
          counted = λ kind. same kind ∙ v.counted kind;
        },
      )

  pub serves-IsFlight :
      (i : ℕ) (p : Plan) (r : Reply Response) (b : Board)
      → is_pending i f.sent ≡ true
      → call p client_id message i (i64_of_u64 (get_query_uid uid i)) f.board ≡ some (r, b)
      → IsBoard b
      → (f' : Flight) × (f'
          ≡ record f { board = b; sent = remove i f.sent; answers = (i, r) ∷ f.answers })
        × (move iterations uid client_id message (serves i p) f ≡ some f')
        × IsFlight iterations (serves i p ∷ past) f'
  unfolding move serves_of answers_to
  serves-IsFlight i p r b waits e vb = (
    _,
    refl,
    rw (waits, e) refl,
    record {
      valid = v.valid;
      board = vb;
      bounded = v.bounded;
      handled = λ j. omega (arith, v.handled j, times-remove j i f.sent waits);
      waiting = λ j. omega (arith, v.waiting j, times-remove j i f.sent waits);
      counted = v.counted;
    },
  )

  -- The client waits for a reply that is on its way.
  pub answered-is_pending :
      (i : ℕ) (r : Reply Response)
      → reply_to i f.answers ≡ some r
      → is_pending i f.run.pending ≡ true
  unfolding one_if
  answered-is_pending i r e =
      is_pending-times i f.run.pending
        (ground (arith, v.waiting i, answers_to-without i i f.answers r e))

  pub receives-IsFlight :
      (i time : ℕ) (r : Reply Response)
      → reply_to i f.answers ≡ some r
      → (c : Client) × (f' : Flight) × (f' ≡ record f {
        run = record (f.run) { client = c; pending = remove i f.run.pending };
        answers = without i f.answers;
        printed = print_reply i r f.printed;
      })
        × (move iterations uid client_id message (receives i time) f ≡ some f')
        × IsFlight iterations (receives i time ∷ past) f'
  unfolding move step serves_of printed_of
  receives-IsFlight i time (value r) e =
      let waits = answered-is_pending i (value r) e in
      let (c, e', valid, more) = on_reply-successes i time r f.run.client v.valid in
      (
        c,
        _,
        refl,
        rw (e, waits, e') refl,
        record {
          valid = valid;
          board = v.board;
          bounded = v.bounded;
          handled = v.handled;
          waiting = λ j. omega (
            arith,
            v.waiting j,
            times-remove j i f.run.pending waits,
            answers_to-without j i f.answers (value r) e,
          );
          counted = λ kind. omega (arith, more kind, v.counted kind);
        },
      )
  receives-IsFlight i time failed e =
      let waits = answered-is_pending i failed e in
      (
        f.run.client,
        _,
        refl,
        rw (e, waits) refl,
        record {
          valid = v.valid;
          board = v.board;
          bounded = v.bounded;
          handled = v.handled;
          waiting = λ j. omega (
            arith,
            v.waiting j,
            times-remove j i f.run.pending waits,
            answers_to-without j i f.answers failed e,
          );
          counted = v.counted;
        },
      )

  -- A move that can happen is defined.
  pub move-IsFlight :
      (mv : Move)
      → Fits iterations mv f
      → (f' : Flight) × (move iterations uid client_id message mv f ≡ some f')
        × IsFlight iterations (mv ∷ past) f'
  move-IsFlight (sends time) h = let (c, f', _, e, v') = sends-IsFlight time h in (f', e, v')
  move-IsFlight (serves i p) h =
      let (r, b, e, vb) =
        call-defined p client_id message i (i64_of_u64 (get_query_uid uid i)) f.board v.board in
      let (f', _, e', v') = serves-IsFlight i p r b h e vb in (f', e', v')
  move-IsFlight (receives i time) (r, h) =
      let (c, f', _, e, v') = receives-IsFlight i time r h in (f', e, v')

-- A move that has a result can happen.
pub move-Fits :
    (iterations uid : ℕ) (client_id message : Text) (mv : Move) (f f' : Flight)
    → move iterations uid client_id message mv f ≡ some f'
    → Fits iterations mv f
unfolding move step
move-Fits iterations uid client_id message (sends time) f f' h =
    elim (Bool-cases (ltb f.run.next iterations)) [
      | inl left ↦ ltb→lt f.run.next iterations left
      | inr over ↦ absurd (ground (arith, h, over))
    ]
move-Fits iterations uid client_id message (serves i p) f f' h =
    elim (Bool-cases (is_pending i f.sent)) [
      | inl waits ↦ waits
      | inr served ↦ absurd (ground (arith, h, served))
    ]
move-Fits iterations uid client_id message (receives i time) f f' h =
    let (r, e, _) = bind-some (reply_to i f.answers) _ h in (r, e)
