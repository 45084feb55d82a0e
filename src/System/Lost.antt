-- ===== src/System/Lost.antt =====
-- The synchronous client when one of its calls fails.
use async_rpc_fbthrift.Common.{
  ℕ, zero, suc, ◌+◌, ◌<◌, Bool, Bool-cases, true, List, [], Option, some, Text, ℤ, ◌≡◌, ◌≢◌, ◌⊎◌,
  refl, sym, subst, inl, inr, arith,
}
use async_rpc_fbthrift.Stats.Csv.{Files, write_file}
use async_rpc_fbthrift.Stats.Manager.{erase_previous}
use async_rpc_fbthrift.Rpc.{failed, Delivery, delivered, request_lost, reply_lost, remote}
use async_rpc_fbthrift.Uid.Make.{Address, generate_local_uid}
use async_rpc_fbthrift.Sanitize.Laws.{view}
use async_rpc_fbthrift.Message.Handler.{Board}
use async_rpc_fbthrift.Message.Laws.{IsBoard, send_message-defined, find_last_message-board}
use async_rpc_fbthrift.Client.Main.{is_find, start}
use async_rpc_fbthrift.Client.Successes.{log_call-successes, start-issued}
use async_rpc_fbthrift.System.Converse.{System, Plan, call, replied, round, converse}
use async_rpc_fbthrift.System.Rounds.{IsLossless}
use async_rpc_fbthrift.System.Courses.{InFront, round-InFront, sent_uid}
use async_rpc_fbthrift.System.Process.{
  stats_file, client_stats, Numbers, Arguments, read_arguments, finish_main, run_main, client_main,
}
use async_rpc_fbthrift.System.File.{client_stats-IsValid}

lost-cases : (d : Delivery) → d ≢ delivered → (d ≡ request_lost) ⊎ (d ≡ reply_lost)
lost-cases delivered h = absurd (h refl)
lost-cases request_lost h = inl refl
lost-cases reply_lost h = inr refl

-- A call that is not delivered.
call-lost :
    (p : Plan) (client_id message : Text) (i : ℕ) (uid : ℤ) (b : Board)
    → p.to_service ≢ delivered
    → IsBoard b
    → (b' : Board) × (call p client_id message i uid b ≡ some (failed, b'))
unfolding call remote
call-lost p client_id message i uid b lost v =
    let (b₁, e₁, _, _) = send_message-defined p.build p.tid p.course client_id message uid b v in
    let (b₂, e₂, _, _) =
      find_last_message-board p.build p.course.to_mock p.tid p.course.times p.course.mock_times
        client_id uid b v in
    elim (lost-cases p.to_service lost) [
      | inl e ↦ elim (Bool-cases (is_find i)) [
        | inl find ↦ (b, rw (find, e) refl)
        | inr send ↦ (b, rw (send, e) refl)
      ]
      | inr e ↦ elim (Bool-cases (is_find i)) [
        | inl find ↦ (b₂, rw (find, e, e₂) refl)
        | inr send ↦ (b₁, rw (send, e, e₁) refl)
      ]
    ]

module _ (localhost : Bool) (hash : ℕ) (a : Address) (rand : ℕ) (plan : ℕ → Plan)
    (client_id message : Text) (before : Option Text) where
  round-lost :
      (i : ℕ) (s : System)
      → (plan i).to_service ≢ delivered
      → InFront localhost hash a rand plan client_id message before i s
      → (s' : System) × (round
            (plan i)
            (generate_local_uid localhost hash a rand)
            client_id
            message
            i
            s
          ≡ some (failed, s'))
  unfolding round replied
  round-lost i s lost v =
      let (c, e, _, _) =
        log_call-successes (generate_local_uid localhost hash a rand) i (plan i).call_time s.client
          v.valid in
      let (b, e') =
        call-lost (plan i) client_id message i (sent_uid localhost hash a rand i) s.board lost
          v.board in
      (record { client = c; board = b }, rw (e, e') refl)

  converse-lost :
      (k rounds i t : ℕ) (s : System)
      → k < rounds
      → i + k ≡ t
      → ((j : ℕ) → j < t → IsLossless (plan j))
      → (plan t).to_service ≢ delivered
      → InFront localhost hash a rand plan client_id message before i s
      → (s' : System) × (converse rounds plan
            (generate_local_uid localhost hash a rand)
            client_id
            message
            i
            s
          ≡ some (failed, s'))
  unfolding converse
  converse-lost k zero i t s room at lossless lost v = absurd (omega arith)
  converse-lost zero (suc rounds) i t s room at lossless lost v =
      let here : i ≡ t = omega arith in
      let (s', e) =
        round-lost i s (subst (λ j. (plan j).to_service ≢ delivered) (sym here) lost) v in
      (s', rw e refl)
  converse-lost (suc k) (suc rounds) i t s room at lossless lost v =
      let (s₁, e₁, v₁, _, _) =
        round-InFront localhost hash a rand plan client_id message before i s
          (lossless i (omega arith)) v in
      let (s₂, e₂) =
        converse-lost k rounds (i + 1) t s₁ (omega arith) (omega arith) lossless lost v₁ in
      (s₂, rw (e₁, e₂) refl)

-- A call of the synchronous client that fails costs all its statistics: when the arguments can be
-- converted, every request and reply is delivered up to round k, and the call of round k is not,
-- the process ends with the exception, without a summary, and its statistics file is empty,
-- whatever stood there before and however many rounds were logged.
pub client_main-lost :
    (numbers : Numbers) (fs : Files) (argv : List Text) (args : Arguments numbers) (plan : ℕ → Plan)
    (localhost : Bool) (hash : ℕ) (a : Address) (rand k : ℕ) (b : Board)
    → read_arguments numbers argv ≡ some args
    → k < args.iterations
    → ((j : ℕ) → j < k → IsLossless (plan j))
    → (plan k).to_service ≢ delivered
    → IsBoard b
    → (fs' : Files) × (b' : Board) × (client_main numbers fs argv plan
          (generate_local_uid localhost hash a rand)
          b
        ≡ some (failed, fs', b'))
      × (fs' stats_file ≡ [])
unfolding client_main run_main finish_main erase_previous write_file start
client_main-lost numbers fs argv args plan localhost hash a rand k b parsed room lossless lost vb =
    let before = view b.backend.database args.client_id in
    let (s, e) =
      converse-lost localhost hash a rand plan args.client_id args.message before k args.iterations
        0 k (record { client = (start client_stats).client; board = b }) room (omega arith) lossless
        lost
        (record {
          valid = client_stats-IsValid;
          board = vb;
          holds = refl;
          counted = λ kind. start-issued kind client_stats;
        }) in
    (erase_previous fs stats_file true, s.board, rw (parsed, e) refl, refl)
