-- ===== src/System/Flight/Journal.antt =====
-- What a course of moves leaves in the client's log, when nothing is lost.
use async_rpc_fbthrift.Common.{
  ℕ, ◌+◌, Bool, List, [], ◌∷◌, some, Text, Option, i64_of_u64, u64_of_i64, ◌≡◌, sym, ap, subst, ◌∙◌,
  bind-some, some_inj,
}
use async_rpc_fbthrift.Stats.Manager.{Manager, add_entry}
use async_rpc_fbthrift.Stats.Shape.{IsValid}
use async_rpc_fbthrift.Stats.Retention.{add_entries}
use async_rpc_fbthrift.Uid.Make.{Address, generate_local_uid, get_query_uid}
use async_rpc_fbthrift.Uid.Laws.{get_query_uid-fields}
use async_rpc_fbthrift.Sanitize.Laws.{view}
use async_rpc_fbthrift.Message.Handler.{Board}
use async_rpc_fbthrift.Message.Laws.{IsBoard}
use async_rpc_fbthrift.Client.Main.{Run, calls, step, start}
use async_rpc_fbthrift.System.Converse.{Plan}
use async_rpc_fbthrift.System.Flight.{
  Flight, Move, sends, serves, receives, reply_to, event_of, move, fly, take_off,
}
use async_rpc_fbthrift.System.Flight.Order.{AreLossless, expected}
use async_rpc_fbthrift.System.Flight.Smooth.{IsSmooth, AnswerFits, All-reply_to}
use async_rpc_fbthrift.System.Flight.Laws.{fly-IsSmooth, AreLossless-past}
use async_rpc_fbthrift.System.Flight.Course.{
  rounds_begun, course_entries, step-calls, step-replies, response_now-query_uid, add_one,
  serves-run,
}

-- The client's log, as far as the course has come.
pub record IsJournal (uid : ℕ) (m : Manager) (past : List Move) (f : Flight) : Type 0 where
  pub logs : add_entries m (course_entries uid past) ≡ some f.run.client.client_stat_manager
  pub begun : f.run.next ≡ rounds_begun past

module _ (iterations uid : ℕ) (client_id message : Text) (m : Manager) (past : List Move)
    (f f' : Flight) (j : IsJournal uid m past f) where
  sends-IsJournal :
      (time : ℕ)
      → move iterations uid client_id message (sends time) f ≡ some f'
      → IsJournal uid m (sends time ∷ past) f'
  unfolding move course_entries rounds_begun
  sends-IsJournal time h =
      let (r, ran, done) = bind-some (step iterations uid (calls time) f.run) _ h in
      let (added, next) = step-calls iterations uid time f.run r ran in
      let same : r ≡ f'.run = ap (λ (x : Flight). x.run) (some_inj done) in
      let added' : add_entry f.run.client.client_stat_manager
            (get_query_uid uid (rounds_begun past)) time
          ≡ some f'.run.client.client_stat_manager =
        subst
          (λ k.
            add_entry f.run.client.client_stat_manager (get_query_uid uid k) time
            ≡ some f'.run.client.client_stat_manager)
          j.begun (added ∙ ap (λ (x : Run). some x.client.client_stat_manager) same) in
      record {
        logs =
            add_one m _ f'.run.client.client_stat_manager (course_entries uid past) _ time j.logs
              added';
        begun = sym (ap (λ (x : Run). x.next) same) ∙ next ∙ ap (λ n. n + 1) j.begun;
      }

  serves-IsJournal :
      (i : ℕ) (p : Plan)
      → move iterations uid client_id message (serves i p) f ≡ some f'
      → IsJournal uid m (serves i p ∷ past) f'
  unfolding course_entries rounds_begun
  serves-IsJournal i p h =
      let same = serves-run iterations uid client_id message i p f f' h in
      record {
        logs = j.logs ∙ ap (λ (x : Run). some x.client.client_stat_manager) same;
        begun = sym (ap (λ (x : Run). x.next) same) ∙ j.begun;
      }

  -- A response carries the identifier of its query, on the way back too.
  receives-IsJournal :
      (i time : ℕ) (before : Option Text)
      → IsSmooth uid client_id message before past f
      → u64_of_i64 (i64_of_u64 (get_query_uid uid i)) ≡ get_query_uid uid i
      → move iterations uid client_id message (receives i time) f ≡ some f'
      → IsJournal uid m (receives i time ∷ past) f'
  unfolding move course_entries rounds_begun
  receives-IsJournal i time before smooth back h =
      let (reply, answered, rest) = bind-some (reply_to i f.answers) _ h in
      let (_, known) =
        All-reply_to (AnswerFits uid client_id message before past) i f.answers reply smooth.answers
          answered in
      let (r, ran, done) = bind-some (step iterations uid (event_of i time reply) f.run) _ rest in
      let (added, next) =
        step-replies iterations uid i time (expected uid client_id message before past i) f.run r
          (rw known at ran) in
      let same : r ≡ f'.run = ap (λ (x : Flight). x.run) (some_inj done) in
      let own : u64_of_i64 (expected uid client_id message before past i).query_uid
          ≡ get_query_uid uid i =
        ap u64_of_i64 (response_now-query_uid client_id message _ i _) ∙ back in
      let added' : add_entry f.run.client.client_stat_manager (get_query_uid uid i) time
          ≡ some f'.run.client.client_stat_manager =
        subst
          (λ q.
            add_entry f.run.client.client_stat_manager q time
            ≡ some f'.run.client.client_stat_manager)
          own (added ∙ ap (λ (x : Run). some x.client.client_stat_manager) same) in
      record {
        logs =
            add_one m _ f'.run.client.client_stat_manager (course_entries uid past) _ time j.logs
              added';
        begun = sym (ap (λ (x : Run). x.next) same) ∙ next ∙ j.begun;
      }

-- Every move extends the journal.
move-IsJournal :
    (iterations : ℕ) (localhost : Bool) (hash : ℕ) (a : Address) (rand : ℕ)
    (client_id message : Text) (m : Manager) (before : Option Text) (mv : Move) (past : List Move)
    (f f' : Flight)
    → let uid = generate_local_uid localhost hash a rand in
      IsJournal uid m past f
      → IsSmooth uid client_id message before past f
      → move iterations uid client_id message mv f ≡ some f'
      → IsJournal uid m (mv ∷ past) f'
move-IsJournal iterations localhost hash a rand client_id message m before (sends time) past f f' j
      smooth h =
    sends-IsJournal iterations (generate_local_uid localhost hash a rand) client_id message m past f
      f' j time h
move-IsJournal iterations localhost hash a rand client_id message m before (serves i p) past f f' j
      smooth h =
    serves-IsJournal iterations (generate_local_uid localhost hash a rand) client_id message m past
      f f' j i p h
move-IsJournal iterations localhost hash a rand client_id message m before (receives i time) past f
      f' j smooth h =
    let (_, _, _, back) = get_query_uid-fields localhost hash a rand i in
    receives-IsJournal iterations (generate_local_uid localhost hash a rand) client_id message m
      past f f' j i time before smooth back h

module _ (iterations : ℕ) (localhost : Bool) (hash : ℕ) (a : Address) (rand : ℕ)
    (client_id message : Text) (m : Manager) (b : Board) (v : IsValid m) (vb : IsBoard b) where
  pub fly-IsJournal :
      (past : List Move) (f : Flight)
      → AreLossless past
      → fly iterations
          (generate_local_uid localhost hash a rand)
          client_id
          message
          past
          (take_off m b)
        ≡ some f
      → IsJournal (generate_local_uid localhost hash a rand) m past f
  unfolding fly take_off start add_entries course_entries rounds_begun
  fly-IsJournal [] f lossless h = record {
    logs = ap (λ (x : Flight). some x.run.client.client_stat_manager) (some_inj h);
    begun = sym (ap (λ (x : Flight). x.run.next) (some_inj h));
  }
  fly-IsJournal (mv ∷ past) f lossless h =
      let uid = generate_local_uid localhost hash a rand in
      let (f₁, e₁, last) =
        bind-some (fly iterations uid client_id message past (take_off m b)) _ h in
      let before = AreLossless-past mv past lossless in
      move-IsJournal iterations localhost hash a rand client_id message m
        (view b.backend.database client_id) mv past f₁ f (fly-IsJournal past f₁ before e₁)
        (fly-IsSmooth iterations uid client_id message m b v vb past f₁ before e₁) last
