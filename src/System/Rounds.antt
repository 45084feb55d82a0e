-- ===== src/System/Rounds.antt =====
-- One round of the client against the services, when nothing is lost.
use async_rpc_fbthrift.Common.{
  ℕ, zero, suc, Bool-cases, true, false, not, ◌&&◌, ◌||◌, if◌then◌else◌, List, [], ◌∷◌, Option,
  some, Text, text_eq_iff, ℤ, ◌≡◌, refl, ap, subst, ◌∙◌, inl, inr, arith,
}
use async_rpc_fbthrift.Stats.Retention.{Entry, add_entries}
use async_rpc_fbthrift.Rpc.{value, delivered, remote}
use async_rpc_fbthrift.Database.Handler.{Database, lookup, message_or_warning}
use async_rpc_fbthrift.Sanitize.Laws.{is_refused, reaches, view, view_after, reply_of}
use async_rpc_fbthrift.Message.Handler.{Board}
use async_rpc_fbthrift.Message.Laws.{
  IsBoard, is_stored, through, status_of, response_of, send_message-defined,
  find_last_message-board,
}
use async_rpc_fbthrift.Message.Visits.{is_delivered, entries_if, visit_if, visit_or_none}
use async_rpc_fbthrift.Message.Logs.{Logged, and_true, runs-send_message, runs-find_last_message}
use async_rpc_fbthrift.Client.Main.{Response, is_find}
use async_rpc_fbthrift.System.Converse.{Plan, call}

-- Every request and every reply is delivered.
pub record IsLossless (p : Plan) : Type 0 where
  pub to_service : p.to_service ≡ delivered
  pub to_sanit : p.course.to_sanit ≡ delivered
  pub to_mock : p.course.to_mock ≡ delivered

-- What the database holds for the client in front of round i, from what it held at the start.
abbrev pub held : Text → Option Text → ℕ → Option Text
held message before zero = before
held message before (suc i) = if is_refused message then before else some message

-- The response of round i.
abbrev pub answer : Text → Text → Option Text → ℕ → ℤ → Response
answer client_id message before i uid =
    if is_find i
    then record {
      message = message_or_warning client_id (held message before i);
      ok = false;
      query_uid = uid;
    }
    else record { message = []; ok = not (is_refused message); query_uid = uid }

-- The entries of round i in the four logs.
abbrev pub client_entries : Plan → ℕ → List Entry
client_entries p uid = (uid, p.call_time) ∷ (uid, p.reply_time) ∷ []

abbrev pub service_visit : Plan → ℤ → List Entry
service_visit p uid = visit_if true uid p.course.times

abbrev pub sanitizer_visit : Plan → Text → ℕ → ℤ → List Entry
sanitizer_visit p message i uid =
    if is_find i then [] else visit_if (not (is_refused message)) uid p.course.sanit_times

abbrev pub database_visit : Plan → Text → ℕ → ℤ → List Entry
database_visit p message i uid =
    if is_find i
    then visit_if true uid p.course.mock_times
    else visit_or_none (not (is_refused message)) uid p.course.mock_times

-- The board behind a round.
pub record Served (message client_id : Text) (before : Option Text) (p : Plan) (i : ℕ) (uid : ℤ)
    (b b' : Board) : Type 0 where
  pub board : IsBoard b'
  pub logs :
      Logged b b'
        (service_visit p uid)
        (sanitizer_visit p message i uid)
        (database_visit p message i uid)
  pub holds : view b'.backend.database client_id ≡ held message before (suc i)

Logged-eq :
    (b b' : Board) (s s' d d' e e' : List Entry)
    → s ≡ s'
    → d ≡ d'
    → e ≡ e'
    → Logged b b' s d e
    → Logged b b' s' d' e'
Logged-eq b b' s s' d d' e e' hs hd he l = record {
  service_log =
      subst (λ x. add_entries b.service.manager x ≡ some b'.service.manager) hs l.service_log;
  sanitizer_log =
      subst (λ x. add_entries b.backend.sanitizer.manager x ≡ some b'.backend.sanitizer.manager) hd
        l.sanitizer_log;
  database_log =
      subst (λ x. add_entries b.backend.database.manager x ≡ some b'.backend.database.manager) he
        l.database_log;
}

reply_of-delivered :
    (message : Text) → reply_of message delivered ≡ value (not (is_refused message))
reply_of-delivered message = ground arith

held-refused :
    (message : Text) (before : Option Text) (i : ℕ)
    → is_refused message ≡ true
    → held message before i ≡ before
held-refused message before zero refused = refl
held-refused message before (suc i) refused = rw refused refl

-- The view behind a `send_message`.
held-view_after :
    (message client_id : Text) (before : Option Text) (i : ℕ) (db : Database)
    → view db client_id ≡ held message before i
    → view_after (not (is_refused message)) client_id message db client_id
      ≡ held message before (suc i)
held-view_after message client_id before i db holds = elim (Bool-cases (is_refused message)) [
  | inl refused ↦ rw refused (holds ∙ held-refused message before i refused)
  | inr accepted ↦ rw (accepted, (text_eq_iff client_id client_id).1 refl) refl
]

-- In front of a `find_last_message` there was a `send_message`.
held-find :
    (message : Text) (before : Option Text) (i : ℕ)
    → is_find i ≡ true
    → held message before i ≡ held message before (suc i)
unfolding is_find
held-find message before zero find = absurd (ground (arith, find))
held-find message before (suc i) find = refl

module _ (p : Plan) (lossless : IsLossless p) (client_id message : Text) (before : Option Text)
    (i : ℕ) (uid : ℤ) (b : Board) (v : IsBoard b)
    (holds : view b.backend.database client_id ≡ held message before i) where
  sends :
      is_find i ≡ false
      → (b' : Board) × (call p client_id message i uid b
          ≡ some (value (answer client_id message before i uid), b'))
        × Served message client_id before p i uid b b'
  unfolding call remote
  sends send =
      let (b', e, v', after) =
        send_message-defined p.build p.tid p.course client_id message uid b v in
      let logged = runs-send_message p.build p.tid p.course client_id message uid b b' _ v e in
      let arrived : through p.course.to_sanit (reply_of message p.course.to_mock)
          ≡ reply_of message delivered =
        rw (lossless.to_sanit, lossless.to_mock) refl in
      let known = ap (status_of uid) (arrived ∙ reply_of-delivered message) in
      let sent = e ∙ ap (λ r. some (r, b')) known in
      let stored : is_stored message p.course ≡ not (is_refused message) =
        rw (lossless.to_sanit, lossless.to_mock) (and_true (not (is_refused message))) in
      let left : (is_delivered p.course.to_sanit
            && (is_refused message || is_delivered p.course.to_mock))
          ≡ true =
        rw (lossless.to_sanit, lossless.to_mock) (ground arith) in
      let filtered : entries_if (reaches p.course.to_sanit) (
            visit_if (not (is_refused message) && is_delivered p.course.to_mock) uid
              p.course.sanit_times)
          ≡ visit_if (not (is_refused message)) uid p.course.sanit_times =
        rw (lossless.to_sanit, lossless.to_mock)
          (ap (λ x. visit_if x uid p.course.sanit_times) (and_true (not (is_refused message)))) in
      (
        b',
        rw (send, lossless.to_service, sent) refl,
        record {
          board = v';
          logs =
              Logged-eq b b' _ _ _ _ _ _ (ap (λ x. visit_if x uid p.course.times) left)
                (rw send filtered)
                (rw send (ap (λ x. visit_or_none x uid p.course.mock_times) stored)) logged;
          holds =
              after client_id
              ∙ ap (λ x. view_after x client_id message b.backend.database client_id) stored
              ∙ held-view_after message client_id before i b.backend.database holds;
        },
      )

  finds :
      is_find i ≡ true
      → (b' : Board) × (call p client_id message i uid b
          ≡ some (value (answer client_id message before i uid), b'))
        × Served message client_id before p i uid b b'
  unfolding call remote
  finds find =
      let (b', e, v', same) =
        find_last_message-board p.build p.course.to_mock p.tid p.course.times p.course.mock_times
          client_id uid b v in
      let logged =
        runs-find_last_message p.build p.course.to_mock p.tid p.course.times p.course.mock_times
          client_id uid b b' _ v e in
      let arrived : response_of uid (
            through p.course.to_mock
              (value (message_or_warning client_id (view b.backend.database client_id))))
          ≡ value (record {
            message = message_or_warning client_id (held message before i);
            query_uid = uid;
          }) =
        rw (lossless.to_mock, holds) refl in
      let found = e ∙ ap (λ r. some (r, b')) arrived in
      (
        b',
        rw (find, lossless.to_service, found) refl,
        record {
          board = v';
          logs =
              Logged-eq b b' _ _ _ _ _ _ (rw lossless.to_mock refl) (rw find refl)
                (rw (find, lossless.to_mock) refl) logged;
          holds = ap (lookup client_id) same ∙ holds ∙ held-find message before i find;
        },
      )

  pub board_round :
      (b' : Board) × (call p client_id message i uid b
        ≡ some (value (answer client_id message before i uid), b'))
      × Served message client_id before p i uid b b'
  board_round = elim (Bool-cases (is_find i)) [ inl find ↦ finds find | inr send ↦ sends send ]
