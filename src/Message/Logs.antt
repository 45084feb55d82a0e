-- ===== src/Message/Logs.antt =====
-- Which entries the calls of the message service leave in the logs of the three services.
use async_rpc_fbthrift.Common.{
  ℕ, Bool, true, false, ◌&&◌, ◌||◌, some, List, [], Text, ℤ, u64_of_i64, ◌≡◌, refl, ap, subst, ◌∙◌,
  sym, bind-some, some_inj,
}
use async_rpc_fbthrift.Stats.Manager.{add_entry}
use async_rpc_fbthrift.Stats.Retention.{Entry, add_entries}
use async_rpc_fbthrift.Rpc.{
  Reply, value, failed, Delivery, delivered, request_lost, reply_lost, remote, Times, Build,
}
use async_rpc_fbthrift.Database.Handler.{
  Database, lookup, insert, message_or_warning, store_message,
}
use async_rpc_fbthrift.Database.Handler
use async_rpc_fbthrift.Sanitize.Handler.{Backend, sanitize_message}
use async_rpc_fbthrift.Sanitize.Laws.{is_refused, view, reaches, reply_of}
use async_rpc_fbthrift.Message.Handler.{
  MessageResponse, StatusResponse, MessageService, Board, Course, finish_find, find_last_message,
  finish_send, send_message,
}
use async_rpc_fbthrift.Message.Laws.{
  IsBoard, remote-sanitize_message, remote-find, send_message-defined, find_last_message-board,
  through, status_of, response_of,
}
use async_rpc_fbthrift.Message.Entries.{is_value-reply_of, remote-sanitize_message-logs}
use async_rpc_fbthrift.Message.DatabaseEntries.{remote-logs, find_last_message-logs}
use async_rpc_fbthrift.Message.Visits.{
  is_value, departure_if, visit_if, visit_or_none, is_delivered, service_entries, sanitizer_entries,
  database_entries, add_then,
}

pub record Logged (b b' : Board) (service sanitizer database : List Entry) : Type 0 where
  pub service_log : add_entries b.service.manager service ≡ some b'.service.manager
  pub sanitizer_log :
      add_entries b.backend.sanitizer.manager sanitizer ≡ some b'.backend.sanitizer.manager
  pub database_log :
      add_entries b.backend.database.manager database ≡ some b'.backend.database.manager

finish_send-logs :
    (t : Times) (uid : ℤ) (s : MessageService) (r : Reply Bool) (r' : Reply StatusResponse)
    (b : Backend) (b' : Board)
    → finish_send t uid s r b ≡ some (r', b')
    → (add_entries s.manager (departure_if (is_value r) uid t) ≡ some b'.service.manager)
      × (b ≡ b'.backend)
unfolding finish_send add_entries is_value
finish_send-logs t uid s failed r' b b' h =
    let same = some_inj h in
    (
      ap (λ (x : Reply StatusResponse × Board). some (x.1.service.manager)) same,
      ap (λ (x : Reply StatusResponse × Board). x.1.backend) same,
    )
finish_send-logs t uid s (value res) r' b b' h =
    let (m, e, last) = bind-some (add_entry s.manager (u64_of_i64 uid) t.departure) _ h in
    let same = some_inj last in
    (
      rw e (ap (λ (x : Reply StatusResponse × Board). some (x.1.service.manager)) same),
      ap (λ (x : Reply StatusResponse × Board). x.1.backend) same,
    )

finish_find-logs :
    (t : Times) (uid : ℤ) (s : MessageService) (r : Reply Text) (r' : Reply MessageResponse)
    (b : Backend) (b' : Board)
    → finish_find t uid s r b ≡ some (r', b')
    → (add_entries s.manager (departure_if (is_value r) uid t) ≡ some b'.service.manager)
      × (b ≡ b'.backend)
unfolding finish_find add_entries is_value
finish_find-logs t uid s failed r' b b' h =
    let same = some_inj h in
    (
      ap (λ (x : Reply MessageResponse × Board). some (x.1.service.manager)) same,
      ap (λ (x : Reply MessageResponse × Board). x.1.backend) same,
    )
finish_find-logs t uid s (value res) r' b b' h =
    let (m, e, last) = bind-some (add_entry s.manager (u64_of_i64 uid) t.departure) _ h in
    let same = some_inj last in
    (
      rw e (ap (λ (x : Reply MessageResponse × Board). some (x.1.service.manager)) same),
      ap (λ (x : Reply MessageResponse × Board). x.1.backend) same,
    )

is_value-through :
    {R : Type 0} (d : Delivery) (r : Reply R)
    → is_value (through d r) ≡ (is_delivered d && is_value r)
unfolding is_value
is_value-through delivered r = refl
is_value-through request_lost r = refl
is_value-through reply_lost r = refl

-- A run of `send_message`, its reply known.
pub runs-send_message :
    (build : Build) (tid : ℕ) (c : Course) (client message : Text) (uid : ℤ) (b b' : Board)
    (r : Reply StatusResponse)
    → IsBoard b
    → send_message build tid c client message uid b ≡ some (r, b')
    → Logged b b'
        (service_entries message uid c)
        (sanitizer_entries message uid c)
        (database_entries message uid c)
unfolding send_message
runs-send_message build tid c client message uid b b' r v h =
    let (m, e₁, rest) =
      bind-some (add_entry b.service.manager (u64_of_i64 uid) c.times.arrival) _ h in
    let ((r₁, back), e₂, last) =
      bind-some
        (remote c.to_sanit
          (sanitize_message c.sanit_build c.to_mock c.sanit_tid c.sanit_times c.mock_times client
            message uid)
          b.backend)
        _ rest in
    let (left, kept) = finish_send-logs c.times uid _ r₁ r back b' last in
    let (logged, stored) =
      remote-sanitize_message-logs c.to_sanit c client message uid b.backend back r₁ v.backend e₂ in
    let (_, e₃, _, _) =
      remote-sanitize_message c.to_sanit c client message uid b.backend v.backend in
    let answered : is_value r₁
        ≡ (is_delivered c.to_sanit && (is_refused message || is_delivered c.to_mock)) =
      ap (λ (x : Reply Bool × Backend). is_value x.0) (some_inj (sym e₂ ∙ e₃))
      ∙ is_value-through c.to_sanit (reply_of message c.to_mock)
      ∙ ap (λ x. is_delivered c.to_sanit && x) (is_value-reply_of message c.to_mock) in
    record {
      service_log = add_then b.service.manager m b'.service.manager _ _ _ e₁ (
          subst (λ x. add_entries m (departure_if x uid c.times) ≡ some b'.service.manager) answered
            left);
      sanitizer_log = logged ∙ ap (λ (x : Backend). some x.sanitizer.manager) kept;
      database_log = stored ∙ ap (λ (x : Backend). some x.database.manager) kept;
    }

-- `send_message` in every course, from services whose logs are well formed: it is defined, answers
-- as the deliveries determine, and adds to the three logs exactly its own visits. The message
-- service logs the arrival always and the departure when it has an answer: the sanitization
-- service's reply is delivered, and the message is refused or the database's reply is delivered.
-- The sanitization service logs nothing when its request is lost; else the arrival, and the
-- departure unless the message is refused or the database's reply is lost. The database logs both,
-- when the message reaches it, and else nothing.
pub send_message-logs :
    (build : Build) (tid : ℕ) (c : Course) (client message : Text) (uid : ℤ) (b : Board)
    → IsBoard b
    → (b' : Board) × (send_message build tid c client message uid b
        ≡ some (status_of uid (through c.to_sanit (reply_of message c.to_mock)), b'))
      × Logged b b'
          (service_entries message uid c)
          (sanitizer_entries message uid c)
          (database_entries message uid c)
send_message-logs build tid c client message uid b v =
    let (b', e, _, _) = send_message-defined build tid c client message uid b v in
    (b', e, runs-send_message build tid c client message uid b b' _ v e)

pub and_true : (x : Bool) → (x && true) ≡ x
and_true true = refl
and_true false = refl

pub runs-find_last_message :
    (build : Build) (d : Delivery) (tid : ℕ) (t t_mock : Times) (client : Text) (uid : ℤ)
    (b b' : Board) (r : Reply MessageResponse)
    → IsBoard b
    → find_last_message build d tid t t_mock client uid b ≡ some (r, b')
    → Logged b b' (visit_if (is_delivered d) uid t) [] (visit_or_none (reaches d) uid t_mock)
unfolding find_last_message add_entries is_value
runs-find_last_message build d tid t t_mock client uid b b' r v h =
    let (m, e₁, rest) = bind-some (add_entry b.service.manager (u64_of_i64 uid) t.arrival) _ h in
    let ((r₁, db), e₂, last) =
      bind-some (remote d (Handler.find_last_message t_mock client uid) b.backend.database) _
        rest in
    let (left, kept) = finish_find-logs t uid _ r₁ r _ b' last in
    let (_, e₃, _) = remote-find d t_mock client uid b.backend.database v.backend.database in
    let answered : is_value r₁ ≡ is_delivered d =
      ap (λ (x : Reply Text × Database). is_value x.0) (some_inj (sym e₂ ∙ e₃))
      ∙ is_value-through d _
      ∙ and_true (is_delivered d) in
    record {
      service_log = add_then b.service.manager m b'.service.manager _ _ _ e₁ (
          subst (λ x. add_entries m (departure_if x uid t) ≡ some b'.service.manager) answered
            left);
      sanitizer_log = ap (λ (x : Backend). some x.sanitizer.manager) kept;
      database_log =
          remote-logs d (Handler.find_last_message t_mock client uid) uid t_mock b.backend.database
            db r₁ (λ r db'. find_last_message-logs t_mock client uid b.backend.database db' r) e₂
          ∙ ap (λ (x : Backend). some x.database.manager) kept;
    }

-- `find_last_message`, from services whose logs are well formed, whatever becomes of its call of
-- the database: it is defined and answers the client's stored message, the warning where there is
-- none, or an exception where the call is not delivered; it adds its arrival to the message
-- service's log, and its departure when the call is delivered; it adds its arrival and departure to
-- the database's log when the request arrives; and the sanitization service's log stays as it is.
pub find_last_message-logs_board :
    (build : Build) (d : Delivery) (tid : ℕ) (t t_mock : Times) (client : Text) (uid : ℤ)
    (b : Board)
    → IsBoard b
    → (b' : Board) × (find_last_message build d tid t t_mock client uid b
        ≡ some (
          response_of uid
              (through d (value (message_or_warning client (view b.backend.database client)))),
          b',
        ))
      × Logged b b' (visit_if (is_delivered d) uid t) [] (visit_or_none (reaches d) uid t_mock)
find_last_message-logs_board build d tid t t_mock client uid b v =
    let (b', e, _, _) = find_last_message-board build d tid t t_mock client uid b v in
    (b', e, runs-find_last_message build d tid t t_mock client uid b b' _ v e)
