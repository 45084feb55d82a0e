-- ===== src/Message/Entries.antt =====
-- Which entries a call leaves in the logs of the services behind the message service.
use async_rpc_fbthrift.Common.{
  ℕ, Bool, true, false, ◌&&◌, ◌||◌, not, some, [], Text, ℤ, u64_of_i64, ◌≡◌, ap, subst, ◌∙◌, sym,
  inl, inr, Bool-cases, bind-some, some_inj, arith,
}
use async_rpc_fbthrift.Stats.Manager.{add_entry}
use async_rpc_fbthrift.Stats.Retention.{add_entries}
use async_rpc_fbthrift.Rpc.{
  Reply, Delivery, delivered, request_lost, reply_lost, remote, Times, Build,
}
use async_rpc_fbthrift.Database.Handler.{Database, store_message}
use async_rpc_fbthrift.Sanitize.Regex.{regex_match, match_expr, regex_match-match_expr}
use async_rpc_fbthrift.Sanitize.Handler.{Backend, sanitize_message}
use async_rpc_fbthrift.Sanitize.Laws.{
  IsSound, is_refused, reaches, stores_through, reply_of, sanitize_message-defined,
}
use async_rpc_fbthrift.Message.Handler.{Course}
use async_rpc_fbthrift.Message.Visits.{
  is_value, visit_if, visit_or_none, add_then, is_delivered, entries_if,
}
use async_rpc_fbthrift.Message.DatabaseEntries.{
  store_message-logs, remote-logs, finish_sanitize-logs,
}

-- The sanitization service, and the database behind it.
pub record SanitizeLogs (uid : ℤ) (t t_mock : Times) (left stored : Bool) (b b' : Backend)
    : Type 0 where
  pub sanitizer : add_entries b.sanitizer.manager (visit_if left uid t) ≡ some b'.sanitizer.manager
  pub database :
      add_entries b.database.manager (visit_or_none stored uid t_mock) ≡ some b'.database.manager

sanitize_message-logs :
    (build : Build) (d : Delivery) (tid : ℕ) (t t_mock : Times) (client message : Text) (uid : ℤ)
    (b b' : Backend) (r : Reply Bool)
    → sanitize_message build d tid t t_mock client message uid b ≡ some (r, b')
    → SanitizeLogs uid t t_mock
        (not (is_refused message) && is_value r)
        (stores_through message d)
        b
        b'
unfolding sanitize_message add_entries
sanitize_message-logs build d tid t t_mock client message uid b b' r h =
    let (m, e, rest) = bind-some (add_entry b.sanitizer.manager (u64_of_i64 uid) t.arrival) _ h in
    elim (Bool-cases (is_refused message)) [
      | inl refused ↦
          let test : regex_match match_expr true message ≡ true =
            regex_match-match_expr message ∙ refused in
          let same = some_inj (rw test at rest) in
          rw refused (record {
            sanitizer =
                add_then b.sanitizer.manager m b'.sanitizer.manager _ _ [] e
                  (ap (λ (x : Reply Bool × Backend). some (x.1.sanitizer.manager)) same);
            database = ap (λ (x : Reply Bool × Backend). some (x.1.database.manager)) same;
          })
      | inr let_through ↦
          let test : regex_match match_expr true message ≡ false =
            regex_match-match_expr message ∙ let_through in
          let ((r₁, db₁), e₁, last) =
            bind-some (remote d (store_message t_mock client message uid) b.database) _
              (rw test at rest) in
          let (left, kept) = finish_sanitize-logs t uid _ r₁ r db₁ b' last in
          rw let_through (record {
            sanitizer = add_then b.sanitizer.manager m b'.sanitizer.manager _ _ _ e left;
            database =
                remote-logs d (store_message t_mock client message uid) uid t_mock b.database db₁ r₁
                  (λ r db'.
                    λ h. (store_message-logs t_mock client message uid b.database db' r h).0)
                  e₁
                ∙ ap (λ (x : Database). some x.manager) (sym kept);
          })
    ]

pub is_value-reply_of :
    (message : Text) (d : Delivery)
    → is_value (reply_of message d) ≡ (is_refused message || is_delivered d)
unfolding is_value
is_value-reply_of message d = ground arith

left_if-reply_of :
    (message : Text) (d : Delivery)
    → (not (is_refused message) && is_value (reply_of message d))
      ≡ (not (is_refused message) && is_delivered d)
unfolding is_value
left_if-reply_of message d = ground arith

sanitize_message-logs_of_reply :
    (c : Course) (client message : Text) (uid : ℤ) (b b' : Backend) (r : Reply Bool)
    → IsSound b
    → sanitize_message c.sanit_build c.to_mock c.sanit_tid c.sanit_times c.mock_times client message
        uid b
      ≡ some (r, b')
    → SanitizeLogs uid c.sanit_times c.mock_times
        (not (is_refused message) && is_delivered c.to_mock)
        (stores_through message c.to_mock)
        b
        b'
sanitize_message-logs_of_reply c client message uid b b' r v h =
    let (b₁, e, _, _) =
      sanitize_message-defined c.sanit_build c.to_mock c.sanit_tid c.sanit_times c.mock_times client
        message uid b v in
    let reply : r ≡ reply_of message c.to_mock =
      ap (λ (x : Reply Bool × Backend). x.0) (some_inj (sym h ∙ e)) in
    subst
      (λ left.
        SanitizeLogs uid c.sanit_times c.mock_times left (stores_through message c.to_mock) b b')
      (ap (λ r. not (is_refused message) && is_value r) reply ∙ left_if-reply_of message c.to_mock)
      (sanitize_message-logs c.sanit_build c.to_mock c.sanit_tid c.sanit_times c.mock_times client
        message uid b b' r h)

pub remote-sanitize_message-logs :
    (d : Delivery) (c : Course) (client message : Text) (uid : ℤ) (b b' : Backend) (r : Reply Bool)
    → IsSound b
    → remote d
        (sanitize_message c.sanit_build c.to_mock c.sanit_tid c.sanit_times c.mock_times client
          message uid)
        b
      ≡ some (r, b')
    → (add_entries b.sanitizer.manager (
          entries_if
            (reaches d)
            (visit_if (not (is_refused message) && is_delivered c.to_mock) uid c.sanit_times))
        ≡ some b'.sanitizer.manager)
      × (add_entries b.database.manager
            (visit_or_none (reaches d && stores_through message c.to_mock) uid c.mock_times)
          ≡ some b'.database.manager)
unfolding remote add_entries
remote-sanitize_message-logs delivered c client message uid b b' r v h =
    let logs = sanitize_message-logs_of_reply c client message uid b b' r v h in
    (logs.sanitizer, logs.database)
remote-sanitize_message-logs request_lost c client message uid b b' r v h =
    let same = some_inj h in
    (
      ap (λ (x : Reply Bool × Backend). some (x.1.sanitizer.manager)) same,
      ap (λ (x : Reply Bool × Backend). some (x.1.database.manager)) same,
    )
remote-sanitize_message-logs reply_lost c client message uid b b' r v h =
    let ((r₁, b₁), e, last) =
      bind-some
        (sanitize_message c.sanit_build c.to_mock c.sanit_tid c.sanit_times c.mock_times client
          message uid b)
        _ h in
    let same = some_inj last in
    let logs = sanitize_message-logs_of_reply c client message uid b b₁ r₁ v e in
    (
      logs.sanitizer ∙ ap (λ (x : Reply Bool × Backend). some (x.1.sanitizer.manager)) same,
      logs.database ∙ ap (λ (x : Reply Bool × Backend). some (x.1.database.manager)) same,
    )
