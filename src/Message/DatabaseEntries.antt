-- ===== src/Message/DatabaseEntries.antt =====
-- Which entries a call leaves in the log of the database behind the message service.
use async_rpc_fbthrift.Common.{
  Bool, true, Option, some, Text, ℤ, u64_of_i64, ◌≡◌, refl, ap, subst, ◌∙◌, sym, bind-some,
  some_inj,
}
use async_rpc_fbthrift.Stats.Manager.{add_entry}
use async_rpc_fbthrift.Stats.Retention.{add_entries}
use async_rpc_fbthrift.Rpc.{
  Reply, value, failed, Delivery, delivered, request_lost, reply_lost, remote, Times,
}
use async_rpc_fbthrift.Database.Handler.{
  Database, lookup, insert, message_or_warning, store_message,
}
use async_rpc_fbthrift.Database.Handler
use async_rpc_fbthrift.Sanitize.Handler.{Sanitizer, Backend, finish_sanitize}
use async_rpc_fbthrift.Sanitize.Laws.{reaches}
use async_rpc_fbthrift.Message.Visits.{is_value, departure_if, visit_if, visit_or_none, two_entries}

pub store_message-logs :
    (t : Times) (client message : Text) (uid : ℤ) (db db' : Database) (r : Reply Bool)
    → store_message t client message uid db ≡ some (r, db')
    → (add_entries db.manager (visit_if true uid t) ≡ some db'.manager) × (r ≡ value true)
unfolding store_message
store_message-logs t client message uid db db' r h =
    let (m₁, e₁, rest) = bind-some (add_entry db.manager (u64_of_i64 uid) t.arrival) _ h in
    let (m₂, e₂, last) = bind-some (add_entry m₁ (u64_of_i64 uid) t.departure) _ rest in
    let same = some_inj last in
    (
      two_entries db.manager m₁ m₂ _ _ _ e₁ e₂
          ∙ ap (λ (x : Reply Bool × Database). some (x.1.manager)) same,
      sym (ap (λ (x : Reply Bool × Database). x.0) same),
    )

pub find_last_message-logs :
    (t : Times) (client : Text) (uid : ℤ) (db db' : Database) (r : Reply Text)
    → Handler.find_last_message t client uid db ≡ some (r, db')
    → add_entries db.manager (visit_if true uid t) ≡ some db'.manager
unfolding Handler.find_last_message
find_last_message-logs t client uid db db' r h =
    let (m₁, e₁, rest) = bind-some (add_entry db.manager (u64_of_i64 uid) t.arrival) _ h in
    let (m₂, e₂, last) = bind-some (add_entry m₁ (u64_of_i64 uid) t.departure) _ rest in
    two_entries db.manager m₁ m₂ _ _ _ e₁ e₂
    ∙ ap (λ (x : Reply Text × Database). some (x.1.manager)) (some_inj last)

-- A call of the database over the transport.
pub remote-logs :
    {R : Type 0} (d : Delivery) (handler : Database → Option (Reply R × Database)) (uid : ℤ)
    (t : Times) (db db' : Database) (r : Reply R)
    → ((r : Reply R) (db' : Database)
        → handler db ≡ some (r, db')
        → add_entries db.manager (visit_if true uid t) ≡ some db'.manager)
    → remote d handler db ≡ some (r, db')
    → add_entries db.manager (visit_or_none (reaches d) uid t) ≡ some db'.manager
unfolding remote add_entries
remote-logs delivered handler uid t db db' r logs h = logs r db' h
remote-logs {R} request_lost handler uid t db db' r logs h =
    ap (λ (x : Reply R × Database). some (x.1.manager)) (some_inj h)
remote-logs {R} reply_lost handler uid t db db' r logs h =
    let ((r₁, db₁), e, last) = bind-some (handler db) _ h in
    logs r₁ db₁ e ∙ ap (λ (x : Reply R × Database). some (x.1.manager)) (some_inj last)

-- Behind the reply of the database, or without it.
pub finish_sanitize-logs :
    (t : Times) (uid : ℤ) (s : Sanitizer) (r r' : Reply Bool) (db : Database) (b' : Backend)
    → finish_sanitize t uid s r db ≡ some (r', b')
    → (add_entries s.manager (departure_if (is_value r') uid t) ≡ some b'.sanitizer.manager)
      × (b'.database ≡ db)
unfolding finish_sanitize add_entries is_value
finish_sanitize-logs t uid s failed r' db b' h =
    let same = some_inj h in
    (
      subst
          (λ (x : Reply Bool × Backend).
            add_entries s.manager (departure_if (is_value x.0) uid t)
            ≡ some (x.1.sanitizer.manager))
          same refl,
      ap (λ (x : Reply Bool × Backend). x.1.database) (sym same),
    )
finish_sanitize-logs t uid s (value res) r' db b' h =
    let (m, e, last) = bind-some (add_entry s.manager (u64_of_i64 uid) t.departure) _ h in
    let same = some_inj last in
    (
      subst
          (λ (x : Reply Bool × Backend).
            add_entries s.manager (departure_if (is_value x.0) uid t)
            ≡ some (x.1.sanitizer.manager))
          same (rw e),
      ap (λ (x : Reply Bool × Backend). x.1.database) (sym same),
    )
