-- ===== src/Database/Laws.antt =====
-- What the database answers, for every history of calls.
use async_rpc_fbthrift.Common.{
  ℕ, true, List, [], ◌∷◌, Option, none, some, if◌then◌else◌, Text, text_eq, text_eq_iff, ℤ,
  u64_of_i64, ◌≡◌, refl, arith, ◌∙◌, ap,
}
use async_rpc_fbthrift.Stats.Manager.{Manager, add_entry}
use async_rpc_fbthrift.Stats.Invariant.{add_entry-Added}
use async_rpc_fbthrift.Stats.Shape.{IsValid}
use async_rpc_fbthrift.Rpc.{value, Times}
use async_rpc_fbthrift.Database.Handler.{
  Messages, lookup, insert, Database, message_or_warning, find_last_message, store_message, Call,
  finds, stores, serve,
}

pub lookup-insert :
    (k j : Text) (v : Text) (m : Messages)
    → lookup j (insert k v m) ≡ (if text_eq k j then some v else lookup j m)
unfolding lookup insert
lookup-insert k j v [] = refl
lookup-insert k j v ((i, w) ∷ m) =
    ground (arith, text_eq_iff k j, text_eq_iff i k, text_eq_iff i j, lookup-insert k j v m)

-- Two calls of `add_entry`, at the beginning and at the end of a handler.
pub add_entry_twice :
    (m : Manager) (q t t' : ℕ)
    → IsValid m
    → (m₁ m₂ : Manager) × (add_entry m q t ≡ some m₁) × (add_entry m₁ q t' ≡ some m₂) × IsValid m₂
add_entry_twice m q t t' v =
    let (m₁, e₁, a₁) = add_entry-Added m q t v in
    let (m₂, e₂, a₂) = add_entry-Added m₁ q t' a₁.valid in (m₁, m₂, e₁, e₂, a₂.valid)

pub find_last_message-defined :
    (t : Times) (client : Text) (uid : ℤ) (db : Database)
    → IsValid db.manager
    → (m : Manager) × (find_last_message t client uid db
        ≡ some (
          value (message_or_warning client (lookup client db.last_messages)),
          record db { manager = m },
        ))
      × IsValid m
unfolding find_last_message
find_last_message-defined t client uid db v =
    let (m₁, m₂, e₁, e₂, v₂) =
      add_entry_twice db.manager (u64_of_i64 uid) t.arrival t.departure v in
    (m₂, rw (e₁, e₂), v₂)

pub store_message-defined :
    (t : Times) (client message : Text) (uid : ℤ) (db : Database)
    → IsValid db.manager
    → (m : Manager) × (store_message t client message uid db
        ≡ some (
          value true,
          record { last_messages = insert client message db.last_messages; manager = m },
        ))
      × IsValid m
unfolding store_message
store_message-defined t client message uid db v =
    let (m₁, m₂, e₁, e₂, v₂) =
      add_entry_twice db.manager (u64_of_i64 uid) t.arrival t.departure v in
    (m₂, rw (e₁, e₂), v₂)

-- The specification: what the history last stored for a client, from what was there before it.
unfoldable pub last_stored : Text → Option Text → List Call → Option Text
last_stored client before [] = before
last_stored client before (finds t uid c ∷ cs) = last_stored client before cs
last_stored client before (stores t uid c message ∷ cs) =
    last_stored client (if text_eq c client then some message else before) cs

serve-last_stored :
    (db : Database) (cs : List Call)
    → IsValid db.manager
    → (db' : Database) × (serve db cs ≡ some db')
      × IsValid db'.manager
      × ((client : Text)
          → lookup client db'.last_messages
            ≡ last_stored client (lookup client db.last_messages) cs)
unfolding serve last_stored
serve-last_stored db [] v = (db, refl, v, λ client. refl)
serve-last_stored db (finds t uid c ∷ cs) v =
    let (m, e, v') = find_last_message-defined t c uid db v in
    let (db', served, v'', agrees) = serve-last_stored (record db { manager = m }) cs v' in
    (db', rw e served, v'', agrees)
serve-last_stored db (stores t uid c message ∷ cs) v =
    let (m, e, v') = store_message-defined t c message uid db v in
    let (db', served, v'', agrees) =
      serve-last_stored (record { last_messages = insert c message db.last_messages; manager = m })
        cs v' in
    (
      db',
      rw e served,
      v'',
      λ client.
          agrees client
          ∙ ap (λ before. last_stored client before cs)
              (lookup-insert c client message db.last_messages),
    )

-- From a database with a well-formed log and no messages, every history of calls is served, and a
-- `find_last_message` behind it is answered with the message that the history last stored for that
-- client, or with the warning if it stored none. The log is still well formed then.
pub find_last_message-serve :
    (db : Database) (cs : List Call) (t : Times) (client : Text) (uid : ℤ)
    → IsValid db.manager
    → db.last_messages ≡ []
    → (db₁ db₂ : Database) × (serve db cs ≡ some db₁)
      × (find_last_message t client uid db₁
          ≡ some (value (message_or_warning client (last_stored client none cs)), db₂))
      × IsValid db₂.manager
unfolding lookup
find_last_message-serve db cs t client uid v fresh =
    let (db₁, served, v₁, agrees) = serve-last_stored db cs v in
    let (m, e, v₂) = find_last_message-defined t client uid db₁ v₁ in
    let same : lookup client db₁.last_messages ≡ last_stored client none cs =
      agrees client ∙ ap (λ m. last_stored client (lookup client m) cs) fresh in
    (db₁, record db₁ { manager = m }, served, rw (← same) e, v₂)
