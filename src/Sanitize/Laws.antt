-- ===== src/Sanitize/Laws.antt =====
-- Which messages the sanitization service lets through to the database.
use async_rpc_fbthrift.Common.{
  ℕ, Bool, true, false, not, ◌&&◌, Option, some, if◌then◌else◌, Text, text_eq, text_eq_iff, ℤ,
  u64_of_i64, ◌≡◌, refl, inl, inr, Bool-cases, ◌∙◌,
}
use async_rpc_fbthrift.Stats.Invariant.{add_entry-Added}
use async_rpc_fbthrift.Stats.Shape.{IsValid}
use async_rpc_fbthrift.Rpc.{
  Reply, value, failed, Delivery, delivered, request_lost, reply_lost, remote, Times, Build,
  connect,
}
use async_rpc_fbthrift.Database.Handler.{Database, lookup, store_message}
use async_rpc_fbthrift.Database.Laws.{lookup-insert, store_message-defined}
use async_rpc_fbthrift.Sanitize.Regex.{regex_match-match_expr, one_line, has_special}
use async_rpc_fbthrift.Sanitize.Handler.{Sanitizer, Backend, finish_sanitize, sanitize_message}

-- The messages that are refused: one line, with a special character.
abbrev pub is_refused : Text → Bool
is_refused message = one_line message && has_special message

-- The specification. What the caller gets, and whether the message is stored.
abbrev pub reply_through : Delivery → Reply Bool
reply_through delivered = value true
reply_through request_lost = failed
reply_through reply_lost = failed

abbrev pub reaches : Delivery → Bool
reaches delivered = true
reaches request_lost = false
reaches reply_lost = true

abbrev pub reply_of : Text → Delivery → Reply Bool
reply_of message d = if is_refused message then value false else reply_through d

abbrev pub stores_through : Text → Delivery → Bool
stores_through message d = not (is_refused message) && reaches d

pub record IsSound (b : Backend) : Type 0 where
  pub sanitizer : IsValid b.sanitizer.manager
  pub database : IsValid b.database.manager

-- What a client can ask the database for.
abbrev pub view : Database → Text → Option Text
view db client = lookup client db.last_messages

-- The view behind a message that was stored or not.
abbrev pub view_after : Bool → Text → Text → Database → Text → Option Text
view_after stored client message db c =
    if stored then (if text_eq client c then some message else view db c) else view db c

-- The remote call of `store_message`, for each delivery.
remote-store_message :
    (d : Delivery) (t : Times) (client message : Text) (uid : ℤ) (db : Database)
    → IsValid db.manager
    → (db' : Database) × (remote d (store_message t client message uid) db
        ≡ some (reply_through d, db'))
      × IsValid db'.manager
      × ((c : Text) → view db' c ≡ view_after (reaches d) client message db c)
unfolding remote
remote-store_message request_lost t client message uid db v = (db, refl, v, λ c. refl)
remote-store_message delivered t client message uid db v =
    let (m, e, v') = store_message-defined t client message uid db v in
    (_, e, v', λ c. lookup-insert client c message db.last_messages)
remote-store_message reply_lost t client message uid db v =
    let (m, e, v') = store_message-defined t client message uid db v in
    (_, rw e, v', λ c. lookup-insert client c message db.last_messages)

-- From the reply of the database on, with a well-formed log.
finish_sanitize-defined :
    (t : Times) (uid : ℤ) (s : Sanitizer) (r : Reply Bool) (db : Database)
    → IsValid s.manager
    → (s' : Sanitizer) × (finish_sanitize t uid s r db
        ≡ some (r, record { sanitizer = s'; database = db }))
      × IsValid s'.manager
unfolding finish_sanitize
finish_sanitize-defined t uid s failed db v = (s, refl, v)
finish_sanitize-defined t uid s (value res) db v =
    let (m, e, a) = add_entry-Added s.manager (u64_of_i64 uid) t.departure v in
    (record s { manager = m }, rw e, a.valid)

-- In either build, for every thread, delivery and message: the handler is defined and keeps both
-- logs well formed. A message of one line with a special character is answered with `false` and not
-- stored. Any other is stored unless the request is lost, and answered with `true` or, where the
-- request or the reply is lost, with an exception. No other client's message changes.
pub sanitize_message-defined :
    (build : Build) (d : Delivery) (tid : ℕ) (t t_mock : Times) (client message : Text) (uid : ℤ)
    (b : Backend)
    → IsSound b
    → (b' : Backend) × (sanitize_message build d tid t t_mock client message uid b
        ≡ some (reply_of message d, b'))
      × IsSound b'
      × ((c : Text)
          → view b'.database c ≡ view_after (stores_through message d) client message b.database c)
unfolding sanitize_message
sanitize_message-defined build d tid t t_mock client message uid b v =
    elim (Bool-cases (is_refused message)) [
      | inl refused ↦
          let (m, e, a) =
            add_entry-Added b.sanitizer.manager (u64_of_i64 uid) t.arrival v.sanitizer in
          (
            record b { sanitizer = record (b.sanitizer) { manager = m } },
            rw (e, regex_match-match_expr message, refused),
            record { sanitizer = a.valid; database = v.database },
            λ c. rw refused,
          )
      | inr let_through ↦
          let (m, e, a) =
            add_entry-Added b.sanitizer.manager (u64_of_i64 uid) t.arrival v.sanitizer in
          let (db', e', v', after) =
            remote-store_message d t_mock client message uid b.database v.database in
          let (s', e'', v'') =
            finish_sanitize-defined t uid
              (record { manager = m; mock_map = connect build tid b.sanitizer.mock_map })
              (reply_through d) db' a.valid in
          (
            record { sanitizer = s'; database = db' },
            rw (e, regex_match-match_expr message, let_through, e') e'',
            record { sanitizer = v''; database = v' },
            λ c. rw let_through (after c),
          )
    ]

-- The filter has a hole: a message that has a line break, with any special characters, gets
-- through. Once its call is delivered, it is what the database answers for the client.
pub sanitize_message-line_break :
    (build : Build) (tid : ℕ) (t t_mock : Times) (client message : Text) (uid : ℤ) (b : Backend)
    → IsSound b
    → has_special message ≡ true
    → one_line message ≡ false
    → (b' : Backend) × (sanitize_message build delivered tid t t_mock client message uid b
        ≡ some (value true, b'))
      × (view b'.database client ≡ some message)
sanitize_message-line_break build tid t t_mock client message uid b v special broken =
    let (b', e, v', after) =
      sanitize_message-defined build delivered tid t t_mock client message uid b v in
    (b', rw broken at e, after client ∙ rw (broken, (text_eq_iff client client).1 refl))
