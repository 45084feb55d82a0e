-- ===== src/Message/Laws.antt =====
-- What the clients of the message service observe, over whole histories of their calls.
use async_rpc_fbthrift.Common.{ℕ, Bool, ◌&&◌, some, Text, ℤ, u64_of_i64, ◌≡◌, refl}
use async_rpc_fbthrift.Stats.Manager.{Manager}
use async_rpc_fbthrift.Stats.Invariant.{add_entry-Added}
use async_rpc_fbthrift.Stats.Shape.{IsValid}
use async_rpc_fbthrift.Rpc.{
  Reply, value, failed, Delivery, delivered, request_lost, reply_lost, remote, Times, Build,
  connect,
}
use async_rpc_fbthrift.Database.Handler.{Database, lookup, message_or_warning}
use async_rpc_fbthrift.Database.Handler
use async_rpc_fbthrift.Database.Laws.{find_last_message-defined}
use async_rpc_fbthrift.Sanitize.Handler.{Backend, sanitize_message}
use async_rpc_fbthrift.Sanitize.Laws.{
  IsSound, reply_of, stores_through, reaches, view, view_after, sanitize_message-defined,
}
use async_rpc_fbthrift.Message.Handler.{
  MessageResponse, StatusResponse, MessageService, Board, Course, finish_find, find_last_message,
  finish_send, send_message,
}

pub record IsBoard (b : Board) : Type 0 where
  pub service : IsValid b.service.manager
  pub backend : IsSound b.backend

-- The specification of `send_message`.
abbrev pub through {ℓ} : {R : Type ℓ} → Delivery → Reply R → Reply R
through delivered r = r
through request_lost r = failed
through reply_lost r = failed

abbrev pub status_of : ℤ → Reply Bool → Reply StatusResponse
status_of uid failed = failed
status_of uid (value res) = value (record { ok = res; query_uid = uid })

abbrev pub response_of : ℤ → Reply Text → Reply MessageResponse
response_of uid failed = failed
response_of uid (value m) = value (record { message = m; query_uid = uid })

abbrev pub is_stored : Text → Course → Bool
is_stored message c = reaches c.to_sanit && stores_through message c.to_mock

pub remote-sanitize_message :
    (d : Delivery) (c : Course) (client message : Text) (uid : ℤ) (b : Backend)
    → IsSound b
    → (b' : Backend) × (remote d
          (sanitize_message c.sanit_build c.to_mock c.sanit_tid c.sanit_times c.mock_times client
            message uid)
          b
        ≡ some (through d (reply_of message c.to_mock), b'))
      × IsSound b'
      × ((k : Text)
          → view b'.database k
            ≡ view_after
                (reaches d && stores_through message c.to_mock)
                client
                message
                b.database
                k)
unfolding remote
remote-sanitize_message request_lost c client message uid b v = (b, refl, v, λ k. refl)
remote-sanitize_message delivered c client message uid b v =
    sanitize_message-defined c.sanit_build c.to_mock c.sanit_tid c.sanit_times c.mock_times client
      message uid b v
remote-sanitize_message reply_lost c client message uid b v =
    let (b', e, v', after) =
      sanitize_message-defined c.sanit_build c.to_mock c.sanit_tid c.sanit_times c.mock_times client
        message uid b v in
    (b', rw e, v', after)

finish_send-defined :
    (t : Times) (uid : ℤ) (s : MessageService) (r : Reply Bool) (b : Backend)
    → IsValid s.manager
    → (s' : MessageService) × (finish_send t uid s r b
        ≡ some (status_of uid r, record { service = s'; backend = b }))
      × IsValid s'.manager
unfolding finish_send
finish_send-defined t uid s failed b v = (s, refl, v)
finish_send-defined t uid s (value res) b v =
    let (m, e, a) = add_entry-Added s.manager (u64_of_i64 uid) t.departure v in
    (record s { manager = m }, rw e, a.valid)

finish_find-defined :
    (t : Times) (uid : ℤ) (s : MessageService) (r : Reply Text) (b : Backend)
    → IsValid s.manager
    → (s' : MessageService) × (finish_find t uid s r b
        ≡ some (response_of uid r, record { service = s'; backend = b }))
      × IsValid s'.manager
unfolding finish_find
finish_find-defined t uid s failed b v = (s, refl, v)
finish_find-defined t uid s (value res) b v =
    let (m, e, a) = add_entry-Added s.manager (u64_of_i64 uid) t.departure v in
    (record s { manager = m }, rw e, a.valid)

-- `send_message` in every course: it is defined and keeps the three logs well formed; its reply is
-- the sanitization service's, with the query's identifier, or an exception where either call is not
-- delivered; and the message is stored exactly when both requests arrive and the message is not
-- refused.
pub send_message-defined :
    (build : Build) (tid : ℕ) (c : Course) (client message : Text) (uid : ℤ) (b : Board)
    → IsBoard b
    → (b' : Board) × (send_message build tid c client message uid b
        ≡ some (status_of uid (through c.to_sanit (reply_of message c.to_mock)), b'))
      × IsBoard b'
      × ((k : Text)
          → view b'.backend.database k
            ≡ view_after (is_stored message c) client message b.backend.database k)
unfolding send_message
send_message-defined build tid c client message uid b v =
    let (m, e, a) = add_entry-Added b.service.manager (u64_of_i64 uid) c.times.arrival v.service in
    let (backend, e', v', after) =
      remote-sanitize_message c.to_sanit c client message uid b.backend v.backend in
    let (s, e'', v'') =
      finish_send-defined c.times uid
        (record (b.service) { manager = m; sanit_map = connect build tid b.service.sanit_map })
        (through c.to_sanit (reply_of message c.to_mock)) backend a.valid in
    (
      record { service = s; backend = backend },
      rw (e, e') e'',
      record { service = v''; backend = v' },
      after,
    )

pub remote-find :
    (d : Delivery) (t : Times) (client : Text) (uid : ℤ) (db : Database)
    → IsValid db.manager
    → (m : Manager) × (remote d (Handler.find_last_message t client uid) db
        ≡ some (
          through d (value (message_or_warning client (view db client))),
          record db { manager = m },
        ))
      × IsValid m
unfolding remote
remote-find request_lost t client uid db v = (db.manager, refl, v)
remote-find delivered t client uid db v = find_last_message-defined t client uid db v
remote-find reply_lost t client uid db v =
    let (m, e, v') = find_last_message-defined t client uid db v in (m, rw e, v')

pub find_last_message-board :
    (build : Build) (d : Delivery) (tid : ℕ) (t t_mock : Times) (client : Text) (uid : ℤ)
    (b : Board)
    → IsBoard b
    → (b' : Board) × (find_last_message build d tid t t_mock client uid b
        ≡ some (
          response_of uid
              (through d (value (message_or_warning client (view b.backend.database client)))),
          b',
        ))
      × IsBoard b'
      × (b'.backend.database.last_messages ≡ b.backend.database.last_messages)
unfolding find_last_message
find_last_message-board build d tid t t_mock client uid b v =
    let (m, e, a) = add_entry-Added b.service.manager (u64_of_i64 uid) t.arrival v.service in
    let (m', e', v') = remote-find d t_mock client uid b.backend.database v.backend.database in
    let db' = record (b.backend.database) { manager = m' } in
    let (s, e'', v'') =
      finish_find-defined t uid
        (record (b.service) { manager = m; mock_map = connect build tid b.service.mock_map })
        (through d (value (message_or_warning client (view b.backend.database client))))
        (record (b.backend) { database = db' }) a.valid in
    (
      record { service = s; backend = record (b.backend) { database = db' } },
      rw (e, e') e'',
      record { service = v''; backend = record { sanitizer = v.backend.sanitizer; database = v' } },
      refl,
    )
