-- ===== src/Message/Handler.antt =====
-- `MessageServiceHandler` of src/MessageService/MessageService.h and .cpp. The handler's sleep for
-- `waiting_time` changes no state; in the `async` build it overlaps the remote call.
use async_rpc_fbthrift.Common.{ℕ, Bool, List, Option, some, ◌>>=◌, Text, ℤ, u64_of_i64}
use async_rpc_fbthrift.Stats.Manager.{Manager, add_entry}
use async_rpc_fbthrift.Rpc.{Reply, value, failed, Delivery, remote, Times, Build, connect}
use async_rpc_fbthrift.Database.Handler.{Database}
use async_rpc_fbthrift.Database.Handler
use async_rpc_fbthrift.Sanitize.Handler.{Backend, sanitize_message}

pub record MessageResponse : Type 0 where
  pub message : Text
  pub query_uid : ℤ

pub record StatusResponse : Type 0 where
  pub ok : Bool
  pub query_uid : ℤ

pub record MessageService : Type 0 where
  pub manager : Manager
  -- the threads with a client of either kind, in the `sync` build
  pub sanit_map : List ℕ
  pub mock_map : List ℕ

-- The three services.
pub record Board : Type 0 where
  pub service : MessageService
  pub backend : Backend

-- From the reply of the database on. An exception leaves the handler.
unfoldable pub finish_find :
    Times → ℤ → MessageService → Reply Text → Backend → Option (Reply MessageResponse × Board)
finish_find t uid s failed b = some (failed, record { service = s; backend = b })
finish_find t uid s (value message) b = do
  left ← add_entry s.manager (u64_of_i64 uid) t.departure
  some (
    value (record { message = message; query_uid = uid }),
    record { service = record s { manager = left }; backend = b },
  )

unfoldable pub find_last_message :
    Build → Delivery → ℕ → Times → Times → Text → ℤ → Board → Option (Reply MessageResponse × Board)
unfolding finish_find
find_last_message build d tid t t_mock client_id query_uid board =
    add_entry board.service.manager (u64_of_i64 query_uid) t.arrival >>= λ arrived.
    remote d (Handler.find_last_message t_mock client_id query_uid) board.backend.database
    >>= λ out.
        finish_find t query_uid
          (record (board.service) {
            manager = arrived;
            mock_map = connect build tid board.service.mock_map;
          })
          out.0 (record (board.backend) { database = out.1 })

-- From the reply of the sanitization service on.
unfoldable pub finish_send :
    Times → ℤ → MessageService → Reply Bool → Backend → Option (Reply StatusResponse × Board)
finish_send t uid s failed b = some (failed, record { service = s; backend = b })
finish_send t uid s (value res) b = do
  left ← add_entry s.manager (u64_of_i64 uid) t.departure
  some (
    value (record { ok = res; query_uid = uid }),
    record { service = record s { manager = left }; backend = b },
  )

-- What the environment chooses for one `send_message`: the build of the sanitization service, the
-- thread that serves the call there, what becomes of the two remote calls, and the clocks.
pub record Course : Type 0 where
  pub sanit_build : Build
  pub sanit_tid : ℕ
  pub to_sanit : Delivery
  pub to_mock : Delivery
  pub times : Times
  pub sanit_times : Times
  pub mock_times : Times

unfoldable pub send_message :
    Build → ℕ → Course → Text → Text → ℤ → Board → Option (Reply StatusResponse × Board)
unfolding finish_send
send_message build tid c client_id message query_uid board =
    add_entry board.service.manager (u64_of_i64 query_uid) c.times.arrival >>= λ arrived.
    remote c.to_sanit
      (sanitize_message c.sanit_build c.to_mock c.sanit_tid c.sanit_times c.mock_times client_id
        message query_uid)
      board.backend
    >>= λ out.
        finish_send c.times query_uid
          (record (board.service) {
            manager = arrived;
            sanit_map = connect build tid board.service.sanit_map;
          })
          out.0 out.1
