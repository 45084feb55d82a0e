-- ===== src/Sanitize/Handler.antt =====
-- `SanitizationHandler` of src/SanitizationService/SanitizationService.h and .cpp. The handler's
-- sleep for `waiting_time` changes no state; in the `async` build it overlaps the remote call.
use async_rpc_fbthrift.Common.{
  ℕ, Bool, true, false, List, Option, some, if◌then◌else◌, ◌>>=◌, Text, ℤ, u64_of_i64,
}
use async_rpc_fbthrift.Stats.Manager.{Manager, add_entry}
use async_rpc_fbthrift.Rpc.{Reply, value, failed, Delivery, remote, Times, Build, connect}
use async_rpc_fbthrift.Database.Handler.{Database, store_message}
use async_rpc_fbthrift.Sanitize.Regex.{regex_match, match_expr}

pub record Sanitizer : Type 0 where
  pub manager : Manager
  -- the threads with a client, in the `sync` build
  pub mock_map : List ℕ

-- The service and the database behind it.
pub record Backend : Type 0 where
  pub sanitizer : Sanitizer
  pub database : Database

-- From the reply of the database on. An exception leaves the handler.
unfoldable pub finish_sanitize :
    Times → ℤ → Sanitizer → Reply Bool → Database → Option (Reply Bool × Backend)
finish_sanitize t query_uid s failed db = some (failed, record { sanitizer = s; database = db })
finish_sanitize t query_uid s (value res) db = do
  left ← add_entry s.manager (u64_of_i64 query_uid) t.departure
  some (value res, record { sanitizer = record s { manager = left }; database = db })

-- A message that the expression matches is answered with `false`, and nothing is logged behind it.
unfoldable pub sanitize_message :
    Build → Delivery → ℕ → Times → Times → Text → Text → ℤ → Backend → Option (Reply Bool × Backend)
unfolding finish_sanitize
sanitize_message build d tid t t_mock client_id message query_uid b =
    add_entry b.sanitizer.manager (u64_of_i64 query_uid) t.arrival >>= λ arrived.
    if regex_match match_expr true message
    then some (value false, record b { sanitizer = record (b.sanitizer) { manager = arrived } })
    else (remote d (store_message t_mock client_id message query_uid) b.database >>= λ out.
        finish_sanitize t query_uid
          (record { manager = arrived; mock_map = connect build tid b.sanitizer.mock_map }) out.0
          out.1)
