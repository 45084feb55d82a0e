-- ===== src/Rpc.antt =====
-- One remote call between the services (the clients of src/MessageService and
-- src/SanitizationService). The transport is not part of the repository: what it did with a call is
-- an argument.
use async_rpc_fbthrift.Common.{
  ℕ, Bool, false, ◌||◌, ◌==◌, if◌then◌else◌, List, [], ◌∷◌, Option, some, ◌>>=◌,
}

-- A returned value, or the exception that `value()` of a failed future, or a `sync_` call, throws.
pub data Reply {ℓ} (R : Type ℓ) : Type ℓ where
  value : R → Reply R
  failed : Reply R

-- A call may get through, get lost on the way in, or lose its reply on the way out.
pub data Delivery : Type 0 where
  delivered request_lost reply_lost : Delivery

-- A handler that throws is answered with an exception as well.
unfoldable pub remote {ℓ} :
    {S R : Type ℓ} → Delivery → (S → Option (Reply R × S)) → S → Option (Reply R × S)
remote delivered handler s = handler s
remote request_lost handler s = some (failed, s)
remote reply_lost handler s = handler s >>= λ out. some (failed, out.1)

-- What a handler reads from the clock when it begins and when it ends.
pub record Times : Type 0 where
  pub arrival : ℕ
  pub departure : ℕ

-- The two builds of a service: with `SYNC` each thread has a client of its own.
pub data Build : Type 0 where
  sync async : Build

-- The threads that have a client, with `SYNC`; the other build makes one client at the start.
unfoldable pub has_client : List ℕ → ℕ → Bool
has_client [] tid = false
has_client (t ∷ ts) tid = t == tid || has_client ts tid

-- `find(tid)`, and `insert` where it finds none.
unfoldable pub connect : Build → ℕ → List ℕ → List ℕ
connect sync tid clients = if has_client clients tid then clients else tid ∷ clients
connect async tid clients = clients
