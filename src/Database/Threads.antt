-- ===== src/Database/Threads.antt =====
-- The handlers of `MockDatabaseHandler` (src/MockDatabase/MockDatabase.cpp) run by several threads
-- of the server on one `unordered_map` without a lock. A step of a thread is one access of the map
-- or one `add_entry`. An access that another thread's access overlaps is undefined when one of the
-- two stores: no step completes it. A thread carries what its call was given, and which stores were
-- complete when it arrived.
use async_rpc_fbthrift.Common.{
  ℕ, Bool, true, false, [], ◌∷◌, Option, none, some, ◌==◌, ◌>>=◌, if◌then◌else◌, ◌<◌, Text, ℤ,
  u64_of_i64, ◌≡◌, ◌≢◌,
}
use async_rpc_fbthrift.Stats.Manager.{add_entry}
use async_rpc_fbthrift.Database.Handler.{Messages, lookup, insert, Database, message_or_warning}

-- The call that a thread serves. `since`: the stores that were complete when it arrived.
pub record Query : Type 0 where
  pub client_id : Text
  pub query_uid : ℤ
  pub since : Messages

-- Where a thread of the server is.
pub data Pc : Type 0 where
  idle : Pc
  -- in the sleep of `find_last_message`
  sleeps_to_find : Query → Pc
  -- inside `last_messages.find(*client_id)`
  finding : Query → Pc
  -- behind it, where it was not `end()`
  found : Query → Pc
  -- inside `last_messages[*client_id]`
  reading : Query → Pc
  -- with a result
  answering : Query → Text → Pc
  -- in the sleep of `store_message`
  sleeps_to_store : Query → Text → Pc
  -- inside `last_messages[*client_id] = *message`
  storing : Query → Text → Pc
  -- behind it
  stored : Query → Text → Pc

-- The server: the handler's members, its threads, and the completed stores, the newest first.
pub record Threads : Type 0 where
  pub database : Database
  pub pcs : ℕ → Pc
  pub history : Messages

abbrev pub set : ℕ → Pc → (ℕ → Pc) → ℕ → Pc
set i pc pcs j = if j == i then pc else pcs j

abbrev pub entry_or_new : Text → Messages → Option Text → Text × Messages
entry_or_new k m none = ([], insert k [] m)
entry_or_new k m (some message) = (message, m)

-- `last_messages[k]`, which inserts an empty text for a new key.
unfoldable pub subscript : Text → Messages → Text × Messages
subscript k m = entry_or_new k m (lookup k m)

-- `find_last_message` behind its `find`.
abbrev pub after_find : Query → Option Text → Pc
after_find q none = answering q (message_or_warning q.client_id none)
after_find q (some message) = found q

abbrev pub is_writing : Pc → Bool
is_writing (storing q message) = true
is_writing _ = false

abbrev pub is_accessing : Pc → Bool
is_accessing (finding q) = true
is_accessing (reading q) = true
is_accessing (storing q message) = true
is_accessing _ = false

-- No other thread's access conflicts with that of thread i.
unfoldable pub Undisturbed : Bool → ℕ → (ℕ → Pc) → Type 0
Undisturbed true i pcs = (j : ℕ) → j ≢ i → is_accessing (pcs j) ≡ false
Undisturbed false i pcs = (j : ℕ) → j ≢ i → is_writing (pcs j) ≡ false

abbrev pub log_entry : Threads → ℤ → ℕ → Option Threads
log_entry s uid t = add_entry s.database.manager (u64_of_i64 uid) t >>= λ m.
    some (record s { database = record (s.database) { manager = m } })

-- One step of one of n threads.
pub data Step (n : ℕ) : Threads → Threads → Type 0 where
  call_find :
      (s s' : Threads) (i t : ℕ) (client_id : Text) (query_uid : ℤ)
      → i < n
      → s.pcs i ≡ idle
      → log_entry s query_uid t ≡ some s'
      → Step n s (record s' {
        pcs =
            set i
              (sleeps_to_find
                (record { client_id = client_id; query_uid = query_uid; since = s.history }))
              s'.pcs;
      })
  wake_to_find :
      (s : Threads) (i : ℕ) (q : Query)
      → s.pcs i ≡ sleeps_to_find q
      → Step n s (record s { pcs = set i (finding q) s.pcs })
  find :
      (s : Threads) (i : ℕ) (q : Query)
      → s.pcs i ≡ finding q
      → Undisturbed false i s.pcs
      → Step n s (record s {
        pcs = set i (after_find q (lookup q.client_id s.database.last_messages)) s.pcs;
      })
  begin_read :
      (s : Threads) (i : ℕ) (q : Query)
      → s.pcs i ≡ found q
      → Step n s (record s { pcs = set i (reading q) s.pcs })
  read :
      (s : Threads) (i : ℕ) (q : Query)
      → s.pcs i ≡ reading q
      → Undisturbed false i s.pcs
      → Step n s (record s {
        database = record (s.database) {
          last_messages = (subscript q.client_id s.database.last_messages).1;
        };
        pcs = set i (answering q (subscript q.client_id s.database.last_messages).0) s.pcs;
      })
  answer :
      (s s' : Threads) (i t : ℕ) (q : Query) (result : Text)
      → s.pcs i ≡ answering q result
      → log_entry s q.query_uid t ≡ some s'
      → Step n s (record s' { pcs = set i idle s'.pcs })
  call_store :
      (s s' : Threads) (i t : ℕ) (client_id message : Text) (query_uid : ℤ)
      → i < n
      → s.pcs i ≡ idle
      → log_entry s query_uid t ≡ some s'
      → Step n s (record s' {
        pcs =
            set i
              (sleeps_to_store
                (record { client_id = client_id; query_uid = query_uid; since = s.history })
                message)
              s'.pcs;
      })
  wake_to_store :
      (s : Threads) (i : ℕ) (q : Query) (message : Text)
      → s.pcs i ≡ sleeps_to_store q message
      → Step n s (record s { pcs = set i (storing q message) s.pcs })
  store :
      (s : Threads) (i : ℕ) (q : Query) (message : Text)
      → s.pcs i ≡ storing q message
      → Undisturbed true i s.pcs
      → Step n s (record {
        database = record (s.database) {
          last_messages = insert q.client_id message s.database.last_messages;
        };
        pcs = set i (stored q message) s.pcs;
        history = (q.client_id, message) ∷ s.history;
      })
  acknowledge :
      (s s' : Threads) (i t : ℕ) (q : Query) (message : Text)
      → s.pcs i ≡ stored q message
      → log_entry s q.query_uid t ≡ some s'
      → Step n s (record s' { pcs = set i idle s'.pcs })

pub data Reach (n : ℕ) (s : Threads) : Threads → Type 0 where
  here : Reach n s s
  next : {t u : Threads} → Reach n s t → Step n t u → Reach n s u

abbrev pub start : Database → Threads
start db = record { database = db; pcs = λ i. idle; history = db.last_messages }

-- Two accesses of the map overlap, and one of them stores.
unfoldable pub Race : Threads → Type 0
Race s = (i j : ℕ) × (i ≢ j) × (is_writing (s.pcs i) ≡ true) × (is_accessing (s.pcs j) ≡ true)
