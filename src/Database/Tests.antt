-- ===== src/Database/Tests.antt =====
-- The database of src/MockDatabase on a short history.
use async_rpc_fbthrift.Common.{
  true, ℕ, Text, ℤ, ◌≤◌, ◌↔◌, ◌≡◌, refl, false, List, [], ◌∷◌, ◌++◌, some, none, arith, text, pos,
}
use async_rpc_fbthrift.Stats.Manager.{new_manager, add_entry, rotate, write_entry}
use async_rpc_fbthrift.Stats.Shape.{IsValid, new_manager-IsValid}
use async_rpc_fbthrift.Rpc.{Times}
use async_rpc_fbthrift.Database.Handler.{
  Database, Call, finds, stores, message_or_warning, find_last_message, insert, lookup,
  store_message, Messages,
}
use async_rpc_fbthrift.Database.Threads.{
  Query, idle, sleeps_to_find, finding, found, reading, answering, sleeps_to_store, storing, stored,
  Threads, set, subscript, Undisturbed, log_entry, call_find, wake_to_find, find, begin_read, read,
  call_store, wake_to_store, store, Reach, here, next, start, Race,
}
use async_rpc_fbthrift.Database.Linearizable.{answering-Reach, stored-Reach}
use async_rpc_fbthrift.Database.Explained.{Extends}
use async_rpc_fbthrift.Database.Runs.{answer_all-Reach}
use async_rpc_fbthrift.Database.Alone.{Served, served_in, answer_all}
use async_rpc_fbthrift.Database.DataRace.{Race-Reach_iff}
use async_rpc_fbthrift.Database.Laws.{last_stored}

abbrev empty_database : Database
empty_database = record {
  last_messages = [];
  manager = new_manager (text "db.csv") false 4 2 false;
}

abbrev at_once : Times
at_once = record { arrival = 1; departure = 2 }

abbrev history : List Call
history =
    stores at_once (pos 0) (text "Albert") (text "one")
    ∷ stores at_once (pos 1) (text "Berta") (text "two")
    ∷ stores at_once (pos 2) (text "Albert") (text "three")
    ∷ []

last_of_albert : last_stored (text "Albert") none history ≡ some (text "three")
unfolding last_stored
last_of_albert = refl

empty_database-IsValid : IsValid empty_database.manager
empty_database-IsValid =
    new_manager-IsValid (text "db.csv") false 4 2 false (omega arith) (omega arith) (omega arith)
      (omega arith)

-- Thread 1 is in the sleep of a `find_last_message` while thread 0 stores for the same client.
abbrev logged : Threads → ℤ → Threads
logged s uid = elim (log_entry s uid 1) [ none ↦ s | some s' ↦ s' ]

abbrev asks : Query
asks = record { client_id = text "Albert"; query_uid = pos 1; since = [] }

abbrev posts : Query
posts = record { client_id = text "Albert"; query_uid = pos 0; since = [] }

abbrev at_call : Threads
at_call = record (logged (start empty_database) (pos 1)) {
  pcs = set 1 (sleeps_to_find asks) (λ i. idle);
}

abbrev at_second_call : Threads
at_second_call = record (logged at_call (pos 0)) {
  pcs = set 0 (sleeps_to_store posts (text "one")) at_call.pcs;
}

abbrev at_store : Threads
at_store = record at_second_call { pcs = set 0 (storing posts (text "one")) at_second_call.pcs }

abbrev behind_store : Threads
behind_store = record {
  database = record (at_store.database) { last_messages = (text "Albert", text "one") ∷ [] };
  pcs = set 0 (stored posts (text "one")) at_store.pcs;
  history = (text "Albert", text "one") ∷ [];
}

nobody_else : Undisturbed true 0 at_store.pcs
unfolding Undisturbed
nobody_else j differs = ground arith

storing-Reach : Reach 2 (start empty_database) behind_store
unfolding add_entry rotate write_entry insert new_manager
storing-Reach =
    next
      (next
        (next
          (next here (
            call_find (start empty_database) (logged (start empty_database) (pos 1)) 1 1
              (text "Albert") (pos 1) (omega arith) refl refl))
          (call_store at_call (logged at_call (pos 0)) 0 1 (text "Albert") (text "one") (pos 0)
            (omega arith) refl refl))
        (wake_to_store at_second_call 0 posts (text "one") refl))
      (store at_store 0 posts (text "one") refl nobody_else)

-- Then thread 1 looks up and reads what was stored during its call.
abbrev at_find : Threads
at_find = record behind_store { pcs = set 1 (finding asks) behind_store.pcs }

abbrev behind_find : Threads
behind_find = record at_find { pcs = set 1 (found asks) at_find.pcs }

abbrev at_read : Threads
at_read = record behind_find { pcs = set 1 (reading asks) behind_find.pcs }

abbrev at_answer : Threads
at_answer = record at_read { pcs = set 1 (answering asks (text "one")) at_read.pcs }

nobody_else_writes : Undisturbed false 1 at_find.pcs
unfolding Undisturbed
nobody_else_writes j differs = ground arith

nobody_else_writes_still : Undisturbed false 1 at_read.pcs
unfolding Undisturbed
nobody_else_writes_still j differs = ground arith

answering-run : Reach 2 (start empty_database) at_answer
unfolding lookup subscript
answering-run =
    next
      (next
        (next (next storing-Reach (wake_to_find behind_store 1 asks refl))
          (find at_find 1 asks refl nobody_else_writes))
        (begin_read behind_find 1 asks refl))
      (read at_read 1 asks refl nobody_else_writes_still)

answering-Reach_example :
    (past : Messages) × Extends [] past
    × Extends past ((text "Albert", text "one") ∷ [])
    × (text "one" ≡ message_or_warning (text "Albert") (lookup (text "Albert") past))
answering-Reach_example =
    answering-Reach 2 empty_database at_answer 1 asks (text "one") answering-run refl

stored-Reach_example :
    ((past : Messages) × Extends [] past
      × Extends ((text "Albert", text "one") ∷ past) ((text "Albert", text "one") ∷ []))
    × ((k : Text)
        → lookup k behind_store.database.last_messages
          ≡ lookup k ((text "Albert", text "one") ∷ []))
stored-Reach_example =
    stored-Reach 2 empty_database behind_store 0 posts (text "one") storing-Reach refl

Race-Reach_iff_example : ((s : Threads) × Reach 2 (start empty_database) s × Race s) ↔ (2 ≤ 2)
Race-Reach_iff_example = Race-Reach_iff 2 empty_database empty_database-IsValid

abbrev and_find : List Call
and_find = history ++ finds at_once (pos 9) (text "Albert") ∷ []

abbrev outcome : List Served × Database
outcome = elim (answer_all empty_database and_find) [ none ↦ ([], empty_database) | some out ↦ out ]

answer_all_runs : answer_all empty_database and_find ≡ some outcome
unfolding answer_all find_last_message message_or_warning lookup store_message add_entry rotate
    write_entry insert new_manager
answer_all_runs = refl

answer_all-Reach_example :
    (s : Threads) × (r : Reach 1 (start empty_database) s) × (served_in r ≡ outcome.0)
    × ((j : ℕ) → s.pcs j ≡ idle)
    × (s.database ≡ outcome.1)
answer_all-Reach_example =
    answer_all-Reach 1 empty_database outcome.1 and_find outcome.0 (omega arith) answer_all_runs
