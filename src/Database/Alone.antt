-- ===== src/Database/Alone.antt =====
-- One call of Database.Handler as steps of one thread of Database.Threads, the others being idle.
use async_rpc_fbthrift.Common.{
  ℕ, Bool, Bool-cases, true, false, List, [], ◌∷◌, ◌++◌, Option, Option-cases, some, ◌>>=◌, ◌==◌,
  ◌<◌, Text, ℤ, u64_of_i64, ◌≡◌, ◌≢◌, refl, sym, ap, ◌∙◌, inl, inr, arith, some_inj, bind-some,
}
use mathlib.Core.List.{append_assoc, append-nil}
use async_rpc_fbthrift.Stats.Manager.{add_entry}
use async_rpc_fbthrift.Rpc.{Reply, value, Times}
use async_rpc_fbthrift.Database.Handler.{
  Messages, lookup, insert, Database, Call, finds, stores, message_or_warning, find_last_message,
  store_message,
}
use async_rpc_fbthrift.Database.Threads.{
  Query, Pc, idle, sleeps_to_find, finding, reading, answering, sleeps_to_store, storing, stored,
  Threads, set, subscript, after_find, is_writing, is_accessing, Undisturbed, call_find,
  wake_to_find, find, begin_read, read, answer, call_store, wake_to_store, store, acknowledge, Step,
  Reach, here, next,
}
use async_rpc_fbthrift.Database.Linearizable.{subscript-found}

-- All threads but the first are idle.
pub Solo : (ℕ → Pc) → Type 0
Solo pcs = (j : ℕ) → j ≢ 0 → pcs j ≡ idle

pub set-Solo : (pc : Pc) (pcs : ℕ → Pc) → Solo pcs → Solo (set 0 pc pcs)
unfolding Solo
set-Solo pc pcs solo j other = elim (Bool-cases (j == 0)) [
  | inl me ↦ absurd (other (ground (arith, me)))
  | inr not_me ↦ rw not_me (solo j other)
]

Undisturbed-Solo : (b : Bool) (pcs : ℕ → Pc) → Solo pcs → Undisturbed b 0 pcs
unfolding Solo Undisturbed
Undisturbed-Solo true pcs solo = λ j other. ap is_accessing (solo j other)
Undisturbed-Solo false pcs solo = λ j other. ap is_writing (solo j other)

abbrev pub Quiet : (ℕ → Pc) → Type 0
Quiet pcs = (j : ℕ) → pcs j ≡ idle

Quiet-Solo : (pcs : ℕ → Pc) → Quiet pcs → Solo pcs
unfolding Solo
Quiet-Solo pcs quiet j other = quiet j

set_idle-Quiet : (pcs : ℕ → Pc) → Solo pcs → Quiet (set 0 idle pcs)
unfolding Solo
set_idle-Quiet pcs solo j = elim (Bool-cases (j == 0)) [
  | inl me ↦ rw me refl
  | inr not_me ↦ rw not_me (solo j (λ equal. absurd (ground (arith, not_me, equal))))
]

-- A call that has been answered, with its answer.
pub data Served : Type 0 where
  found_message : (uid : ℤ) (client : Text) → Reply Text → Served
  stored_message : (uid : ℤ) (client message : Text) → Reply Bool → Served

-- The call that a step ends, with what it answers.
unfoldable pub served_by : {n : ℕ} {s t : Threads} → Step n s t → List Served
served_by (answer s s' i t q result at logged) =
    found_message q.query_uid q.client_id (value result) ∷ []
served_by (acknowledge s s' i t q message at logged) =
    stored_message q.query_uid q.client_id message (value true) ∷ []
served_by _ = []

-- The calls that a run of the threads has answered, in the order of their answers.
unfoldable pub served_in : {n : ℕ} {s t : Threads} → Reach n s t → List Served
unfolding served_by
served_in here = []
served_in (next r st) = served_in r ++ served_by st

-- What the handlers answer to the calls, one after the other, and the database that they leave.
unfoldable pub answer_all : Database → List Call → Option (List Served × Database)
answer_all db [] = some ([], db)
answer_all db (finds t uid client ∷ cs) = do
  out ← find_last_message t client uid db
  rest ← answer_all out.1 cs
  some (found_message uid client out.0 ∷ rest.0, rest.1)
answer_all db (stores t uid client message ∷ cs) = do
  out ← store_message t client message uid db
  rest ← answer_all out.1 cs
  some (stored_message uid client message out.0 ∷ rest.0, rest.1)

pub append_run : {n : ℕ} {s t u : Threads} → Reach n s t → Reach n t u → Reach n s u
append_run r here = r
append_run r (next r' st) = next (append_run r r') st

pub append_run-served_in :
    {n : ℕ} {s t u : Threads} (r : Reach n s t) (r' : Reach n t u)
    → served_in (append_run r r') ≡ served_in r ++ served_in r'
unfolding append_run served_in
append_run-served_in r here = sym (append-nil (served_in r))
append_run-served_in r (next r' st) =
    ap (λ all. all ++ served_by st) (append_run-served_in r r')
    ∙ append_assoc (served_in r) (served_in r') (served_by st)

-- These calls are answered, and leave a state without calls, with this database.
abbrev pub Ends : ℕ → Threads → List Served → Database → Type 0
Ends n s served db =
    (s' : Threads) × (r : Reach n s s') × (served_in r ≡ served) × Quiet s'.pcs × (s'.database ≡ db)

pub find_last_message-Ends :
    (n : ℕ) (s : Threads) (t : Times) (client : Text) (uid : ℤ) (r : Reply Text) (db' : Database)
    → 0 < n
    → Quiet s.pcs
    → find_last_message t client uid s.database ≡ some (r, db')
    → Ends n s (found_message uid client r ∷ []) db'
unfolding find_last_message served_in message_or_warning
find_last_message-Ends n s t client uid r db' bound quiet h =
    let (m₁, e₁, rest) = bind-some (add_entry s.database.manager (u64_of_i64 uid) t.arrival) _ h in
    let (m₂, e₂, last) = bind-some (add_entry m₁ (u64_of_i64 uid) t.departure) _ rest in
    let done : record (s.database) { manager = m₂ } ≡ db' =
      ap (λ (x : Reply Text × Database). x.1) (some_inj last) in
    let reply : value (message_or_warning client (lookup client s.database.last_messages)) ≡ r =
      ap (λ (x : Reply Text × Database). x.0) (some_inj last) in
    let q : Query = record { client_id = client; query_uid = uid; since = s.history } in
    let s₁ : Threads = record s { database = record (s.database) { manager = m₁ } } in
    let pcs₁ = set 0 (sleeps_to_find q) s.pcs in
    let pcs₂ = set 0 (finding q) pcs₁ in
    let solo₂ =
      set-Solo (finding q) pcs₁ (set-Solo (sleeps_to_find q) s.pcs (Quiet-Solo s.pcs quiet)) in
    let outcome = after_find q (lookup client s.database.last_messages) in
    let pcs₃ = set 0 outcome pcs₂ in
    let solo₃ = set-Solo outcome pcs₂ solo₂ in
    let looked : Reach n s (record s₁ { pcs = pcs₃ }) =
      next
        (next (next here (call_find s s₁ 0 t.arrival client uid bound (quiet 0) (rw e₁ refl)))
          (wake_to_find (record s₁ { pcs = pcs₁ }) 0 q refl))
        (find (record s₁ { pcs = pcs₂ }) 0 q refl (Undisturbed-Solo false pcs₂ solo₂)) in
    elim (Option-cases (lookup client s.database.last_messages)) [
      | inl nothing ↦
          let s₄ : Threads = record s₁ {
            database = record (s.database) { manager = m₂ };
            pcs = pcs₃;
          } in
          (
            record s₄ { pcs = set 0 idle pcs₃ },
            next looked (
                answer (record s₁ { pcs = pcs₃ }) s₄ 0 t.departure q _ (ap (after_find q) nothing)
                  (rw e₂ refl)),
            ap (λ a. found_message uid client a ∷ [])
                (ap (λ o. value (message_or_warning client o)) (sym nothing) ∙ reply),
            set_idle-Quiet pcs₃ solo₃,
            done,
          )
      | inr (message, known) ↦
          let messages = (subscript client s.database.last_messages).1 in
          let pcs₄ = set 0 (reading q) pcs₃ in
          let solo₄ = set-Solo (reading q) pcs₃ solo₃ in
          let result = (subscript client s.database.last_messages).0 in
          let pcs₅ = set 0 (answering q result) pcs₄ in
          let solo₅ = set-Solo (answering q result) pcs₄ solo₄ in
          let s₅ : Threads = record s₁ {
            database = record (s₁.database) { last_messages = messages };
            pcs = pcs₅;
          } in
          let s₆ : Threads = record s₅ { database = record (s₅.database) { manager = m₂ } } in
          (
            record s₆ { pcs = set 0 idle pcs₅ },
            next
                (next
                  (next looked
                    (begin_read (record s₁ { pcs = pcs₃ }) 0 q (ap (after_find q) known)))
                  (read (record s₁ { pcs = pcs₄ }) 0 q refl (Undisturbed-Solo false pcs₄ solo₄)))
                (answer s₅ s₆ 0 t.departure q result refl (rw e₂ refl)),
            ap (λ a. found_message uid client a ∷ [])
                (ap (λ (x : Text × Messages). value x.0)
                    (subscript-found client s.database.last_messages message known)
                  ∙ ap (λ o. value (message_or_warning client o)) (sym known)
                  ∙ reply),
            set_idle-Quiet pcs₅ solo₅,
            ap (λ (x : Text × Messages). record { last_messages = x.1; manager = m₂ })
                  (subscript-found client s.database.last_messages message known)
                ∙ done,
          )
    ]

pub store_message-Ends :
    (n : ℕ) (s : Threads) (t : Times) (client message : Text) (uid : ℤ) (r : Reply Bool)
    (db' : Database)
    → 0 < n
    → Quiet s.pcs
    → store_message t client message uid s.database ≡ some (r, db')
    → Ends n s (stored_message uid client message r ∷ []) db'
unfolding store_message served_in
store_message-Ends n s t client message uid r db' bound quiet h =
    let (m₁, e₁, rest) = bind-some (add_entry s.database.manager (u64_of_i64 uid) t.arrival) _ h in
    let (m₂, e₂, last) = bind-some (add_entry m₁ (u64_of_i64 uid) t.departure) _ rest in
    let q : Query = record { client_id = client; query_uid = uid; since = s.history } in
    let s₁ : Threads = record s { database = record (s.database) { manager = m₁ } } in
    let pcs₁ = set 0 (sleeps_to_store q message) s.pcs in
    let pcs₂ = set 0 (storing q message) pcs₁ in
    let solo₂ =
      set-Solo (storing q message) pcs₁
        (set-Solo (sleeps_to_store q message) s.pcs (Quiet-Solo s.pcs quiet)) in
    let pcs₃ = set 0 (stored q message) pcs₂ in
    let s₃ : Threads = record {
      database = record {
        last_messages = insert client message s.database.last_messages;
        manager = m₁;
      };
      pcs = pcs₃;
      history = (client, message) ∷ s.history;
    } in
    let s₄ : Threads = record s₃ { database = record (s₃.database) { manager = m₂ } } in
    (
      record s₄ { pcs = set 0 idle pcs₃ },
      next
          (next
            (next
              (next here
                (call_store s s₁ 0 t.arrival client message uid bound (quiet 0) (rw e₁ refl)))
              (wake_to_store (record s₁ { pcs = pcs₁ }) 0 q message refl))
            (store (record s₁ { pcs = pcs₂ }) 0 q message refl (Undisturbed-Solo true pcs₂ solo₂)))
          (acknowledge s₃ s₄ 0 t.departure q message refl (rw e₂ refl)),
      ap (λ (x : Reply Bool × Database). stored_message uid client message x.0 ∷ [])
          (some_inj last),
      set_idle-Quiet pcs₃ (set-Solo (stored q message) pcs₂ solo₂),
      ap (λ (x : Reply Bool × Database). x.1) (some_inj last),
    )
