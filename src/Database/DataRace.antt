-- ===== src/Database/DataRace.antt =====
-- The accesses of the map `last_messages` of src/MockDatabase/MockDatabase.cpp stand under no lock.
use async_rpc_fbthrift.Common.{
  ℕ, Bool-cases, true, false, Bool, [], pos, subst, ◌==◌, ◌<◌, ◌≤◌, Text, u64_of_i64, ◌≡◌, ◌↔◌,
  refl, ap, ◌∙◌, sym, inl, inr, arith,
}
use async_rpc_fbthrift.Stats.Invariant.{add_entry-Added}
use async_rpc_fbthrift.Stats.Shape.{IsValid}
use async_rpc_fbthrift.Database.Handler.{Database}
use async_rpc_fbthrift.Database.Threads.{
  Query, Pc, idle, sleeps_to_find, finding, found, reading, answering, sleeps_to_store, storing,
  stored, Threads, set, is_writing, is_accessing, Step, call_find, wake_to_find, find, begin_read,
  read, answer, call_store, wake_to_store, store, acknowledge, Reach, here, next, start, Race,
}
use async_rpc_fbthrift.Database.Linearizable.{IsLogged, log_entry-IsLogged}

abbrev is_idle : Pc → Bool
is_idle idle = true
is_idle _ = false

-- Only the first n threads serve calls.
abbrev OnlyFirst : ℕ → (ℕ → Pc) → Type 0
OnlyFirst n pcs = (j : ℕ) → is_idle (pcs j) ≡ false → j < n

set-OnlyFirst :
    (n i : ℕ) (pc : Pc) (pcs : ℕ → Pc) → i < n → OnlyFirst n pcs → OnlyFirst n (set i pc pcs)
set-OnlyFirst n i pc pcs bound only j = elim (Bool-cases (j == i)) [
  | inl me ↦ λ h. ground (arith, me, bound)
  | inr other ↦ rw other (only j)
]

-- A thread within a call is among the first n.
moved-OnlyFirst :
    (n i : ℕ) (old new : Pc) (pcs : ℕ → Pc)
    → OnlyFirst n pcs
    → pcs i ≡ old
    → is_idle old ≡ false
    → OnlyFirst n (set i new pcs)
moved-OnlyFirst n i old new pcs only at busy =
    set-OnlyFirst n i new pcs (only i (ap is_idle at ∙ busy)) only

logged-OnlyFirst : (n : ℕ) (s s' : Threads) → IsLogged s s' → OnlyFirst n s.pcs → OnlyFirst n s'.pcs
logged-OnlyFirst n s s' l only = subst (λ (pcs : ℕ → Pc). OnlyFirst n pcs) l.pcs only

Step-OnlyFirst : {n : ℕ} {s s' : Threads} → Step n s s' → OnlyFirst n s.pcs → OnlyFirst n s'.pcs
Step-OnlyFirst {n} (call_find s s' i t client uid bound at logged) only =
    set-OnlyFirst n i _ s'.pcs bound
      (logged-OnlyFirst n s s' (log_entry-IsLogged s s' uid t logged) only)
Step-OnlyFirst {n} (wake_to_find s i q at) only = moved-OnlyFirst n i _ _ s.pcs only at refl
Step-OnlyFirst {n} (find s i q at free) only = moved-OnlyFirst n i _ _ s.pcs only at refl
Step-OnlyFirst {n} (begin_read s i q at) only = moved-OnlyFirst n i _ _ s.pcs only at refl
Step-OnlyFirst {n} (read s i q at free) only = moved-OnlyFirst n i _ _ s.pcs only at refl
Step-OnlyFirst {n} (answer s s' i t q result at logged) only =
    let l = log_entry-IsLogged s s' q.query_uid t logged in
    moved-OnlyFirst n i _ _ s'.pcs (logged-OnlyFirst n s s' l only)
      (ap (λ (pcs : ℕ → Pc). pcs i) (sym l.pcs) ∙ at) refl
Step-OnlyFirst {n} (call_store s s' i t client message uid bound at logged) only =
    set-OnlyFirst n i _ s'.pcs bound
      (logged-OnlyFirst n s s' (log_entry-IsLogged s s' uid t logged) only)
Step-OnlyFirst {n} (wake_to_store s i q message at) only =
    moved-OnlyFirst n i _ _ s.pcs only at refl
Step-OnlyFirst {n} (store s i q message at free) only = moved-OnlyFirst n i _ _ s.pcs only at refl
Step-OnlyFirst {n} (acknowledge s s' i t q message at logged) only =
    let l = log_entry-IsLogged s s' q.query_uid t logged in
    moved-OnlyFirst n i _ _ s'.pcs (logged-OnlyFirst n s s' l only)
      (ap (λ (pcs : ℕ → Pc). pcs i) (sym l.pcs) ∙ at) refl

Reach-OnlyFirst : {n : ℕ} (db : Database) {s : Threads} → Reach n (start db) s → OnlyFirst n s.pcs
Reach-OnlyFirst db here = λ j busy. absurd (ground (arith, busy))
Reach-OnlyFirst db (next r st) = Step-OnlyFirst st (Reach-OnlyFirst db r)

is_accessing-is_idle : (pc : Pc) → is_accessing pc ≡ true → is_idle pc ≡ false
is_accessing-is_idle idle h = absurd (ground (arith, h))
is_accessing-is_idle (sleeps_to_find q) h = refl
is_accessing-is_idle (finding q) h = refl
is_accessing-is_idle (found q) h = refl
is_accessing-is_idle (reading q) h = refl
is_accessing-is_idle (answering q result) h = refl
is_accessing-is_idle (sleeps_to_store q message) h = refl
is_accessing-is_idle (storing q message) h = refl
is_accessing-is_idle (stored q message) h = refl

is_writing-is_accessing : (pc : Pc) → is_writing pc ≡ true → is_accessing pc ≡ true
is_writing-is_accessing (storing q message) h = refl
is_writing-is_accessing idle h = h
is_writing-is_accessing (sleeps_to_find q) h = absurd (ground (arith, h))
is_writing-is_accessing (finding q) h = refl
is_writing-is_accessing (found q) h = absurd (ground (arith, h))
is_writing-is_accessing (reading q) h = refl
is_writing-is_accessing (answering q result) h = absurd (ground (arith, h))
is_writing-is_accessing (sleeps_to_store q message) h = absurd (ground (arith, h))
is_writing-is_accessing (stored q message) h = absurd (ground (arith, h))

Race-lt : (n : ℕ) (db : Database) → (s : Threads) × Reach n (start db) s × Race s → 2 ≤ n
unfolding Race
Race-lt n db (s, r, (i, j, differ, writes, accesses)) =
    let only = Reach-OnlyFirst db r in
    let i_bound : i < n =
      only i (is_accessing-is_idle (s.pcs i) (is_writing-is_accessing (s.pcs i) writes)) in
    let j_bound : j < n = only j (is_accessing-is_idle (s.pcs j) accesses) in
    omega (arith, i_bound, j_bound, differ)

abbrev arrived : Database → Query → Query
arrived db q = record q { since = db.last_messages }

-- The first thread stores while the second looks up.
reach-Race :
    (n : ℕ) (db : Database) (q₁ q₂ : Query) (message : Text)
    → IsValid db.manager
    → 2 ≤ n
    → (s : Threads) × Reach n (start db) s × Race s
unfolding Race
reach-Race n db q₁ q₂ message v two =
    let (m₁, e₁, a₁) = add_entry-Added db.manager (u64_of_i64 q₁.query_uid) 0 v in
    let (m₂, e₂, a₂) = add_entry-Added m₁ (u64_of_i64 q₂.query_uid) 0 a₁.valid in
    let pcs₁ = set 0 (sleeps_to_store (arrived db q₁) message) (λ i. idle) in
    let pcs₂ = set 1 (sleeps_to_find (arrived db q₂)) pcs₁ in
    let pcs₃ = set 0 (storing (arrived db q₁) message) pcs₂ in
    let s₁ : Threads = record (start db) { database = record db { manager = m₁ } } in
    let s₂ : Threads = record s₁ { database = record db { manager = m₂ }; pcs = pcs₁ } in
    (
      record s₂ { pcs = set 1 (finding (arrived db q₂)) pcs₃ },
      next
          (next
            (next
              (next here (
                call_store (start db) s₁ 0 0 q₁.client_id message q₁.query_uid (omega arith) refl
                  (rw e₁ refl)))
              (call_find (record s₁ { pcs = pcs₁ }) s₂ 1 0 q₂.client_id q₂.query_uid (omega arith)
                refl (rw e₂ refl)))
            (wake_to_store (record s₂ { pcs = pcs₂ }) 0 (arrived db q₁) message refl))
          (wake_to_find (record s₂ { pcs = pcs₃ }) 1 (arrived db q₂) refl),
      (0, 1, λ h. absurd (omega arith), refl, refl),
    )

-- From a database with a well-formed log: the server can come to overlap a store into the map with
-- another access of it, which is undefined, exactly when it has two threads or more.
pub Race-Reach_iff :
    (n : ℕ) (db : Database)
    → IsValid db.manager
    → ((s : Threads) × Reach n (start db) s × Race s) ↔ (2 ≤ n)
Race-Reach_iff n db v =
    let q : Query = record { client_id = []; query_uid = pos 0; since = [] } in
    (Race-lt n db, reach-Race n db q q [] v)
