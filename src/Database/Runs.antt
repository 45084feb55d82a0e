-- ===== src/Database/Runs.antt =====
-- The handlers of Database.Handler as steps of one thread of Database.Threads.
use async_rpc_fbthrift.Common.{ℕ, List, [], ◌∷◌, some, ◌<◌, ◌≡◌, refl, ap, ◌∙◌, some_inj, bind-some}
use async_rpc_fbthrift.Database.Handler.{
  Database, Call, finds, stores, find_last_message, store_message,
}
use async_rpc_fbthrift.Database.Threads.{idle, Threads, Reach, here, start}
use async_rpc_fbthrift.Database.Alone.{
  Quiet, Served, served_in, answer_all, append_run, append_run-served_in, Ends,
  find_last_message-Ends, store_message-Ends, found_message, stored_message,
}

-- One call is answered, and then the others.
Ends-append :
    (n : ℕ) (s : Threads) (call : Served) (served : List Served) (db db' : Database)
    → Ends n s (call ∷ []) db
    → ((s₁ : Threads) → Quiet s₁.pcs → s₁.database ≡ db → Ends n s₁ served db')
    → Ends n s (call ∷ served) db'
Ends-append n s call served db db' (s₁, r₁, a₁, quiet₁, e₁) others =
    let (s₂, r₂, a₂, quiet₂, e₂) = others s₁ quiet₁ e₁ in
    (s₂, append_run r₁ r₂, append_run-served_in r₁ r₂ ∙ rw (a₁, a₂) refl, quiet₂, e₂)

answer_all-Ends :
    (n : ℕ) (s : Threads) (cs : List Call) (served : List Served) (db' : Database)
    → 0 < n
    → Quiet s.pcs
    → answer_all s.database cs ≡ some (served, db')
    → Ends n s served db'
unfolding answer_all served_in
answer_all-Ends n s [] served db' bound quiet h =
    let same = some_inj h in
    (
      s,
      here,
      ap (λ (x : List Served × Database). x.0) same,
      quiet,
      ap (λ (x : List Served × Database). x.1) same,
    )
answer_all-Ends n s (finds t uid client ∷ cs) served db' bound quiet h =
    let ((r, db), e, rest) = bind-some (find_last_message t client uid s.database) _ h in
    let ((later, db₂), e₂, last) = bind-some (answer_all db cs) _ rest in
    let same = some_inj last in
    rw (← ap (λ (x : List Served × Database). x.0) same) (
      Ends-append n s (found_message uid client r) later db db'
        (find_last_message-Ends n s t client uid r db bound quiet e)
        (λ s₁ quiet₁ e₁. answer_all-Ends n s₁ cs later db' bound quiet₁ (
          ap (λ d. answer_all d cs) e₁
          ∙ e₂
          ∙ ap (λ (x : List Served × Database). some (later, x.1)) same)))
answer_all-Ends n s (stores t uid client message ∷ cs) served db' bound quiet h =
    let ((r, db), e, rest) = bind-some (store_message t client message uid s.database) _ h in
    let ((later, db₂), e₂, last) = bind-some (answer_all db cs) _ rest in
    let same = some_inj last in
    rw (← ap (λ (x : List Served × Database). x.0) same) (
      Ends-append n s (stored_message uid client message r) later db db'
        (store_message-Ends n s t client message uid r db bound quiet e)
        (λ s₁ quiet₁ e₁. answer_all-Ends n s₁ cs later db' bound quiet₁ (
          ap (λ d. answer_all d cs) e₁
          ∙ e₂
          ∙ ap (λ (x : List Served × Database). some (later, x.1)) same)))

-- With at least one thread, every sequence of calls that the handlers serve one after the other is
-- a run of the threads' steps without a conflict of accesses, from the same database to the same
-- database, behind which every thread is idle again. The run answers these calls, with the uids,
-- clients and messages that they were given, in their order, and as the handlers answer them.
pub answer_all-Reach :
    (n : ℕ) (db db' : Database) (cs : List Call) (served : List Served)
    → 0 < n
    → answer_all db cs ≡ some (served, db')
    → (s : Threads) × (r : Reach n (start db) s) × (served_in r ≡ served)
      × ((j : ℕ) → s.pcs j ≡ idle)
      × (s.database ≡ db')
answer_all-Reach n db db' cs served bound h =
    answer_all-Ends n (start db) cs served db' bound (λ j. refl) h
