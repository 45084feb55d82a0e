-- ===== src/Database/Linearizable.antt =====
-- What concurrent calls of the database's handlers answer, as long as no accesses conflict.
use async_rpc_fbthrift.Common.{
  ℕ, ◌∷◌, Option-cases, some, if◌then◌else◌, Text, ℤ, text_eq, u64_of_i64, ◌≡◌, refl, sym, ap,
  subst, ◌∙◌, inl, inr, some_inj, bind-some,
}
use async_rpc_fbthrift.Stats.Manager.{add_entry}
use async_rpc_fbthrift.Database.Handler.{Messages, lookup, insert, Database, message_or_warning}
use async_rpc_fbthrift.Database.Laws.{lookup-insert}
use async_rpc_fbthrift.Database.Threads.{
  Query, Pc, idle, finding, reading, answering, storing, stored, Threads, set, subscript,
  after_find, log_entry, Step, call_find, wake_to_find, find, begin_read, read, answer, call_store,
  wake_to_store, store, acknowledge, Reach, here, next, start,
}
use async_rpc_fbthrift.Database.Explained.{
  Extends, Explained, Agrees, Explained-newer, Explained-set, of_pc, same,
}

-- An entry in the log moves no thread and no message.
pub record IsLogged (s s' : Threads) : Type 0 where
  pub pcs : s.pcs ≡ s'.pcs
  pub history : s.history ≡ s'.history
  pub messages : s.database.last_messages ≡ s'.database.last_messages

pub log_entry-IsLogged :
    (s s' : Threads) (uid : ℤ) (t : ℕ) → log_entry s uid t ≡ some s' → IsLogged s s'
log_entry-IsLogged s s' uid t h =
    let (m, e, last) = bind-some (add_entry s.database.manager (u64_of_i64 uid) t) _ h in
    let equal = some_inj last in
    record {
      pcs = ap (λ (x : Threads). x.pcs) equal;
      history = ap (λ (x : Threads). x.history) equal;
      messages = ap (λ (x : Threads). x.database.last_messages) equal;
    }

logged-Agrees : (s s' : Threads) → IsLogged s s' → Agrees s → Agrees s'
logged-Agrees s s' l a = record {
  map = λ k. ap (lookup k) (sym l.messages) ∙ a.map k ∙ ap (lookup k) l.history;
  threads = λ i.
      subst (λ h. Explained h (s'.pcs i)) l.history
        (subst (λ (pcs : ℕ → Pc). Explained s.history (pcs i)) l.pcs (a.threads i));
}

-- A thread that moves and leaves the map and the history.
moved-Agrees :
    (s : Threads) (i : ℕ) (pc : Pc)
    → Agrees s
    → Explained s.history pc
    → Agrees (record s { pcs = set i pc s.pcs })
moved-Agrees s i pc a x = record {
  map = a.map;
  threads = Explained-set s.history i pc s.pcs x a.threads;
}

Explained-after_find :
    (h : Messages) (q : Query)
    → Extends q.since h
    → Explained h (after_find q (lookup q.client_id h))
unfolding Explained
Explained-after_find h q x = elim (Option-cases (lookup q.client_id h)) [
  | inl nothing ↦ rw nothing (h, x, same, ap (message_or_warning q.client_id) (sym nothing))
  | inr (m, known) ↦ rw known (x, m, known)
]

-- The key that `find` found is still there, so `operator[]` inserts nothing.
pub subscript-found :
    (k : Text) (m : Messages) (message : Text)
    → lookup k m ≡ some message
    → subscript k m ≡ (message, m)
unfolding subscript
subscript-found k m message known = rw known refl

read-Agrees :
    (s : Threads) (i : ℕ) (q : Query)
    → Agrees s
    → s.pcs i ≡ reading q
    → Agrees (record s {
      database = record (s.database) {
        last_messages = (subscript q.client_id s.database.last_messages).1;
      };
      pcs = set i (answering q (subscript q.client_id s.database.last_messages).0) s.pcs;
    })
unfolding Explained message_or_warning
read-Agrees s i q a at =
    let (x, message, known) = of_pc s i (reading q) a at in
    let read =
      subscript-found q.client_id s.database.last_messages message (a.map q.client_id ∙ known) in
    record {
      map = λ k. ap (λ (x : Text × Messages). lookup k x.1) read ∙ a.map k;
      threads =
          Explained-set s.history i _ s.pcs
            (
              s.history,
              x,
              same,
              ap (λ (x : Text × Messages). x.0) read
                  ∙ ap (message_or_warning q.client_id) (sym known),
            )
            a.threads;
    }

store-Agrees :
    (s : Threads) (i : ℕ) (q : Query) (message : Text)
    → Agrees s
    → s.pcs i ≡ storing q message
    → Agrees (record {
      database = record (s.database) {
        last_messages = insert q.client_id message s.database.last_messages;
      };
      pcs = set i (stored q message) s.pcs;
      history = (q.client_id, message) ∷ s.history;
    })
unfolding Explained lookup
store-Agrees s i q message a at = record {
  map = λ k.
      lookup-insert q.client_id k message s.database.last_messages
      ∙ ap (λ rest. if text_eq q.client_id k then some message else rest) (a.map k);
  threads =
      Explained-set _ i (stored q message) s.pcs
        (s.history, of_pc s i (storing q message) a at, same)
        (λ j. Explained-newer s.history (q.client_id, message) (s.pcs j) (a.threads j));
}

Step-Agrees : {n : ℕ} {s s' : Threads} → Step n s s' → Agrees s → Agrees s'
unfolding Explained
Step-Agrees (call_find s s' i t client uid bound at logged) a =
    let l = log_entry-IsLogged s s' uid t logged in
    moved-Agrees s' i _ (logged-Agrees s s' l a) (subst (λ h. Extends s.history h) l.history same)
Step-Agrees (wake_to_find s i q at) a = moved-Agrees s i (finding q) a (of_pc s i _ a at)
Step-Agrees (find s i q at free) a = moved-Agrees s i _ a (
    subst (λ o. Explained s.history (after_find q o)) (sym (a.map q.client_id))
      (Explained-after_find s.history q (of_pc s i _ a at)))
Step-Agrees (begin_read s i q at) a = moved-Agrees s i (reading q) a (of_pc s i _ a at)
Step-Agrees (read s i q at free) a = read-Agrees s i q a at
Step-Agrees (answer s s' i t q result at logged) a =
    moved-Agrees s' i idle (logged-Agrees s s' (log_entry-IsLogged s s' q.query_uid t logged) a)
      same
Step-Agrees (call_store s s' i t client message uid bound at logged) a =
    let l = log_entry-IsLogged s s' uid t logged in
    moved-Agrees s' i _ (logged-Agrees s s' l a) (subst (λ h. Extends s.history h) l.history same)
Step-Agrees (wake_to_store s i q message at) a =
    moved-Agrees s i (storing q message) a (of_pc s i _ a at)
Step-Agrees (store s i q message at free) a = store-Agrees s i q message a at
Step-Agrees (acknowledge s s' i t q message at logged) a =
    moved-Agrees s' i idle (logged-Agrees s s' (log_entry-IsLogged s s' q.query_uid t logged) a)
      same

pub Reach-Agrees : {n : ℕ} (db : Database) {s : Threads} → Reach n (start db) s → Agrees s
unfolding Explained
Reach-Agrees db here = record { map = λ k. refl; threads = λ i. same }
Reach-Agrees db (next r st) = Step-Agrees st (Reach-Agrees db r)

-- However many threads serve calls of the database, and however they interleave without a conflict
-- of accesses: when a thread holds the answer of a `find_last_message`, there is a moment between
-- the call's arrival and now, the stores completed until then being `past`, at which the answer was
-- the last message of the client, or the warning where there was none.
pub answering-Reach :
    (n : ℕ) (db : Database) (s : Threads) (i : ℕ) (q : Query) (result : Text)
    → Reach n (start db) s
    → s.pcs i ≡ answering q result
    → (past : Messages) × Extends q.since past
      × Extends past s.history
      × (result ≡ message_or_warning q.client_id (lookup q.client_id past))
unfolding Explained
answering-Reach n db s i q result r at = of_pc s i (answering q result) (Reach-Agrees db r) at

-- However many threads serve calls of the database, and however they interleave without a conflict
-- of accesses: when a thread is about to acknowledge a store, that store is among those completed
-- since its call arrived, and the map holds for each client the newest of the completed stores.
pub stored-Reach :
    (n : ℕ) (db : Database) (s : Threads) (i : ℕ) (q : Query) (message : Text)
    → Reach n (start db) s
    → s.pcs i ≡ stored q message
    → ((past : Messages) × Extends q.since past × Extends ((q.client_id, message) ∷ past) s.history)
      × ((k : Text) → lookup k s.database.last_messages ≡ lookup k s.history)
unfolding Explained
stored-Reach n db s i q message r at =
    let a = Reach-Agrees db r in (of_pc s i (stored q message) a at, a.map)
