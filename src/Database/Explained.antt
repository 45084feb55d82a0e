-- ===== src/Database/Explained.antt =====
-- What is known of each thread of the database between two steps: its call and the stores completed
-- since it arrived.
use async_rpc_fbthrift.Common.{
  ℕ, Bool-cases, ◌∷◌, some, ◌==◌, Text, text_eq, ◌≡◌, refl, subst, inl, inr,
}
use async_rpc_fbthrift.Database.Handler.{Messages, lookup, message_or_warning}
use async_rpc_fbthrift.Database.Threads.{
  Pc, idle, sleeps_to_find, finding, found, reading, answering, sleeps_to_store, storing, stored,
  Threads, set,
}

-- A history and the stores completed later.
pub data Extends (past : Messages) : Messages → Type 0 where
  same : Extends past past
  newer : {h : Messages} (e : Text × Text) → Extends past h → Extends past (e ∷ h)

-- What is known of a thread.
unfoldable pub Explained : Messages → Pc → Type 0
Explained h idle = Extends h h
Explained h (sleeps_to_find q) = Extends q.since h
Explained h (finding q) = Extends q.since h
Explained h (found q) = Extends q.since h × (m : Text) × (lookup q.client_id h ≡ some m)
Explained h (reading q) = Extends q.since h × (m : Text) × (lookup q.client_id h ≡ some m)
Explained h (answering q result) =
    (past : Messages) × Extends q.since past
    × Extends past h
    × (result ≡ message_or_warning q.client_id (lookup q.client_id past))
Explained h (sleeps_to_store q message) = Extends q.since h
Explained h (storing q message) = Extends q.since h
Explained h (stored q message) =
    (past : Messages) × Extends q.since past × Extends ((q.client_id, message) ∷ past) h

pub record Agrees (s : Threads) : Type 0 where
  pub map : (k : Text) → lookup k s.database.last_messages ≡ lookup k s.history
  pub threads : (i : ℕ) → Explained s.history (s.pcs i)

-- A later store keeps a key.
lookup-newer :
    (k : Text) (h : Messages) (e : Text × Text) (m : Text)
    → lookup k h ≡ some m
    → (m' : Text) × (lookup k (e ∷ h) ≡ some m')
unfolding lookup
lookup-newer k h (j, v) m known = elim (Bool-cases (text_eq j k)) [
  | inl equal ↦ (v, rw equal refl)
  | inr differs ↦ (m, rw differs known)
]

pub Explained-newer :
    (h : Messages) (e : Text × Text) (pc : Pc) → Explained h pc → Explained (e ∷ h) pc
unfolding Explained
Explained-newer h e idle x = same
Explained-newer h e (sleeps_to_find q) x = newer e x
Explained-newer h e (finding q) x = newer e x
Explained-newer h e (found q) (x, m, known) =
    let (m', e') = lookup-newer q.client_id h e m known in (newer e x, m', e')
Explained-newer h e (reading q) (x, m, known) =
    let (m', e') = lookup-newer q.client_id h e m known in (newer e x, m', e')
Explained-newer h e (answering q result) (past, x, y, z) = (past, x, newer e y, z)
Explained-newer h e (sleeps_to_store q message) x = newer e x
Explained-newer h e (storing q message) x = newer e x
Explained-newer h e (stored q message) (past, x, y) = (past, x, newer e y)

-- One thread moves, the others stay.
pub Explained-set :
    (h : Messages) (i : ℕ) (pc : Pc) (pcs : ℕ → Pc)
    → Explained h pc
    → ((j : ℕ) → Explained h (pcs j))
    → (j : ℕ) → Explained h (set i pc pcs j)
Explained-set h i pc pcs mine others j = elim (Bool-cases (j == i)) [
  | inl me ↦ rw me mine
  | inr other ↦ rw other (others j)
]

pub of_pc : (s : Threads) (i : ℕ) (pc : Pc) → Agrees s → s.pcs i ≡ pc → Explained s.history pc
of_pc s i pc a e = subst (Explained s.history) e (a.threads i)
