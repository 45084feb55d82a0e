-- ===== src/Stats/Race.antt =====
-- `ServerStatsManager::add_entry` called by several threads. Its test of the cursor and the start of
-- the next buffer stand before the lock; only the writes and the increment are under it.
use async_rpc_fbthrift.Common.{
  ℕ, zero, suc, ◌+◌, ◌-◌, subst, ◌%◌, ◌≤◌, ◌<◌, ◌≡◌, refl, ◌∙◌, none, some, arith, u32,
}
use native.Mathlib.Decide.{dec_lt}
use async_rpc_fbthrift.Stats.Manager.{Manager, write_entry}
use async_rpc_fbthrift.Stats.Invariant.{
  write_entry_below, write_entry-full, with_cursor_zero, with_next_buffer,
}
use async_rpc_fbthrift.Stats.Shape.{IsValid}

-- The threads inside `add_entry`, by the statement that each is about to run.
pub record Threads : Type 0 where
  pub manager : Manager
  -- before `entry_cursor = 0`
  pub resetting : ℕ
  -- before `active_buffer = (active_buffer + 1) % buffer_count`
  pub advancing : ℕ
  -- before the lock
  pub ready : ℕ

abbrev pub busy : Threads → ℕ
busy s = s.resetting + s.advancing + s.ready

-- One step of one thread, of at most n that call `add_entry` at once.
pub data Step (n : ℕ) : Threads → Threads → Type 0 where
  enter_full :
      (s : Threads)
      → busy s < n
      → s.manager.entry_count ≤ s.manager.entry_cursor
      → Step n s (record s { resetting = s.resetting + 1 })
  enter_room :
      (s : Threads)
      → busy s < n
      → s.manager.entry_cursor < s.manager.entry_count
      → Step n s (record s { ready = s.ready + 1 })
  reset :
      (s : Threads)
      → 0 < s.resetting
      → Step n s (record s {
        manager = record (s.manager) { entry_cursor = 0 };
        resetting = s.resetting - 1;
        advancing = s.advancing + 1;
      })
  advance :
      (s : Threads)
      → 0 < s.advancing
      → Step n s (record s {
        manager = record (s.manager) {
          active_buffer = u32 (s.manager.active_buffer + 1) % s.manager.buffer_count;
        };
        advancing = s.advancing - 1;
        ready = s.ready + 1;
      })
  write :
      (s : Threads) (m : Manager) (q t : ℕ)
      → 0 < s.ready
      → write_entry s.manager q t ≡ some m
      → Step n s (record s { manager = m; ready = s.ready - 1 })

pub data Reach (n : ℕ) (s : Threads) : Threads → Type 0 where
  here : Reach n s s
  next : {t u : Threads} → Reach n s t → Step n t u → Reach n s u

abbrev pub start : Manager → Threads
start m = record { manager = m; resetting = 0; advancing = 0; ready = 0 }

-- A write that succeeds was in bounds.
write_entry-lt :
    (m m' : Manager) (q t : ℕ)
    → IsValid m
    → write_entry m q t ≡ some m'
    → m.entry_cursor < m.entry_count
write_entry-lt m m' q t v h = elim (dec_lt m.entry_cursor m.entry_count) [
  | yes fits ↦ fits
  | no full ↦ absurd (cc (h, write_entry-full m q t v (omega arith)))
]

write_entry-IsValid :
    (m m' : Manager) (q t : ℕ) → IsValid m → write_entry m q t ≡ some m' → IsValid m'
write_entry-IsValid m m' q t v h =
    let (m₁, e, v₁, _, _, _) = write_entry_below m q t v (write_entry-lt m m' q t v h) in
    let same : m₁ ≡ m' = cc (e, h) in subst IsValid same v₁

Step-IsValid : {n : ℕ} {s s' : Threads} → Step n s s' → IsValid s.manager → IsValid s'.manager
Step-IsValid (enter_full s room full) v = v
Step-IsValid (enter_room s room fits) v = v
Step-IsValid (reset s some_thread) v = with_cursor_zero s.manager v
Step-IsValid (advance s some_thread) v = with_next_buffer s.manager v
Step-IsValid (write s m q t some_thread e) v = write_entry-IsValid s.manager m q t v e

-- However many threads call `add_entry`, and however they interleave, every state they reach before
-- an access out of bounds has a well-formed manager.
pub Reach-IsValid : {n : ℕ} {s s' : Threads} → IsValid s.manager → Reach n s s' → IsValid s'.manager
Reach-IsValid v here = v
Reach-IsValid v (next r st) = Step-IsValid st (Reach-IsValid v r)

-- With one thread: at most one is inside, and behind its test the cursor is below the end.
record Alone (s : Threads) : Type 0 where
  one : busy s ≤ 1
  fits : 0 < s.advancing + s.ready → s.manager.entry_cursor < s.manager.entry_count

Step-Alone : {s s' : Threads} → Step 1 s s' → IsValid s.manager → Alone s → Alone s'
Step-Alone (enter_full s room full) v a = record {
  one = omega arith;
  fits = λ h. absurd (omega arith);
}
Step-Alone (enter_room s room fits) v a = record { one = omega arith; fits = λ h. fits }
Step-Alone (reset s some_thread) v a = record { one = omega (arith, a.one); fits = λ h. v.room }
Step-Alone (advance s some_thread) v a = record {
  one = omega (arith, a.one);
  fits = λ h. a.fits (omega arith);
}
Step-Alone (write s m q t some_thread e) v a = record {
  one = omega (arith, a.one);
  fits = λ h. absurd (omega (arith, a.one));
}

Reach-Alone : {m : Manager} {s : Threads} → IsValid m → Reach 1 (start m) s → Alone s
Reach-Alone v here = record { one = omega arith; fits = λ h. absurd (omega arith) }
Reach-Alone v (next r st) = Step-Alone st (Reach-IsValid v r) (Reach-Alone v r)

-- When one thread at a time calls `add_entry`, a thread that holds the lock finds its entry in
-- bounds: the write is defined.
pub write_entry-Reach_one :
    (m : Manager) (s : Threads) (q t : ℕ)
    → IsValid m
    → Reach 1 (start m) s
    → 0 < s.ready
    → (m' : Manager) × (write_entry s.manager q t ≡ some m')
write_entry-Reach_one m s q t v r h =
    let a = Reach-Alone v r in
    let (m', e, _, _, _, _) =
      write_entry_below s.manager q t (Reach-IsValid v r) (a.fits (omega arith)) in
    (m', e)

-- One thread alone moves the cursor up by one.
Reach-fill :
    (n : ℕ) (m : Manager) (k : ℕ)
    → 0 < n
    → IsValid m
    → m.entry_cursor + k ≤ m.entry_count
    → (m' : Manager) × Reach n (start m) (start m')
      × IsValid m'
      × (m'.entry_cursor ≡ m.entry_cursor + k)
      × (m'.entry_count ≡ m.entry_count)
Reach-fill n m zero some_thread v room = (m, here, v, omega arith, refl)
Reach-fill n m (suc k) some_thread v room =
    let (m₁, r₁, v₁, c₁, e₁) = Reach-fill n m k some_thread v (omega arith) in
    let (m₂, w₂, v₂, s₂, _, c₂) = write_entry_below m₁ 0 0 v₁ (omega (arith, c₁, e₁)) in
    (
      m₂,
      next (next r₁ (enter_room (start m₁) some_thread (omega (arith, c₁, e₁))))
          (write (record (start m₁) { ready = 1 }) m₂ 0 0 (omega arith) w₂),
      v₂,
      omega (arith, c₁, c₂),
      s₂.entry_count ∙ e₁,
    )

-- With two threads or more, from every well-formed manager with room left, there is an interleaving
-- at whose end a thread holds the lock and every entry that it can write is out of bounds.
pub write_entry-Reach_two :
    (n : ℕ) (m : Manager)
    → 2 ≤ n
    → IsValid m
    → m.entry_cursor < m.entry_count
    → (s : Threads) × Reach n (start m) s
      × (0 < s.ready)
      × ((q t : ℕ) → write_entry s.manager q t ≡ none)
write_entry-Reach_two n m two v room =
    let (m₁, r₁, v₁, c₁, e₁) =
      Reach-fill n m (m.entry_count - m.entry_cursor - 1) (omega arith) v (omega arith) in
    let (m₂, w₂, v₂, s₂, _, c₂) = write_entry_below m₁ 0 0 v₁ (omega (arith, c₁, e₁)) in
    let first = enter_room (start m₁) (omega arith) (omega (arith, c₁, e₁)) in
    let second =
      enter_room (record (start m₁) { ready = 1 }) (omega arith) (omega (arith, c₁, e₁)) in
    let third = write (record (start m₁) { ready = 2 }) m₂ 0 0 (omega arith) w₂ in
    (
      record (start m₂) { ready = 1 },
      next (next (next r₁ first) second) third,
      omega arith,
      λ q t. write_entry-full m₂ q t v₂ (omega (arith, c₁, c₂, e₁, s₂.entry_count)),
    )
