-- ===== src/Stats/Retention.antt =====
-- Which entries a manager still holds, and what its destructor writes.
use async_rpc_fbthrift.Common.{
  ℕ, ◌+◌, ◌^◌, ◌≤◌, ◌<◌, ◌≡◌, refl, sym, ap, ◌∙◌, ◌⊎◌, inl, inr, Bool, true, false, Option, some,
  List, [], ◌∷◌, ◌++◌, arith, if◌then◌else◌, ◌>>=◌, length, concat, All, Text, All-get,
  Option-cases,
}
use mathlib.Core.List.{append_assoc, append-nil}
use async_rpc_fbthrift.Stats.Csv.{Files, write_file}
use async_rpc_fbthrift.Stats.Manager.{Manager, new_manager, add_entry, destroy, name_or_own}
use async_rpc_fbthrift.Stats.Invariant.{
  SameSettings-refl, SameSettings-trans, Added-room, Added-full, written_zero, add_entry-Added,
}
use async_rpc_fbthrift.Stats.Shape.{IsValid, HasShape, SameSettings, recorded, new_manager-IsValid}
use async_rpc_fbthrift.Stats.Dump.{csv, dump_matrix-pairs}

-- A query and the time at which it was logged.
abbrev pub Entry : Type 0
Entry = ℕ × ℕ

abbrev pub row_of : Entry → List ℕ
row_of (q, t) = q ∷ t ∷ []

abbrev pub rows_of : List Entry → List (List ℕ)
rows_of [] = []
rows_of (e ∷ es) = row_of e ∷ rows_of es

-- A sequence of calls of `add_entry`.
unfoldable pub add_entries : Manager → List Entry → Option Manager
add_entries m [] = some m
add_entries m ((q, t) ∷ es) = add_entry m q t >>= λ m'. add_entries m' es

-- After a block of calls that the active buffer has room for.
pub record Block (m m' : Manager) (es : List Entry) : Type 0 where
  pub valid : IsValid m'
  pub settings : SameSettings m m'
  pub kept : recorded m' ≡ recorded m ++ rows_of es
  pub cursor : m'.entry_cursor ≡ m.entry_cursor + length es

add_entries-Block :
    (m : Manager) (es : List Entry)
    → IsValid m
    → m.entry_cursor + length es ≤ m.entry_count
    → (m' : Manager) × (add_entries m es ≡ some m') × Block m m' es
unfolding add_entries
add_entries-Block m [] v h = (
  m,
  refl,
  record {
    valid = v;
    settings = SameSettings-refl m;
    kept = sym (append-nil _);
    cursor = omega arith;
  },
)
add_entries-Block m ((q, t) ∷ es) v h =
    let (m₁, e₁, a) = add_entry-Added m q t v in
    let (kept, moved) = Added-room a (omega arith) in
    let (m₂, e₂, b) =
      add_entries-Block m₁ es a.valid (omega (arith, moved, a.settings.entry_count)) in
    (
      m₂,
      rw e₁ e₂,
      record {
        valid = b.valid;
        settings = SameSettings-trans a.settings b.settings;
        kept = b.kept ∙ ap (λ r. r ++ rows_of es) kept ∙ append_assoc (recorded m) _ _;
        cursor = omega (arith, moved, b.cursor);
      },
    )

-- The cursor stands where the next entry begins an empty record: at the start, or behind a full
-- buffer.
abbrev pub IsReady : Manager → Type 0
IsReady m = (m.entry_cursor ≡ 0) ⊎ (m.entry_cursor ≡ m.entry_count)

recorded_at_start : (m : Manager) → m.entry_cursor ≡ 0 → recorded m ≡ []
unfolding recorded
recorded_at_start m h = rw h (written_zero _)

-- A block written from there replaces what was recorded.
block_replaces :
    (m : Manager) (es : List Entry)
    → IsValid m
    → IsReady m
    → 0 < length es
    → length es ≤ m.entry_count
    → (m' : Manager) × (add_entries m es ≡ some m')
      × IsValid m'
      × SameSettings m m'
      × (recorded m' ≡ rows_of es)
      × (m'.entry_cursor ≡ length es)
unfolding add_entries
block_replaces m [] v r some_entry h = absurd (omega arith)
block_replaces m (e ∷ es) v (inl start) some_entry h =
    let (m', ran, b) = add_entries-Block m (e ∷ es) v (omega arith) in
    (
      m',
      ran,
      b.valid,
      b.settings,
      b.kept ∙ ap (λ r. r ++ rows_of (e ∷ es)) (recorded_at_start m start),
      omega (arith, b.cursor),
    )
block_replaces m ((q, t) ∷ es) v (inr full) some_entry h =
    let (m₁, e₁, a) = add_entry-Added m q t v in
    let (kept, moved) = Added-full a (omega arith) in
    let (m₂, e₂, b) =
      add_entries-Block m₁ es a.valid (omega (arith, moved, a.settings.entry_count)) in
    (
      m₂,
      rw e₁ e₂,
      b.valid,
      SameSettings-trans a.settings b.settings,
      b.kept ∙ ap (λ r. r ++ rows_of es) kept,
      omega (arith, moved, b.cursor),
    )

pub add_entries-append :
    (m m' : Manager) (xs ys : List Entry)
    → add_entries m xs ≡ some m'
    → add_entries m (xs ++ ys) ≡ add_entries m' ys
unfolding add_entries
add_entries-append m m' [] ys h = ground arith
add_entries-append m m' ((q, t) ∷ xs) ys h = elim (Option-cases (add_entry m q t)) [
  | inl e ↦ absurd (cc e)
  | inr (m₁, e) ↦ rw e (add_entries-append m₁ m' xs ys (rw e at h))
]

-- Full blocks, then a last block: only the last block is still recorded.
last_block_kept :
    (m : Manager) (blocks : List (List Entry)) (last : List Entry)
    → IsValid m
    → IsReady m
    → All (λ block. length block ≡ m.entry_count) blocks
    → 0 < length last
    → length last ≤ m.entry_count
    → (m' : Manager) × (add_entries m (concat blocks ++ last) ≡ some m')
      × IsValid m'
      × SameSettings m m'
      × (recorded m' ≡ rows_of last)
      × (m'.entry_cursor ≡ length last)
last_block_kept m [] last v r full some_entry h = block_replaces m last v r some_entry h
last_block_kept m (block ∷ blocks) last v r full some_entry h =
    let (m₁, e₁, v₁, s₁, k₁, c₁) =
      block_replaces m block v r (omega (arith, full.0, v.room)) (omega (arith, full.0)) in
    let (m₂, e₂, v₂, s₂, k₂, c₂) =
      last_block_kept m₁ blocks last v₁ (inr (c₁ ∙ full.0 ∙ sym s₁.entry_count))
        (rw s₁.entry_count full.1) some_entry (omega (arith, s₁.entry_count)) in
    (
      m₂,
      rw (append_assoc block (concat blocks) last) (add_entries-append m m₁ block _ e₁ ∙ e₂),
      v₂,
      SameSettings-trans s₁ s₂,
      k₂,
      c₂,
    )

name_or_own_self : (name : Text) → name_or_own name name ≡ name
name_or_own_self [] = refl
name_or_own_self (c ∷ name) = refl

dumped_name : (b : Bool) (name : Text) → (if b then name else name_or_own name name) ≡ name
dumped_name true name = refl
dumped_name false name = name_or_own_self name

-- The destructor of a well-formed manager writes what is recorded in the active buffer.
pub destroy-recorded :
    (fs : Files) (m : Manager)
    → IsValid m
    → destroy fs m ≡ some (write_file fs m.filename m.overwrite (csv (recorded m)))
unfolding destroy recorded
destroy-recorded fs m v =
    let (buffer, found, shape) =
      All-get (HasShape m.entry_count) m.data_buffers m.active_buffer
        (omega (arith, v.buffers, v.active)) v.shape in
    rw (found, dumped_name m.async_dumping m.filename)
      (dump_matrix-pairs fs m.filename buffer m.entry_cursor m.overwrite
        (omega (arith, shape.0, v.room)) (omega (arith, shape.0, v.entry_width)) shape.1
        (omega (arith, shape.0, v.cursor)))

destroy-rows :
    (fs : Files) (m : Manager) (name : Text) (overwrite : Bool) (rows : List (List ℕ))
    → IsValid m
    → m.filename ≡ name
    → m.overwrite ≡ overwrite
    → recorded m ≡ rows
    → destroy fs m ≡ some (write_file fs name overwrite (csv rows))
destroy-rows fs m name overwrite rows v n o r = ground (arith, destroy-recorded fs m v)

-- A new manager, whose numbers of buffers and of entries in each are positive and fit in 32 bits,
-- accepts every sequence of entries. Where the sequence is cut into full buffers and
-- a last, nonempty block that fits in one, its destructor writes the lines of the last block, to
-- the manager's file, and of no other entry.
pub destroy-add_entries :
    (fs : Files) (name : Text) (async_dumping : Bool) (entries buffers : ℕ) (overwrite : Bool)
    (blocks : List (List Entry)) (last : List Entry)
    → 0 < entries
    → entries < 2 ^ 32
    → 0 < buffers
    → buffers < 2 ^ 32
    → All (λ block. length block ≡ entries) blocks
    → 0 < length last
    → length last ≤ entries
    → (m : Manager) × (add_entries
          (new_manager name async_dumping entries buffers overwrite)
          (concat blocks ++ last)
        ≡ some m)
      × (destroy fs m ≡ some (write_file fs name overwrite (csv (rows_of last))))
unfolding new_manager
destroy-add_entries fs name async_dumping entries buffers overwrite blocks last he he' hb hb' full
      some_entry h =
    let start = new_manager name async_dumping entries buffers overwrite in
    let valid = new_manager-IsValid name async_dumping entries buffers overwrite he he' hb hb' in
    let (m, ran, v, s, kept, c) =
      last_block_kept start blocks last valid (inl refl) full some_entry h in
    (m, ran, destroy-rows fs m name overwrite (rows_of last) v s.filename s.overwrite kept)
