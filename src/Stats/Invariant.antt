-- ===== src/Stats/Invariant.antt =====
-- The well-formedness of a manager, and what one call of `add_entry` does to a well-formed one.
use async_rpc_fbthrift.Common.{
  ℕ, ◌+◌, ◌≤◌, ◌<◌, ◌≡◌, refl, inl, inr, Option, none, some, List, [], ◌∷◌, ◌++◌, arith, true,
  false, u32, ◌∙◌, ◌%◌, Bool-cases, leb, All-get, get_elem?-eq-none, if◌then◌else◌,
}
use async_rpc_fbthrift.Stats.Manager.{Manager, rotate, assign, write_entry, add_entry}
use async_rpc_fbthrift.Stats.Shape.{
  HasShape, IsValid, SameSettings, written, recorded, rotate_full, active_in_range, entry_written,
  write_entry-eq, entry_written-IsValid, recorded-entry_written,
}

-- One call of `add_entry` on a well-formed manager, whole.
pub record Added (m m' : Manager) (q t : ℕ) : Type 0 where
  pub valid : IsValid m'
  pub settings : SameSettings m m'
  pub appended :
      recorded m'
      ≡ (if leb m.entry_count m.entry_cursor then [] else recorded m) ++ (q ∷ t ∷ []) ∷ []
  pub advanced :
      m'.entry_cursor ≡ (if leb m.entry_count m.entry_cursor then 1 else m.entry_cursor + 1)

pub write_entry_below :
    (m : Manager) (q t : ℕ)
    → IsValid m
    → m.entry_cursor < m.entry_count
    → (m' : Manager) × (write_entry m q t ≡ some m')
      × IsValid m'
      × SameSettings m m'
      × (recorded m' ≡ recorded m ++ (q ∷ t ∷ []) ∷ [])
      × (m'.entry_cursor ≡ m.entry_cursor + 1)
write_entry_below m q t v fits =
    let (buffer, found, shape, e) = write_entry-eq m v q t fits in
    (
      entry_written m v q t fits buffer,
      e,
      entry_written-IsValid m v q t fits buffer shape,
      record {
        filename = refl;
        overwrite = refl;
        async_dumping = refl;
        entry_count = refl;
        buffer_count = refl;
      },
      recorded-entry_written m v q t fits buffer shape found,
      refl,
    )

rotated : Manager → Manager
rotated m = record m {
  active_buffer = u32 (m.active_buffer + 1) % m.buffer_count;
  entry_cursor = 0;
}

pub with_cursor_zero : (m : Manager) → IsValid m → IsValid (record m { entry_cursor = 0 })
with_cursor_zero m v = record {
  buffers = v.buffers;
  shape = v.shape;
  active = v.active;
  cursor = omega arith;
  room = v.room;
  entry_width = v.entry_width;
  buffer_width = v.buffer_width;
}

pub with_next_buffer :
    (m : Manager)
    → IsValid m
    → IsValid (record m { active_buffer = u32 (m.active_buffer + 1) % m.buffer_count })
with_next_buffer m v = record {
  buffers = v.buffers;
  shape = v.shape;
  active = active_in_range m.active_buffer m.buffer_count v.active;
  cursor = v.cursor;
  room = v.room;
  entry_width = v.entry_width;
  buffer_width = v.buffer_width;
}

rotated-IsValid : (m : Manager) → IsValid m → IsValid (rotated m)
unfolding rotated
rotated-IsValid m v = with_cursor_zero _ (with_next_buffer m v)

pub written_zero : (buffer : Option (List (List ℕ))) → written buffer 0 ≡ []
written_zero none = refl
written_zero (some buffer) = refl

add_entry_full :
    (m : Manager) (q t : ℕ)
    → IsValid m
    → leb m.entry_count m.entry_cursor ≡ true
    → (m' : Manager) × (add_entry m q t ≡ some m') × Added m m' q t
unfolding add_entry rotated recorded
add_entry_full m q t v full =
    let (m', e, v', s, r, c) = write_entry_below (rotated m) q t (rotated-IsValid m v) (v.room) in
    (
      m',
      rw (rotate_full m v full) e,
      record {
        valid = v';
        settings = record {
          filename = s.filename;
          overwrite = s.overwrite;
          async_dumping = s.async_dumping;
          entry_count = s.entry_count;
          buffer_count = s.buffer_count;
        };
        appended = rw full (r ∙ rw written_zero refl);
        advanced = rw full (omega (arith, c));
      },
    )

rotate_fits : (m : Manager) → leb m.entry_count m.entry_cursor ≡ false → rotate m ≡ some m
unfolding rotate
rotate_fits m fits = rw fits

-- On a well-formed manager `add_entry` is defined, keeps it well formed and appends its entry to the
-- block that it gathers, which is a new, empty one when the buffer was full.
pub add_entry-Added :
    (m : Manager) (q t : ℕ)
    → IsValid m
    → (m' : Manager) × (add_entry m q t ≡ some m') × Added m m' q t
unfolding add_entry
add_entry-Added m q t v = elim (Bool-cases (leb m.entry_count m.entry_cursor)) [
  | inl full ↦ add_entry_full m q t v full
  | inr fits ↦
      let (m', e, v', s, r, c) = write_entry_below m q t v (ground arith) in
      (
        m',
        rw (rotate_fits m fits) e,
        record { valid = v'; settings = s; appended = rw fits r; advanced = rw fits c },
      )
]

pub SameSettings-refl : (m : Manager) → SameSettings m m
SameSettings-refl m = record {
  filename = refl;
  overwrite = refl;
  async_dumping = refl;
  entry_count = refl;
  buffer_count = refl;
}

pub SameSettings-trans :
    {m m' m'' : Manager} → SameSettings m m' → SameSettings m' m'' → SameSettings m m''
SameSettings-trans s t = record {
  filename = t.filename ∙ s.filename;
  overwrite = t.overwrite ∙ s.overwrite;
  async_dumping = t.async_dumping ∙ s.async_dumping;
  entry_count = t.entry_count ∙ s.entry_count;
  buffer_count = t.buffer_count ∙ s.buffer_count;
}

module _ {m m' : Manager} {q t : ℕ} (a : Added m m' q t) where
  pub Added-room :
      m.entry_cursor < m.entry_count
      → (recorded m' ≡ recorded m ++ (q ∷ t ∷ []) ∷ []) × (m'.entry_cursor ≡ m.entry_cursor + 1)
  Added-room h =
      let e : leb m.entry_count m.entry_cursor ≡ false = ground arith in
      (rw e at a.appended, rw e at a.advanced)

  pub Added-full :
      m.entry_count ≤ m.entry_cursor → (recorded m' ≡ (q ∷ t ∷ []) ∷ []) × (m'.entry_cursor ≡ 1)
  Added-full h =
      let e : leb m.entry_count m.entry_cursor ≡ true = ground arith in
      (rw e at a.appended, rw e at a.advanced)

-- At the end of the buffer the first write is out of bounds.
pub write_entry-full :
    (m : Manager) (q t : ℕ) → IsValid m → m.entry_count ≤ m.entry_cursor → write_entry m q t ≡ none
unfolding write_entry assign
write_entry-full m q t v full =
    let (buffer, found, shape) =
      All-get (HasShape m.entry_count) m.data_buffers m.active_buffer
        (omega (arith, v.buffers, v.active)) v.shape in
    rw (found, get_elem?-eq-none buffer m.entry_cursor (omega (arith, shape.0)))
