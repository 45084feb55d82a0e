-- ===== src/Stats/Shape.antt =====
-- The well-formedness of a manager, and one write into it.
use async_rpc_fbthrift.Common.{
  ℕ, ◌+◌, ◌^◌, ◌≤◌, ◌<◌, ◌≡◌, refl, ap, Option, none, some, List, [], ◌∷◌, ◌++◌, arith, Bool, true,
  u32, ◌∙◌, ◌%◌, leb, length, get_elem?, set, take, All, All-get, All-set, All-replicate,
  length-set, length-replicate, get_elem?-set_self, set-set, take-set, Text,
}
use native.Mathlib.Numerals.{add-one}
use async_rpc_fbthrift.Stats.Manager.{Manager, new_manager, rotate, assign, write_entry}

-- An entry is a query and a time.
abbrev pub IsPair : List ℕ → Type 0
IsPair row = length row ≡ 2

abbrev pub HasShape : ℕ → List (List ℕ) → Type 0
HasShape n buffer = (length buffer ≡ n) × All IsPair buffer

pub record IsValid (m : Manager) : Type 0 where
  pub buffers : length m.data_buffers ≡ m.buffer_count
  pub shape : All (HasShape m.entry_count) m.data_buffers
  pub active : m.active_buffer < m.buffer_count
  pub cursor : m.entry_cursor ≤ m.entry_count
  pub room : 0 < m.entry_count
  pub entry_width : m.entry_count < 2 ^ 32
  pub buffer_width : m.buffer_count < 2 ^ 32

pub new_manager-IsValid :
    (name : Text) (async_dumping : Bool) (entries buffers : ℕ) (overwrite : Bool)
    → 0 < entries
    → entries < 2 ^ 32
    → 0 < buffers
    → buffers < 2 ^ 32
    → IsValid (new_manager name async_dumping entries buffers overwrite)
unfolding new_manager
new_manager-IsValid name async_dumping entries buffers overwrite he he' hb hb' = record {
  buffers = length-replicate buffers _;
  shape =
      All-replicate _ buffers _ (length-replicate entries _, All-replicate IsPair entries _ refl);
  active = hb;
  cursor = omega arith;
  room = he;
  entry_width = he';
  buffer_width = hb';
}

-- What no call changes.
pub record SameSettings (m m' : Manager) : Type 0 where
  pub filename : m'.filename ≡ m.filename
  pub overwrite : m'.overwrite ≡ m.overwrite
  pub async_dumping : m'.async_dumping ≡ m.async_dumping
  pub entry_count : m'.entry_count ≡ m.entry_count
  pub buffer_count : m'.buffer_count ≡ m.buffer_count

-- The entries of the active buffer that have been written since it became active.
abbrev pub written : Option (List (List ℕ)) → ℕ → List (List ℕ)
written none n = []
written (some buffer) n = take n buffer

unfoldable pub recorded : Manager → List (List ℕ)
recorded m = written (get_elem? m.data_buffers m.active_buffer) m.entry_cursor

pub rotate_full :
    (m : Manager)
    → IsValid m
    → leb m.entry_count m.entry_cursor ≡ true
    → rotate m
      ≡ some (record m {
        active_buffer = u32 (m.active_buffer + 1) % m.buffer_count;
        entry_cursor = 0;
      })
unfolding rotate
rotate_full m v full = ground arith

pub active_in_range : (a n : ℕ) → a < n → u32 (a + 1) % n < n
active_in_range a n h = grind arith

IsPair-cases : (row : List ℕ) → IsPair row → (x : ℕ) × (y : ℕ) × (row ≡ x ∷ y ∷ [])
IsPair-cases [] h = absurd (omega arith)
IsPair-cases (x ∷ []) h = absurd (omega arith)
IsPair-cases (x ∷ y ∷ []) h = (x, y, refl)
IsPair-cases (x ∷ y ∷ z ∷ row) h = absurd (omega arith)

module _ (bs : List (List (List ℕ))) (buf : List (List ℕ)) (b e x y : ℕ) (hb : b < length bs)
    (he : e < length buf) (gb : get_elem? bs b ≡ some buf)
    (ge : get_elem? buf e ≡ some (x ∷ y ∷ [])) where
  assign_id : (q : ℕ) → assign bs b e 0 q ≡ some (set bs b (set buf e (q ∷ y ∷ [])))
  unfolding assign
  assign_id q = rw (gb, ge)

  assign_time :
      (q t : ℕ)
      → assign (set bs b (set buf e (q ∷ y ∷ []))) b e 1 t
        ≡ some (set bs b (set buf e (q ∷ t ∷ [])))
  unfolding assign
  assign_time q t =
      rw (get_elem?-set_self bs b _ hb, get_elem?-set_self buf e _ he, set-set bs b, set-set buf e)

module _ (m : Manager) (v : IsValid m) (q t : ℕ) (fits : m.entry_cursor < m.entry_count) where
  abbrev pub entry_written : List (List ℕ) → Manager
  entry_written buffer = record m {
    data_buffers = set m.data_buffers m.active_buffer (set buffer m.entry_cursor (q ∷ t ∷ []));
    entry_cursor = m.entry_cursor + 1;
  }

  in_buffers : m.active_buffer < length m.data_buffers
  in_buffers = omega (arith, v.buffers, v.active)

  written_pair :
      (buffer : List (List ℕ)) (row : List ℕ) (x y : ℕ)
      → get_elem? m.data_buffers m.active_buffer ≡ some buffer
      → HasShape m.entry_count buffer
      → get_elem? buffer m.entry_cursor ≡ some row
      → row ≡ x ∷ y ∷ []
      → write_entry m q t ≡ some (entry_written buffer)
  unfolding write_entry
  written_pair buffer row x y found shape at_cursor e =
      rw
        (
          assign_id _ buffer _ _ x y in_buffers (omega (arith, shape.0)) found
              (at_cursor ∙ ap some e) q,
          assign_time _ buffer _ _ x y in_buffers (omega (arith, shape.0)) found
              (at_cursor ∙ ap some e) q t,
        )
        (ground arith)

  -- Below the end of the buffer the two writes are in bounds.
  pub write_entry-eq :
      (buffer : List (List ℕ)) × (get_elem? m.data_buffers m.active_buffer ≡ some buffer)
      × HasShape m.entry_count buffer
      × (write_entry m q t ≡ some (entry_written buffer))
  unfolding write_entry
  write_entry-eq =
      let (buffer, found, shape) =
        All-get (HasShape m.entry_count) m.data_buffers m.active_buffer in_buffers v.shape in
      let (row, at_cursor, pair) =
        All-get IsPair buffer m.entry_cursor (omega (arith, shape.0)) shape.1 in
      let (x, y, e) = IsPair-cases row pair in
      (buffer, found, shape, written_pair buffer row x y found shape at_cursor e)

  pub entry_written-IsValid :
      (buffer : List (List ℕ)) → HasShape m.entry_count buffer → IsValid (entry_written buffer)
  entry_written-IsValid buffer shape = record {
    buffers = length-set m.data_buffers m.active_buffer _ ∙ v.buffers;
    shape =
        All-set (HasShape m.entry_count) m.data_buffers m.active_buffer _
          (
            length-set buffer m.entry_cursor _ ∙ shape.0,
            All-set IsPair buffer m.entry_cursor _ refl shape.1,
          )
          v.shape;
    active = v.active;
    cursor = omega arith;
    room = v.room;
    entry_width = v.entry_width;
    buffer_width = v.buffer_width;
  }

  pub recorded-entry_written :
      (buffer : List (List ℕ))
      → HasShape m.entry_count buffer
      → get_elem? m.data_buffers m.active_buffer ≡ some buffer
      → recorded (entry_written buffer) ≡ recorded m ++ (q ∷ t ∷ []) ∷ []
  unfolding recorded
  recorded-entry_written buffer shape e =
      rw (e, get_elem?-set_self m.data_buffers m.active_buffer _ in_buffers, add-one)
        (take-set buffer m.entry_cursor _ (omega (arith, shape.0)))
