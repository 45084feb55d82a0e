-- ===== src/Message/Connections.antt =====
-- The maps mock_map and sanit_map of src/MessageService/MessageService.cpp in the build with SYNC,
-- searched and inserted into by the threads of the server without a lock. A step of a thread is one
-- access of the map, or the end of its call. An access that another thread's access overlaps is
-- undefined when one of the two inserts: no step completes it. A thread is its own identifier.
use async_rpc_fbthrift.Common.{ℕ, Bool, true, false, List, ◌∷◌, ◌==◌, if◌then◌else◌, ◌<◌, ◌≡◌, ◌≢◌}
use async_rpc_fbthrift.Rpc.{has_client}

-- Where a thread is: outside of the handlers, inside `find(tid)` up to the use of its iterator,
-- inside `insert(...)`, or in a call of its client.
pub data Place : Type 0 where
  outside searching inserting calling : Place

-- The keys of the map, and the threads.
pub record Callers : Type 0 where
  pub connected : List ℕ
  pub places : ℕ → Place

abbrev pub put : ℕ → Place → (ℕ → Place) → ℕ → Place
put i place places j = if j == i then place else places j

abbrev pub is_inserting : Place → Bool
is_inserting inserting = true
is_inserting _ = false

abbrev pub is_in_map : Place → Bool
is_in_map searching = true
is_in_map inserting = true
is_in_map _ = false

-- One step of one of n threads.
pub data Turn (n : ℕ) : Callers → Callers → Type 0 where
  search :
      (s : Callers) (i : ℕ)
      → i < n
      → s.places i ≡ outside
      → Turn n s (record s { places = put i searching s.places })
  search_ends :
      (s : Callers) (i : ℕ)
      → s.places i ≡ searching
      → ((j : ℕ) → j ≢ i → is_inserting (s.places j) ≡ false)
      → has_client s.connected i ≡ false
      → Turn n s (record s { places = put i inserting s.places })
  search_finds :
      (s : Callers) (i : ℕ)
      → s.places i ≡ searching
      → ((j : ℕ) → j ≢ i → is_inserting (s.places j) ≡ false)
      → has_client s.connected i ≡ true
      → Turn n s (record s { places = put i calling s.places })
  inserts :
      (s : Callers) (i : ℕ)
      → s.places i ≡ inserting
      → ((j : ℕ) → j ≢ i → is_in_map (s.places j) ≡ false)
      → Turn n s (record { connected = i ∷ s.connected; places = put i calling s.places })
  returns :
      (s : Callers) (i : ℕ)
      → s.places i ≡ calling
      → Turn n s (record s { places = put i outside s.places })

pub data Turns (n : ℕ) (s : Callers) : Callers → Type 0 where
  none_yet : Turns n s s
  more : {t u : Callers} → Turns n s t → Turn n t u → Turns n s u

-- The handler behind its constructor, with threads that have served calls before.
abbrev pub unconnected : List ℕ → Callers
unconnected clients = record { connected = clients; places = λ i. outside }

-- An insertion overlaps another access of the map.
unfoldable pub Collision : Callers → Type 0
Collision s =
    (i j : ℕ) × (i ≢ j) × (is_inserting (s.places i) ≡ true) × (is_in_map (s.places j) ≡ true)
