-- ===== src/Message/Connected.antt =====
-- The client that a thread of the message service calls with, in the build with SYNC.
use async_rpc_fbthrift.Common.{
  ℕ, ◌+◌, Bool-cases, true, false, List, [], ◌∷◌, ◌==◌, ==_iff, if◌then◌else◌, ◌<◌, ◌≤◌, ◌≡◌, ◌≢◌,
  refl, ap, sym, subst, ◌∙◌, inl, inr, arith,
}
use async_rpc_fbthrift.Rpc.{has_client}
use async_rpc_fbthrift.Message.Connections.{
  Place, outside, searching, inserting, calling, Callers, put, is_in_map, Turn, search, search_ends,
  search_finds, inserts, returns, Turns, none_yet, more, unconnected,
}

-- How many clients the map holds for a thread.
unfoldable pub clients_of : ℕ → List ℕ → ℕ
clients_of i [] = 0
clients_of i (t ∷ ts) = (if t == i then 1 else 0) + clients_of i ts

clients_of-has_client : (i : ℕ) (ts : List ℕ) → has_client ts i ≡ false → clients_of i ts ≡ 0
unfolding clients_of has_client
clients_of-has_client i [] h = refl
clients_of-has_client i (t ∷ ts) h = ground (arith, h, clients_of-has_client i ts)

abbrev pub KnowsClient : List ℕ → ℕ → Place → Type 0
KnowsClient clients i outside = Unit
KnowsClient clients i searching = Unit
KnowsClient clients i inserting = has_client clients i ≡ false
KnowsClient clients i calling = has_client clients i ≡ true

pub record AreConnected (n : ℕ) (s : Callers) : Type 0 where
  pub single : (i : ℕ) → clients_of i s.connected ≤ 1
  pub knows : (i : ℕ) → KnowsClient s.connected i (s.places i)
  pub bounded : (i : ℕ) → s.places i ≢ outside → i < n

knows-put :
    (clients : List ℕ) (i : ℕ) (place : Place) (places : ℕ → Place)
    → KnowsClient clients i place
    → ((j : ℕ) → KnowsClient clients j (places j))
    → (j : ℕ) → KnowsClient clients j (put i place places j)
knows-put clients i place places new old j = elim (Bool-cases (j == i)) [
  | inl me ↦ rw me (subst (λ k. KnowsClient clients k place) (sym ((==_iff j i).0 me)) new)
  | inr other ↦ rw other (old j)
]

bounded-put :
    (n i : ℕ) (place : Place) (places : ℕ → Place)
    → i < n
    → ((j : ℕ) → places j ≢ outside → j < n)
    → (j : ℕ) → put i place places j ≢ outside
    → j < n
bounded-put n i place places bound old j = elim (Bool-cases (j == i)) [
  | inl me ↦ λ h. ground (arith, me, bound)
  | inr other ↦ rw other (old j)
]

knows-cons :
    (clients : List ℕ) (i j : ℕ) (place : Place)
    → is_in_map place ≡ false
    → KnowsClient clients j place
    → KnowsClient (i ∷ clients) j place
unfolding has_client
knows-cons clients i j outside out known = tt
knows-cons clients i j searching out known = absurd (ground (arith, out))
knows-cons clients i j inserting out known = absurd (ground (arith, out))
knows-cons clients i j calling out known = ground (arith, known)

-- The threads behind the moves of one of them inside its call.
module _ (n : ℕ) (s : Callers) (v : AreConnected n s) (i : ℕ) (old new : Place)
    (at : s.places i ≡ old) (busy : old ≢ outside) (known : KnowsClient s.connected i new) where
  moved-AreConnected : AreConnected n (record s { places = put i new s.places })
  moved-AreConnected = record {
    single = v.single;
    knows = knows-put s.connected i new s.places known v.knows;
    bounded = bounded-put n i new s.places (v.bounded i (λ h. busy (sym at ∙ h))) v.bounded;
  }

single-cons :
    (i j : ℕ) (clients : List ℕ)
    → clients_of i clients ≡ 0
    → clients_of j clients ≤ 1
    → clients_of j (i ∷ clients) ≤ 1
unfolding clients_of
single-cons i j clients fresh single = elim (Bool-cases (i == j)) [
  | inl same ↦
      rw same
        (let e = ap (λ k. clients_of k clients) ((==_iff i j).0 same) in omega (arith, e, fresh))
  | inr other ↦ rw other (omega (arith, single))
]

knows-insert :
    (s : Callers) (i : ℕ)
    → ((j : ℕ) → j ≢ i → is_in_map (s.places j) ≡ false)
    → ((j : ℕ) → KnowsClient s.connected j (s.places j))
    → (j : ℕ) → KnowsClient (i ∷ s.connected) j (put i calling s.places j)
unfolding has_client
knows-insert s i free known j = elim (Bool-cases (j == i)) [
  | inl me ↦ rw me (ground (arith, me))
  | inr other ↦ rw other (
      knows-cons s.connected i j (s.places j) (free j (λ h. absurd (ground (arith, h, other))))
        (known j))
]

Turn-AreConnected : {n : ℕ} {s s' : Callers} → Turn n s s' → AreConnected n s → AreConnected n s'
Turn-AreConnected {n} (search s i bound at) v = record {
  single = v.single;
  knows = knows-put s.connected i searching s.places tt v.knows;
  bounded = bounded-put n i searching s.places bound v.bounded;
}
Turn-AreConnected {n} (search_ends s i at free missing) v =
    moved-AreConnected n s v i searching inserting at (λ h. cc) missing
Turn-AreConnected {n} (search_finds s i at free present) v =
    moved-AreConnected n s v i searching calling at (λ h. cc) present
Turn-AreConnected {n} (returns s i at) v =
    moved-AreConnected n s v i calling outside at (λ h. cc) tt
Turn-AreConnected {n} (inserts s i at free) v =
    let fresh : KnowsClient s.connected i inserting =
      subst (KnowsClient s.connected i) at (v.knows i) in
    record {
      single =
          λ j. single-cons i j s.connected (clients_of-has_client i s.connected fresh) (v.single j);
      knows = knows-insert s i free v.knows;
      bounded =
          bounded-put n i calling s.places (v.bounded i (λ h. absurd (cc (sym at ∙ h)))) v.bounded;
    }

pub Turns-AreConnected :
    {n : ℕ} (clients : List ℕ) {s : Callers}
    → ((i : ℕ) → clients_of i clients ≤ 1)
    → Turns n (unconnected clients) s
    → AreConnected n s
Turns-AreConnected clients single none_yet = record {
  single = single;
  knows = λ i. tt;
  bounded = λ i h. absurd (h refl);
}
Turns-AreConnected clients single (more r t) =
    Turn-AreConnected t (Turns-AreConnected clients single r)

-- In the build with SYNC, however many threads serve calls of the message service, and however they
-- interleave without a collision in the map: it never holds two clients of one thread, if it did
-- not at the start, and a thread that makes its remote call has found a client of its own.
pub calling-Turns :
    (n : ℕ) (clients : List ℕ) (s : Callers)
    → ((i : ℕ) → clients_of i clients ≤ 1)
    → Turns n (unconnected clients) s
    → ((i : ℕ) → clients_of i s.connected ≤ 1)
      × ((i : ℕ) → s.places i ≡ calling → has_client s.connected i ≡ true)
calling-Turns n clients s single r =
    let v = Turns-AreConnected clients single r in
    (v.single, λ i at. subst (KnowsClient s.connected i) at (v.knows i))
