-- ===== src/Message/Collisions.antt =====
-- Collisions in the maps of clients of src/MessageService/MessageService.cpp, in the build with SYNC.
use async_rpc_fbthrift.Common.{
  ℕ, Bool-cases, true, false, List, [], ◌∷◌, ◌==◌, ==_iff, ◌<◌, ◌≤◌, ◌≡◌, ◌≢◌, ◌↔◌, refl, ap, ◌∙◌,
  inl, inr, arith,
}
use async_rpc_fbthrift.Rpc.{has_client, connect, sync}
use async_rpc_fbthrift.Message.Connections.{
  Place, outside, searching, inserting, calling, Callers, put, is_inserting, is_in_map, search,
  search_ends, search_finds, inserts, Turns, none_yet, more, unconnected, Collision,
}
use async_rpc_fbthrift.Message.Connected.{clients_of, Turns-AreConnected}

is_in_map-outside : (place : Place) → is_in_map place ≡ true → place ≢ outside
is_in_map-outside outside h = absurd (ground (arith, h))
is_in_map-outside searching h = λ e. cc
is_in_map-outside inserting h = λ e. cc
is_in_map-outside calling h = absurd (ground (arith, h))

is_inserting-is_in_map : (place : Place) → is_inserting place ≡ true → is_in_map place ≡ true
is_inserting-is_in_map inserting h = refl
is_inserting-is_in_map outside h = h
is_inserting-is_in_map searching h = refl
is_inserting-is_in_map calling h = h

Collision-lt : (n : ℕ) → (s : Callers) × Turns n (unconnected []) s × Collision s → 2 ≤ n
unfolding Collision clients_of
Collision-lt n (s, r, (i, j, differ, writes, accesses)) =
    let v = Turns-AreConnected [] (λ k. omega arith) r in
    let i_bound =
      v.bounded i (is_in_map-outside (s.places i) (is_inserting-is_in_map (s.places i) writes)) in
    let j_bound = v.bounded j (is_in_map-outside (s.places j) accesses) in
    omega (arith, i_bound, j_bound, differ)

-- The first thread inserts its client while the second searches.
reach-Collision : (n : ℕ) → 2 ≤ n → (s : Callers) × Turns n (unconnected []) s × Collision s
unfolding Collision has_client
reach-Collision n two =
    let places₁ = put 0 searching (λ i. outside) in
    let places₂ = put 0 inserting places₁ in
    let s₁ : Callers = record { connected = []; places = places₁ } in
    let s₂ : Callers = record { connected = []; places = places₂ } in
    (
      record { connected = []; places = put 1 searching places₂ },
      more
          (more (more none_yet (search (unconnected []) 0 (omega arith) refl))
            (search_ends s₁ 0 refl (λ j h. ground (arith, h)) refl))
          (search s₂ 1 (omega arith) refl),
      (0, 1, λ h. absurd (omega arith), refl, refl),
    )

-- In the build with SYNC, with no clients at the start: the threads of the message service can come
-- to overlap an insertion into the map with another access of it, which is undefined, exactly when
-- there are two of them or more.
pub Collision-Turns_iff :
    (n : ℕ) → ((s : Callers) × Turns n (unconnected []) s × Collision s) ↔ (2 ≤ n)
Collision-Turns_iff n = (Collision-lt n, reach-Collision n)

put_self : (i : ℕ) (place : Place) (places : ℕ → Place) → put i place places i ≡ place
put_self i place places = rw ((==_iff i i).1 refl) refl

put-elsewhere :
    (i j : ℕ) (place : Place) (places : ℕ → Place) → j ≢ i → put i place places j ≡ places j
put-elsewhere i j place places differ = elim (Bool-cases (j == i)) [
  | inl same ↦ absurd (differ ((==_iff j i).0 same))
  | inr other ↦ rw other refl
]

-- A thread that is not disturbed leaves the map as the handler's `connect` does.
pub connect-Turns :
    (n i : ℕ) (clients : List ℕ)
    → i < n
    → (s : Callers) × Turns n (unconnected clients) s
      × (s.connected ≡ connect sync i clients)
      × (s.places i ≡ calling)
unfolding connect
connect-Turns n i clients bound =
    let searches : Callers = record {
      connected = clients;
      places = put i searching (λ j. outside);
    } in
    let begun : Turns n (unconnected clients) searches =
      more none_yet (search (unconnected clients) i bound refl) in
    let quiet : (j : ℕ) → j ≢ i → is_inserting (put i searching (λ k. outside) j) ≡ false =
      λ j differ. ap is_inserting (put-elsewhere i j searching (λ k. outside) differ) in
    elim (Bool-cases (has_client clients i)) [
      | inl present ↦ (
        record searches { places = put i calling searches.places },
        more begun (search_finds searches i (put_self i searching (λ j. outside)) quiet present),
        rw present refl,
        put_self i calling searches.places,
      )
      | inr missing ↦
          let inserts_now : Callers = record searches {
            places = put i inserting searches.places;
          } in
          (
            record { connected = i ∷ clients; places = put i calling inserts_now.places },
            more
                (more begun
                  (search_ends searches i (put_self i searching (λ j. outside)) quiet missing))
                (inserts inserts_now i (put_self i inserting searches.places) (λ j differ.
                  ap is_in_map (
                    put-elsewhere i j inserting searches.places differ
                    ∙ put-elsewhere i j searching (λ k. outside) differ))),
            rw missing refl,
            put_self i calling inserts_now.places,
          )
    ]
