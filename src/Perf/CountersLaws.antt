-- ===== src/Perf/CountersLaws.antt =====
-- Laws of the counters of the benchmark.
use async_rpc_fbthrift.Common.{
  ℕ, ◌+◌, Bool, true, false, ◌&&◌, if◌then◌else◌, [], ◌∷◌, Option, none, some, ◌≡◌, refl, ap, inl,
  inr, u32, arith, Text, text_eq, text_eq_iff, Bool-cases,
}
use async_rpc_fbthrift.Perf.Counters.{
  Platform, Counters, register_counter, add_size, count, text_ltb, print_stats, print, new_counter,
  increase,
}

text_ltb_irrefl : (s : Text) → text_ltb s s ≡ false
unfolding text_ltb
text_ltb_irrefl [] = refl
text_ltb_irrefl (a ∷ s) = ground (arith, text_ltb_irrefl s)

text_ltb_trans : (s t u : Text) → text_ltb s t ≡ true → text_ltb t u ≡ true → text_ltb s u ≡ true
unfolding text_ltb
text_ltb_trans [] [] u h k = absurd (ground arith)
text_ltb_trans [] (b ∷ t) [] h k = absurd (ground arith)
text_ltb_trans [] (b ∷ t) (c ∷ u) h k = refl
text_ltb_trans (a ∷ s) [] u h k = absurd (ground arith)
text_ltb_trans (a ∷ s) (b ∷ t) [] h k = absurd (ground arith)
text_ltb_trans (a ∷ s) (b ∷ t) (c ∷ u) h k = elim (Bool-cases (text_ltb s t)) [
  | inl st ↦ elim (Bool-cases (text_ltb t u)) [
    | inl tu ↦ ground (arith, text_ltb_trans s t u st tu)
    | inr tu ↦ ground (arith, h, k, tu)
  ]
  | inr st ↦ ground (arith, h, k, st)
]

text_ltb_total : (s t : Text) → text_eq s t ≡ false → text_ltb s t ≡ false → text_ltb t s ≡ true
unfolding text_ltb
text_ltb_total [] [] h k = absurd (ground arith)
text_ltb_total [] (b ∷ t) h k = absurd (ground arith)
text_ltb_total (a ∷ s) [] h k = refl
text_ltb_total (a ∷ s) (b ∷ t) h k = elim (Bool-cases (text_eq s t)) [
  | inl e ↦ ground (arith, e)
  | inr e ↦ elim (Bool-cases (text_ltb s t)) [
    | inl l ↦ ground (arith, l, e)
    | inr l ↦ ground (arith, text_ltb_total s t e l)
  ]
]

module _ (p : Platform) where
  -- The number of a counter, or 0 where there is none.
  unfoldable pub or_zero : Option ℕ → ℕ
  or_zero none = 0
  or_zero (some n) = n

  unfoldable pub is_below : Text → Counters p → Bool
  is_below k [] = true
  is_below k ((j, c) ∷ m) = text_ltb k j && is_below k m

  -- The keys are in strictly increasing order, so that none occurs twice.
  unfoldable pub is_sorted : Counters p → Bool
  is_sorted [] = true
  is_sorted ((j, c) ∷ m) = is_below j m && is_sorted m

  is_below_trans :
      (k j : Text) (m : Counters p)
      → text_ltb k j ≡ true
      → is_below j m ≡ true
      → is_below k m ≡ true
  unfolding is_below
  is_below_trans k j [] h b = refl
  is_below_trans k j ((i, c) ∷ m) h b = elim (Bool-cases (is_below j m)) [
    | inl b' ↦
        ground (arith, b, text_ltb_trans k j i h (ground (arith, b)), is_below_trans k j m h b')
    | inr b' ↦ absurd (ground (arith, b, b'))
  ]

  count-is_below : (k : Text) (m : Counters p) → is_below k m ≡ true → count p k m ≡ none
  unfolding count is_below
  count-is_below k [] b = refl
  count-is_below k ((j, c) ∷ m) b = elim (Bool-cases (text_eq k j)) [
    | inl e ↦ absurd (ground (arith, b, text_ltb_irrefl k, ap (text_ltb k) ((text_eq_iff k j).0 e)))
    | inr e ↦ rw e (count-is_below k m (ground (arith, b)))
  ]

  is_below-register_counter :
      (j name : Text) (m : Counters p)
      → is_below j m ≡ true
      → text_ltb j name ≡ true
      → is_below j (register_counter p name m) ≡ true
  unfolding is_below register_counter
  is_below-register_counter j name [] b h = ground (arith, h)
  is_below-register_counter j name ((i, c) ∷ m) b h =
      ground (arith, b, h, is_below-register_counter j name m (ground (arith, b)) h)

  pub register_counter-is_sorted :
      (name : Text) (m : Counters p)
      → is_sorted m ≡ true
      → is_sorted (register_counter p name m) ≡ true
  unfolding is_sorted is_below register_counter
  register_counter-is_sorted name [] s = refl
  register_counter-is_sorted name ((j, c) ∷ m) s = elim (Bool-cases (text_eq name j)) [
    | inl e ↦ rw e s
    | inr e ↦ elim (Bool-cases (text_ltb name j)) [
      | inl l ↦ rw (e, l) (ground (arith, s, l, is_below_trans name j m l (ground (arith, s))))
      | inr l ↦
          rw (e, l)
            (ground (
              arith,
              s,
              is_below-register_counter j name m (ground (arith, s)) (text_ltb_total name j e l),
              register_counter-is_sorted name m (ground (arith, s)),
            ))
    ]
  ]

  -- Registering a name twice leaves its counter as it is, and no other counter changes.
  pub count-register_counter :
      (name k : Text) (m : Counters p)
      → is_sorted m ≡ true
      → count p k (register_counter p name m)
        ≡ (if text_eq k name then some (or_zero (count p k m)) else count p k m)
  unfolding count register_counter or_zero new_counter is_sorted is_below
  count-register_counter name k [] s = rw p.read_full-fresh refl
  count-register_counter name k ((j, c) ∷ m) s = elim (Bool-cases (text_ltb name j)) [
    | inl l ↦
        let missing : count p name ((j, c) ∷ m) ≡ none =
          count-is_below name ((j, c) ∷ m)
            (ground (arith, l, is_below_trans name j m l (ground (arith, s)))) in
        ground (
          arith,
          l,
          p.read_full-fresh,
          text_eq_iff k name,
          text_eq_iff name j,
          text_eq_iff k j,
          missing,
        )
    | inr l ↦ ground (
      arith,
      l,
      p.read_full-fresh,
      text_eq_iff k name,
      text_eq_iff name j,
      text_eq_iff k j,
      count-register_counter name k m (ground (arith, s)),
    )
  ]

  -- A registered counter grows by what is added, modulo 2^32, and no other counter changes.
  pub count-add_size :
      (name : Text) (sz c : ℕ) (m : Counters p)
      → count p name m ≡ some c
      → (m' : Counters p) × (add_size p name sz m ≡ some m')
        × ((k : Text)
            → count p k m' ≡ (if text_eq k name then some (u32 (c + sz)) else count p k m))
  unfolding count add_size increase
  count-add_size name sz c [] h = ground arith
  count-add_size name sz c ((j, d) ∷ m) h = elim (Bool-cases (text_eq name j)) [
    | inl same ↦ (
      (j, increase p sz d) ∷ m,
      rw same refl,
      λ k. ground (
        arith,
        same,
        h,
        text_eq_iff name j,
        text_eq_iff k name,
        text_eq_iff k j,
        p.read_full-plus d.value sz,
      ),
    )
    | inr other ↦
        let (m', e, after) = count-add_size name sz c m (ground (arith, h, other)) in
        (
          (j, d) ∷ m',
          rw (other, e) refl,
          λ k.
              ground
                (arith, other, after k, text_eq_iff name j, text_eq_iff k name, text_eq_iff k j),
        )
  ]

  pub count-print_stats :
      (secs total : p.Double) (k : Text) (m : Counters p)
      → count p k (print_stats p secs total m).1 ≡ count p k m
  unfolding count print_stats print
  count-print_stats secs total k [] = refl
  count-print_stats secs total k ((j, c) ∷ m) =
      ground (arith, count-print_stats secs (p.and_also total (print p secs c).0) k m)
