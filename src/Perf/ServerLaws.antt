-- ===== src/Perf/ServerLaws.antt =====
-- The benchmark's server counts its calls.
use async_rpc_fbthrift.Common.{
  ℕ, true, ◌==◌, ==_iff, ◌||◌, ◌+◌, List, [], ◌∷◌, some, ◌≡◌, refl, ap, inl, inr, arith, Bool-cases,
  ◌∙◌, sym, u32, Text, text, text_eq, text_eq_iff,
}
use async_rpc_fbthrift.Perf.Counters.{Platform, add, count, register_all}
use async_rpc_fbthrift.Perf.CountersLaws.{is_sorted, or_zero, count-add_size}
use async_rpc_fbthrift.Perf.Sums.{sum_answer}
use async_rpc_fbthrift.Perf.SumsLaws.{sum_answer-wrapped}
use async_rpc_fbthrift.Perf.Registered.{is_name}
use async_rpc_fbthrift.Perf.Together.{count-register_all_zero}
use async_rpc_fbthrift.Perf.Server.{
  Request, calls_noop, calls_oneway_noop, calls_timeout, calls_sum, calls_download, calls_upload,
  next_chunk, Response, done, no_response, sums_to, sends_chunk, Handler, new_handler,
  handler_names, has_yielded, resume, add_and, handle, handle_all, chunk_letters,
}
use async_rpc_fbthrift.Perf.Promised.{
  response_to, responses_to, asks_for, counter_of, hits, requests_of,
}

same_word : (a n : ℕ) → u32 (u32 a + n) ≡ u32 (a + n)
same_word a n = omega arith

one_more : (a : ℕ) → u32 (u32 a + 1) ≡ u32 (a + 1)
one_more a = same_word a 1

module _ (p : Platform) where
  -- The handler behind the requests `past`: the counters that it names show how often each was hit,
  -- which is `base` of the name, and the generators that have yielded are those of the streams asked.
  record IsBehind (past : List Request) (base : Text → ℕ) (h : Handler p) : Type 0 where
    shows : (k : Text) → is_name k handler_names ≡ true → count p k h.stats ≡ some (u32 (base k))
    streams : (i : ℕ) → has_yielded i h.yielded ≡ asks_for i past

  next : List Request → Request → (Text → ℕ) → Text → ℕ
  next past r base k = base k + hits k (counter_of past r)

  add_and-counts :
      (past : List Request) (base : Text → ℕ) (h : Handler p) (name : Text) (answer : Response)
      → IsBehind past base h
      → is_name name handler_names ≡ true
      → (h' : Handler p) × (add_and p h name answer ≡ some (answer, h'))
        × (h'.chunk ≡ h.chunk)
        × (h'.yielded ≡ h.yielded)
        × ((k : Text)
            → is_name k handler_names ≡ true
            → count p k h'.stats ≡ some (u32 (base k + hits k (some name))))
  unfolding add_and add
  add_and-counts past base h name answer v known =
      let (stats, e, after) = count-add_size p name 1 _ h.stats (v.shows name known) in
      (
        record h { stats = stats },
        rw e refl,
        refl,
        refl,
        λ k k_known. after k ∙ elim (Bool-cases (text_eq k name)) [
          | inl equal ↦ rw equal (
              ap some (
                one_more (base name)
                ∙ ap (λ j. u32 (base j + 1)) (sym ((text_eq_iff k name).0 equal))))
          | inr other ↦ rw other (v.shows k k_known ∙ ap (λ n. some (u32 n)) (omega arith))
        ],
      )

  -- A call that adds to a counter, and no stream.
  counted-IsBehind :
      (past : List Request) (base : Text → ℕ) (h : Handler p) (r : Request) (name : Text)
      (answer : Response)
      → IsBehind past base h
      → is_name name handler_names ≡ true
      → counter_of past r ≡ some name
      → ((i : ℕ) → asks_for i (r ∷ past) ≡ asks_for i past)
      → (h' : Handler p) × (add_and p h name answer ≡ some (answer, h'))
        × (h'.chunk ≡ h.chunk)
        × IsBehind (r ∷ past) (next past r base) h'
  unfolding next
  counted-IsBehind past base h r name answer v known counter same =
      let (h', e, chunk, yielded, after) = add_and-counts past base h name answer v known in
      (
        h',
        e,
        chunk,
        record {
          shows = λ k k_known. after k k_known ∙ rw counter refl;
          streams = λ i. ap (has_yielded i) yielded ∙ v.streams i ∙ sym (same i);
        },
      )

  resume-IsBehind :
      (past : List Request) (base : Text → ℕ) (h : Handler p) (i : ℕ)
      → IsBehind past base h
      → (h' : Handler p) × (resume p i h ≡ some (sends_chunk h.chunk, h'))
        × (h'.chunk ≡ h.chunk)
        × IsBehind (next_chunk i ∷ past) (next past (next_chunk i) base) h'
  unfolding resume next counter_of asks_for has_yielded handler_names is_name
  resume-IsBehind past base h i v = elim (Bool-cases (asks_for i past)) [
    | inl again ↦
        let (h', e, chunk, shown) =
          counted-IsBehind past base h (next_chunk i) (text "s_upload") (sends_chunk h.chunk) v refl
            (rw again refl) (λ j. ground (arith, again, ==_iff j i)) in
        (h', rw (v.streams i, again) e, chunk, shown)
    | inr first ↦ (
      record h { yielded = i ∷ h.yielded },
      rw (v.streams i, first) refl,
      refl,
      record {
        shows = λ k known. v.shows k known ∙ rw first (ap (λ n. some (u32 n)) (omega arith));
        streams = λ j. ap (λ b. j == i || b) (v.streams j);
      },
    )
  ]

  handle-IsBehind :
      (past : List Request) (base : Text → ℕ) (h : Handler p) (r : Request)
      → IsBehind past base h
      → (h' : Handler p) × (handle p r h ≡ some (response_to h.chunk r, h'))
        × (h'.chunk ≡ h.chunk)
        × IsBehind (r ∷ past) (next past r base) h'
  unfolding handle response_to counter_of asks_for handler_names is_name
  handle-IsBehind past base h calls_noop v =
      counted-IsBehind past base h calls_noop (text "noop") done v refl refl (λ i. refl)
  handle-IsBehind past base h calls_oneway_noop v =
      counted-IsBehind past base h calls_oneway_noop (text "noop") no_response v refl refl
        (λ i. refl)
  handle-IsBehind past base h calls_timeout v =
      counted-IsBehind past base h calls_timeout (text "timeout") done v refl refl (λ i. refl)
  handle-IsBehind past base h (calls_sum input) v = rw (← sum_answer-wrapped input) (
      counted-IsBehind past base h (calls_sum input) (text "sum") (sums_to (sum_answer input)) v
        refl refl (λ i. refl))
  handle-IsBehind past base h calls_download v =
      counted-IsBehind past base h calls_download (text "upload") (sends_chunk h.chunk) v refl refl
        (λ i. refl)
  handle-IsBehind past base h (calls_upload data_) v =
      counted-IsBehind past base h (calls_upload data_) (text "download") done v refl refl
        (λ i. refl)
  handle-IsBehind past base h (next_chunk i) v = resume-IsBehind past base h i v

  handle_all-IsBehind :
      (past rs : List Request) (base : Text → ℕ) (h : Handler p)
      → IsBehind past base h
      → (h' : Handler p) × (handle_all p rs h ≡ some (responses_to h.chunk rs, h'))
        × ((k : Text)
            → is_name k handler_names ≡ true
            → count p k h'.stats ≡ some (u32 (base k + requests_of k past rs)))
  unfolding handle_all responses_to requests_of next
  handle_all-IsBehind past [] base h v =
      (h, refl, λ k known. v.shows k known ∙ ap (λ n. some (u32 n)) (omega arith))
  handle_all-IsBehind past (r ∷ rs) base h v =
      let (h₁, e₁, same, v₁) = handle-IsBehind past base h r v in
      let (h₂, e₂, after) = handle_all-IsBehind (r ∷ past) rs (next past r base) h₁ v₁ in
      (
        h₂,
        rw (e₁, e₂) (ap (λ chunk. some (response_to h.chunk r ∷ responses_to chunk rs, h₂)) same),
        λ k known. after k known ∙ ap (λ n. some (u32 n)) (omega arith),
      )

  register-fresh :
      (k : Text)
      → is_name k handler_names ≡ true
      → count p k (register_all p handler_names []) ≡ some 0
  unfolding is_sorted or_zero count
  register-fresh k known = count-register_all_zero p handler_names k [] refl known

  -- A new handler answers any sequence of calls as the interface promises, with the chunk of letters
  -- that it made at the start, and none of its counters is missing. Behind them, each counter that it
  -- registers shows the number of its requests modulo 2^32, where a download counts as an upload, an
  -- upload as a download, and of each stream all chunks but the first.
  pub handle_all-new_handler :
      (rand : ℕ → ℕ) (chunk_size : ℕ) (rs : List Request) (k : Text)
      → is_name k handler_names ≡ true
      → (h : Handler p) × (handle_all p rs (new_handler p rand chunk_size [])
          ≡ some (responses_to (chunk_letters rand chunk_size 0) rs, h))
        × (count p k h.stats ≡ some (u32 (requests_of k [] rs)))
  unfolding new_handler has_yielded asks_for
  handle_all-new_handler rand chunk_size rs k known =
      let (h, e, after) =
        handle_all-IsBehind [] rs (λ k. 0) (new_handler p rand chunk_size [])
          (record { shows = register-fresh; streams = λ i. refl }) in
      (h, e, after k known ∙ ap (λ n. some (u32 n)) (omega arith))
