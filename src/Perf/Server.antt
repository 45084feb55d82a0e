-- ===== src/Perf/Server.antt =====
-- `BenchmarkHandler` of src/dep/perf/cpp2/server/BenchmarkHandler.h.
use async_rpc_fbthrift.Common.{
  ℕ, Bool, false, ◌==◌, ◌||◌, if◌then◌else◌, zero, suc, ◌+◌, ◌%◌, List, [], ◌∷◌, Option, some,
  ◌>>=◌, Text, text,
}
use async_rpc_fbthrift.Perf.Counters.{Platform, Counters, add, register_all}
use async_rpc_fbthrift.Perf.Sums.{TwoInts, sum_answer}

-- `kNoop_`, `kSum_`, `kTimeout_`, `kDownload_`, `kUpload_`, `ks_Download_` and `ks_Upload_`.
unfoldable pub handler_names : List Text
handler_names =
    text "noop"
    ∷ text "sum"
    ∷ text "timeout"
    ∷ text "download"
    ∷ text "upload"
    ∷ text "s_download"
    ∷ text "s_upload"
    ∷ []

-- The letters of the chunk from index i on; `rand i` is the i-th number of `rand()`.
unfoldable pub chunk_letters : (ℕ → ℕ) → ℕ → ℕ → List ℕ
chunk_letters rand zero i = []
chunk_letters rand (suc n) i = (rand i % 26 + b'A') ∷ chunk_letters rand n (i + 1)

-- A call of the service, or the next chunk of the i-th stream that `streamDownload` returned.
pub data Request : Type 0 where
  calls_noop calls_oneway_noop calls_timeout : Request
  calls_sum : TwoInts → Request
  calls_download : Request
  calls_upload : List ℕ → Request
  next_chunk : ℕ → Request

-- The generators that are suspended behind their `co_yield`.
unfoldable pub has_yielded : ℕ → List ℕ → Bool
has_yielded i [] = false
has_yielded i (j ∷ yielded) = i == j || has_yielded i yielded

pub data Response : Type 0 where
  done no_response : Response
  sums_to : TwoInts → Response
  sends_chunk : List ℕ → Response

module _ (p : Platform) where
  -- The members of the handler, and the streams whose generators have yielded a chunk.
  pub record Handler : Type 0 where
    pub stats : Counters p
    pub chunk : List ℕ
    pub yielded : List ℕ

  -- The constructor.
  unfoldable pub new_handler : (ℕ → ℕ) → ℕ → Counters p → Handler
  unfolding register_all handler_names chunk_letters
  new_handler rand chunk_size stats = record {
    stats = register_all p handler_names stats;
    chunk = chunk_letters rand chunk_size 0;
    yielded = [];
  }

  unfoldable pub add_and : Handler → Text → Response → Option (Response × Handler)
  unfolding add
  add_and h name response =
      add p name h.stats >>= λ stats. some (response, record h { stats = stats })

  -- The generator of `streamDownload` runs up to its next `co_yield`: a new one from the start of its
  -- loop, another from behind its last `co_yield`, where it counts.
  unfoldable pub resume : ℕ → Handler → Option (Response × Handler)
  unfolding add_and has_yielded
  resume i h =
      let counted = add_and h (text "s_upload") (sends_chunk h.chunk) in
      if has_yielded i h.yielded
      then counted
      else some (sends_chunk h.chunk, record h { yielded = i ∷ h.yielded })

  unfoldable pub handle : Request → Handler → Option (Response × Handler)
  unfolding add_and sum_answer resume
  handle calls_noop h = add_and h (text "noop") done
  handle calls_oneway_noop h = add_and h (text "noop") no_response
  handle calls_timeout h = add_and h (text "timeout") done
  handle (calls_sum input) h = add_and h (text "sum") (sums_to (sum_answer input))
  handle calls_download h = add_and h (text "upload") (sends_chunk h.chunk)
  handle (calls_upload data_) h = add_and h (text "download") done
  handle (next_chunk i) h = resume i h

  -- One call after the other.
  unfoldable pub handle_all : List Request → Handler → Option (List Response × Handler)
  handle_all [] h = some ([], h)
  handle_all (r ∷ rs) h =
      handle r h >>= λ out. handle_all rs out.1 >>= λ rest. some (out.0 ∷ rest.0, rest.1)
