-- ===== src/Perf/Promised.antt =====
-- What the interface of the benchmark's server promises, and what its statistics are to show.
use async_rpc_fbthrift.Common.{
  ℕ, Bool, false, ◌==◌, ◌||◌, Option, none, ◌+ℤ◌, ◌-ℤ◌, ◌+◌, if◌then◌else◌, List, [], ◌∷◌, some,
  Text, text, text_eq,
}
use async_rpc_fbthrift.Perf.Sums.{value_or_zero}
use async_rpc_fbthrift.Perf.SumsLaws.{wrapped}
use async_rpc_fbthrift.Perf.Server.{
  Request, calls_noop, calls_oneway_noop, calls_timeout, calls_sum, calls_download, calls_upload,
  next_chunk, Response, done, no_response, sums_to, sends_chunk,
}

-- The answer that the interface promises for a request: a sum's has the sum and the difference of
-- the integers, an absent one being 0, wrapped into an `i32`.
unfoldable pub response_to : List ℕ → Request → Response
response_to chunk calls_noop = done
response_to chunk calls_oneway_noop = no_response
response_to chunk calls_timeout = done
response_to chunk (calls_sum input) = sums_to (record {
  x = some (wrapped (value_or_zero input.x +ℤ value_or_zero input.y));
  y = some (wrapped (value_or_zero input.x -ℤ value_or_zero input.y));
})
response_to chunk calls_download = sends_chunk chunk
response_to chunk (calls_upload data_) = done
response_to chunk (next_chunk i) = sends_chunk chunk

unfoldable pub responses_to : List ℕ → List Request → List Response
responses_to chunk [] = []
responses_to chunk (r ∷ rs) = response_to chunk r ∷ responses_to chunk rs

-- Whether a chunk of the i-th stream is among the requests.
unfoldable pub asks_for : ℕ → List Request → Bool
asks_for i [] = false
asks_for i (next_chunk j ∷ past) = i == j || asks_for i past
asks_for i (r ∷ past) = asks_for i past

-- The counter of a request behind earlier ones, the newest first: a download counts as an upload, and
-- the other way round, and the first chunk of a stream is not counted.
unfoldable pub counter_of : List Request → Request → Option Text
counter_of past calls_noop = some (text "noop")
counter_of past calls_oneway_noop = some (text "noop")
counter_of past calls_timeout = some (text "timeout")
counter_of past (calls_sum input) = some (text "sum")
counter_of past calls_download = some (text "upload")
counter_of past (calls_upload data_) = some (text "download")
counter_of past (next_chunk i) = if asks_for i past then some (text "s_upload") else none

-- 1 where a counter is the one of the name.
abbrev pub hits : Text → Option Text → ℕ
hits k none = 0
hits k (some name) = if text_eq k name then 1 else 0

-- How many requests, behind earlier ones, have a counter.
unfoldable pub requests_of : Text → List Request → List Request → ℕ
requests_of k past [] = 0
requests_of k past (r ∷ rs) = hits k (counter_of past r) + requests_of k (r ∷ past) rs
