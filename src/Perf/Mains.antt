-- ===== src/Perf/Mains.antt =====
-- The main programs of the benchmark, src/dep/perf/cpp2/client/Client.cpp and server/Server.cpp, and
-- the connections of src/dep/perf/cpp2/util/Util.h and Util.cpp. The library calls that start threads
-- and sockets are not modelled.
use async_rpc_fbthrift.Common.{
  ℕ, zero, suc, Bool, true, false, if◌then◌else◌, List, [], ◌∷◌, Option, none, some, ◌>>=◌, Text,
  text, text_eq, ℤ, pos, negsuc, ◌+ℤ◌, ◌-ℤ◌, ltz,
}

abbrev is_zero : ℤ → Bool
is_zero (pos zero) = true
is_zero (pos (suc n)) = false
is_zero (negsuc n) = false

abbrev min : ℤ → ℤ → ℤ
min a b = if ltz b a then b else a

-- A number of threads, where 0 stands for the number of cores.
unfoldable pub or_cores : ℤ → ℤ → ℤ
or_cores cores flag = if is_zero flag then cores else flag

-- `FLAGS_terminate_sec`, where 0 stands for essentially infinite time.
unfoldable pub or_forever : ℤ → ℤ
or_forever terminate_sec = if is_zero terminate_sec then pos 100000000 else terminate_sec

-- The loop that prints the statistics: the times of its rounds, each of which it sleeps and then
-- hands to `printStats`. `none` is the end of the fuel.
unfoldable pub stats_loop : ℕ → ℤ → ℤ → ℤ → Option (List ℤ)
stats_loop zero terminate_sec stats_interval_sec elapsed = none
stats_loop (suc fuel) terminate_sec stats_interval_sec elapsed =
    let sleep = min (terminate_sec -ℤ elapsed) stats_interval_sec in
    let rest = stats_loop fuel terminate_sec stats_interval_sec (elapsed +ℤ sleep) in
    if ltz (elapsed +ℤ sleep) terminate_sec
    then (rest >>= λ sleeps. some (sleep ∷ sleeps))
    else some (sleep ∷ [])

-- The loop as each of the two programs enters it.
unfoldable pub client_stats_loop : ℕ → ℤ → ℤ → Option (List ℤ)
unfolding stats_loop or_forever
client_stats_loop fuel terminate_sec stats_interval_sec =
    stats_loop fuel (or_forever terminate_sec) stats_interval_sec (pos 0)

unfoldable pub server_stats_loop : ℕ → ℤ → ℤ → Option (List ℤ)
unfolding stats_loop or_forever
server_stats_loop fuel terminate_sec stats_interval_sec =
    stats_loop fuel (or_forever terminate_sec) stats_interval_sec (pos 0)

unfoldable pub sum_of_weights : List ℤ → ℤ
sum_of_weights [] = pos 0
sum_of_weights (w ∷ ws) = w +ℤ sum_of_weights ws

abbrev with_noop : List ℤ → List ℤ
with_noop [] = []
with_noop (w ∷ ws) = pos 1 ∷ ws

-- The weights of the distribution, from the flags in the order of `OP_TYPE`.
unfoldable pub op_weights : List ℤ → List ℤ
unfolding sum_of_weights
op_weights flags = if is_zero (sum_of_weights flags) then with_noop flags else flags

-- What a connection is made of.
pub record Socket : Type 0 where
  pub encrypted : Bool
  pub advertized_protocols : List Text
  pub zero_copy : Bool

unfoldable pub get_socket : Bool → List Text → Socket
get_socket encrypted advertized_protocols = record {
  encrypted = encrypted;
  advertized_protocols = if encrypted then advertized_protocols else [];
  zero_copy = true;
}

pub data Client : Type 0 where
  over_header over_rocket : Socket → Client

unfoldable pub new_header_client : Client
unfolding get_socket
new_header_client = over_header (get_socket false [])

unfoldable pub new_rocket_client : Bool → Client
unfolding get_socket
new_rocket_client encrypted = over_rocket (get_socket encrypted (text "rs2" ∷ []))

-- `newClient`; `none` is the null pointer.
unfoldable pub new_client : Text → Bool → Option Client
unfolding new_header_client new_rocket_client
new_client transport encrypted =
    if text_eq transport (text "header")
    then some new_header_client
    else (if text_eq transport (text "rocket") then some (new_rocket_client encrypted) else none)

-- `ConnectionThread::newSyncClient`: the connection that the thread keeps from then on. The outer
-- `none` is the failed `DCHECK` of a debug build that has a connection.
unfoldable pub new_sync_client : Bool → Option Client → Text → Bool → Option (Option Client)
unfolding new_client
new_sync_client debug none transport encrypted = some (new_client transport encrypted)
new_sync_client debug (some old) transport encrypted =
    if debug then none else some (new_client transport encrypted)
