-- ===== src/Tutorial.antt =====
-- The first tutorial, src/old/working_example: its client against its handler. What the transport
-- does with a call is an argument; the lines of the log are in the order of the calls.
use async_rpc_fbthrift.Common.{
  ℕ, zero, suc, ◌+◌, ◌*◌, ◌≤◌, ◌<◌, ◌^◌, List, [], ◌∷◌, Option, some, ◌>>=◌, ℤ, pos, ◌≡◌, refl,
  arith,
}
use async_rpc_fbthrift.Rpc.{
  Reply, value, failed, Delivery, delivered, request_lost, reply_lost, remote,
}
use async_rpc_fbthrift.Servers.{get_number}

-- What `onReply` and `onError` log.
pub data Line : Type 0 where
  response : ℤ → Line
  error : Line

abbrev line_of : Reply ℤ → Line
line_of (value n) = response n
line_of failed = error

-- `future_get_number(i)`, as the handler answers it; the handler keeps no state.
unfoldable pub ask : Delivery → ℕ → Option Line
unfolding get_number remote
ask d i =
    remote d (λ s. get_number (pos i) >>= λ n. some (value n, s)) tt >>= λ out. some (line_of out.0)

-- The loop, from i on.
unfoldable pub ask_all : ℕ → ℕ → (ℕ → Delivery) → Option (List Line)
unfolding ask
ask_all zero i d = some []
ask_all (suc rounds) i d =
    ask (d i) i >>= λ line. ask_all rounds (i + 1) d >>= λ lines. some (line ∷ lines)

-- `for (int32_t i = 10; i < 100000; i++)`
unfoldable pub tutorial_client : (ℕ → Delivery) → Option (List Line)
tutorial_client d = ask_all 99990 10 d

-- The lines that are to be logged: twice the number where nothing is lost.
abbrev pub doubled : Delivery → ℕ → Line
doubled delivered i = response (pos (i * 2))
doubled request_lost i = error
doubled reply_lost i = error

pub all_doubled : ℕ → ℕ → (ℕ → Delivery) → List Line
all_doubled zero i d = []
all_doubled (suc rounds) i d = doubled (d i) i ∷ all_doubled rounds (i + 1) d

get_number-double : (i : ℕ) → i < 2 ^ 30 → get_number (pos i) ≡ some (pos (i * 2))
unfolding get_number
get_number-double i h = ground arith

ask-doubled : (d : Delivery) (i : ℕ) → i < 2 ^ 30 → ask d i ≡ some (doubled d i)
unfolding ask remote
ask-doubled delivered i h = rw (get_number-double i h) refl
ask-doubled request_lost i h = refl
ask-doubled reply_lost i h = rw (get_number-double i h) refl

ask_all-doubled :
    (rounds i : ℕ) (d : ℕ → Delivery)
    → i + rounds ≤ 2 ^ 30
    → ask_all rounds i d ≡ some (all_doubled rounds i d)
unfolding ask_all all_doubled
ask_all-doubled zero i d h = refl
ask_all-doubled (suc rounds) i d h =
    rw (ask-doubled (d i) i (omega (arith, h)), ask_all-doubled rounds (i + 1) d (omega (arith, h)))
      refl

-- No call of the tutorial's client overflows, whatever gets lost: it logs, for each number from 10
-- to 99999 in this order, twice the number, or an error where the request or the reply is lost.
pub tutorial_client-doubled : (d : ℕ → Delivery) → tutorial_client d ≡ some (all_doubled 99990 10 d)
unfolding tutorial_client
tutorial_client-doubled d = ask_all-doubled 99990 10 d (omega arith)
