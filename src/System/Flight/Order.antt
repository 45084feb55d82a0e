-- ===== src/System/Flight/Order.antt =====
-- What the client is to print, when nothing is lost: the order in which the message service handles
-- the calls decides.
use async_rpc_fbthrift.Common.{
  ℕ, Bool, true, false, not, ◌||◌, ◌==◌, if◌then◌else◌, List, [], ◌∷◌, Option, Text, i64_of_u64,
  ◌≡◌, refl, arith,
}
use async_rpc_fbthrift.Uid.Make.{get_query_uid}
use async_rpc_fbthrift.Client.Main.{Response, is_find}
use async_rpc_fbthrift.System.Rounds.{IsLossless}
use async_rpc_fbthrift.System.Flight.{Move, sends, serves, receives}
use async_rpc_fbthrift.System.Flight.Serve.{held_if, response_now}

-- Every request and reply is delivered.
abbrev pub AreLossless : List Move → Type 0
AreLossless [] = Unit
AreLossless (sends time ∷ past) = AreLossless past
AreLossless (serves i p ∷ past) = IsLossless p × AreLossless past
AreLossless (receives i time ∷ past) = AreLossless past

-- Whether the message service has handled a `send_message`.
unfoldable pub handled_send : List Move → Bool
handled_send [] = false
handled_send (sends time ∷ past) = handled_send past
handled_send (serves i p ∷ past) = not (is_find i) || handled_send past
handled_send (receives i time ∷ past) = handled_send past

-- Whether it had done so when it handled the call of round i.
unfoldable pub send_before : ℕ → List Move → Bool
unfolding handled_send
send_before i [] = false
send_before i (sends time ∷ past) = send_before i past
send_before i (serves j p ∷ past) = if i == j then handled_send past else send_before i past
send_before i (receives j time ∷ past) = send_before i past

abbrev pub expected : ℕ → Text → Text → Option Text → List Move → ℕ → Response
expected uid client_id message before past i =
    response_now client_id message (held_if (send_before i past) message before) i
      (i64_of_u64 (get_query_uid uid i))

pub held_if-held_if :
    (a b : Bool) (message : Text) (before : Option Text)
    → held_if a message (held_if b message before) ≡ held_if (a || b) message before
held_if-held_if true true message before = ground arith
held_if-held_if true false message before = refl
held_if-held_if false b message before = refl
