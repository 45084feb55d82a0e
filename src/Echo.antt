-- ===== src/Echo.antt =====
-- The echo of the second tutorial: the client src/old/example/client/EchoClient.cpp and the test
-- src/old/example/test/EchoTest.cpp, against the handler of src/old/example/server/EchoService.cpp.
-- What the transport does with the call is an argument.
use async_rpc_fbthrift.Common.{
  Bool, true, false, Option, some, ◌>>=◌, Text, text, text_eq, ◌≡◌, refl,
}
use async_rpc_fbthrift.Rpc.{
  Reply, value, failed, Delivery, delivered, request_lost, reply_lost, remote,
}
use async_rpc_fbthrift.Servers.{echo}

-- What the client logs: the response, or that the request failed.
pub data Printed : Type 0 where
  response : Text → Printed
  request_failed : Printed

abbrev logged_reply : Reply Text → Printed
logged_reply (value message) = response message
logged_reply failed = request_failed

-- `sync_echo(response, message)`; the handler keeps no state.
unfoldable pub sync_echo : Delivery → Text → Option (Reply Text)
unfolding remote
sync_echo d message = remote d (λ s. some (value (echo message), s)) tt >>= λ out. some (out.0)

-- The `try` block of the client.
unfoldable pub echo_client : Delivery → Option Printed
unfolding sync_echo
echo_client d = sync_echo d (text "Ping this back") >>= λ reply. some (logged_reply reply)

-- `TEST_F(EchoTest, Example)`, whose client is connected to the handler; an exception fails the test.
abbrev expects : Text → Reply Text → Bool
expects message (value answer) = text_eq message answer
expects message failed = false

unfoldable pub echo_test : Delivery → Option Bool
unfolding sync_echo
echo_test d =
    sync_echo d (text "Echo Message") >>= λ reply. some (expects (text "Echo Message") reply)

-- The line that a call of the client leads to.
abbrev pub pinged : Delivery → Printed
pinged delivered = response (text "Ping this back")
pinged request_lost = request_failed
pinged reply_lost = request_failed

-- The client logs what it sent, or a failure where the request or the reply is lost.
pub echo_client-pinged : (d : Delivery) → echo_client d ≡ some (pinged d)
unfolding echo_client sync_echo remote echo
echo_client-pinged delivered = refl
echo_client-pinged request_lost = refl
echo_client-pinged reply_lost = refl

-- The test of the echo passes when its call gets through.
pub echo_test-passes : echo_test delivered ≡ some true
unfolding echo_test sync_echo remote echo
echo_test-passes = refl
