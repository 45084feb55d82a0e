-- ===== src/System/Laws.antt =====
-- The whole conversation of the synchronous client with the services, when nothing is lost.
use async_rpc_fbthrift.Common.{ℕ, ◌+◌, ◌-◌, ◌/◌, Bool, some, Text, ◌≡◌, refl, subst, arith}
use async_rpc_fbthrift.Stats.Manager.{Manager}
use async_rpc_fbthrift.Stats.Shape.{IsValid}
use async_rpc_fbthrift.Stats.Retention.{add_entries}
use async_rpc_fbthrift.Rpc.{value}
use async_rpc_fbthrift.Uid.Make.{Address, generate_local_uid}
use async_rpc_fbthrift.Sanitize.Laws.{view}
use async_rpc_fbthrift.Message.Handler.{Board}
use async_rpc_fbthrift.Message.Laws.{IsBoard}
use async_rpc_fbthrift.Message.Logs.{Logged}
use async_rpc_fbthrift.Client.Main.{start, client_summary}
use async_rpc_fbthrift.Client.Successes.{client_summary-issued, start-issued}
use async_rpc_fbthrift.System.Converse.{System, Plan, converse}
use async_rpc_fbthrift.System.Rounds.{IsLossless, held}
use async_rpc_fbthrift.System.Journal.{rounds_of, answers_of}
use async_rpc_fbthrift.System.Courses.{
  response_in, client_in, service_in, sanitizer_in, database_in, InFront, converse-Between,
}

-- The synchronous client, whose log is well formed, against the three services, whose logs are well
-- formed, when every request and reply is delivered: all rounds are run through. The response of
-- each carries the query's identifier; a message that is refused is answered with `false`, any
-- other with `true`, and a `find_last_message` is answered with the message, or, if it is refused,
-- with what the database held for the client before, or the warning. The summary counts every call
-- as successful, the database holds the message if there was a round and it is not refused, and
-- each of the four logs has received the visits of its rounds, in their order: the client's the
-- call and the reply, the message service's the arrival and the departure, the sanitization
-- service's those of the `send_message`s, without the departure if the message is refused, and the
-- database's those of all calls that reach it.
pub converse-lossless :
    (localhost : Bool) (hash : ℕ) (a : Address) (rand : ℕ) (plan : ℕ → Plan)
    (client_id message : Text) (iterations : ℕ) (m : Manager) (b : Board)
    → ((j : ℕ) → IsLossless (plan j))
    → IsValid m
    → IsBoard b
    → let before = view b.backend.database client_id in
      (s : System) × (converse iterations plan
          (generate_local_uid localhost hash a rand)
          client_id
          message
          0
          (record { client = (start m).client; board = b })
        ≡ some (
          value (
              answers_of
                (response_in localhost hash a rand plan client_id message before)
                iterations
                0),
          s,
        ))
      × (client_summary s.client iterations ≡ record {
        send_successes = iterations - iterations / 2;
        send_iterations = iterations - iterations / 2;
        find_successes = iterations / 2;
        find_iterations = iterations / 2;
      })
      × (view s.board.backend.database client_id ≡ held message before iterations)
      × (add_entries m
            (rounds_of (client_in localhost hash a rand plan client_id message before) iterations 0)
          ≡ some s.client.client_stat_manager)
      × Logged b s.board
          (rounds_of (service_in localhost hash a rand plan client_id message before) iterations 0)
          (rounds_of
            (sanitizer_in localhost hash a rand plan client_id message before)
            iterations
            0)
          (rounds_of (database_in localhost hash a rand plan client_id message before) iterations 0)
unfolding start
converse-lossless localhost hash a rand plan client_id message iterations m b lossless v vb =
    let before = view b.backend.database client_id in
    let stop : 0 + iterations ≡ iterations = omega arith in
    let (s, e, run) =
      converse-Between localhost hash a rand plan client_id message before iterations 0
        (record { client = (start m).client; board = b }) (λ j h. lossless j)
        (record { valid = v; board = vb; holds = refl; counted = λ kind. start-issued kind m }) in
    let end =
      subst (λ k. InFront localhost hash a rand plan client_id message before k s) stop
        run.behind in
    (
      s,
      e,
      client_summary-issued s.client iterations end.counted,
      end.holds,
      run.client_log,
      run.logs,
    )
