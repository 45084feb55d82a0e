-- ===== src/Client/Tests.antt =====
-- The load generator on small inputs, and the theorems about it at such inputs.
use async_rpc_fbthrift.Common.{
  ◌+◌, ◌≡◌, refl, true, false, none, some, List, [], ◌∷◌, arith, text, pos, negsuc,
}
use async_rpc_fbthrift.Stats.Manager.{Manager, new_manager, add_entry, rotate, write_entry, assign}
use async_rpc_fbthrift.Uid.Make.{get_query_uid}
use async_rpc_fbthrift.Stats.Shape.{IsValid, new_manager-IsValid}
use async_rpc_fbthrift.Client.Main.{
  Response, Run, Event, calls, replies, errors, steps, start, is_finished, client_summary,
  read_iterations, step, log_call, on_reply, on_find_reply, is_pending, remove, is_find, is_empty,
}
use async_rpc_fbthrift.Client.Laws.{errors_of, client_summary-steps}
use async_rpc_fbthrift.Client.Mock.{mock_steps, mock_step, on_mock_find}

abbrev log : Manager
log = new_manager (text "client_stats.csv") false 4 1 false

log-IsValid : IsValid log
log-IsValid =
    new_manager-IsValid (text "client_stats.csv") false 4 1 false (omega arith) (omega arith)
      (omega arith) (omega arith)

abbrev ok_reply : Response
ok_reply = record { message = text "hello"; ok = true; query_uid = pos 1 }

-- Two calls, of which the second is answered first, and the first fails.
abbrev two_calls : List Event
two_calls = calls 10 ∷ calls 20 ∷ replies 1 30 ok_reply ∷ errors 0 ∷ []

abbrev one_waiting : List Event
one_waiting = calls 10 ∷ []

abbrev after_two : Run
after_two = record {
  client = record {
    find_success_counter = 1;
    send_success_counter = 0;
    client_stat_manager = record log {
      data_buffers = ((0 ∷ 10 ∷ []) ∷ (1 ∷ 20 ∷ []) ∷ (1 ∷ 30 ∷ []) ∷ (0 ∷ 0 ∷ []) ∷ []) ∷ [];
      entry_cursor = 3;
    };
  };
  next = 2;
  pending = [];
}

two_calls_run : steps 2 0 two_calls (start log) ≡ some after_two
unfolding steps step start log_call on_reply on_find_reply add_entry rotate write_entry assign
    get_query_uid new_manager is_pending remove is_find
two_calls_run = refl

read_iterations_runs :
    (read_iterations (λ t. some (negsuc 4)) (text "client" ∷ text "-5" ∷ []) ≡ some 10)
    × (read_iterations (λ t. some (pos 7)) (text "client" ∷ text "7" ∷ []) ≡ some 7)
    × (read_iterations (λ t. none) (text "client" ∷ []) ≡ some 10)
unfolding read_iterations
read_iterations_runs = (refl, refl, refl)

client_summary-steps_example :
    ((client_summary (after_two.client) 2).find_successes + errors_of true two_calls
      ≡ (client_summary (after_two.client) 2).find_iterations)
    × ((client_summary (after_two.client) 2).send_successes + errors_of false two_calls
        ≡ (client_summary (after_two.client) 2).send_iterations)
unfolding is_finished is_empty
client_summary-steps_example =
    client_summary-steps 2 0 two_calls log after_two log-IsValid two_calls_run refl

-- The same events for the client of the mock database.
abbrev after_mock : Run
after_mock = record {
  client = record {
    find_success_counter = 1;
    send_success_counter = 0;
    client_stat_manager = record log {
      data_buffers = ((0 ∷ 10 ∷ []) ∷ (1 ∷ 20 ∷ []) ∷ (0 ∷ 0 ∷ []) ∷ (0 ∷ 0 ∷ []) ∷ []) ∷ [];
      entry_cursor = 2;
    };
  };
  next = 2;
  pending = [];
}

mock_run : mock_steps 2 0 two_calls (start log) ≡ some after_mock
unfolding mock_steps mock_step start log_call on_mock_find add_entry rotate write_entry assign
    get_query_uid new_manager is_pending remove is_find
mock_run = refl
