-- ===== src/Client/Mock.antt =====
-- The client of the mock database, src/MockDatabase/old/MockDatabaseClient.cpp, in its asynchronous
-- build. It differs from src/Client/Client.cpp in that its callbacks do not log, and in its default of
-- five rounds.
use async_rpc_fbthrift.Common.{
  ℕ, zero, suc, ◌+◌, ◌-◌, ◌/◌, Bool, if◌then◌else◌, ltb, List, [], ◌∷◌, Option, none, some, ◌>>=◌,
  ◌≡◌, refl, true, false, ◌∙◌, sym, arith, get_elem?, Text, ℤ, pos, negsuc, Bool-cases,
  Option-cases, inl, inr, ap,
}
use async_rpc_fbthrift.Stats.Manager.{add_entry}
use async_rpc_fbthrift.Stats.Retention.{Entry, add_entries}
use async_rpc_fbthrift.Uid.Make.{get_query_uid}
use async_rpc_fbthrift.Client.Main.{
  Client, Run, Event, calls, replies, errors, is_find, is_pending, remove, log_call, Summary,
}

-- `iterations` from `argv`.
unfoldable pub read_mock_iterations : (Text → Option ℤ) → List Text → Option ℕ
read_mock_iterations stoi argv = given (get_elem? argv 1)
  where
    positive : ℤ → ℕ
    positive (pos zero) = 5
    positive (pos (suc n)) = suc n
    positive (negsuc n) = 5

    given : Option Text → Option ℕ
    given none = some 5
    given (some arg) = stoi arg >>= λ z. some (positive z)

-- `onFindReply` and `onStoreReply`.
unfoldable pub on_mock_find : Client → Client
on_mock_find c = record c { find_success_counter = c.find_success_counter + 1 }

unfoldable pub on_mock_store : Client → Client
on_mock_store c = record c { send_success_counter = c.send_success_counter + 1 }

-- One event of the loop over the calls and of the callbacks.
unfoldable pub mock_step : ℕ → ℕ → Event → Run → Option Run
unfolding log_call on_mock_find on_mock_store is_pending remove is_find
mock_step iterations client_uid (calls time) s =
    if ltb s.next iterations
    then (log_call client_uid s.next time s.client >>= λ c.
        some (record { client = c; next = s.next + 1; pending = s.next ∷ s.pending }))
    else none
mock_step iterations client_uid (replies i time r) s =
    if is_pending i s.pending
    then some (record s {
      client = if is_find i then on_mock_find s.client else on_mock_store s.client;
      pending = remove i s.pending;
    })
    else none
mock_step iterations client_uid (errors i) s =
    if is_pending i s.pending then some (record s { pending = remove i s.pending }) else none

unfoldable pub mock_steps : ℕ → ℕ → List Event → Run → Option Run
mock_steps iterations client_uid [] s = some s
mock_steps iterations client_uid (e ∷ es) s =
    mock_step iterations client_uid e s >>= λ s'. mock_steps iterations client_uid es s'

-- The entries of the calls among the events, from round i on.
pub call_entries : ℕ → ℕ → List Event → List Entry
call_entries client_uid i [] = []
call_entries client_uid i (calls time ∷ es) =
    (get_query_uid client_uid i, time) ∷ call_entries client_uid (i + 1) es
call_entries client_uid i (replies j time r ∷ es) = call_entries client_uid i es
call_entries client_uid i (errors j ∷ es) = call_entries client_uid i es

-- What is undefined has no result.
no_result : {A B : Type 0} (o : Option A) {a : A} → o ≡ none → o ≡ some a → B
no_result o undefined result = absurd (ground (arith, undefined, result))

-- The calls, and only they, are logged, in their order and with the identifiers of their rounds: the log
-- of the mock database's client behind any course of events is what the entries of the calls make of
-- the log before it.
pub mock_steps-call_entries :
    (iterations uid : ℕ) (es : List Event) (s s' : Run)
    → mock_steps iterations uid es s ≡ some s'
    → add_entries (s.client.client_stat_manager) (call_entries uid s.next es)
      ≡ some (s'.client.client_stat_manager)
unfolding mock_steps mock_step log_call call_entries add_entries on_mock_find on_mock_store
mock_steps-call_entries iterations uid [] s s' h =
    ap (λ o. o >>= λ (x : Run). some (x.client.client_stat_manager)) h
mock_steps-call_entries iterations uid (calls time ∷ es) s s' h =
    elim (Bool-cases (ltb s.next iterations)) [
      | inl room ↦
          elim (Option-cases
            (add_entry s.client.client_stat_manager (get_query_uid uid s.next) time)) [
              | inl undefined ↦ no_result _ (rw (room, undefined) refl) h
              | inr (m, e) ↦ rw e (
                  mock_steps-call_entries iterations uid es
                    (record {
                      client = record (s.client) { client_stat_manager = m };
                      next = s.next + 1;
                      pending = s.next ∷ s.pending;
                    })
                    s' (sym (rw (room, e) refl) ∙ h))
            ]
      | inr over ↦ no_result _ (rw over refl) h
    ]
mock_steps-call_entries iterations uid (replies i time r ∷ es) s s' h =
    elim (Bool-cases (is_pending i s.pending)) [
      | inl waits ↦
          same_log (is_find i) s.client
          ∙ mock_steps-call_entries iterations uid es
              (record s {
                client = if is_find i then on_mock_find s.client else on_mock_store s.client;
                pending = remove i s.pending;
              })
              s' (sym (rw waits refl) ∙ h)
      | inr not_there ↦ no_result _ (rw not_there refl) h
    ]
  where
    same_log :
        (find : Bool) (c : Client)
        → add_entries c.client_stat_manager (call_entries uid s.next es)
          ≡ add_entries
              ((if find then on_mock_find c else on_mock_store c).client_stat_manager)
              (call_entries uid s.next es)
    same_log true c = refl
    same_log false c = refl
mock_steps-call_entries iterations uid (errors i ∷ es) s s' h =
    elim (Bool-cases (is_pending i s.pending)) [
      | inl waits ↦
          mock_steps-call_entries iterations uid es (record s { pending = remove i s.pending }) s'
            (sym (rw waits refl) ∙ h)
      | inr not_there ↦ no_result _ (rw not_there refl) h
    ]

-- `client_summary` of this client.
unfoldable pub mock_summary : Client → ℕ → Summary
mock_summary c iterations = record {
  send_successes = c.send_success_counter;
  send_iterations = iterations - iterations / 2;
  find_successes = c.find_success_counter;
  find_iterations = iterations / 2;
}
