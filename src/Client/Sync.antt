-- ===== src/Client/Sync.antt =====
-- The synchronous client is one course of the asynchronous one.
use async_rpc_fbthrift.Common.{
  ℕ, zero, suc, ◌+◌, ◌<◌, true, ◌==◌, List, [], ◌∷◌, some, ◌>>=◌, ◌≡◌, refl, ap, arith,
  bind-defined, ◌∙◌, ==_iff, lt→ltb,
}
use async_rpc_fbthrift.Stats.Manager.{Manager}
use async_rpc_fbthrift.Stats.Shape.{IsValid}
use async_rpc_fbthrift.Rpc.{value}
use async_rpc_fbthrift.Client.Main.{
  Client, Response, on_reply, log_call, is_pending, remove, Event, calls, replies, step, steps,
  start, sync_loop,
}
use async_rpc_fbthrift.Client.Successes.{log_call-successes, on_reply-successes}

-- A synchronous round is a call and its reply in the asynchronous build.
sync_round :
    (iterations uid i call_time reply_time : ℕ) (r : Response) (c : Client)
    → IsValid c.client_stat_manager
    → i < iterations
    → (c' : Client) × IsValid c'.client_stat_manager
      × ((log_call uid i call_time c >>= λ c₁. on_reply i reply_time r c₁) ≡ some c')
      × ((es : List Event)
          → steps iterations uid
              (calls call_time ∷ replies i reply_time r ∷ es)
              (record { client = c; next = i; pending = [] })
            ≡ steps iterations uid es (record { client = c'; next = i + 1; pending = [] }))
unfolding steps step is_pending remove
sync_round iterations uid i call_time reply_time r c v h =
    let (c₁, e₁, v₁, same₁) = log_call-successes uid i call_time c v in
    let (c₂, e₂, v₂, same₂) = on_reply-successes i reply_time r c₁ v₁ in
    let self : (i == i) ≡ true = (==_iff i i).1 refl in
    (c₂, v₂, rw e₁ e₂, λ es. rw (lt→ltb i iterations h, e₁, self, e₂) refl)

-- The events of the synchronous rounds from i on.
pub sync_events : ℕ → ℕ → (ℕ → ℕ) → (ℕ → ℕ) → (ℕ → Response) → List Event
sync_events zero i call_time reply_time reply = []
sync_events (suc rounds) i call_time reply_time reply =
    calls (call_time i)
    ∷ replies i (reply_time i) (reply i)
    ∷ sync_events rounds (i + 1) call_time reply_time reply

sync_loop-steps_from :
    (rounds iterations uid i : ℕ) (call_time reply_time : ℕ → ℕ) (reply : ℕ → Response) (c : Client)
    → IsValid c.client_stat_manager
    → i + rounds ≡ iterations
    → (c' : Client) × (sync_loop rounds uid i call_time reply_time (λ j. value (reply j)) c
        ≡ some (value c'))
      × (steps iterations uid
            (sync_events rounds i call_time reply_time reply)
            (record { client = c; next = i; pending = [] })
          ≡ some (record { client = c'; next = iterations; pending = [] }))
unfolding sync_loop steps sync_events
sync_loop-steps_from zero iterations uid i call_time reply_time reply c v h =
    (c, refl, ap (λ n. some (record { client = c; next = n; pending = [] })) (omega arith))
sync_loop-steps_from (suc rounds) iterations uid i call_time reply_time reply c v h =
    let (c₁, v₁, e₁, round) =
      sync_round iterations uid i (call_time i) (reply_time i) (reply i) c v (omega arith) in
    let (c₂, e₂, rest) =
      sync_loop-steps_from rounds iterations uid (i + 1) call_time reply_time reply c₁ v₁
        (omega arith) in
    (
      c₂,
      bind-defined (log_call uid i (call_time i) c) (on_reply i (reply_time i) (reply i)) _ c₁ e₁
          ∙ e₂,
      round _ ∙ rest,
    )

-- The synchronous client, with a well-formed log and no failed call, runs through all its rounds. It
-- does what the asynchronous one does when each reply comes in before the next call, and ends with
-- the same counters and the same log.
pub sync_loop-steps :
    (iterations uid : ℕ) (call_time reply_time : ℕ → ℕ) (reply : ℕ → Response) (m : Manager)
    → IsValid m
    → (c : Client) × (sync_loop iterations uid 0 call_time reply_time
          (λ j. value (reply j))
          ((start m).client)
        ≡ some (value c))
      × (steps iterations uid (sync_events iterations 0 call_time reply_time reply) (start m)
          ≡ some (record { client = c; next = iterations; pending = [] }))
unfolding start
sync_loop-steps iterations uid call_time reply_time reply m v =
    sync_loop-steps_from iterations iterations uid 0 call_time reply_time reply _ v (omega arith)
