-- ===== src/Client/Progress.antt =====
-- The asynchronous client can always get to its end.
use async_rpc_fbthrift.Common.{
  ℕ, zero, suc, ◌+◌, ◌-◌, true, ◌==◌, List, [], ◌∷◌, ◌++◌, some, ◌>>=◌, ◌≡◌, refl, ap, arith, ◌∙◌,
  ==_iff, lt→ltb, Option-cases, inl, inr,
}
use async_rpc_fbthrift.Stats.Manager.{Manager}
use async_rpc_fbthrift.Stats.Shape.{IsValid}
use async_rpc_fbthrift.Client.Main.{
  Client, Run, is_pending, remove, is_empty, Event, calls, errors, step, steps, start, is_finished,
}
use async_rpc_fbthrift.Client.Laws.{run_so_far}
use async_rpc_fbthrift.Client.Successes.{log_call-successes}

pub steps-append :
    (iterations uid : ℕ) (es es' : List Event) (s : Run)
    → steps iterations uid (es ++ es') s
      ≡ (steps iterations uid es s >>= λ s'. steps iterations uid es' s')
unfolding steps
steps-append iterations uid [] es' s = refl
steps-append iterations uid (e ∷ es) es' s = elim (Option-cases (step iterations uid e s)) [
  | inl nothing ↦ rw nothing refl
  | inr (s₁, e₁) ↦ rw e₁ (steps-append iterations uid es es' s₁)
]

-- Every waiting call can end, here with an exception.
drain :
    (iterations uid : ℕ) (c : Client) (n : ℕ) (js : List ℕ)
    → (es : List Event) × (steps iterations uid es (record { client = c; next = n; pending = js })
        ≡ some (record { client = c; next = n; pending = [] }))
unfolding steps step is_pending remove
drain iterations uid c n [] = ([], refl)
drain iterations uid c n (j ∷ js) =
    let (es, ran) = drain iterations uid c n js in
    let self : (j == j) ≡ true = (==_iff j j).1 refl in (errors j ∷ es, rw self ran)

-- Every round that is left can start its call.
fill :
    (iterations uid k : ℕ) (c : Client) (n : ℕ) (js : List ℕ)
    → IsValid c.client_stat_manager
    → n + k ≡ iterations
    → (es : List Event) × (c' : Client) × (js' : List ℕ) × (steps iterations uid es
          (record { client = c; next = n; pending = js })
        ≡ some (record { client = c'; next = iterations; pending = js' }))
unfolding steps step
fill iterations uid zero c n js v h =
    ([], c, js, ap (λ n. some (record { client = c; next = n; pending = js })) (omega arith))
fill iterations uid (suc k) c n js v h =
    let (c₁, e₁, v₁, same) = log_call-successes uid n 0 c v in
    let (es, c₂, js₂, ran) = fill iterations uid k c₁ (n + 1) (n ∷ js) v₁ (omega arith) in
    (calls 0 ∷ es, c₂, js₂, rw (lt→ltb n iterations (omega arith), e₁) ran)

-- From every state that an asynchronous client with a well-formed log can reach, some course of events
-- brings it to its end, where every round is over and no call waits.
pub steps-is_finished :
    (iterations uid : ℕ) (es : List Event) (m : Manager) (s : Run)
    → IsValid m
    → steps iterations uid es (start m) ≡ some s
    → (es' : List Event) × (s' : Run) × (steps iterations uid (es ++ es') (start m) ≡ some s')
      × (is_finished iterations s' ≡ true)
unfolding is_finished is_empty
steps-is_finished iterations uid es m s v h =
    let (valid, bounded) = run_so_far iterations uid es m s v h in
    let (es₁, c₁, js₁, ran₁) =
      fill iterations uid (iterations - s.next) s.client s.next s.pending valid
        (omega (arith, bounded)) in
    let (es₂, ran₂) = drain iterations uid c₁ iterations js₁ in
    let self : (iterations == iterations) ≡ true = (==_iff iterations iterations).1 refl in
    (
      es₁ ++ es₂,
      record { client = c₁; next = iterations; pending = [] },
      steps-append iterations uid es (es₁ ++ es₂) (start m)
          ∙ rw h (steps-append iterations uid es₁ es₂ s ∙ rw ran₁ ran₂),
      rw self refl,
    )
