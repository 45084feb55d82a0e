-- ===== src/Client/Laws.antt =====
-- The counters of the client against its calls.
use async_rpc_fbthrift.Common.{
  ℕ, ◌+◌, ◌≤◌, Bool, true, false, ltb, ◌==◌, List, [], ◌∷◌, none, some, ◌≡◌, refl, ap, subst, inl,
  inr, arith, Bool-cases, ◌∙◌, sym, ==_iff,
}
use async_rpc_fbthrift.Stats.Manager.{Manager}
use async_rpc_fbthrift.Stats.Shape.{IsValid}
use async_rpc_fbthrift.Client.Main.{
  Run, is_pending, remove, Event, calls, replies, errors, step, steps, start, is_finished, is_empty,
  client_summary,
}
use async_rpc_fbthrift.Client.Successes.{
  one_if, is_kind, pending_of, successes, issued, issued-suc, log_call-successes,
  on_reply-successes,
}

-- How many calls of the kind end with an exception.
pub errors_of : Bool → List Event → ℕ
errors_of kind [] = 0
errors_of kind (calls time ∷ es) = errors_of kind es
errors_of kind (replies i time r ∷ es) = errors_of kind es
errors_of kind (errors i ∷ es) = one_if (is_kind kind i) + errors_of kind es

pub pending_of-remove :
    (kind : Bool) (i : ℕ) (js : List ℕ)
    → is_pending i js ≡ true
    → pending_of kind js ≡ pending_of kind (remove i js) + one_if (is_kind kind i)
unfolding pending_of is_pending remove
pending_of-remove kind i [] h = absurd (ground arith)
pending_of-remove kind i (j ∷ js) h = elim (Bool-cases (i == j)) [
  | inl same ↦ rw same (omega (arith, ap (λ k. one_if (is_kind kind k)) ((==_iff i j).0 same)))
  | inr other ↦ rw other (omega (arith, pending_of-remove kind i js (ground (arith, h, other))))
]

-- The successes, the waiting calls and f errors are all calls of the kind so far.
Balanced : Bool → Run → ℕ → Type 0
Balanced kind s f = successes kind s.client + pending_of kind s.pending + f ≡ issued kind s.next

-- A run so far, where f counts the errors.
record IsRun (iterations : ℕ) (s : Run) (f : Bool → ℕ) : Type 0 where
  valid : IsValid s.client.client_stat_manager
  balanced : (kind : Bool) → Balanced kind s (f kind)
  bounded : s.next ≤ iterations

-- Whether an event can happen.
pub is_enabled : ℕ → Event → Run → Bool
is_enabled iterations (calls time) s = ltb s.next iterations
is_enabled iterations (replies i time r) s = is_pending i s.pending
is_enabled iterations (errors i) s = is_pending i s.pending

step-disabled :
    (iterations uid : ℕ) (e : Event) (s : Run)
    → is_enabled iterations e s ≡ false
    → step iterations uid e s ≡ none
unfolding step is_enabled
step-disabled iterations uid (calls time) s h = rw h refl
step-disabled iterations uid (replies i time r) s h = rw h refl
step-disabled iterations uid (errors i) s h = rw h refl

step-IsRun :
    (iterations uid : ℕ) (e : Event) (s : Run) (f : Bool → ℕ)
    → IsRun iterations s f
    → is_enabled iterations e s ≡ true
    → (s' : Run) × (step iterations uid e s ≡ some s')
      × IsRun iterations s' (λ kind. f kind + errors_of kind (e ∷ []))
unfolding step is_enabled Balanced errors_of pending_of
step-IsRun iterations uid (calls time) s f v h =
    let (c, e, valid, same) = log_call-successes uid s.next time s.client v.valid in
    (
      record { client = c; next = s.next + 1; pending = s.next ∷ s.pending },
      rw (h, e) refl,
      record {
        valid = valid;
        balanced = λ kind. omega (arith, same kind, v.balanced kind, issued-suc kind s.next);
        bounded = ground (arith, h);
      },
    )
step-IsRun iterations uid (replies i time r) s f v h =
    let (c, e, valid, one) = on_reply-successes i time r s.client v.valid in
    (
      record s { client = c; pending = remove i s.pending },
      rw (h, e) refl,
      record {
        valid = valid;
        balanced =
            λ kind. omega (arith, one kind, v.balanced kind, pending_of-remove kind i s.pending h);
        bounded = v.bounded;
      },
    )
step-IsRun iterations uid (errors i) s f v h = (
  record s { pending = remove i s.pending },
  rw h refl,
  record {
    valid = v.valid;
    balanced = λ kind. omega (arith, v.balanced kind, pending_of-remove kind i s.pending h);
    bounded = v.bounded;
  },
)

errors_of-cons :
    (kind : Bool) (e : Event) (es : List Event)
    → errors_of kind (e ∷ es) ≡ errors_of kind (e ∷ []) + errors_of kind es
unfolding errors_of
errors_of-cons kind (calls time) es = omega arith
errors_of-cons kind (replies i time r) es = omega arith
errors_of-cons kind (errors i) es = omega arith

IsRun-shift :
    (iterations : ℕ) (s : Run) (f g : Bool → ℕ)
    → ((kind : Bool) → f kind ≡ g kind)
    → IsRun iterations s f
    → IsRun iterations s g
unfolding Balanced
IsRun-shift iterations s f g same v = record {
  valid = v.valid;
  balanced = λ kind. omega (arith, v.balanced kind, same kind);
  bounded = v.bounded;
}

steps-IsRun :
    (iterations uid : ℕ) (es : List Event) (s s' : Run) (f : Bool → ℕ)
    → IsRun iterations s f
    → steps iterations uid es s ≡ some s'
    → IsRun iterations s' (λ kind. f kind + errors_of kind es)
unfolding steps errors_of
steps-IsRun iterations uid [] s s' f v h =
    let same : s ≡ s' = cc h in
    subst (λ x. IsRun iterations x (λ kind. f kind + errors_of kind [])) same
      (IsRun-shift iterations s f _ (λ kind. omega arith) v)
steps-IsRun iterations uid (e ∷ es) s s' f v h = elim (Bool-cases (is_enabled iterations e s)) [
  | inl enabled ↦
      let (s₁, e₁, v₁) = step-IsRun iterations uid e s f v enabled in
      let rest : steps iterations uid es s₁ ≡ some s' = sym (rw e₁ refl) ∙ h in
      IsRun-shift iterations s' _ _ (λ kind. omega (arith, errors_of-cons kind e es))
        (steps-IsRun iterations uid es s₁ s' _ v₁ rest)
  | inr disabled ↦
      let nothing = step-disabled iterations uid e s disabled in
      let bad : none ≡ some s' = sym (rw nothing refl) ∙ h in absurd (ground (arith, bad))
]

start-Balanced : (kind : Bool) (m : Manager) → Balanced kind (start m) 0
unfolding start Balanced successes pending_of issued
start-Balanced true m = omega arith
start-Balanced false m = omega arith

start-IsRun : (iterations : ℕ) (m : Manager) → IsValid m → IsRun iterations (start m) (λ kind. 0)
unfolding start
start-IsRun iterations m v = record {
  valid = v;
  balanced = λ kind. start-Balanced kind m;
  bounded = omega arith;
}

pub pending_of-is_empty : (kind : Bool) (js : List ℕ) → is_empty js ≡ true → pending_of kind js ≡ 0
unfolding is_empty pending_of
pending_of-is_empty kind [] h = refl
pending_of-is_empty kind (j ∷ js) h = absurd (ground arith)

-- However the replies and the exceptions come in, when the asynchronous client has collected all its
-- calls, the successes of its summary and the calls that ended with an exception are, for each of the
-- two operations, the number of calls that the summary gives for it. The client's log has to be well
-- formed at the start.
pub client_summary-steps :
    (iterations uid : ℕ) (es : List Event) (m : Manager) (s : Run)
    → IsValid m
    → steps iterations uid es (start m) ≡ some s
    → is_finished iterations s ≡ true
    → let summary = client_summary s.client iterations in
      (summary.find_successes + errors_of true es ≡ summary.find_iterations)
      × (summary.send_successes + errors_of false es ≡ summary.send_iterations)
unfolding client_summary is_finished Balanced successes issued
client_summary-steps iterations uid es m s v h finished =
    let over : s.next ≡ iterations = ground (arith, finished) in
    let run =
      steps-IsRun iterations uid es (start m) s (λ kind. 0) (start-IsRun iterations m v) h in
    let none_left : (kind : Bool) → pending_of kind s.pending ≡ 0 =
      λ kind. pending_of-is_empty kind s.pending (ground (arith, finished)) in
    (
      omega (arith, run.balanced true, none_left true, over),
      omega (arith, run.balanced false, none_left false, over),
    )

-- What holds in every state that the client reaches.
pub run_so_far :
    (iterations uid : ℕ) (es : List Event) (m : Manager) (s : Run)
    → IsValid m
    → steps iterations uid es (start m) ≡ some s
    → IsValid s.client.client_stat_manager × (s.next ≤ iterations)
run_so_far iterations uid es m s v h =
    let run =
      steps-IsRun iterations uid es (start m) s (λ kind. 0) (start-IsRun iterations m v) h in
    (run.valid, run.bounded)
