-- ===== src/System/Flight/Steps.antt =====
-- What the services see of the client is what the client does by itself.
use async_rpc_fbthrift.Common.{
  ℕ, Bool-cases, List, [], ◌∷◌, ◌++◌, some, Text, i64_of_u64, ◌≡◌, ap, ◌∙◌, inl, inr, arith,
  bind-some, some_inj,
}
use async_rpc_fbthrift.Stats.Manager.{Manager}
use async_rpc_fbthrift.Uid.Make.{get_query_uid}
use async_rpc_fbthrift.Message.Handler.{Board}
use async_rpc_fbthrift.Client.Main.{Event, calls, is_pending, step, steps, start}
use async_rpc_fbthrift.Client.Progress.{steps-append}
use async_rpc_fbthrift.System.Converse.{call}
use async_rpc_fbthrift.System.Flight.{
  Flight, Move, sends, serves, receives, reply_to, event_of, move, fly, take_off,
}

module _ (iterations uid : ℕ) (client_id message : Text) where
  -- A move is at most one event of the client.
  move-step :
      (mv : Move) (f f' : Flight)
      → move iterations uid client_id message mv f ≡ some f'
      → (es : List Event) × (steps iterations uid es f.run ≡ some f'.run)
  unfolding move steps
  move-step (sends time) f f' h =
      let (run, e, last) = bind-some (step iterations uid (calls time) f.run) _ h in
      (calls time ∷ [], rw e (ap (λ (x : Flight). some x.run) (some_inj last)))
  move-step (serves i p) f f' h = elim (Bool-cases (is_pending i f.sent)) [
    | inl waits ↦
        let (out, e, last) =
          bind-some (call p client_id message i (i64_of_u64 (get_query_uid uid i)) f.board) _
            (rw waits at h) in
        ([], ap (λ (x : Flight). some x.run) (some_inj last))
    | inr served ↦ absurd (ground (arith, h, served))
  ]
  move-step (receives i time) f f' h =
      let (r, e, rest) = bind-some (reply_to i f.answers) _ h in
      let (run, e', last) = bind-some (step iterations uid (event_of i time r) f.run) _ rest in
      (event_of i time r ∷ [], rw e' (ap (λ (x : Flight). some x.run) (some_inj last)))

  -- Every course of the client with the services is a course of the client alone, in which the
  -- environment answers as the services do.
  pub fly-steps :
      (past : List Move) (m : Manager) (b : Board) (f : Flight)
      → fly iterations uid client_id message past (take_off m b) ≡ some f
      → (es : List Event) × (steps iterations uid es (start m) ≡ some f.run)
  unfolding fly take_off steps
  fly-steps [] m b f h = ([], ap (λ (x : Flight). some x.run) (some_inj h))
  fly-steps (mv ∷ past) m b f h =
      let (f₁, e₁, last) =
        bind-some (fly iterations uid client_id message past (take_off m b)) _ h in
      let (es, ran) = fly-steps past m b f₁ e₁ in
      let (es', ran') = move-step mv f₁ f last in
      (es ++ es', steps-append iterations uid es es' (start m) ∙ rw ran ran')
