-- ===== src/System/Flight/Safety.antt =====
-- What the asynchronous client can print, whatever gets lost.
use async_rpc_fbthrift.Common.{
  ℕ, Bool, true, false, List, [], ◌∷◌, some, Text, All, All-map, ◌≡◌, refl, subst, bind-some,
  some_inj,
}
use async_rpc_fbthrift.Stats.Manager.{Manager}
use async_rpc_fbthrift.Stats.Shape.{IsValid}
use async_rpc_fbthrift.Sanitize.Laws.{view}
use async_rpc_fbthrift.Message.Handler.{Board}
use async_rpc_fbthrift.Message.Laws.{IsBoard}
use async_rpc_fbthrift.Client.Successes.{successes}
use async_rpc_fbthrift.System.Flight.{Flight, Move, fly, take_off}
use async_rpc_fbthrift.System.Flight.Serve.{held_if}
use async_rpc_fbthrift.System.Flight.Tracks.{printed_of}
use async_rpc_fbthrift.System.Flight.Order.{handled_send}
use async_rpc_fbthrift.System.Flight.Laws.{fly-IsFlight}
use async_rpc_fbthrift.System.Flight.Safe.{CanGet, PrintCan, IsSafe, move-IsSafe}

module _ (iterations uid : ℕ) (client_id message : Text) (m : Manager) (b : Board) (v : IsValid m)
    (vb : IsBoard b) where
  fly-IsSafe :
      (past : List Move) (f : Flight)
      → fly iterations uid client_id message past (take_off m b) ≡ some f
      → IsSafe uid client_id message (view b.backend.database client_id) past f
  unfolding fly take_off handled_send
  fly-IsSafe [] f h =
      subst (IsSafe uid client_id message (view b.backend.database client_id) []) (some_inj h)
        (record { handled = false; holds = refl; by_send = λ e. e; answers = tt; printed = tt })
  fly-IsSafe (mv ∷ past) f h =
      let (f₁, e₁, last) =
        bind-some (fly iterations uid client_id message past (take_off m b)) _ h in
      move-IsSafe uid client_id message (view b.backend.database client_id) iterations past f₁
        (fly-IsFlight iterations uid client_id message m b v vb past f₁ e₁) (fly-IsSafe past f₁ e₁)
        mv f last

  -- The asynchronous client, whose log is well formed, against the three services, whose logs are
  -- well formed, in any course of moves, whatever gets lost on the way. Its counters are the numbers
  -- of the responses that its callbacks printed. Each of these carries the query's own identifier;
  -- that of a `send_message` says whether the message is accepted; and that of a `find_last_message`
  -- has what the database held for the client at the start, or the warning, or, only if a
  -- `send_message` was handled before this call and the message is not refused, the message. The
  -- database holds one of the same two, the message only if a `send_message` was handled.
  pub fly-safe :
      (past : List Move) (f : Flight)
      → fly iterations uid client_id message past (take_off m b) ≡ some f
      → let before = view b.backend.database client_id in
        ((kind : Bool) → successes kind f.run.client ≡ printed_of kind f.printed)
        × All (λ a. CanGet uid client_id message before past a.0 a.1) f.printed
        × ((handled : Bool) × (view f.board.backend.database client_id
              ≡ held_if handled message before)
            × (handled ≡ true → handled_send past ≡ true))
  fly-safe past f h =
      let s = fly-IsSafe past f h in
      let w = fly-IsFlight iterations uid client_id message m b v vb past f h in
      (
        w.counted,
        All-map (PrintCan uid client_id message (view b.backend.database client_id) past) _
            f.printed (λ a q. q.1) s.printed,
        (s.handled, s.holds, s.by_send),
      )
