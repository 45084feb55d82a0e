-- ===== src/Client/Successes.antt =====
-- The calls of the two kinds and their successes.
use async_rpc_fbthrift.Common.{
  ℕ, ◌+◌, ◌-◌, ◌/◌, Bool, true, false, not, List, [], ◌∷◌, some, ◌≡◌, refl, ap, inl, inr, arith,
  Bool-cases, ◌∙◌, u64_of_i64,
}
use async_rpc_fbthrift.Stats.Manager.{Manager}
use async_rpc_fbthrift.Stats.Invariant.{add_entry-Added}
use async_rpc_fbthrift.Stats.Shape.{IsValid}
use async_rpc_fbthrift.Uid.Make.{get_query_uid}
use async_rpc_fbthrift.Client.Main.{
  Client, is_find, Response, on_find_reply, on_send_reply, on_reply, log_call, start,
  client_summary,
}

unfoldable pub one_if : Bool → ℕ
one_if true = 1
one_if false = 0

-- Round i is a call of the kind: true for `find_last_message`, false for `send_message`.
unfoldable pub is_kind : Bool → ℕ → Bool
is_kind true i = is_find i
is_kind false i = not (is_find i)

unfoldable pub pending_of : Bool → List ℕ → ℕ
pending_of kind [] = 0
pending_of kind (j ∷ js) = one_if (is_kind kind j) + pending_of kind js

unfoldable pub successes : Bool → Client → ℕ
successes true c = c.find_success_counter
successes false c = c.send_success_counter

-- How many of the first n rounds are of the kind.
unfoldable pub issued : Bool → ℕ → ℕ
issued true n = n / 2
issued false n = n - n / 2

pub issued-suc :
    (kind : Bool) (n : ℕ) → issued kind (n + 1) ≡ issued kind n + one_if (is_kind kind n)
unfolding issued one_if is_kind is_find
issued-suc true n = ground arith
issued-suc false n = ground arith

-- Every call of the first n rounds was a success.
pub client_summary-issued :
    (c : Client) (n : ℕ)
    → ((kind : Bool) → successes kind c ≡ issued kind n)
    → client_summary c n ≡ record {
      send_successes = n - n / 2;
      send_iterations = n - n / 2;
      find_successes = n / 2;
      find_iterations = n / 2;
    }
unfolding client_summary successes issued
client_summary-issued c n counted =
    ap
      (λ k. record {
        send_successes = k;
        send_iterations = n - n / 2;
        find_successes = c.find_success_counter;
        find_iterations = n / 2;
      })
      (counted false)
    ∙ ap
        (λ k. record {
          send_successes = n - n / 2;
          send_iterations = n - n / 2;
          find_successes = k;
          find_iterations = n / 2;
        })
        (counted true)

pub start-issued : (kind : Bool) (m : Manager) → successes kind (start m).client ≡ issued kind 0
unfolding start successes issued
start-issued true m = refl
start-issued false m = refl

pub log_call-successes :
    (uid i time : ℕ) (c : Client)
    → IsValid c.client_stat_manager
    → (c' : Client) × (log_call uid i time c ≡ some c')
      × IsValid c'.client_stat_manager
      × ((kind : Bool) → successes kind c' ≡ successes kind c)
unfolding log_call successes
log_call-successes uid i time c v =
    let (m, e, a) = add_entry-Added c.client_stat_manager (get_query_uid uid i) time v in
    (record c { client_stat_manager = m }, rw e refl, a.valid, λ kind. ground arith)

pub on_reply-successes :
    (i time : ℕ) (r : Response) (c : Client)
    → IsValid c.client_stat_manager
    → (c' : Client) × (on_reply i time r c ≡ some c')
      × IsValid c'.client_stat_manager
      × ((kind : Bool) → successes kind c' ≡ successes kind c + one_if (is_kind kind i))
unfolding on_reply on_find_reply on_send_reply successes is_kind one_if
on_reply-successes i time r c v =
    let (m, e, a) = add_entry-Added c.client_stat_manager (u64_of_i64 r.query_uid) time v in
    elim (Bool-cases (is_find i)) [
      | inl find ↦ (
        record c { find_success_counter = c.find_success_counter + 1; client_stat_manager = m },
        rw (find, e) refl,
        a.valid,
        λ kind. ground (arith, find),
      )
      | inr send ↦ (
        record c { send_success_counter = c.send_success_counter + 1; client_stat_manager = m },
        rw (send, e) refl,
        a.valid,
        λ kind. ground (arith, send),
      )
    ]
