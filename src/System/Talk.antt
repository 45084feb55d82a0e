-- ===== src/System/Talk.antt =====
-- The client in one round: its two entries and its counters.
use async_rpc_fbthrift.Common.{
  ℕ, ◌+◌, Bool, Bool-cases, List, [], ◌∷◌, some, u64_of_i64, ◌≡◌, ap, subst, ◌∙◌, inl, inr,
  bind-some, some_inj,
}
use async_rpc_fbthrift.Stats.Manager.{add_entry}
use async_rpc_fbthrift.Stats.Shape.{IsValid}
use async_rpc_fbthrift.Stats.Retention.{Entry, add_entries}
use async_rpc_fbthrift.Uid.Make.{get_query_uid}
use async_rpc_fbthrift.Message.Visits.{two_entries}
use async_rpc_fbthrift.Client.Main.{
  Client, Response, is_find, log_call, on_reply, on_find_reply, on_send_reply,
}
use async_rpc_fbthrift.Client.Successes.{
  log_call-successes, on_reply-successes, successes, one_if, is_kind,
}

-- The client behind a round.
pub record Talked (i : ℕ) (c c' : Client) (entries : List Entry) : Type 0 where
  pub valid : IsValid c'.client_stat_manager
  pub log : add_entries c.client_stat_manager entries ≡ some c'.client_stat_manager
  pub counted : (kind : Bool) → successes kind c' ≡ successes kind c + one_if (is_kind kind i)

pub log_call-logs :
    (uid i time : ℕ) (c c' : Client)
    → log_call uid i time c ≡ some c'
    → add_entry c.client_stat_manager (get_query_uid uid i) time ≡ some c'.client_stat_manager
unfolding log_call
log_call-logs uid i time c c' h =
    let (m, e, last) = bind-some (add_entry c.client_stat_manager (get_query_uid uid i) time) _ h in
    e ∙ ap (λ (x : Client). some x.client_stat_manager) (some_inj last)

pub on_reply-logs :
    (i time : ℕ) (r : Response) (c c' : Client)
    → on_reply i time r c ≡ some c'
    → add_entry c.client_stat_manager (u64_of_i64 r.query_uid) time ≡ some c'.client_stat_manager
unfolding on_reply on_find_reply on_send_reply
on_reply-logs i time r c c' h = elim (Bool-cases (is_find i)) [
  | inl find ↦
      let (m, e, last) =
        bind-some (add_entry c.client_stat_manager (u64_of_i64 r.query_uid) time) _
          (rw find at h) in
      e ∙ ap (λ (x : Client). some x.client_stat_manager) (some_inj last)
  | inr send ↦
      let (m, e, last) =
        bind-some (add_entry c.client_stat_manager (u64_of_i64 r.query_uid) time) _
          (rw send at h) in
      e ∙ ap (λ (x : Client). some x.client_stat_manager) (some_inj last)
]

-- A call that is answered with r is logged twice and counted.
pub client_round :
    (uid i call_time reply_time : ℕ) (r : Response) (c : Client)
    → IsValid c.client_stat_manager
    → u64_of_i64 r.query_uid ≡ get_query_uid uid i
    → (c₁ c₂ : Client) × (log_call uid i call_time c ≡ some c₁)
      × (on_reply i reply_time r c₁ ≡ some c₂)
      × Talked i c c₂ ((get_query_uid uid i, call_time) ∷ (get_query_uid uid i, reply_time) ∷ [])
client_round uid i call_time reply_time r c v same =
    let (c₁, e₁, v₁, kept) = log_call-successes uid i call_time c v in
    let (c₂, e₂, v₂, more) = on_reply-successes i reply_time r c₁ v₁ in
    let second =
      subst (λ q. add_entry c₁.client_stat_manager q reply_time ≡ some c₂.client_stat_manager) same
        (on_reply-logs i reply_time r c₁ c₂ e₂) in
    (
      c₁,
      c₂,
      e₁,
      e₂,
      record {
        valid = v₂;
        log =
            two_entries c.client_stat_manager c₁.client_stat_manager c₂.client_stat_manager _ _ _
              (log_call-logs uid i call_time c c₁ e₁) second;
        counted = λ kind. more kind ∙ ap (λ n. n + one_if (is_kind kind i)) (kept kind);
      },
    )
