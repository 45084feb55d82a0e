-- ===== src/System/Journal.antt =====
-- The entries of consecutive rounds in the logs, and their responses.
use async_rpc_fbthrift.Common.{
  ℕ, zero, suc, ◌+◌, Bool-cases, List, [], ◌∷◌, ◌++◌, Option, some, Text, ℤ, ◌≡◌, refl, ◌∙◌, inl,
  inr,
}
use async_rpc_fbthrift.Stats.Manager.{Manager}
use async_rpc_fbthrift.Stats.Retention.{Entry, add_entries, add_entries-append}
use async_rpc_fbthrift.Message.Handler.{Board}
use async_rpc_fbthrift.Message.Logs.{Logged}
use async_rpc_fbthrift.Client.Main.{Response, is_find}
use async_rpc_fbthrift.System.Rounds.{answer}

-- The entries and the responses of n rounds from round i on.
unfoldable pub rounds_of : (ℕ → List Entry) → ℕ → ℕ → List Entry
rounds_of entries zero i = []
rounds_of entries (suc n) i = entries i ++ rounds_of entries n (i + 1)

unfoldable pub answers_of : (ℕ → Response) → ℕ → ℕ → List Response
answers_of response zero i = []
answers_of response (suc n) i = response i ∷ answers_of response n (i + 1)

pub add_entries-both :
    (m m₁ m₂ : Manager) (xs ys : List Entry)
    → add_entries m xs ≡ some m₁
    → add_entries m₁ ys ≡ some m₂
    → add_entries m (xs ++ ys) ≡ some m₂
add_entries-both m m₁ m₂ xs ys e₁ e₂ = add_entries-append m m₁ xs ys e₁ ∙ e₂

pub Logged-append :
    (b b₁ b₂ : Board) (s d e s' d' e' : List Entry)
    → Logged b b₁ s d e
    → Logged b₁ b₂ s' d' e'
    → Logged b b₂ (s ++ s') (d ++ d') (e ++ e')
Logged-append b b₁ b₂ s d e s' d' e' l l' = record {
  service_log = add_entries-both _ _ _ s s' l.service_log l'.service_log;
  sanitizer_log = add_entries-both _ _ _ d d' l.sanitizer_log l'.sanitizer_log;
  database_log = add_entries-both _ _ _ e e' l.database_log l'.database_log;
}

pub answer-query_uid :
    (client_id message : Text) (before : Option Text) (i : ℕ) (uid : ℤ)
    → (answer client_id message before i uid).query_uid ≡ uid
answer-query_uid client_id message before i uid = elim (Bool-cases (is_find i)) [
  | inl find ↦ rw find refl
  | inr send ↦ rw send refl
]
