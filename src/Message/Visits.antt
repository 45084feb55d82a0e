-- ===== src/Message/Visits.antt =====
-- The entries that a call leaves in the logs of the services.
use async_rpc_fbthrift.Common.{
  ℕ, Bool, true, false, ◌&&◌, ◌||◌, not, some, List, [], ◌∷◌, Text, ℤ, u64_of_i64, ◌≡◌,
}
use async_rpc_fbthrift.Stats.Manager.{Manager, add_entry}
use async_rpc_fbthrift.Stats.Retention.{Entry, add_entries}
use async_rpc_fbthrift.Rpc.{
  Reply, value, failed, Delivery, delivered, request_lost, reply_lost, Times,
}
use async_rpc_fbthrift.Sanitize.Laws.{is_refused, reaches}
use async_rpc_fbthrift.Message.Handler.{Course}
use async_rpc_fbthrift.Message.Laws.{is_stored}

unfoldable pub is_value {ℓ} : {R : Type ℓ} → Reply R → Bool
is_value (value r) = true
is_value failed = false

-- The entry of a call's departure, for the calls that reach it.
abbrev pub departure_if : Bool → ℤ → Times → List Entry
departure_if true uid t = (u64_of_i64 uid, t.departure) ∷ []
departure_if false uid t = []

-- The entries of a call: its arrival and, for some, its departure.
abbrev pub visit_if : Bool → ℤ → Times → List Entry
visit_if left uid t = (u64_of_i64 uid, t.arrival) ∷ departure_if left uid t

abbrev pub visit_or_none : Bool → ℤ → Times → List Entry
visit_or_none true uid t = visit_if true uid t
visit_or_none false uid t = []

pub two_entries :
    (m m₁ m₂ : Manager) (q t t' : ℕ)
    → add_entry m q t ≡ some m₁
    → add_entry m₁ q t' ≡ some m₂
    → add_entries m ((q, t) ∷ (q, t') ∷ []) ≡ some m₂
unfolding add_entries
two_entries m m₁ m₂ q t t' e₁ e₂ = rw (e₁, e₂)

pub add_then :
    (m m₁ m₂ : Manager) (q t : ℕ) (es : List Entry)
    → add_entry m q t ≡ some m₁
    → add_entries m₁ es ≡ some m₂
    → add_entries m ((q, t) ∷ es) ≡ some m₂
unfolding add_entries
add_then m m₁ m₂ q t es e₁ e₂ = rw e₁ e₂

abbrev pub is_delivered : Delivery → Bool
is_delivered delivered = true
is_delivered request_lost = false
is_delivered reply_lost = false

abbrev pub entries_if : Bool → List Entry → List Entry
entries_if true es = es
entries_if false es = []

-- What a `send_message` leaves in the three logs.
abbrev pub service_entries : Text → ℤ → Course → List Entry
service_entries message uid c =
    visit_if (is_delivered c.to_sanit && (is_refused message || is_delivered c.to_mock)) uid c.times

abbrev pub sanitizer_entries : Text → ℤ → Course → List Entry
sanitizer_entries message uid c =
    entries_if (reaches c.to_sanit)
      (visit_if (not (is_refused message) && is_delivered c.to_mock) uid c.sanit_times)

abbrev pub database_entries : Text → ℤ → Course → List Entry
database_entries message uid c = visit_or_none (is_stored message c) uid c.mock_times
