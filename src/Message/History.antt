-- ===== src/Message/History.antt =====
-- Histories of calls of the message service.
use async_rpc_fbthrift.Common.{
  ℕ, true, List, [], ◌∷◌, Option, none, some, if◌then◌else◌, ◌>>=◌, Text, text_eq, text_eq_iff, ℤ,
  ◌≡◌, refl, arith, ◌∙◌, ap, subst,
}
use async_rpc_fbthrift.Rpc.{value, Delivery, delivered, Times, Build}
use async_rpc_fbthrift.Database.Handler.{lookup, message_or_warning}
use async_rpc_fbthrift.Sanitize.Laws.{reply_of, view}
use async_rpc_fbthrift.Message.Handler.{
  StatusResponse, Board, Course, find_last_message, send_message,
}
use async_rpc_fbthrift.Message.Laws.{
  IsBoard, through, status_of, is_stored, send_message-defined, find_last_message-board,
}

-- The calls that the service gets, with what the environment chooses for each.
pub data Request : Type 0 where
  sends : Build → ℕ → Course → Text → Text → ℤ → Request
  finds : Build → Delivery → ℕ → Times → Times → Text → ℤ → Request

pub serve : Board → List Request → Option Board
serve b [] = some b
serve b (sends build tid c client message uid ∷ rs) =
    send_message build tid c client message uid b >>= λ out. serve out.1 rs
serve b (finds build d tid t t_mock client uid ∷ rs) =
    find_last_message build d tid t t_mock client uid b >>= λ out. serve out.1 rs

-- The last message of a client that got through to the database, over what was there before.
pub last_accepted : Text → Option Text → List Request → Option Text
last_accepted k before [] = before
last_accepted k before (sends build tid c client message uid ∷ rs) =
    last_accepted k
      (if is_stored message c then (if text_eq client k then some message else before) else before)
      rs
last_accepted k before (finds build d tid t t_mock client uid ∷ rs) = last_accepted k before rs

serve-last_accepted :
    (b : Board) (rs : List Request)
    → IsBoard b
    → (b' : Board) × (serve b rs ≡ some b')
      × IsBoard b'
      × ((k : Text) → view b'.backend.database k ≡ last_accepted k (view b.backend.database k) rs)
unfolding serve last_accepted
serve-last_accepted b [] v = (b, refl, v, λ k. refl)
serve-last_accepted b (sends build tid c client message uid ∷ rs) v =
    let (b₁, e₁, v₁, after) = send_message-defined build tid c client message uid b v in
    let (b₂, e₂, v₂, rest) = serve-last_accepted b₁ rs v₁ in
    (b₂, rw e₁ e₂, v₂, λ k. rest k ∙ ap (λ before. last_accepted k before rs) (after k))
serve-last_accepted b (finds build d tid t t_mock client uid ∷ rs) v =
    let (b₁, e₁, v₁, same) = find_last_message-board build d tid t t_mock client uid b v in
    let (b₂, e₂, v₂, rest) = serve-last_accepted b₁ rs v₁ in
    (b₂, rw e₁ e₂, v₂, λ k. rest k ∙ ap (λ m. last_accepted k (lookup k m) rs) same)

-- From three services with well-formed logs and an empty database, every history of calls runs to
-- its end, whatever gets lost on the way. A `find_last_message` behind it is answered, if it is
-- delivered, with the query's own identifier and the client's last message that was not refused and
-- whose two requests both arrived, or with the warning if there is none.
pub find_last_message-history :
    (b : Board) (rs : List Request) (build : Build) (tid : ℕ) (t t_mock : Times) (client : Text)
    (uid : ℤ)
    → IsBoard b
    → b.backend.database.last_messages ≡ []
    → (b₁ b₂ : Board) × (serve b rs ≡ some b₁)
      × (find_last_message build delivered tid t t_mock client uid b₁
          ≡ some (
            value (record {
              message = message_or_warning client (last_accepted client none rs);
              query_uid = uid;
            }),
            b₂,
          ))
unfolding lookup
find_last_message-history b rs build tid t t_mock client uid v fresh =
    let (b₁, e₁, v₁, after) = serve-last_accepted b rs v in
    let (b₂, e₂, v₂, same) =
      find_last_message-board build delivered tid t t_mock client uid b₁ v₁ in
    let seen : view b₁.backend.database client ≡ last_accepted client none rs =
      after client ∙ ap (λ m. last_accepted client (lookup client m) rs) fresh in
    (b₁, b₂, e₁, rw (← seen) e₂)

-- Only a stored message is acknowledged.
acknowledged-is_stored :
    (uid : ℤ) (message : Text) (c : Course) (r : StatusResponse)
    → status_of uid (through c.to_sanit (reply_of message c.to_mock)) ≡ value r
    → r.ok ≡ true
    → is_stored message c ≡ true
acknowledged-is_stored uid message c r e acknowledged = ground arith

find_stored :
    (build : Build) (tid : ℕ) (t t_mock : Times) (client message : Text) (uid : ℤ) (b : Board)
    → IsBoard b
    → view b.backend.database client ≡ some message
    → (b' : Board) × (find_last_message build delivered tid t t_mock client uid b
        ≡ some (value (record { message = message; query_uid = uid }), b'))
unfolding message_or_warning
find_stored build tid t t_mock client message uid b v seen =
    let (b', e, _, _) = find_last_message-board build delivered tid t t_mock client uid b v in
    (b', rw seen at e)

-- A client reads its own writes: behind a `send_message` that was answered with `ok`, a delivered
-- `find_last_message` of the same client returns that very message.
pub find_last_message-send_message :
    (build build' : Build) (tid tid' : ℕ) (c : Course) (t t_mock : Times) (client message : Text)
    (uid uid' : ℤ) (b b₁ : Board) (r : StatusResponse)
    → IsBoard b
    → send_message build tid c client message uid b ≡ some (value r, b₁)
    → r.ok ≡ true
    → (b₂ : Board) × (find_last_message build' delivered tid' t t_mock client uid' b₁
        ≡ some (value (record { message = message; query_uid = uid' }), b₂))
find_last_message-send_message build build' tid tid' c t t_mock client message uid uid' b b₁ r v
      sent acknowledged =
    let (b', e, v', after) = send_message-defined build tid c client message uid b v in
    let replied : status_of uid (through c.to_sanit (reply_of message c.to_mock)) ≡ value r =
      cc (e, sent) in
    let same : b' ≡ b₁ = cc (e, sent) in
    let stored = acknowledged-is_stored uid message c r replied acknowledged in
    let seen : view b'.backend.database client ≡ some message =
      after client ∙ rw (stored, (text_eq_iff client client).1 refl) in
    find_stored build' tid' t t_mock client message uid' b₁ (subst IsBoard same v')
      (subst (λ (x : Board). view x.backend.database client ≡ some message) same seen)
