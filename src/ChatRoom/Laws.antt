-- ===== src/ChatRoom/Laws.antt =====
-- A client of the chat room gets every message once.
use async_rpc_fbthrift.Common.{
  ℕ, ◌+◌, ◌-◌, ◌^◌, leb, if◌then◌else◌, subst, ◌≤◌, ◌<◌, List, [], ◌∷◌, ◌++◌, Option, none, some,
  ◌>>=◌, length, drop, length-append, Text, ℤ, pos, ◌≡◌, refl, ap, arith, ◌∙◌, sym, inl, inr, ◌⊎◌,
}
use mathlib.Core.List.{append_assoc, append-nil}
use async_rpc_fbthrift.ChatRoom.Handler.{Message, get_messages, send_message}
use async_rpc_fbthrift.ChatRoom.Pages.{
  page, page-drop, drop-append, length-page, length-page_eq, get_messages-page,
}

-- The buffer, and a client that asks for messages: its token, and what it got so far.
pub record Room : Type 0 where
  pub buffer : List Message
  pub token : Option ℤ
  pub received : List Message

pub data Event : Type 0 where
  posts : ℤ → Text → Text → Event
  polls : Event

pub room_step : ℤ → Event → Room → Option Room
room_step most (posts time message sender) r =
    some (record r { buffer = send_message time message sender r.buffer })
room_step most polls r = get_messages most r.buffer r.token >>= λ out.
    some (record r { token = some out.1; received = r.received ++ out.0 })

pub room_steps : ℤ → List Event → Room → Option Room
room_steps most [] r = some r
room_steps most (e ∷ es) r = room_step most e r >>= λ r'. room_steps most es r'

pub posted : List Event → List Message
posted [] = []
posted (posts time message sender ∷ es) =
    record { message = message; sender = sender; timestamp = time } ∷ posted es
posted (polls ∷ es) = posted es

-- How many messages the client gets, when p are posted and it has k: each poll gets at most n of the
-- messages that it does not have.
pub gets : ℕ → ℕ → ℕ → List Event → ℕ
gets n p k [] = k
gets n p k (posts time message sender ∷ es) = gets n (p + 1) k es
gets n p k (polls ∷ es) = gets n p (k + (if leb n (p - k) then n else p - k)) es

-- k messages have been received, and the token says so.
record IsRoom (k : ℕ) (r : Room) : Type 0 where
  pages : r.received ++ drop k r.buffer ≡ r.buffer
  inside : k ≤ length r.buffer
  received : length r.received ≡ k
  token : (r.token ≡ some (pos k)) ⊎ ((r.token ≡ none) × (k ≡ 0))

poll-IsRoom :
    (n k : ℕ) (r : Room)
    → length r.buffer < 2 ^ 31
    → IsRoom k r
    → (r' : Room) × (room_step (pos n) polls r ≡ some r')
      × IsRoom (k + length (page n r.buffer k)) r'
      × (r'.buffer ≡ r.buffer)
unfolding room_step
poll-IsRoom n k r small v =
    let answer : get_messages (pos n) r.buffer r.token
        ≡ some (page n r.buffer k, pos (k + length (page n r.buffer k))) =
      elim v.token [
        | inl known ↦ rw known ((get_messages-page n r.buffer k small).0)
        | inr fresh ↦
            rw (fresh.0, fresh.1)
              ((get_messages-page n r.buffer 0 small).1
                ∙ ap (λ i. some (page n r.buffer 0, pos i)) (omega arith))
      ] in
    (
      record r {
        token = some (pos (k + length (page n r.buffer k)));
        received = r.received ++ page n r.buffer k;
      },
      rw answer refl,
      record {
        pages =
            append_assoc r.received _ _
            ∙ ap (λ rest. r.received ++ rest) (page-drop n r.buffer k)
            ∙ v.pages;
        inside = length-page n k r.buffer v.inside;
        received = length-append r.received _ ∙ ap (λ i. i + length (page n r.buffer k)) v.received;
        token = inl refl;
      },
      refl,
    )

post-IsRoom :
    (most : ℤ) (k : ℕ) (time : ℤ) (message sender : Text) (r : Room)
    → IsRoom k r
    → (r' : Room) × (room_step most (posts time message sender) r ≡ some r')
      × IsRoom k r'
      × (r'.buffer
          ≡ r.buffer ++ record { message = message; sender = sender; timestamp = time } ∷ [])
unfolding room_step send_message
post-IsRoom most k time message sender r v = (
  record r { buffer = send_message time message sender r.buffer },
  refl,
  record {
    pages =
        ap (λ rest. r.received ++ rest) (drop-append k r.buffer _ v.inside)
        ∙ sym (append_assoc r.received _ _)
        ∙ ap (λ all. all ++ record { message = message; sender = sender; timestamp = time } ∷ [])
            v.pages;
    inside = omega (
      arith,
      v.inside,
      length-append r.buffer (record { message = message; sender = sender; timestamp = time } ∷ []),
    );
    received = v.received;
    token = v.token;
  },
  refl,
)

room_steps-IsRoom :
    (n k : ℕ) (es : List Event) (r : Room)
    → length r.buffer + length es < 2 ^ 31
    → IsRoom k r
    → (r' : Room) × (room_steps (pos n) es r ≡ some r')
      × IsRoom (gets n (length r.buffer) k es) r'
      × (r'.buffer ≡ r.buffer ++ posted es)
unfolding room_steps posted gets
room_steps-IsRoom n k [] r small v = (r, refl, v, sym (append-nil r.buffer))
room_steps-IsRoom n k (posts time message sender ∷ es) r small v =
    let (r₁, e₁, v₁, grown) = post-IsRoom (pos n) k time message sender r v in
    let one_more : length r₁.buffer ≡ length r.buffer + 1 =
      ap length grown ∙ length-append r.buffer _ in
    let (r₂, e₂, v₂, rest) = room_steps-IsRoom n k es r₁ (omega (arith, one_more)) v₁ in
    (
      r₂,
      rw e₁ e₂,
      subst (λ p. IsRoom (gets n p k es) r₂) one_more v₂,
      rest ∙ rw grown (append_assoc r.buffer _ _),
    )
room_steps-IsRoom n k (polls ∷ es) r small v =
    let (r₁, e₁, v₁, same) = poll-IsRoom n k r (omega arith) v in
    let kept : length r₁.buffer ≡ length r.buffer = ap length same in
    let (r₂, e₂, v₂, rest) =
      room_steps-IsRoom n (k + length (page n r.buffer k)) es r₁ (omega (arith, kept)) v₁ in
    (
      r₂,
      rw e₁ e₂,
      subst (λ k'. IsRoom (gets n (length r.buffer) (k + k') es) r₂)
          (length-page_eq n k r.buffer v.inside)
          (subst (λ p. IsRoom (gets n p (k + length (page n r.buffer k)) es) r₂) kept v₂),
      rest ∙ ap (λ b. b ++ posted es) same,
    )

abbrev pub new_room : Room
new_room = record { buffer = []; token = none; received = [] }

-- A client that polls with the token of the answer before, the first time without one, gets the
-- messages in the order of their posting, each once, however its polls and the posts of others
-- alternate, as long as posts and polls are fewer than 2^31 in all: no poll reads out of bounds, each
-- poll brings the messages that the client does not have yet, at most the n that the flag allows, and
-- what it got so far is the beginning of what has been posted, of exactly that length.
pub room_steps-posted :
    (n : ℕ) (es : List Event)
    → length es < 2 ^ 31
    → (r : Room) × (missing : List Message) × (room_steps (pos n) es new_room ≡ some r)
      × (r.buffer ≡ posted es)
      × (r.received ++ missing ≡ posted es)
      × (length r.received ≡ gets n 0 0 es)
room_steps-posted n es small =
    let (r, e, v, all) =
      room_steps-IsRoom n 0 es new_room (omega arith) (record {
        pages = refl;
        inside = omega arith;
        received = refl;
        token = inr (refl, refl);
      }) in
    (r, drop (gets n 0 0 es) r.buffer, e, all, v.pages ∙ all, v.received)
