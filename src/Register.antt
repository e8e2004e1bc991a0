-- ===== src/Register.antt =====
-- src/network/register.rs: handlers for payloads by the payload's type. A handler is its result on a
-- payload; the channel to the task that signs is what becomes of a request sent there.
pub mod Context
use history_chain.Base.{
  ℕ, List, [], ◌∷◌, Bool, true, false, Option, none, some, Result, ok, err, HError, ◌>>=◌,
  if◌then◌else◌, ◌≡◌, ◌≢◌, refl, Bool-cases, inl, inr,
}
use history_chain.Node.Info.{SocketAddr}
use history_chain.Worker.{Channel, serve}
use history_chain.Protocol.Message.{
  Message, Payload, chain_request, vote_block, block_recitify, search_friend, empty, introduce,
  introduce_resp, message_new,
}

-- `Introduce`, `Empty` and `Others` of the source.
pub data PayloadTypes : Type 0 where
  of_introduce of_empty others : PayloadTypes

unfoldable pub from_payload : Payload → PayloadTypes
from_payload (chain_request info) = others
from_payload (vote_block chain) = others
from_payload (block_recitify block) = others
from_payload (search_friend name) = others
from_payload empty = of_empty
from_payload introduce = of_introduce
from_payload (introduce_resp info) = others

types_eq : PayloadTypes → PayloadTypes → Bool
types_eq of_introduce of_introduce = true
types_eq of_introduce of_empty = false
types_eq of_introduce others = false
types_eq of_empty of_introduce = false
types_eq of_empty of_empty = true
types_eq of_empty others = false
types_eq others of_introduce = false
types_eq others of_empty = false
types_eq others others = true

abbrev Handler : Type 0
Handler = Payload → Result Payload

-- `AsyncRegister`, behind the mutex of `AsyncPayloadHandler`, and `Register`.
pub record Register : Type 0 where
  pub handlers : List (PayloadTypes × Handler)

abbrev pub register_new : Register
register_new = record { handlers = [] }

-- `get` of a table by the payload's type.
unfoldable pub find : {V : Type 0} → PayloadTypes → List (PayloadTypes × V) → Option V
unfolding types_eq
find t [] = none
find t ((u, v) ∷ table) = if types_eq u t then some v else find t table

insert : PayloadTypes → Handler → List (PayloadTypes × Handler) → List (PayloadTypes × Handler)
unfolding types_eq
insert t handler [] = (t, handler) ∷ []
insert t handler ((u, other) ∷ handlers) =
    if types_eq u t then (t, handler) ∷ handlers else (u, other) ∷ insert t handler handlers

-- `reg_async` of `AsyncPayloadHandler`, and `reg` of `Register`, which do not fail.
unfoldable pub reg : Register → PayloadTypes → Handler → Register
unfolding insert
reg register payload_type handler = record register {
  handlers = insert payload_type handler register.handlers;
}

handle_with : HError → Option Handler → Payload → Result Payload
handle_with e none payload = err e
handle_with e (some handler) payload = handler payload

-- `AsyncRegister::handle`
unfoldable register_handle : Register → Payload → Result Payload
unfolding find from_payload handle_with
register_handle register payload =
    handle_with (HError.message "No handler for payload type: {:?}")
      (find (from_payload payload) register.handlers) payload

-- `AsyncPayloadHandler::handle`
unfoldable pub handle : Register → Payload → Result Payload
unfolding find from_payload handle_with
handle register payload =
    handle_with (HError.message "no handler for payload type")
      (find (from_payload payload) register.handlers) payload

-- `PayloadHandler::handle`
unfoldable pub payload_handle : Register → Payload → Result Payload
unfolding find from_payload handle_with
payload_handle register payload =
    handle_with (HError.network "No handler for payload type: {:?}")
      (find (from_payload payload) register.handlers) payload

-- The message that `spawn_handle` sends to the task that signs, at the clock's time.
unfoldable pub answer : Register → ℕ → Message → Result Message
unfolding handle
answer register now msg = do
  new_payload ← handle register msg.payload
  ok (message_new now msg.receiver msg.sender new_payload)

-- `spawn_handle`; `sent` is what `Request::send` returns for the request.
unfoldable spawn_handle :
    (Message × SocketAddr → Result (Unit {0}))
    → Register
    → ℕ
    → Message × SocketAddr
    → Result (Unit {0})
unfolding answer
spawn_handle sent register now (msg, addr) = do
  new_msg ← answer register now msg
  sent (new_msg, addr)

-- A round of the task of `spawn_run`.
unfoldable spawn_run : Register → Channel Payload → Channel Payload
unfolding handle
spawn_run register requests = serve (handle register) requests

-- A round of the task that `PayloadHandler::spawn_run` starts.
unfoldable pub payload_spawn_run : Register → Channel Payload → Channel Payload
unfolding payload_handle
payload_spawn_run register requests = serve (payload_handle register) requests

types_eq_refl : (t : PayloadTypes) → types_eq t t ≡ true
unfolding types_eq
types_eq_refl of_introduce = refl
types_eq_refl of_empty = refl
types_eq_refl others = refl

types_ne : (t u : PayloadTypes) → t ≢ u → types_eq t u ≡ false
unfolding types_eq
types_ne of_introduce of_introduce h = absurd (h refl)
types_ne of_introduce of_empty h = refl
types_ne of_introduce others h = refl
types_ne of_empty of_introduce h = refl
types_ne of_empty of_empty h = absurd (h refl)
types_ne of_empty others h = refl
types_ne others of_introduce h = refl
types_ne others of_empty h = refl
types_ne others others h = absurd (h refl)

types_same : (t u : PayloadTypes) → types_eq t u ≡ true → t ≡ u
unfolding types_eq
types_same of_introduce of_introduce h = refl
types_same of_introduce of_empty h = cc
types_same of_introduce others h = cc
types_same of_empty of_introduce h = cc
types_same of_empty of_empty h = refl
types_same of_empty others h = cc
types_same others of_introduce h = cc
types_same others of_empty h = cc
types_same others others h = refl

find-insert :
    (t : PayloadTypes) (handler : Handler) (hs : List (PayloadTypes × Handler))
    → find t (insert t handler hs) ≡ some handler
unfolding find insert
find-insert t handler [] = rw (types_eq_refl t) refl
find-insert t handler ((u, other) ∷ hs) = elim (Bool-cases (types_eq u t)) [
  | inl e ↦ rw (e, types_eq_refl t) refl
  | inr e ↦ rw (e, e) (find-insert t handler hs)
]

find-insert_ne :
    (t s : PayloadTypes) (handler : Handler) (hs : List (PayloadTypes × Handler))
    → t ≢ s
    → find s (insert t handler hs) ≡ find s hs
unfolding find insert
find-insert_ne t s handler [] h = rw (types_ne t s h) refl
find-insert_ne t s handler ((u, other) ∷ hs) h = elim (Bool-cases (types_eq u t)) [
  | inl e ↦ let same : u ≡ t = types_same u t e in rw (e, same, types_ne t s h) refl
  | inr e ↦ rw e (elim (Bool-cases (types_eq u s)) [
    | inl f ↦ rw f refl
    | inr f ↦ rw f (find-insert_ne t s handler hs h)
  ])
]

-- After a registration for a type, a payload of that type is handled by the handler registered last,
-- and a payload of any other type as before; a new register refuses
-- every payload.
pub handle-reg :
    (register : Register) (t : PayloadTypes) (handler : Handler) (payload : Payload)
    → (from_payload payload ≡ t → handle (reg register t handler) payload ≡ handler payload)
      × (t ≢ from_payload payload
          → handle (reg register t handler) payload ≡ handle register payload)
      × (handle register_new payload ≡ err (HError.message "no handler for payload type"))
unfolding handle reg handle_with find
handle-reg register t handler payload = (
  (λ same. rw (same, find-insert t handler register.handlers) refl),
  (λ ne. rw (find-insert_ne t (from_payload payload) handler register.handlers ne) refl),
  refl,
)
