-- ===== src/Register/Context.antt =====
-- `HandlerContext` of src/network/register.rs: the request workers by the payload's type. A worker is
-- a number; its channel is shared by its clones and by the task that serves it.
use history_chain.Base.{ℕ, List, [], Option, none, some, Result, err, HError, ◌==◌, if◌then◌else◌}
use history_chain.Protocol.Message.{Payload}
use history_chain.Register.{PayloadTypes, Register, find, from_payload}
use history_chain.Worker.{Channel, send}

pub record HandlerContext : Type 0 where
  pub request_wokers : List (PayloadTypes × ℕ)

abbrev pub context_new : HandlerContext
context_new = record { request_wokers = [] }

unfoldable pub get_request_worker : HandlerContext → PayloadTypes → Option ℕ
get_request_worker context payload_type = find payload_type context.request_wokers

-- The channels of the workers.
abbrev pub Channels : Type 0
Channels = ℕ → Channel Payload

send_with : ℕ → Payload → Channels → Option ℕ → Result (Unit {0}) × Channels
send_with sender payload channels none =
    (err (HError.message "no request worker for payload type"), channels)
send_with sender payload channels (some worker) =
    let (sent, channel) = send sender payload (channels worker) in
    (sent, λ w. if w == worker then channel else channels w)

-- `HandlerContext::send`, with a new one-shot channel for the answer.
pub context_send : HandlerContext → ℕ → Payload → Channels → Result (Unit {0}) × Channels
unfolding send_with get_request_worker
context_send context sender payload channels =
    send_with sender payload channels (get_request_worker context (from_payload payload))
