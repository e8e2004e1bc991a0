-- ===== src/Pipe.antt =====
-- src/pipe.rs: two ends that are joined by a channel of tokio in each direction. The channels are the
-- parameter `tokio`, whose state both ends of a channel see.
pub mod Ordered
use history_chain.Base.{
  ℕ, Bool, true, false, Option, none, some, ◌⊎◌, inl, inr, Result, ok, err, panicked, ◌>>=◌, HError,
  PipeError, if◌then◌else◌,
}
use history_chain.Fpsc.Ringbuf.{Poll, pending, ready}

-- `tokio::sync::mpsc::error::TryRecvError`
pub data TryRecvError : Type 0 where
  no_value disconnected : TryRecvError

-- `tokio::sync::mpsc::error::TrySendError`, without the value in it.
pub data TrySendError : Type 0 where
  no_room closed : TrySendError

-- The calls of `Sender` and `Receiver`, on a channel's state; `send` and `recv` are a poll of the
-- future each. A `SendError` carries nothing but the value.
pub record Mpsc (T C : Type 0) : Type 0 where
  pub channel : ℕ → Result C
  pub sender_is_closed : C → Bool
  pub receiver_is_closed : C → Bool
  pub send : T → C → Poll Bool × C
  pub recv : C → Poll (Option T) × C
  pub close : C → C
  pub try_recv : C → (TryRecvError ⊎ T) × C
  pub try_send : T → C → (TrySendError ⊎ Unit {0}) × C

-- `Pipe`, one of the two ends.
pub record Pipe (C : Type 0) : Type 0 where
  pub sender : C
  pub receiver : C

-- The other end of the same two channels.
abbrev pub other : {C : Type 0} → Pipe C → Pipe C
other pipe = record { sender = pipe.receiver; receiver = pipe.sender }

-- `map_err` on a poll of `Sender::send`.
pub sent_or : Poll Bool → Poll (Result (Unit {0}))
sent_or pending = pending
sent_or (ready true) = ready (ok tt)
sent_or (ready false) = ready (err (HError.message "Error sending value: {}"))

unfoldable pub try_sent_or : TrySendError ⊎ Unit {0} → Result (Unit {0})
try_sent_or (inl no_room) = err (HError.pipe PipeError.full)
try_sent_or (inl closed) = err (HError.pipe PipeError.close)
try_sent_or (inr u) = ok u

module _ {T : Type 0} where
  pub received_or : Poll (Option T) → Poll (Result T)
  received_or pending = pending
  received_or (ready (some value)) = ready (ok value)
  received_or (ready none) = ready (err (HError.message "Error in receiving value"))

  unfoldable pub try_received_or : TryRecvError ⊎ T → Result T
  try_received_or (inl no_value) = err (HError.pipe PipeError.empty)
  try_received_or (inl disconnected) = err (HError.pipe PipeError.close)
  try_received_or (inr value) = ok value

module _ {T C : Type 0} (tokio : Mpsc T C) where
  -- `Pipe::new`: the first end, of which the second is the other.
  unfoldable pub pipe_new : ℕ → Result (Pipe C × Pipe C)
  pipe_new capacity = do
    first ← tokio.channel capacity
    second ← tokio.channel capacity
    let end : Pipe C = record { sender = first; receiver = second }
    ok (end, other end)

  -- A poll of the `await` in `send`.
  pub send_await : T → Pipe C → Poll (Result (Unit {0})) × Pipe C
  send_await value pipe =
      let (sent, channel) = tokio.send value pipe.sender in
      (sent_or sent, record pipe { sender = channel })

  -- The first poll of `send`.
  unfoldable pub send : T → Pipe C → Poll (Result (Unit {0})) × Pipe C
  unfolding send_await
  send value pipe =
      if tokio.sender_is_closed pipe.sender
      then (ready (err (HError.pipe PipeError.close)), pipe)
      else send_await value pipe

  pub recv : Pipe C → Poll (Result T) × Pipe C
  recv pipe =
      let (received, channel) = tokio.recv pipe.receiver in
      (received_or received, record pipe { receiver = channel })

  pub close : Pipe C → Pipe C
  close pipe = record pipe { receiver = tokio.close pipe.receiver }

  unfoldable is_closed : Pipe C → Bool
  is_closed pipe = tokio.receiver_is_closed pipe.receiver

  unfoldable pub try_recv : Pipe C → Result T × Pipe C
  try_recv pipe =
      let (received, channel) = tokio.try_recv pipe.receiver in
      (try_received_or received, record pipe { receiver = channel })

  unfoldable pub try_send : T → Pipe C → Result (Unit {0}) × Pipe C
  try_send value pipe =
      if tokio.sender_is_closed pipe.sender
      then (err (HError.pipe PipeError.close), pipe)
      else let (sent, channel) = tokio.try_send value pipe.sender in
        (try_sent_or sent, record pipe { sender = channel })
