-- ===== src/Fpsc/Calls.antt =====
-- The calls of src/fpsc/producer_cosumer.rs that move bytes once, `produce` and `consume`, and the ways
-- to make the two ends, with src/fpsc/mod.rs. What the closure captures is an argument of its calls.
pub mod Keeps
use history_chain.Base.{ℕ, Bytes, Option, none, some, Result, ok, err, panicked, ◌++◌, take}
use history_chain.Fpsc.Ringbuf.{
  Inner, Poll, pending, ready, Polled, BufState, write_finished, poll_write, ringbuf_new,
}
use history_chain.Fpsc.Consumer.{Closure, consumer_poll}

-- The buffer of a `ProducerBuf` and a `ConsumerBuf`, with the task of the second.
pub record Ends (W C : Type 0) : Type 0 where
  pub inner : Inner W
  pub task : Option (Closure C)

module _ {W C : Type 0} where
  -- `fpsc::new`
  unfoldable fpsc_new : ℕ → Ends W C
  fpsc_new capacity = record { inner = ringbuf_new capacity; task = none }

  -- `ConsumerBuf::task`
  unfoldable with_task : Closure C → Ends W C → Ends W C
  with_task closure ends = record ends { task = some closure }

  unfoldable pub with_closure : ℕ → Closure C → Ends W C
  with_closure capacity closure = record { inner = ringbuf_new capacity; task = some closure }

  -- A poll of `produce`, whose future is that of one `write`.
  unfoldable pub produce : W → Bytes → Ends W C → Poll (Result ℕ) × Ends W C
  produce w source ends =
      let polled = poll_write ends.inner w source in
      (polled.poll, record ends { inner = polled.inner })

  -- A poll of `consume`, with what the closure captures after it.
  unfoldable pub consume : W → C → Ends W C → Poll (Result ℕ) × Ends W C × C
  consume w captured ends =
      let (polled, captured') = consumer_poll ends.task ends.inner captured w in
      (polled.poll, record ends { inner = polled.inner }, captured')
