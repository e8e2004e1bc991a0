-- ===== src/Fpsc/Streaming.antt =====
-- `produce_from_stream` against `consume_all` of src/fpsc/producer_cosumer.rs, as two tasks on one buffer
-- that are polled in any order. The stream is what its reads return, in order, and an empty read at its
-- end; each is at most as long as the buffer's capacity.
pub mod Keeps
use history_chain.Base.{
  ℕ, ◌<◌, Bytes, List, [], ◌∷◌, ◌++◌, Bool, true, false, ◌≡◌, Option, none, some, Result, ok, err,
  panicked, ◌==◌, add_u64,
}
use history_chain.Fpsc.Consumer.{consumer_poll}
use history_chain.Fpsc.Producer.{producer_poll}
use history_chain.Fpsc.Ringbuf.{Inner, Poll, pending, ready, ringbuf_new}
use history_chain.Fpsc.Transfer.{Party, producer, consumer, collect, count, is_ready, is_finished}

abbrev pub Reads : Type 0
Reads = List (Poll (Result Bytes))

abbrev pub next_read : Reads → ℕ → Poll (Result Bytes) × Reads
next_read [] room = (ready (ok []), [])
next_read (read ∷ reads) room = (read, reads)

pub record Streaming : Type 0 where
  pub inner : Inner Party
  pub stream : Reads
  pub p_total : ℕ
  pub p_done : Bool
  pub log : Bytes
  pub c_total : ℕ
  pub c_done : Bool

abbrev pub streaming_new : ℕ → Reads → Streaming
streaming_new capacity reads = record {
  inner = ringbuf_new capacity;
  stream = reads;
  p_total = 0;
  p_done = false;
  log = [];
  c_total = 0;
  c_done = false;
}

-- The stream that the producer keeps.
abbrev stream_or_end : Option Reads → Reads
stream_or_end none = []
stream_or_end (some reads) = reads

-- Behind the `await`: an empty write ends the loop, and so does the `?`.
unfoldable pub after_produce : Poll (Result ℕ) → Streaming → Streaming
after_produce pending s = s
after_produce (ready (ok n)) s = record s { p_total = add_u64 s.p_total n; p_done = n == 0 }
after_produce (ready (err e)) s = record s { p_done = true }
after_produce (ready panicked) s = record s { p_done = true }

-- A poll in the loop of `produce_from_stream`.
unfoldable pub produce_round : Streaming → Streaming
unfolding after_produce
produce_round s =
    let (p, stream') = producer_poll next_read s.inner (some s.stream) producer in
    after_produce p.poll (record s { inner = p.inner; stream = stream_or_end stream' })

unfoldable pub after_consume : Poll (Result ℕ) → Streaming → Streaming
after_consume pending s = s
after_consume (ready (ok n)) s = record s {
  c_total = add_u64 s.c_total n;
  c_done = is_finished s.inner.state;
}
after_consume (ready (err e)) s = record s { c_done = true }
after_consume (ready panicked) s = record s { c_done = true }

-- A poll in the loop of `consume_all`, with a closure that keeps what it gets.
unfoldable pub consume_round : Streaming → Streaming
unfolding after_consume
consume_round s =
    let (p, log) = consumer_poll (some collect) s.inner s.log consumer in
    after_consume p.poll (record s { inner = p.inner; log = log })

-- The two loops, from a new buffer on.
pub data Streams (capacity : ℕ) (reads : Reads) : Streaming → Type 0 where
  starts : Streams capacity reads (streaming_new capacity reads)
  produces :
      {s : Streaming}
      → Streams capacity reads s
      → s.p_done ≡ false
      → Streams capacity reads (produce_round s)
  consumes :
      {s : Streaming}
      → Streams capacity reads s
      → s.c_done ≡ false
      → Streams capacity reads (consume_round s)
