-- ===== src/Tests/OfFpsc.antt =====
-- The channel.
use history_chain.Base.{
  ℕ, ◌<◌, Bytes, [], ◌∷◌, ◌++◌, ◌≡◌, ◌⊎◌, refl, Option, none, some, Result, ok, arith, length, true,
  take, add_u64, sub_u64,
}
use history_chain.Fpsc.Ringbuf.{
  Inner, Poll, ready, Polled, writable, ReadBuf, poll_write, write_in, wake_reader, wake_writer,
  writer_waker_save, wakes, poll_read, inner_new, ringbuf_new, clone_handle, drop_handle,
}
use history_chain.Fpsc.Producer.{producer_poll}
use history_chain.Fpsc.Consumer.{consumer_poll, use_readable}
use history_chain.Fpsc.Transfer.{
  Transfer, start, start_on, Step, produces, consumes, Run, unmoved, moved, produce_step,
  consume_step,
}
use history_chain.Fpsc.Transfer.Delivers.{Run-delivers}
use history_chain.Fpsc.Handles.{Held, created, cloned, dropped, Counts, Held-Counts}
use history_chain.Fpsc.ReadBack.{answer, poll_read-poll_write}

-- Three bytes through a buffer of two: a write, the read after it, and the last write.
abbrev three_bytes : Bytes
three_bytes = 7 ∷ 8 ∷ 9 ∷ []

abbrev moved_on : Transfer
moved_on = produce_step (consume_step (produce_step (start 2 three_bytes)))

moved_on-Run : Run (start 2 three_bytes) 3 moved_on
unfolding start start_on produce_step consume_step poll_write write_in wake_reader wake_writer
    writer_waker_save wakes consumer_poll use_readable ringbuf_new clone_handle inner_new
moved_on-Run =
    moved (moved (moved unmoved (produces refl (omega arith))) (consumes refl refl))
      (produces refl (omega arith))

Run-delivers_example :
    ((after : Bytes) × (three_bytes ≡ moved_on.log ++ after))
    × (((t : Transfer) × Step moved_on t)
        ⊎ ((moved_on.done ≡ true) × (moved_on.log ≡ three_bytes) × (moved_on.total ≡ 3)))
Run-delivers_example =
    Run-delivers three_bytes 2 3 moved_on (omega arith) (omega arith) (omega arith) moved_on-Run

-- The writer's handle is cloned, and all three handles are dropped.
all_dropped : Held {W = ℕ} 2 0 none
unfolding ringbuf_new clone_handle inner_new drop_handle add_u64 sub_u64
all_dropped = dropped (dropped (dropped (cloned (omega arith) created (omega arith))))

Held-Counts_example : Counts {W = ℕ} 2 0 none
Held-Counts_example = Held-Counts 2 0 none all_dropped

abbrev empty_inner : Inner ℕ
empty_inner = inner_new 2

abbrev read_buf : ReadBuf
read_buf = record { filled = []; room = 4 }

empty_writable : empty_inner.state ≡ writable
unfolding inner_new
empty_writable = refl

poll_read-poll_write_example :
    ((poll_write empty_inner 0 three_bytes).poll
      ≡ ready (ok (length (take (empty_inner.capacity) three_bytes))))
    × ((poll_read (poll_write empty_inner 0 three_bytes).inner 1 read_buf).poll
        ≡ ready (answer (take (empty_inner.capacity) three_bytes) read_buf))
poll_read-poll_write_example =
    poll_read-poll_write empty_inner 0 1 three_bytes read_buf empty_writable

-- A stream that gives one byte at a time.
abbrev one_at_a_time : Bytes → ℕ → Poll (Result Bytes) × Bytes
one_at_a_time [] room = (ready (ok []), [])
one_at_a_time (x ∷ xs) room = (ready (ok (x ∷ [])), xs)

abbrev first_poll : Polled ℕ (Result ℕ) × Option Bytes
first_poll = producer_poll one_at_a_time empty_inner (some three_bytes) 0

one_lt_room : 1 < empty_inner.capacity
unfolding inner_new
one_lt_room = omega arith
