-- ===== src/Fpsc/Producer.antt =====
-- `ProducerBuf` of src/fpsc/producer_cosumer.rs: a poll that fills the buffer from a stream.
use history_chain.Base.{
  ℕ, Bytes, Option, none, some, Result, ok, err, panicked, HError, length, ltb, if◌then◌else◌,
}
use history_chain.Fpsc.Ringbuf.{
  Inner, Poll, pending, ready, Polled, writable, readable, write_finished, wake_reader,
  writer_waker_save, quiet,
}

-- `S` is a stream behind `AsyncRead`; `poll_stream` reads at most so many bytes from it.
module _ {W S : Type 0} (poll_stream : S → ℕ → Poll (Result Bytes) × S) where
  unfoldable pub fill : Poll (Result Bytes) → Inner W → W → Polled W (Result ℕ)
  fill pending i w = writer_waker_save i w
  fill (ready (ok bytes)) i w =
      let filled_len = length bytes in
      let next = if ltb filled_len i.capacity then write_finished else readable in
      wake_reader (record i { buf = bytes; state = next }) (ok filled_len)
  fill (ready (err e)) i w = quiet i (err (HError.message "read stream error: {}\n"))
  fill (ready panicked) i w = quiet i panicked

  -- `ProducerBuf::poll`, with the stream that is left.
  unfoldable pub producer_poll : Inner W → Option S → W → Polled W (Result ℕ) × Option S
  unfolding fill
  producer_poll i stream w = elim i.state [
    | writable ↦ elim stream [
      | none ↦ (quiet i (err (HError.message "no stream to read\n")), none)
      | some s ↦ let r = poll_stream s i.capacity in (fill (r.0) i w, some (r.1))
    ]
    | readable ↦ (writer_waker_save i w, stream)
    | _ ↦ (quiet i (ok 0), stream)
  ]
