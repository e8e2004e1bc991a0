-- ===== src/Fpsc/Consumer.antt =====
-- `ConsumerBuf` of src/fpsc/producer_cosumer.rs: a poll that hands the buffer to the closure.
use history_chain.Base.{ℕ, Bytes, Option, none, some, Result, ok, err, panicked, HError, length}
use history_chain.Fpsc.Ringbuf.{
  Inner, Polled, writable, readable, write_finished, read_finished, set_buf_state, wake_writer,
  reader_waker_save, quiet,
}

-- An `FnMut(&mut [u8]) -> Result<(), HError>` with what it captures: it may change both what it
-- captures and the bytes.
pub record Closure (C : Type 0) : Type 0 where
  pub call : C → Bytes → Result (Unit {0}) × C × Bytes

abbrev pub closure_error : HError
closure_error = HError.message "error in consumer closure"

module _ {W C : Type 0} (task : Option (Closure C)) where
  unfoldable pub use_readable : Result (Unit {0}) → Inner W → Polled W (Result ℕ)
  use_readable (ok u) i = wake_writer (set_buf_state i writable) (ok (length i.buf))
  use_readable (err e) i = quiet i (err closure_error)
  use_readable panicked i = quiet i panicked

  unfoldable pub use_last : Result (Unit {0}) → Inner W → Polled W (Result ℕ)
  use_last (ok u) i = quiet (set_buf_state i read_finished) (ok (length i.buf))
  use_last (err e) i = quiet (set_buf_state i read_finished) (err closure_error)
  use_last panicked i = quiet i panicked

  -- `ConsumerBuf::poll`, with what the closure captures after it.
  unfoldable pub consumer_poll : Inner W → C → W → Polled W (Result ℕ) × C
  unfolding use_readable use_last
  consumer_poll i c w = elim i.state [
    | readable ↦ elim task [
      | none ↦ (wake_writer (set_buf_state i writable) (ok 0), c)
      | some f ↦ let r = f.call c i.buf in (use_readable (r.0) (record i { buf = r.2 }), r.1)
    ]
    | write_finished ↦ elim task [
      | none ↦ (quiet (set_buf_state i read_finished) (ok 0), c)
      | some f ↦ let r = f.call c i.buf in (use_last (r.0) (record i { buf = r.2 }), r.1)
    ]
    | read_finished ↦ (quiet i (ok 0), c)
    | writable ↦ (reader_waker_save i w, c)
  ]
