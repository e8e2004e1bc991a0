-- ===== src/Fpsc/ReadBack.antt =====
-- A write and the read after it, in every room that the reader's buffer has; and a producer that
-- reads a stream in parts.
use history_chain.Base.{
  ℕ, ◌<◌, min, Bytes, ◌≡◌, ◌∙◌, refl, ap, sym, some, Result, ok, err, panicked, arith, length, take,
  length-take, take-length_le, Bool-cases, inl, inr, ltb, leb, ◌==◌, if◌then◌else◌, le→ltb, lt→ltb,
}
use history_chain.Fpsc.Ringbuf.{
  Inner, Poll, ready, BufState, writable, readable, write_finished, read_finished, ReadBuf,
  put_slice, poll_write, write_in, poll_read, read_in, copy_end, read_end, wake_reader, wake_writer,
  quiet, too_small, set_buf_state,
}
use history_chain.Fpsc.Producer.{fill, producer_poll}

-- What a read answers of a buffer with these bytes.
abbrev pub answer : Bytes → ReadBuf → Result ReadBuf
answer bytes b = if ltb b.room (length bytes) then err too_small else put_slice b bytes

take-min : (c : ℕ) (xs : Bytes) → take (min c (length xs)) xs ≡ take c xs
take-min c xs = elim (Bool-cases (leb c (length xs))) [
  | inl short ↦ let e : min c (length xs) ≡ c = ground arith in ap (λ n. take n xs) e
  | inr whole ↦
      take-length_le (min c (length xs)) xs (ground arith)
      ∙ sym (take-length_le c xs (ground arith))
]

module _ {W : Type 0} where
  copy_end-poll :
      (r : Result ReadBuf) (st : BufState) (i : Inner W) → (copy_end r st i).poll ≡ ready r
  unfolding copy_end read_end quiet wake_writer
  copy_end-poll (ok b) writable i = refl
  copy_end-poll (ok b) readable i = refl
  copy_end-poll (ok b) write_finished i = refl
  copy_end-poll (ok b) read_finished i = refl
  copy_end-poll (err e) st i = refl
  copy_end-poll panicked st i = refl

  read_in-poll :
      (i : Inner W) (st : BufState) (b : ReadBuf) → (read_in st i b).poll ≡ ready (answer i.buf b)
  unfolding read_in quiet
  read_in-poll i st b = elim (Bool-cases (ltb b.room (length i.buf))) [
    | inl over ↦ rw (over, lt→ltb (min (length i.buf) b.room) (length i.buf) (ground arith)) refl
    | inr fits ↦
        let whole = take-length_le (min (length i.buf) b.room) i.buf (ground arith) in
        rw (fits, le→ltb (min (length i.buf) b.room) (length i.buf) (ground arith), whole)
          (copy_end-poll (put_slice b i.buf) st i)
  ]

  -- A write to a writable buffer stores as many of the bytes as the buffer takes, and says how
  -- many. The read after it answers with exactly these, behind what the reader's buffer holds;
  -- it is an error where that buffer is smaller than they are, and panics where it is not but
  -- what is unfilled of it is.
  pub poll_read-poll_write :
      (i : Inner W) (w r : W) (source : Bytes) (b : ReadBuf)
      → i.state ≡ writable
      → let p = poll_write i w source in
        let stored = take i.capacity source in
        (p.poll ≡ ready (ok (length stored)))
        × ((poll_read p.inner r b).poll ≡ ready (answer stored b))
  unfolding poll_write write_in wake_reader poll_read
  poll_read-poll_write i w r source b e = rw e (
    ap (λ n. ready (ok n)) (sym (length-take i.capacity source)),
    elim (Bool-cases (min i.capacity (length source) == length source)) [
      | inl all ↦ rw (all, sym (take-min i.capacity source)) (read_in-poll _ write_finished b)
      | inr part ↦ rw (part, sym (take-min i.capacity source)) (read_in-poll _ readable b)
    ],
  )

module _ {W S : Type 0} (poll_stream : S → ℕ → Poll (Result Bytes) × S) where
  -- A read of the stream that gives fewer bytes than the capacity ends the transfer: the bytes are
  -- stored, but every later poll, also after the consumer has read them, answers 0 and leaves
  -- the stream as it is, whatever it still holds.
  producer_poll-short :
      (i : Inner W) (s t : S) (w : W) (bytes : Bytes)
      → i.state ≡ writable
      → poll_stream s i.capacity ≡ (ready (ok bytes), t)
      → length bytes < i.capacity
      → let p = producer_poll poll_stream i (some s) w in
        (p.0.poll ≡ ready (ok (length bytes)))
        × (p.0.inner.buf ≡ bytes)
        × (producer_poll poll_stream p.0.inner (p.1) w ≡ (quiet p.0.inner (ok 0), some t))
        × (producer_poll poll_stream (set_buf_state p.0.inner read_finished) (p.1) w
            ≡ (quiet (set_buf_state p.0.inner read_finished) (ok 0), some t))
  unfolding producer_poll fill wake_reader
  producer_poll-short i s t w bytes e reads short =
      rw (e, reads, lt→ltb (length bytes) i.capacity short) (refl, refl, refl, refl)
