-- ===== src/Fpsc/Streaming/Keeps.antt =====
-- What `consume_all` gets of a stream.
use history_chain.Base.{
  ℕ, ◌+◌, ◌%◌, ◌^◌, Bytes, [], ◌∷◌, ◌++◌, Bool, true, false, ◌≡◌, ◌∙◌, refl, sym, ap, subst, Result,
  ok, err, panicked, arith, length, add_u64, length-append, append_assoc, ltb, if◌then◌else◌,
}
use history_chain.Fpsc.Consumer.{consumer_poll, use_readable, use_last}
use history_chain.Fpsc.Producer.{producer_poll, fill}
use history_chain.Fpsc.Ringbuf.{
  Poll, pending, ready, BufState, writable, readable, write_finished, read_finished, ringbuf_new,
  inner_new, clone_handle, wake_writer, wake_reader, writer_waker_save, reader_waker_save, quiet,
}
use history_chain.Fpsc.Transfer.{producer}
use history_chain.Fpsc.Streaming.{
  next_read, Reads, Streaming, Streams, starts, produces, consumes, produce_round, consume_round,
  after_produce, after_consume,
}

-- The bytes of the reads that succeed.
abbrev pub contents : Reads → Bytes
contents [] = []
contents (pending ∷ reads) = contents reads
contents (ready (ok bytes) ∷ reads) = bytes ++ contents reads
contents (ready (err e) ∷ reads) = contents reads
contents (ready panicked ∷ reads) = contents reads

-- What is in the buffer for the consumer.
abbrev pub waiting : BufState → Bytes → Bytes
waiting writable buf = []
waiting readable buf = buf
waiting write_finished buf = buf
waiting read_finished buf = []

pub record IsFaithful (reads : Reads) (s : Streaming) : Type 0 where
  pub kept : s.log ++ (waiting s.inner.state s.inner.buf ++ contents s.stream) ≡ contents reads
  pub p_counted : s.p_total ≡ (length s.log + length (waiting s.inner.state s.inner.buf)) % 2 ^ 64
  pub c_counted : s.c_total ≡ length s.log % 2 ^ 64
  pub ended : s.c_done ≡ true → s.inner.state ≡ read_finished

add_zero : (n k : ℕ) → k ≡ n % 2 ^ 64 → add_u64 k 0 ≡ n % 2 ^ 64
unfolding add_u64
add_zero n k h = omega arith

with_count : (a b n k : ℕ) → k ≡ a % 2 ^ 64 → a + n ≡ b → add_u64 k n ≡ b % 2 ^ 64
unfolding add_u64
with_count a b n k h e = omega arith

waiting-part : (b : Bool) (buf : Bytes) → waiting (if b then write_finished else readable) buf ≡ buf
waiting-part true buf = refl
waiting-part false buf = refl

module _ (reads : Reads) where
  -- A producer's poll of the stream, by what it returns.
  fill-IsFaithful :
      (read : Poll (Result Bytes)) (s : Streaming) (rest : Reads)
      → s.inner.state ≡ writable
      → (s.c_done ≡ true → ⊥)
      → s.log ++ contents (read ∷ rest) ≡ contents reads
      → s.p_total ≡ length s.log % 2 ^ 64
      → s.c_total ≡ length s.log % 2 ^ 64
      → let p = fill next_read read s.inner producer in
        IsFaithful reads (after_produce p.poll (record s { inner = p.inner; stream = rest }))
  unfolding fill after_produce wake_reader writer_waker_save quiet
  fill-IsFaithful pending s rest e busy kept p_counted c_counted = record {
    kept = rw e kept;
    p_counted = rw e (p_counted ∙ omega arith);
    c_counted = c_counted;
    ended = λ done. absurd (busy done);
  }
  fill-IsFaithful (ready (err x)) s rest e busy kept p_counted c_counted = record {
    kept = rw e kept;
    p_counted = rw e (p_counted ∙ omega arith);
    c_counted = c_counted;
    ended = λ done. absurd (busy done);
  }
  fill-IsFaithful (ready panicked) s rest e busy kept p_counted c_counted = record {
    kept = rw e kept;
    p_counted = rw e (p_counted ∙ omega arith);
    c_counted = c_counted;
    ended = λ done. absurd (busy done);
  }
  fill-IsFaithful (ready (ok bytes)) s rest e busy kept p_counted c_counted =
      let part = waiting-part (ltb (length bytes) s.inner.capacity) bytes in
      record {
        kept = rw part kept;
        p_counted = rw part (
            with_count (length s.log) (length s.log + length bytes) (length bytes) s.p_total
              p_counted (omega arith));
        c_counted = c_counted;
        ended = λ done. absurd (busy done);
      }

  quiet-IsFaithful :
      (s : Streaming) → IsFaithful reads s → IsFaithful reads (after_produce (ready (ok 0)) s)
  unfolding after_produce
  quiet-IsFaithful s f = record {
    kept = f.kept;
    p_counted = with_count _ _ 0 s.p_total f.p_counted (omega arith);
    c_counted = f.c_counted;
    ended = f.ended;
  }

  polled-IsFaithful :
      (stream : Reads) (s : Streaming)
      → s.stream ≡ stream
      → s.inner.state ≡ writable
      → IsFaithful reads s
      → let p = fill next_read (next_read stream s.inner.capacity).0 s.inner producer in
        IsFaithful reads (
          after_produce p.poll
            (record s { inner = p.inner; stream = (next_read stream s.inner.capacity).1 }))
  polled-IsFaithful stream s same e f =
      let nothing : waiting s.inner.state s.inner.buf ≡ [] = ap (λ st. waiting st s.inner.buf) e in
      let kept : s.log ++ contents stream ≡ contents reads =
        subst (λ w. s.log ++ (w ++ contents stream) ≡ contents reads) nothing
          (subst (λ r. s.log ++ (waiting s.inner.state s.inner.buf ++ contents r) ≡ contents reads)
            same f.kept) in
      let counted : s.p_total ≡ length s.log % 2 ^ 64 =
        let h = f.p_counted in omega (arith, ap length nothing) in
      let busy = λ (done : s.c_done ≡ true). running (sym e ∙ f.ended done) in
      polled_read stream s e busy kept counted f.c_counted
    where
      running : writable ≡ read_finished → ⊥
      running h = cc

      polled_read :
          (stream : Reads) (s : Streaming)
          → s.inner.state ≡ writable
          → (s.c_done ≡ true → ⊥)
          → s.log ++ contents stream ≡ contents reads
          → s.p_total ≡ length s.log % 2 ^ 64
          → s.c_total ≡ length s.log % 2 ^ 64
          → let p = fill next_read (next_read stream s.inner.capacity).0 s.inner producer in
            IsFaithful reads (
              after_produce p.poll
                (record s { inner = p.inner; stream = (next_read stream s.inner.capacity).1 }))
      polled_read [] s e busy kept p_counted c_counted =
          fill-IsFaithful (ready (ok [])) s [] e busy kept p_counted c_counted
      polled_read (read ∷ rest) s e busy kept p_counted c_counted =
          fill-IsFaithful read s rest e busy kept p_counted c_counted

  -- The same two tasks with the buffer in a given state.
  abbrev in_state : BufState → Streaming → Streaming
  in_state st s = record s { inner = record s.inner { state = st } }

  produce_in :
      (st : BufState) (s : Streaming)
      → IsFaithful reads (in_state st s)
      → IsFaithful reads (produce_round (in_state st s))
  unfolding produce_round producer_poll writer_waker_save quiet after_produce
  produce_in writable s f = polled-IsFaithful s.stream (in_state writable s) refl refl f
  produce_in readable s f = record {
    kept = f.kept;
    p_counted = f.p_counted;
    c_counted = f.c_counted;
    ended = f.ended;
  }
  produce_in write_finished s f = quiet-IsFaithful (in_state write_finished s) f
  produce_in read_finished s f = quiet-IsFaithful (in_state read_finished s) f

  -- The bytes that the closure gets.
  used :
      (log buf rest : Bytes)
      → log ++ (buf ++ rest) ≡ contents reads
      → (log ++ buf) ++ ([] ++ rest) ≡ contents reads
  used log buf rest h = append_assoc log buf rest ∙ h

  consume_in :
      (st : BufState) (s : Streaming)
      → s.c_done ≡ false
      → IsFaithful reads (in_state st s)
      → IsFaithful reads (consume_round (in_state st s))
  unfolding consume_round consumer_poll use_readable use_last reader_waker_save wake_writer quiet
      after_consume
  consume_in writable s busy f = record {
    kept = f.kept;
    p_counted = f.p_counted;
    c_counted = f.c_counted;
    ended = f.ended;
  }
  consume_in readable s busy f =
      let more = length-append s.log s.inner.buf in
      let p_counted = f.p_counted in
      record {
        kept = used s.log s.inner.buf (contents s.stream) f.kept;
        p_counted = omega (arith, more);
        c_counted =
            with_count (length s.log) _ (length s.inner.buf) s.c_total f.c_counted (sym more);
        ended = λ done. cc;
      }
  consume_in write_finished s busy f =
      let more = length-append s.log s.inner.buf in
      let p_counted = f.p_counted in
      record {
        kept = used s.log s.inner.buf (contents s.stream) f.kept;
        p_counted = omega (arith, more);
        c_counted =
            with_count (length s.log) _ (length s.inner.buf) s.c_total f.c_counted (sym more);
        ended = λ done. refl;
      }
  consume_in read_finished s busy f = record {
    kept = f.kept;
    p_counted = f.p_counted;
    c_counted = add_zero (length s.log) s.c_total f.c_counted;
    ended = λ done. refl;
  }

  Streams-IsFaithful :
      (capacity : ℕ) (s : Streaming) → Streams capacity reads s → IsFaithful reads s
  unfolding ringbuf_new inner_new clone_handle
  Streams-IsFaithful capacity s starts = record {
    kept = refl;
    p_counted = refl;
    c_counted = refl;
    ended = λ done. cc;
  }
  Streams-IsFaithful capacity s (produces {s = before} run busy) =
      produce_in before.inner.state before (Streams-IsFaithful capacity before run)
  Streams-IsFaithful capacity s (consumes {s = before} run busy) =
      consume_in before.inner.state before busy (Streams-IsFaithful capacity before run)

  -- In any order of polls of `produce_from_stream` and `consume_all` on a new buffer: what has been
  -- consumed, what waits in the buffer, and what the stream still holds are together the bytes of
  -- the stream's successful reads, in order. Each loop's count is, modulo 2 ^ 64, the number of
  -- bytes that it has moved. When `consume_all` has ended, nothing waits in the buffer.
  pub Streams-kept :
      (capacity : ℕ) (s : Streaming)
      → Streams capacity reads s
      → (s.log ++ (waiting s.inner.state s.inner.buf ++ contents s.stream) ≡ contents reads)
        × (s.p_total ≡ (length s.log + length (waiting s.inner.state s.inner.buf)) % 2 ^ 64)
        × (s.c_total ≡ length s.log % 2 ^ 64)
        × (s.c_done ≡ true
            → (waiting s.inner.state s.inner.buf ≡ [])
              × (s.p_total ≡ s.c_total)
              × (s.log ++ contents s.stream ≡ contents reads))
  Streams-kept capacity s run =
      let f = Streams-IsFaithful capacity s run in
      (
        f.kept,
        f.p_counted,
        f.c_counted,
        (λ done.
            let nothing : waiting s.inner.state s.inner.buf ≡ [] =
              ap (λ st. waiting st s.inner.buf) (f.ended done) in
            let p = f.p_counted in
            let c = f.c_counted in
            (
              nothing,
              omega (arith, ap length nothing),
              subst (λ w. s.log ++ (w ++ contents s.stream) ≡ contents reads) nothing f.kept,
            )),
      )
