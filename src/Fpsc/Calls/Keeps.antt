-- ===== src/Fpsc/Calls/Keeps.antt =====
-- What becomes of the bytes that `produce` takes, where the closure of `consume` may fail.
use history_chain.Base.{
  ℕ, min, Bytes, [], ◌++◌, ◌≡◌, ◌∙◌, refl, sym, ap, ◌⊎◌, inl, inr, none, some, ◌≢◌, Result, ok, err,
  panicked, length, take, take-length_le, append_assoc, append-nil, Bool, true, false, arith,
  if◌then◌else◌,
}
use history_chain.Fpsc.Ringbuf.{
  Inner, Poll, pending, ready, BufState, writable, readable, write_finished, read_finished,
  set_buf_state, write_in, poll_write, ringbuf_new, inner_new, clone_handle, wake_writer,
  wake_reader, writer_waker_save, reader_waker_save, quiet,
}
use history_chain.Fpsc.Consumer.{Closure, consumer_poll, use_readable, use_last}
use history_chain.Fpsc.Calls.{Ends, with_closure, produce, consume}

-- The bytes that `produce` took, those of successful calls of `consume`, and those that the last
-- call failed on.
pub record History : Type 0 where
  pub accepted : Bytes
  pub used : Bytes
  pub lost : Bytes

abbrev no_history : History
no_history = record { accepted = []; used = []; lost = [] }

-- `produce` returned how many of the bytes it took.
abbrev note_produce : Poll (Result ℕ) → Bytes → History → History
note_produce (ready (ok n)) source h = record h { accepted = h.accepted ++ take n source }
note_produce (ready _) source h = h
note_produce pending source h = h

-- `consume` returned how many of the bytes in the buffer it used; where it failed on the last
-- ones, they are lost.
abbrev note_consume : BufState → Poll (Result ℕ) → Bytes → History → History
note_consume s (ready (ok n)) buf h = record h { used = h.used ++ take n buf }
note_consume write_finished (ready (err e)) buf h = record h { lost = h.lost ++ buf }
note_consume _ _ buf h = h

-- What a state leaves to be consumed.
abbrev pub waiting : BufState → Bytes → Bytes
waiting writable buf = []
waiting readable buf = buf
waiting write_finished buf = buf
waiting read_finished buf = []

regroup : (u l t : Bytes) → (u ++ (l ++ [])) ++ t ≡ u ++ (l ++ t)
regroup u l t = ap (λ q. (u ++ q) ++ t) (append-nil l) ∙ append_assoc u l t

-- Bytes that wait, and are used up.
used_up :
    (h : History) (buf : Bytes)
    → h.accepted ≡ h.used ++ (h.lost ++ buf)
    → h.lost ≡ []
    → h.accepted ≡ (h.used ++ take (length buf) buf) ++ (h.lost ++ [])
used_up h buf e nothing =
    e
    ∙ ap (λ q. h.used ++ (q ++ buf)) nothing
    ∙ ap (λ q. h.used ++ q) (sym (take-length_le (length buf) buf (omega arith)))
    ∙ sym (append-nil (h.used ++ take (length buf) buf))
    ∙ ap (λ q. (h.used ++ take (length buf) buf) ++ (q ++ [])) (sym nothing)

module _ {W : Type 0} where
  -- The bytes taken are those used, then those lost, then those that wait; none are lost before the
  -- last have been handed on.
  pub record Accounts (h : History) (i : Inner W) : Type 0 where
    pub bytes : h.accepted ≡ h.used ++ (h.lost ++ waiting i.state i.buf)
    pub losses : (h.lost ≡ []) ⊎ (i.state ≡ read_finished)

  none_lost : (h : History) (i : Inner W) → Accounts h i → i.state ≢ read_finished → h.lost ≡ []
  none_lost h i a ne = elim a.losses [ inl e ↦ e | inr e ↦ absurd (ne e) ]

  fills :
      (h : History) (i : Inner W) (n : ℕ) (source : Bytes) (all : Bool)
      → Accounts h (set_buf_state i writable)
      → Accounts
          (record h { accepted = h.accepted ++ take n source })
          (record i {
            buf = take n source;
            state = if all then write_finished else readable;
            r_waker = none;
          })
  fills h i n source true a = record {
    bytes = ap (λ q. q ++ take n source) a.bytes ∙ regroup h.used h.lost (take n source);
    losses = inl (none_lost h (set_buf_state i writable) a (λ e. cc));
  }
  fills h i n source false a = record {
    bytes = ap (λ q. q ++ take n source) a.bytes ∙ regroup h.used h.lost (take n source);
    losses = inl (none_lost h (set_buf_state i writable) a (λ e. cc));
  }

  produce-Accounts :
      (s : BufState) (h : History) (i : Inner W) (w : W) (source : Bytes)
      → Accounts h (set_buf_state i s)
      → let polled = write_in s (set_buf_state i s) w source in
        Accounts (note_produce polled.poll source h) polled.inner
  unfolding write_in wake_reader writer_waker_save
  produce-Accounts writable h i w source a = fills h i (min i.capacity (length source)) source _ a
  produce-Accounts readable h i w source a = record { bytes = a.bytes; losses = a.losses }
  produce-Accounts write_finished h i w source a = record {
    bytes = append-nil h.accepted ∙ a.bytes;
    losses = a.losses;
  }
  produce-Accounts read_finished h i w source a = record {
    bytes = append-nil h.accepted ∙ a.bytes;
    losses = a.losses;
  }

  module _ {C : Type 0} (f : Closure C) where
    after_readable :
        (r : Result (Unit {0})) (h : History) (i : Inner W)
        → Accounts h (set_buf_state i readable)
        → let polled = use_readable (some f) r (set_buf_state i readable) in
          Accounts (note_consume readable polled.poll i.buf h) polled.inner
    unfolding use_readable wake_writer quiet
    after_readable (ok u) h i a =
        let nothing = none_lost h (set_buf_state i readable) a (λ e. cc) in
        record { bytes = used_up h i.buf a.bytes nothing; losses = inl nothing }
    after_readable (err e) h i a = a
    after_readable panicked h i a = a

    after_last :
        (r : Result (Unit {0})) (h : History) (i : Inner W)
        → Accounts h (set_buf_state i write_finished)
        → let polled = use_last (some f) r (set_buf_state i write_finished) in
          Accounts (note_consume write_finished polled.poll i.buf h) polled.inner
    unfolding use_last quiet
    after_last (ok u) h i a =
        let nothing = none_lost h (set_buf_state i write_finished) a (λ e. cc) in
        record { bytes = used_up h i.buf a.bytes nothing; losses = inr refl }
    after_last (err e) h i a =
        let nothing = none_lost h (set_buf_state i write_finished) a (λ e. cc) in
        record {
          bytes = a.bytes ∙ ap (λ q. h.used ++ q) (sym (append-nil (h.lost ++ i.buf)));
          losses = inr refl;
        }
    after_last panicked h i a = a

    consume-Accounts :
        (same : (c : C) (b : Bytes) → (f.call c b).2 ≡ b) (s : BufState) (h : History) (i : Inner W)
        (c : C) (w : W)
        → Accounts h (set_buf_state i s)
        → let polled = (consumer_poll (some f) (set_buf_state i s) c w).0 in
          Accounts (note_consume s polled.poll i.buf h) polled.inner
    unfolding consumer_poll reader_waker_save quiet
    consume-Accounts same writable h i c w a = record { bytes = a.bytes; losses = a.losses }
    consume-Accounts same readable h i c w a =
        rw (same c i.buf) (after_readable ((f.call c i.buf).0) h i a)
    consume-Accounts same write_finished h i c w a =
        rw (same c i.buf) (after_last ((f.call c i.buf).0) h i a)
    consume-Accounts same read_finished h i c w a = record {
      bytes = a.bytes ∙ ap (λ q. q ++ (h.lost ++ [])) (sym (append-nil h.used));
      losses = a.losses;
    }

-- Calls of `produce` and `consume` in any order, on the two ends that `with_closure` makes; a call
-- that waits is polled again by another step.
pub data Calls {W C : Type 0} (f : Closure C) : History → Ends W C → C → Type 0 where
  starts : (capacity : ℕ) (captured : C) → Calls f no_history (with_closure capacity f) captured
  produces :
      {h : History} {ends : Ends W C} {captured : C} (w : W) (source : Bytes)
      → Calls f h ends captured
      → Calls f
          (note_produce ((produce w source ends).0) source h)
          ((produce w source ends).1)
          captured
  consumes :
      {h : History} {ends : Ends W C} {captured : C} (w : W)
      → Calls f h ends captured
      → Calls f
          (note_consume ends.inner.state ((consume w captured ends).0) ends.inner.buf h)
          ((consume w captured ends).1)
          ((consume w captured ends).2)

module _ {W C : Type 0} (f : Closure C) (same : (c : C) (b : Bytes) → (f.call c b).2 ≡ b) where
  task_stays :
      (h : History) (ends : Ends W C) (captured : C) → Calls f h ends captured → ends.task ≡ some f
  unfolding with_closure produce consume
  task_stays h ends captured (starts capacity c) = refl
  task_stays h ends captured (produces w source calls) = task_stays _ _ _ calls
  task_stays h ends captured (consumes w calls) = task_stays _ _ _ calls

  -- In any order of polls of `produce` and `consume`, with a closure that may fail and leaves the
  -- bytes as they are: what `produce` said it took are the bytes of the successful calls of
  -- `consume`, in order and by their counts, then those that the closure failed on behind the last
  -- write, then those that wait in the buffer. Bytes are lost only once the buffer is read to its end; where the
  -- closure fails before, they wait for another call.
  pub Calls-Accounts :
      (h : History) (ends : Ends W C) (captured : C)
      → Calls f h ends captured
      → Accounts h ends.inner
  unfolding with_closure produce consume poll_write ringbuf_new inner_new clone_handle
  Calls-Accounts h ends captured (starts capacity c) = record { bytes = refl; losses = inl refl }
  Calls-Accounts h ends captured (produces {h = before} {ends = old} w source calls) =
      produce-Accounts old.inner.state before old.inner w source (Calls-Accounts _ _ _ calls)
  Calls-Accounts h ends captured (consumes {h = before} {ends = old} {captured = c} w calls) =
      rw (task_stays _ _ _ calls)
        (consume-Accounts f same old.inner.state before old.inner c w (Calls-Accounts _ _ _ calls))
