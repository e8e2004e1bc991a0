-- ===== src/Fpsc/Transfer/Good.antt =====
-- What holds in each state of a transfer, the weight of what is left to do, and the steps.
use history_chain.Base.{
  ℕ, ◌+◌, ◌*◌, ◌<◌, ◌≤◌, min, Bytes, [], ◌++◌, ◌≡◌, ◌∙◌, refl, sym, ap, some, arith, length, Bool,
  true, false, ◌⊎◌, inl, inr, length-append, length-drop, take-append-drop, append_assoc,
  append-nil, take-length_le, ◌==◌, ==_iff, Bool-cases, add_u64, add_u64-fits, IsU64, ◌||◌, Option,
}
use history_chain.Fpsc.Ringbuf.{
  BufState, writable, readable, write_finished, read_finished, poll_write, write_in, wake_reader,
  wake_writer, reader_waker_save, writer_waker_save, quiet, wakes,
}
use history_chain.Fpsc.Consumer.{consumer_poll, use_readable, use_last}
use history_chain.Fpsc.Transfer.{
  Party, producer, consumer, Transfer, produce_step, consume_step, wakes_producer, wakes_consumer,
}

-- A task is awake, or the buffer holds its waker.
abbrev Wakes : Bool → Option Party → Party → Type 0
Wakes awake waker party = (awake ≡ true) ⊎ (waker ≡ some party)

abbrev pub GoodIn : Bytes → Transfer → BufState → Type 0
GoodIn source s writable =
    (source ≡ s.log ++ s.rest)
    × (0 < length s.rest)
    × (s.p_awake ≡ true)
    × (s.done ≡ false)
    × Wakes s.c_awake s.inner.r_waker consumer
GoodIn source s readable =
    (source ≡ s.log ++ (s.inner.buf ++ s.rest))
    × (0 < length s.rest)
    × (s.c_awake ≡ true)
    × (s.done ≡ false)
    × Wakes s.p_awake s.inner.w_waker producer
GoodIn source s write_finished =
    (source ≡ s.log ++ s.inner.buf) × (length s.rest ≡ 0) × (s.c_awake ≡ true) × (s.done ≡ false)
GoodIn source s read_finished = (source ≡ s.log) × (length s.rest ≡ 0) × (s.done ≡ true)

abbrev pub Good : Bytes → Transfer → Type 0
Good source s = (0 < s.inner.capacity) × (s.total ≡ length s.log) × GoodIn source s s.inner.state

abbrev bit : Bool → ℕ
bit true = 1
bit false = 0

abbrev weight_in : Transfer → BufState → ℕ
weight_in s writable = 8 * length s.rest + bit s.c_awake
weight_in s readable = 8 * length s.rest + 3 + bit s.p_awake
weight_in s write_finished = 2
weight_in s read_finished = 0

-- What is left to do.
abbrev pub weight : Transfer → ℕ
weight s = weight_in s s.inner.state

bit-le : (b : Bool) → bit b ≤ 1
bit-le true = omega arith
bit-le false = omega arith

woken_consumer :
    (awake : Bool) (waker : Option Party)
    → Wakes awake waker consumer
    → (awake || wakes_consumer (wakes waker)) ≡ true
unfolding wakes
woken_consumer true waker h = refl
woken_consumer false waker (inl e) = absurd cc
woken_consumer false waker (inr e) = rw e refl

woken_producer :
    (awake : Bool) (waker : Option Party)
    → Wakes awake waker producer
    → (awake || wakes_producer (wakes waker)) ≡ true
unfolding wakes
woken_producer true waker h = refl
woken_producer false waker (inl e) = absurd cc
woken_producer false waker (inr e) = rw e refl

still_awake : (a b : Bool) → a ≡ true → (a || b) ≡ true
still_awake true b h = refl
still_awake false b h = absurd cc

part_lt : (c n : ℕ) → (min c n == n) ≡ false → min c n < n
part_lt c n h = ground arith

module _ (source : Bytes) (small : IsU64 (length source)) (s : Transfer) where
  -- What a step of the producer does, in each state in which it has bytes left.
  pub produce_in :
      (st : BufState)
      → s.inner.state ≡ st
      → 0 < s.inner.capacity
      → s.total ≡ length s.log
      → GoodIn source s st
      → s.p_awake ≡ true
      → 0 < length s.rest
      → Good source (produce_step s) × (weight (produce_step s) < weight_in s st)
  unfolding produce_step poll_write write_in wake_reader writer_waker_save
  produce_in writable e room count (split, left, p, d, c) awake more =
      rw e (elim (Bool-cases (min s.inner.capacity (length s.rest) == length s.rest)) [
        | inl all ↦
            let n = (==_iff (min s.inner.capacity (length s.rest)) (length s.rest)).0 all in
            rw all (
              (
                room,
                count,
                (
                  split
                      ∙ ap (λ l. s.log ++ l)
                          (sym (
                            take-length_le (min s.inner.capacity (length s.rest)) s.rest
                              (omega arith))),
                  omega (arith, length-drop (min s.inner.capacity (length s.rest)) s.rest),
                  woken_consumer s.c_awake s.inner.r_waker c,
                  d,
                ),
              ),
              omega arith,
            )
        | inr part ↦
            let short = length-drop (min s.inner.capacity (length s.rest)) s.rest in
            let n = part_lt s.inner.capacity (length s.rest) part in
            rw part (
              (
                room,
                count,
                (
                  split
                      ∙ ap (λ l. s.log ++ l)
                          (sym (take-append-drop (min s.inner.capacity (length s.rest)) s.rest)),
                  omega arith,
                  woken_consumer s.c_awake s.inner.r_waker c,
                  d,
                  inl refl,
                ),
              ),
              omega arith,
            )
      ])
  produce_in readable e room count (split, left, c, d, p) awake more = rw e (
    (room, count, (split, left, still_awake s.c_awake false c, d, inr refl)),
    omega (arith, ap bit awake),
  )
  produce_in write_finished e room count (split, none_left, c, d) awake more = absurd (omega arith)
  produce_in read_finished e room count (split, none_left, d) awake more = absurd (omega arith)

  split_length : (xs ys : Bytes) → source ≡ xs ++ ys → length source ≡ length xs + length ys
  split_length xs ys split = ap length split ∙ length-append xs ys

  -- The count of the consumer does not wrap.
  counted :
      (x y : Bytes)
      → s.total ≡ length s.log
      → source ≡ s.log ++ (x ++ y)
      → add_u64 s.total (length x) ≡ length (s.log ++ x)
  counted x y count split =
      add_u64-fits s.total (length x)
        (omega (arith, split_length s.log (x ++ y) split, length-append x y))
      ∙ omega (arith, length-append s.log x)

  -- What a step of the consumer does, in each state.
  pub consume_in :
      (st : BufState)
      → s.inner.state ≡ st
      → 0 < s.inner.capacity
      → s.total ≡ length s.log
      → GoodIn source s st
      → s.c_awake ≡ true
      → s.done ≡ false
      → Good source (consume_step s) × (weight (consume_step s) < weight_in s st)
  unfolding consume_step consumer_poll use_readable use_last quiet wake_writer reader_waker_save
  consume_in writable e room count (split, left, p, d, c) awake more = rw e (
    (
      room,
      add_u64-fits s.total 0 (omega (arith, split_length s.log s.rest split)) ∙ omega arith,
      (split, left, still_awake s.p_awake false p, refl, inr refl),
    ),
    omega (arith, ap bit awake),
  )
  consume_in readable e room count (split, left, c, d, p) awake more = rw e (
    (
      room,
      counted s.inner.buf s.rest count split,
      (
        split ∙ sym (append_assoc s.log s.inner.buf s.rest),
        left,
        woken_producer s.p_awake s.inner.w_waker p,
        refl,
        inl refl,
      ),
    ),
    omega arith,
  )
  consume_in write_finished e room count (split, none_left, c, d) awake more = rw e (
    (
      room,
      counted s.inner.buf [] count (split ∙ ap (λ l. s.log ++ l) (sym (append-nil s.inner.buf))),
      (split, none_left, refl),
    ),
    omega arith,
  )
  consume_in read_finished e room count (split, none_left, d) awake more = absurd cc
