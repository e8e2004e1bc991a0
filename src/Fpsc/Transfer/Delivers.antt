-- ===== src/Fpsc/Transfer/Delivers.antt =====
-- What every run of a transfer comes to.
use history_chain.Base.{
  ℕ, ◌+◌, ◌*◌, ◌<◌, ◌≤◌, Bytes, [], ◌++◌, ◌≡◌, refl, sym, arith, length, true, ◌⊎◌, inl, inr,
  append-nil, IsU64,
}
use history_chain.Fpsc.Ringbuf.{
  Inner, reuse, BufState, writable, readable, write_finished, read_finished, inner_new,
  clone_handle, ringbuf_new,
}
use history_chain.Fpsc.Transfer.{
  Transfer, Party, start, start_on, Step, produces, consumes, Run, unmoved, moved,
}
use history_chain.Fpsc.Transfer.Good.{Good, GoodIn, weight, produce_in, consume_in}

module _ (source : Bytes) where
  Run-Good :
      (inner : Inner Party) (n : ℕ) (s : Transfer)
      → inner.state ≡ writable
      → 0 < inner.capacity
      → 0 < length source
      → IsU64 (length source)
      → Run (start_on inner source) n s
      → Good source s × (n + weight s ≤ 8 * length source + 1)
  unfolding start_on
  Run-Good inner n s clear room some_bytes small unmoved =
      ((room, refl, rw clear (refl, some_bytes, refl, refl, inl refl)), rw clear (omega arith))
  Run-Good inner n s clear room some_bytes small (moved {n = m} {t = t} run (produces awake left)) =
      let rec = Run-Good inner m t clear room some_bytes small run in
      let step =
        produce_in source small t t.inner.state refl (rec.0.0) (rec.0.1) (rec.0.2) awake left in
      (step.0, omega (arith, rec.1, step.1))
  Run-Good inner n s clear room some_bytes small
        (moved {n = m} {t = t} run (consumes awake open_still)) =
      let rec = Run-Good inner m t clear room some_bytes small run in
      let step =
        consume_in source small t t.inner.state refl (rec.0.0) (rec.0.1) (rec.0.2) awake
          open_still in
      (step.0, omega (arith, rec.1, step.1))

  goes_on :
      (s : Transfer) (st : BufState)
      → s.total ≡ length s.log
      → GoodIn source s st
      → ((t : Transfer) × Step s t)
        ⊎ ((s.done ≡ true) × (s.log ≡ source) × (s.total ≡ length source))
  goes_on s writable count (split, left, p, d, c) = inl (_, produces p left)
  goes_on s readable count (split, left, c, d, p) = inl (_, consumes c d)
  goes_on s write_finished count (split, none_left, c, d) = inl (_, consumes c d)
  goes_on s read_finished count (split, none_left, d) = inr (d, sym split, cc (count, split))

  kept_part :
      (s : Transfer) (st : BufState)
      → GoodIn source s st
      → (after : Bytes) × (source ≡ s.log ++ after)
  kept_part s writable (split, left, p, d, c) = (s.rest, split)
  kept_part s readable (split, left, c, d, p) = (s.inner.buf ++ s.rest, split)
  kept_part s write_finished (split, none_left, c, d) = (s.inner.buf, split)
  kept_part s read_finished (split, none_left, d) = ([], cc (split, append-nil s.log))

  -- What a transfer comes to, from any buffer that is writable.
  delivers_from :
      (inner : Inner Party) (n : ℕ) (s : Transfer)
      → inner.state ≡ writable
      → 0 < inner.capacity
      → 0 < length source
      → IsU64 (length source)
      → Run (start_on inner source) n s
      → ((after : Bytes) × (source ≡ s.log ++ after))
        × (((t : Transfer) × Step s t)
            ⊎ ((s.done ≡ true) × (s.log ≡ source) × (s.total ≡ length source)))
  delivers_from inner n s clear room some_bytes small run =
      let good = (Run-Good inner n s clear room some_bytes small run).0 in
      (kept_part s s.inner.state (good.2), goes_on s s.inner.state (good.1) (good.2))

  module _ (capacity : ℕ) (n : ℕ) (s : Transfer) (room : 0 < capacity)
      (some_bytes : 0 < length source) (small : IsU64 (length source))
      (run : Run (start capacity source) n s) where
    new_Good : Good source s × (n + weight s ≤ 8 * length source + 1)
    unfolding start ringbuf_new clone_handle inner_new
    new_Good = Run-Good (ringbuf_new capacity) n s refl room some_bytes small run

    -- A transfer of some bytes, fewer than 2 ^ 64, over a new buffer with room takes at most
    -- eight steps for each byte and one more, in whatever order the two tasks are polled.
    Run-le : n ≤ 8 * length source + 1
    Run-le = omega (arith, new_Good.1)

    -- In a transfer of some bytes, fewer than 2 ^ 64, over a new buffer with room, what the
    -- consumer has got is always the first part of the bytes; some task that is awake can go on,
    -- or `consume_all` has returned the number of the bytes and the consumer has got exactly them,
    -- in order: no wake-up is lost and nothing deadlocks.
    pub Run-delivers :
        ((after : Bytes) × (source ≡ s.log ++ after))
        × (((t : Transfer) × Step s t)
            ⊎ ((s.done ≡ true) × (s.log ≡ source) × (s.total ≡ length source)))
    unfolding start ringbuf_new clone_handle inner_new
    Run-delivers = delivers_from (ringbuf_new capacity) n s refl room some_bytes small run

-- Wherever a transfer over a new buffer with room stands, `reuse` makes the buffer fit for another
-- one: a transfer of other bytes, some and fewer than 2 ^ 64, that starts on it delivers them as one
-- on a new buffer does, whatever the first left behind.
Run-reuse :
    (capacity : ℕ) (source other : Bytes) (n m : ℕ) (s t : Transfer)
    → 0 < capacity
    → 0 < length source
    → IsU64 (length source)
    → 0 < length other
    → IsU64 (length other)
    → Run (start capacity source) n s
    → Run (start_on (reuse s.inner) other) m t
    → ((after : Bytes) × (other ≡ t.log ++ after))
      × (((u : Transfer) × Step t u)
          ⊎ ((t.done ≡ true) × (t.log ≡ other) × (t.total ≡ length other)))
unfolding reuse
Run-reuse capacity source other n m s t room some_bytes small some_others small_others run again =
    let good = (new_Good source capacity n s room some_bytes small run).0 in
    delivers_from other (reuse s.inner) m t refl (good.0) some_others small_others again
