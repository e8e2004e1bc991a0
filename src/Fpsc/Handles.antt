-- ===== src/Fpsc/Handles.antt =====
-- The handles on one buffer: `Ringbuf::new`, `clone` and `drop`, and the reference counter.
use history_chain.Base.{
  ℕ, suc, ◌<◌, ◌≡◌, ◌∙◌, refl, Option, none, some, arith, IsU64, add_u64, add_u64-fits,
  sub_u64-fits, Bool-cases, ◌==◌, ==_iff, inl, inr,
}
use history_chain.Fpsc.Ringbuf.{Inner, inner_new, clone_handle, ringbuf_new, drop_handle}

module _ {W : Type 0} (capacity : ℕ) where
  -- So many handles are held on the buffer, or it is freed. Whoever holds one may clone it, drop
  -- it, or use the buffer in ways that leave the counter.
  pub data Held : ℕ → Option (Inner W) → Type 0 where
    created : Held 2 (some (ringbuf_new capacity))
    cloned :
        {n : ℕ} {i : Inner W}
        → IsU64 (suc n)
        → Held n (some i)
        → 0 < n
        → Held (suc n) (some (clone_handle i))
    dropped : {n : ℕ} {i : Inner W} → Held (suc n) (some i) → Held n (drop_handle i)
    used :
        {n : ℕ} {i j : Inner W} → j.counter ≡ i.counter → Held n (some i) → 0 < n → Held n (some j)

  -- The buffer is there, counting its handles, or it is freed and no handle is left.
  abbrev pub Counts : ℕ → Option (Inner W) → Type 0
  Counts n (some i) = (0 < n) × (i.counter ≡ n) × IsU64 n
  Counts n none = n ≡ 0

  drop_handle-Counts : (n : ℕ) (i : Inner W) → Counts (suc n) (some i) → Counts n (drop_handle i)
  unfolding drop_handle
  drop_handle-Counts n i (live, count, small) = elim (Bool-cases (i.counter == 1)) [
    | inl final ↦ let e = (==_iff i.counter 1).0 final in rw final (omega arith)
    | inr more ↦ rw more (
      ground arith,
      sub_u64-fits i.counter 1 (omega arith) (omega arith) ∙ omega arith,
      omega arith,
    )
  ]

  -- However the handles are cloned, dropped and used, below 2 ^ 64 at a time, the buffer is freed
  -- exactly when the last one is dropped: while it lives its counter is their number.
  pub Held-Counts : (n : ℕ) (o : Option (Inner W)) → Held n o → Counts n o
  unfolding ringbuf_new clone_handle inner_new add_u64
  Held-Counts n o created = (omega arith, refl, omega arith)
  Held-Counts n o (cloned {n = m} {i = i} small held live) =
      let rec = Held-Counts m (some i) held in
      (omega arith, add_u64-fits i.counter 1 (omega (arith, rec.1)) ∙ omega (arith, rec.1), small)
  Held-Counts n o (dropped {i = i} held) =
      drop_handle-Counts n i (Held-Counts (suc n) (some i) held)
  Held-Counts n o (used {i = i} same held live) =
      let rec = Held-Counts n (some i) held in (rec.0, cc (same, rec.1), rec.2)
