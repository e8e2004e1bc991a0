-- ===== src/Serializer/Stuck.antt =====
-- A datum that the grown buffer has no room for.
use history_chain.Base.{
  ℕ, zero, suc, ◌+◌, ◌-◌, ◌*◌, ◌≤◌, ◌<◌, Bytes, ◌++◌, ◌≡◌, ◌∙◌, refl, some, none, panicked, arith,
  length, take, drop, le→ltb, lt→ltb, replicate, length-replicate, length-append, length-take,
  length-drop,
}
use history_chain.Serializer.{Encoded, unexpected_end, encode_one, encode_end, resize, buffer_size}

pub length-resize : (n : ℕ) (buffer : Bytes) → length (resize n buffer) ≡ n
unfolding resize
length-resize n buffer =
    length-append (take n buffer) (replicate (n - length buffer) 0)
    ∙ omega (arith, length-take n buffer, length-replicate {A = ℕ} (n - length buffer) 0)

module _ {D : Type 0} (encode_into_slice : D → Bytes → Encoded × Bytes) (d : D) (size : ℕ)
    -- What bincode documents of a slice that is too short for the datum.
    (too_short : (slice : Bytes)
      → length slice < size
      → (slice' : Bytes) × (encode_into_slice d slice ≡ (unexpected_end, slice'))
        × (length slice' ≡ length slice)) where
  encode_one-none :
      (fuel offset : ℕ) (dst : Bytes)
      → offset + 4 ≤ length dst
      → length dst < offset + 4 + size
      → offset + 4 ≤ 2 * buffer_size
      → 2 * buffer_size < offset + 4 + size
      → encode_one encode_into_slice fuel d offset dst ≡ none
  unfolding encode_one encode_end
  encode_one-none zero offset dst inside small inside' small' = refl
  encode_one-none (suc fuel) offset dst inside small inside' small' =
      let slice = drop (offset + 4) dst in
      let (slice', answer, same) = too_short slice (omega (arith, length-drop (offset + 4) dst)) in
      let grown = resize (buffer_size * (1 + 1) * 1) (take (offset + 4) dst ++ slice') in
      let wide : length grown ≡ 2 * buffer_size =
        length-resize _ (take (offset + 4) dst ++ slice') ∙ refl in
      rw (le→ltb (length dst) (offset + 4) inside) (
        rw answer (
          encode_one-none fuel offset grown (omega (arith, wide)) (omega (arith, wide)) inside'
            small'))

  encode_one-short :
      (fuel offset : ℕ) (dst : Bytes)
      → length dst < offset + 4
      → encode_one encode_into_slice (suc fuel) d offset dst ≡ some panicked
  unfolding encode_one
  encode_one-short fuel offset dst short = rw (lt→ltb (length dst) (offset + 4) short) refl

  -- A buffer and a buffer of 256 KiB that both have room for the size header behind the offset, but not
  -- for the header and the datum's encoding: they keep `encode_vec_into` in its loop, whatever the
  -- number of rounds, since each round resizes the buffer to 256 KiB again. With a buffer that has
  -- no room for the header the first round panics.
  pub encode_one-stuck :
      (fuel offset : ℕ) (dst short : Bytes)
      → offset + 4 ≤ length dst
      → length dst < offset + 4 + size
      → offset + 4 ≤ 2 * buffer_size
      → 2 * buffer_size < offset + 4 + size
      → length short < offset + 4
      → (encode_one encode_into_slice fuel d offset dst ≡ none)
        × (encode_one encode_into_slice (suc fuel) d offset short ≡ some panicked)
  encode_one-stuck fuel offset dst short inside small inside' small' few = (
    encode_one-none fuel offset dst inside small inside' small',
    encode_one-short fuel offset short few,
  )
