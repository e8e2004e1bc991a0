-- ===== src/Serializer/Grows.antt =====
-- `encode_into_vec_with_header` of src/serializer.rs, which doubles its vector until the datum fits.
-- `none` is a loop that runs out of fuel.
use native.Mathlib.Nat.{pow-suc, mul_assoc}
use history_chain.Base.{
  ℕ, zero, suc, ◌+◌, ◌*◌, ◌^◌, ◌≤◌, ◌<◌, Bytes, ◌++◌, ◌≡◌, ◌≢◌, ◌∙◌, refl, sym, ap, subst, Option,
  none, some, Result, ok, err, panicked, HError, arith, length, take, drop, ltb, le→ltb, lt→ltb,
  if◌then◌else◌, be_bytes, length-be_bytes, as_u32, as_u32-fits, Bool-cases, inl, inr, length-drop,
  take-append_more, take-append_left,
}
use history_chain.Serializer.{Encoded, written, unexpected_end, other_error, buffer_size, resize}
use history_chain.Serializer.Decode.{frame}
use history_chain.Serializer.Stuck.{length-resize}
use history_chain.Serializer.Writes.{Serializer}

abbrev biggest_buffer_size : ℕ
biggest_buffer_size = 1024 * buffer_size

-- What the loop comes to: the result, the serializer and the vector.
abbrev pub Outcome : Type 0 → Type 0
Outcome D = Option (Result ℕ × (Serializer D × Bytes))

two_powers : (n : ℕ) → 2 ^ suc n ≡ 2 * 2 ^ n
two_powers n = omega (arith, pow-suc 2 n)

doubled : (size fuel : ℕ) → 2 ^ 27 < size * 2 ^ suc (suc fuel) → 2 ^ 27 < (size * 2) * 2 ^ suc fuel
doubled size fuel h =
    subst (λ x. 2 ^ 27 < x)
      (ap (λ x. size * x) (two_powers (suc fuel)) ∙ sym (mul_assoc size 2 (2 ^ suc fuel))) h

module _ {D : Type 0} where
  -- The arms of the `match`, at a vector of `size` bytes whose first four are `head`; `again` is the next
  -- round.
  grow_end : Encoded → D → ℕ → Bytes → Bytes → Serializer D → (ℕ → Bytes → Outcome D) → Outcome D
  unfolding resize
  grow_end unexpected_end d size head rest serializer again =
      if ltb biggest_buffer_size (size * 2)
      then some (
        err (HError.message "the buffer is too big to use a lot of memory, size: {}"),
        (serializer, head ++ rest),
      )
      else again (size * 2) (resize (size * 2) (head ++ rest))
  grow_end other_error d size head rest serializer again =
      some (
        err (HError.message "error in serializer encode_into_slice {}"),
        (serializer, head ++ rest),
      )
  grow_end (written n) d size head rest serializer again =
      some (ok (4 + n), (record serializer { datum = some d }, be_bytes 4 (as_u32 n) ++ rest))

  module _ (encode_into_slice : D → Bytes → Encoded × Bytes) where
    grow : ℕ → D → Serializer D → ℕ → Bytes → Outcome D
    unfolding grow_end
    grow zero d serializer size dst = none
    grow (suc fuel) d serializer size dst =
        let (result, rest) = encode_into_slice d (drop 4 dst) in
        if ltb (length dst) 4
        then some (panicked, (serializer, dst))
        else grow_end result d size (take 4 dst) rest serializer
            (λ size' dst'. grow fuel d serializer size' dst')

    pub encode_into_vec_with_header : ℕ → Serializer D → Bytes → Outcome D
    unfolding grow
    encode_into_vec_with_header fuel serializer dst = elim (serializer.datum) [
      | none ↦ some (
        err (HError.message "error in serializer encode_into_slice error: no data"),
        (serializer, dst),
      )
      | some d ↦ grow fuel d (record serializer { datum = none }) (length dst) dst
    ]

    grow_end-some :
        (result : Encoded) (d : D) (size : ℕ) (head rest : Bytes) (serializer : Serializer D)
        (again : ℕ → Bytes → Outcome D)
        → ((dst : Bytes) → size * 2 ≤ biggest_buffer_size → again (size * 2) dst ≢ none)
        → grow_end result d size head rest serializer again ≢ none
    unfolding grow_end
    grow_end-some unexpected_end d size head rest serializer again h =
        elim (Bool-cases (ltb biggest_buffer_size (size * 2))) [
          | inl over ↦ rw over (λ p. cc)
          | inr below ↦
              let fits : size * 2 ≤ biggest_buffer_size = ground arith in
              rw below (h (resize (size * 2) (head ++ rest)) fits)
        ]
    grow_end-some other_error d size head rest serializer again h = λ p. cc
    grow_end-some (written n) d size head rest serializer again h = λ p. cc

    round-some :
        (fuel : ℕ) (d : D) (serializer : Serializer D) (size : ℕ) (dst : Bytes)
        → ((dst' : Bytes)
            → size * 2 ≤ biggest_buffer_size
            → grow fuel d serializer (size * 2) dst' ≢ none)
        → grow (suc fuel) d serializer size dst ≢ none
    unfolding grow
    round-some fuel d serializer size dst h = elim (Bool-cases (ltb (length dst) 4)) [
      | inl short ↦ rw short (λ p. cc)
      | inr long ↦ rw long (grow_end-some _ d size (take 4 dst) _ serializer _ h)
    ]

    grow-some :
        (fuel : ℕ) (d : D) (serializer : Serializer D) (size : ℕ) (dst : Bytes)
        → 2 ^ 27 < size * 2 ^ suc fuel
        → grow (suc fuel) d serializer size dst ≢ none
    grow-some zero d serializer size dst enough =
        round-some zero d serializer size dst (λ dst' fits. absurd (omega arith))
    grow-some (suc fuel) d serializer size dst enough =
        round-some (suc fuel) d serializer size dst
          (λ dst' fits. grow-some fuel d serializer (size * 2) dst' (doubled size fuel enough))

    ends_from :
        (o : Option D) (serializer : Serializer D) (dst : Bytes)
        → o ≡ serializer.datum
        → 4 ≤ length dst
        → encode_into_vec_with_header 26 serializer dst ≢ none
    unfolding encode_into_vec_with_header
    ends_from none serializer dst same four = rw (sym same) (λ p. cc)
    ends_from (some d) serializer dst same four =
        rw (sym same) (grow-some 25 d _ (length dst) dst (omega arith))

    -- What bincode documents of the datum's encoding and a slice.
    pub record Sized (d : D) (e : Bytes) : Type 0 where
      pub fits :
          (part : Bytes)
          → length e ≤ length part
          → encode_into_slice d part ≡ (written (length e), e ++ drop (length e) part)
      pub too_short :
          (part : Bytes)
          → length part < length e
          → (part' : Bytes) × (encode_into_slice d part ≡ (unexpected_end, part'))

    Grown : ℕ → D → Bytes → Serializer D → ℕ → Bytes → Type 0
    Grown fuel d e serializer size dst =
        (dst' : Bytes) × (grow fuel d serializer size dst
          ≡ some (ok (4 + length e), (record serializer { datum = some d }, dst')))
        × (take (4 + length e) dst' ≡ frame e)

    round-again :
        (fuel : ℕ) (d : D) (serializer : Serializer D) (size : ℕ) (dst part' : Bytes)
        → encode_into_slice d (drop 4 dst) ≡ (unexpected_end, part')
        → 4 ≤ length dst
        → size * 2 ≤ 2 ^ 27
        → grow (suc fuel) d serializer size dst
          ≡ grow fuel d serializer (size * 2) (resize (size * 2) (take 4 dst ++ part'))
    unfolding grow grow_end
    round-again fuel d serializer size dst part' missed four below =
        rw
          (
            le→ltb (length dst) 4 four,
            missed,
            grow_end,
            le→ltb biggest_buffer_size (size * 2) below,
          )
          refl

    grow-fits :
        (fuel : ℕ) (d : D) (e : Bytes) (serializer : Serializer D) (size : ℕ) (dst : Bytes)
        → Sized d e
        → length e + 4 ≤ length dst
        → length e < 2 ^ 32
        → Grown (suc fuel) d e serializer size dst
    unfolding Grown grow grow_end
    grow-fits fuel d e serializer size dst sized room small =
        let behind = drop (length e) (drop 4 dst) in
        let front : take (4 + length e) (be_bytes 4 (length e) ++ (e ++ behind)) ≡ frame e =
          take-append_more (4 + length e) (length e) (be_bytes 4 (length e)) (e ++ behind)
            (omega (arith, length-be_bytes 4 (length e)))
          ∙ ap (λ l. be_bytes 4 (length e) ++ l) (take-append_left (length e) e behind refl) in
        (
          be_bytes 4 (length e) ++ (e ++ behind),
          rw
              (
                le→ltb (length dst) 4 (omega arith),
                sized.fits (drop 4 dst) (omega (arith, length-drop 4 dst)),
                grow_end,
                as_u32-fits (length e) small,
              )
              refl,
          front,
        )

    grow-frame :
        (fuel : ℕ) (d : D) (e : Bytes) (serializer : Serializer D) (size : ℕ) (dst : Bytes)
        → Sized d e
        → length dst ≡ size
        → 4 ≤ size
        → length e + 4 ≤ 2 ^ 26
        → 2 ^ 27 < size * 2 ^ suc fuel
        → Grown (suc fuel) d e serializer size dst
    unfolding Grown
    grow-frame zero d e serializer size dst sized long four small enough =
        grow-fits zero d e serializer size dst sized (omega arith) (omega arith)
    grow-frame (suc fuel) d e serializer size dst sized long four small enough =
        elim (Bool-cases (ltb (length (drop 4 dst)) (length e))) [
          | inl short ↦
              let shorter : length (drop 4 dst) < length e = ground arith in
              let (part', missed) = sized.too_short (drop 4 dst) shorter in
              let bigger = resize (size * 2) (take 4 dst ++ part') in
              let (dst', done, front) =
                grow-frame fuel d e serializer (size * 2) bigger sized
                  (length-resize (size * 2) (take 4 dst ++ part')) (omega arith) small
                  (doubled size fuel enough) in
              (
                dst',
                round-again (suc fuel) d serializer size dst part' missed (omega arith)
                      (omega (arith, length-drop 4 dst))
                    ∙ done,
                front,
              )
          | inr wide ↦
              let wider : length e ≤ length (drop 4 dst) = ground arith in
              grow-fits (suc fuel) d e serializer size dst sized (omega (arith, length-drop 4 dst))
                (omega arith)
        ]

    grow-short :
        (fuel : ℕ) (d : D) (serializer : Serializer D) (size : ℕ) (dst : Bytes)
        → length dst < 4
        → grow (suc fuel) d serializer size dst ≡ some (panicked, (serializer, dst))
    unfolding grow
    grow-short fuel d serializer size dst short = rw (lt→ltb (length dst) 4 short) refl

    -- With 26 rounds and a vector of four bytes at least, `encode_into_vec_with_header` ends for every
    -- serializer; a datum whose encoding and header take at most 64 MiB is encoded, however short
    -- that vector is: the call returns their size, the vector starts with the header and the
    -- encoding, and the serializer has its datum back. With a vector of fewer than four bytes the
    -- call panics instead of growing it, and the serializer's datum is gone.
    pub encode_into_vec_with_header-frame :
        (d : D) (e buffer dst short : Bytes)
        → Sized d e
        → 4 ≤ length dst
        → length e + 4 ≤ 2 ^ 26
        → length short < 4
        → ((serializer : Serializer D) → encode_into_vec_with_header 26 serializer dst ≢ none)
          × ((dst' : Bytes) × (encode_into_vec_with_header 26
                  (record { buffer = buffer; datum = some d })
                  dst
                ≡ some (ok (4 + length e), (record { buffer = buffer; datum = some d }, dst')))
              × (take (4 + length e) dst' ≡ frame e))
          × (encode_into_vec_with_header 26 (record { buffer = buffer; datum = some d }) short
              ≡ some (panicked, (record { buffer = buffer; datum = none }, short)))
    unfolding encode_into_vec_with_header Grown
    encode_into_vec_with_header-frame d e buffer dst short sized four small few = (
      (λ serializer. ends_from serializer.datum serializer dst refl four),
      grow-frame 25 d e (record { buffer = buffer; datum = none }) (length dst) dst sized refl four
          small (omega arith),
      grow-short 25 d (record { buffer = buffer; datum = none }) (length short) short few,
    )
