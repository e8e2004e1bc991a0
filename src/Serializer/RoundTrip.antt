-- ===== src/Serializer/RoundTrip.antt =====
-- Encoding into a buffer with room for all, and decoding what was written.
use history_chain.Base.{
  ℕ, suc, ◌+◌, ◌≤◌, Bytes, List, [], ◌∷◌, ◌++◌, map, ◌≡◌, ◌∙◌, refl, sym, ap, Option, none, some,
  Result, ok, arith, length, take, drop, le→ltb, be_bytes, as_u32-fits, length-append, length-drop,
  length-take, take-append-drop, take-append_left, drop-append_left, append_assoc, append-nil,
  IsU32, All,
}
use history_chain.Serializer.{
  Encoded, written, encode_one, encode_from, encode_vec_into, decode_from_slice_with_header,
  save_size_header_into_slice, encode_end,
}
use history_chain.Serializer.Decode.{
  frame, frames, length-frame, Decodes, decode_from_slice_with_header-frames,
}

-- What is relied on of bincode: each datum has an encoding, which is written at the front of a slice
-- that it fits, and which decodes to the datum.
pub record IsCodec {D : Type 0} (encode_into_slice : D → Bytes → Encoded × Bytes)
    (decode : Bytes → Option D) (enc : D → Bytes) : Type 0 where
  pub fits :
      (d : D) (slice : Bytes)
      → length (enc d) ≤ length slice
      → encode_into_slice d slice ≡ (written (length (enc d)), enc d ++ drop (length (enc d)) slice)
  pub reads : (d : D) → decode (enc d) ≡ some d

module _ {D : Type 0} {encode_into_slice : D → Bytes → Encoded × Bytes} {decode : Bytes → Option D}
    {enc : D → Bytes} (codec : IsCodec encode_into_slice decode enc) where
  header_put :
      (d : D) (before gap after : Bytes) (retry : Bytes → Option (Result (ℕ × Bytes)))
      → length gap ≡ 4
      → IsU32 (length (enc d))
      → encode_end (written (length (enc d))) (length before) ((before ++ gap) ++ after) retry
        ≡ some (
            ok (
              length before + 4 + length (enc d),
              before ++ (be_bytes 4 (length (enc d)) ++ after),
            ))
  unfolding encode_end save_size_header_into_slice
  header_put d before gap after retry four small = rw (append_assoc before gap after) (
      rw (take-append_left (length before) before (gap ++ after) refl) (
        rw (drop-append_left (length before) before (gap ++ after) refl)
          (rw (drop-append_left 4 gap after (sym four), as_u32-fits (length (enc d)) small) refl)))

  encode_one-frame :
      (fuel : ℕ) (d : D) (before gap slice : Bytes)
      → length gap ≡ 4
      → length (enc d) ≤ length slice
      → IsU32 (length (enc d))
      → encode_one encode_into_slice (suc fuel) d (length before) ((before ++ gap) ++ slice)
        ≡ some (
            ok (
              length before + 4 + length (enc d),
              before ++ (be_bytes 4 (length (enc d)) ++ (enc d ++ drop (length (enc d)) slice)),
            ))
  unfolding encode_one encode_end
  encode_one-frame fuel d before gap slice four room small =
      let front : length before + 4 ≡ length (before ++ gap) =
        omega (arith, length-append before gap) in
      let after = enc d ++ drop (length (enc d)) slice in
      rw
        (le→ltb (length ((before ++ gap) ++ slice)) (length before + 4)
          (omega (arith, front, length-append (before ++ gap) slice)))
        (rw (drop-append_left (length before + 4) (before ++ gap) slice front) (
          rw (take-append_left (length before + 4) (before ++ gap) slice front)
            (rw (codec.fits d slice room) (header_put d before gap after (λ x. none) four small))))

  encode_from-frames :
      (fuel : ℕ) (src : List D) (before tail : Bytes)
      → length (frames (map enc src)) ≤ length tail
      → All (λ d. IsU32 (length (enc d))) src
      → (rest : Bytes) × (encode_from encode_into_slice
            (suc fuel)
            src
            (length before)
            (before ++ tail)
          ≡ some (
              ok (
                length (before ++ frames (map enc src)),
                (before ++ frames (map enc src)) ++ rest,
              )))
  unfolding encode_from
  encode_from-frames fuel [] before tail room small = (tail, rw (append-nil before) refl)
  encode_from-frames fuel (d ∷ src) before tail room small =
      let e = enc d in
      let slice = drop 4 tail in
      let framed = length-append (frame e) (frames (map enc src)) in
      let sized = length-frame e in
      let behind = length-drop 4 tail in
      let gap : length (take 4 tail) ≡ 4 = omega (arith, length-take 4 tail) in
      let one = encode_one-frame fuel d before (take 4 tail) slice gap (omega arith) (small.0) in
      let (rest, done) =
        encode_from-frames fuel src (before ++ frame e) (drop (length e) slice)
          (omega (arith, length-drop (length e) slice)) (small.1) in
      let whole : (before ++ take 4 tail) ++ slice ≡ before ++ tail =
        append_assoc before (take 4 tail) slice ∙ ap (λ l. before ++ l) (take-append-drop 4 tail) in
      let moved : length before + 4 + length e ≡ length (before ++ frame e) =
        omega (arith, length-append before (frame e)) in
      let joined : before ++ (be_bytes 4 (length e) ++ (e ++ drop (length e) slice))
          ≡ (before ++ frame e) ++ drop (length e) slice =
        ap (λ l. before ++ l) (sym (append_assoc (be_bytes 4 (length e)) e (drop (length e) slice)))
        ∙ sym (append_assoc before (frame e) (drop (length e) slice)) in
      let all = sym (append_assoc before (frame e) (frames (map enc src))) in
      let first =
        ap (λ b. encode_one encode_into_slice (suc fuel) d (length before) b) (sym whole)
        ∙ (one ∙ (λ i. some (ok (moved i, joined i)))) in
      (rest, rw (first, encode_from) (rw all done))

  pub Decodes-map :
      (src : List D) → All (λ d. IsU32 (length (enc d))) src → Decodes decode (map enc src) src
  Decodes-map [] small = tt
  Decodes-map (d ∷ src) small = (small.0, codec.reads d, Decodes-map src (small.1))

  pub encode_vec_into-frames :
      (fuel : ℕ) (src : List D) (buffer : Bytes)
      → length (frames (map enc src)) ≤ length buffer
      → All (λ d. IsU32 (length (enc d))) src
      → (rest : Bytes) × (encode_vec_into encode_into_slice (suc fuel) src buffer
          ≡ some (ok (length (frames (map enc src)), frames (map enc src) ++ rest)))
  unfolding encode_vec_into
  encode_vec_into-frames fuel src buffer room small =
      encode_from-frames fuel src [] buffer room small

  -- Over a codec, into a buffer with room for all the frames and with encodings short enough for
  -- their headers, `encode_vec_into` succeeds in one round for each datum, and
  -- `decode_from_slice_with_header` reads the data back from the bytes that it has written, in order.
  decode-encode_vec_into :
      (fuel : ℕ) (src : List D) (buffer : Bytes)
      → length (frames (map enc src)) ≤ length buffer
      → All (λ d. IsU32 (length (enc d))) src
      → (n : ℕ) × (buffer' : Bytes) × (encode_vec_into encode_into_slice (suc fuel) src buffer
          ≡ some (ok (n, buffer')))
        × (decode_from_slice_with_header decode (take n buffer') ≡ some (ok src))
  decode-encode_vec_into fuel src buffer room small =
      let (rest, done) = encode_vec_into-frames fuel src buffer room small in
      let bytes = frames (map enc src) in
      (
        length bytes,
        bytes ++ rest,
        done,
        rw (take-append_left (length bytes) bytes rest refl)
            (decode_from_slice_with_header-frames decode (map enc src) src (Decodes-map src small)),
      )
