-- ===== src/Serializer/Decode.antt =====
-- Decoding: it ends on all bytes, and reads back frames.
use history_chain.Base.{
  ℕ, zero, suc, ◌+◌, ◌≤◌, ◌<◌, Bytes, List, [], ◌∷◌, ◌++◌, ◌≡◌, ◌≢◌, ◌∙◌, refl, sym, ap, Option,
  none, some, Result, ok, err, panicked, arith, length, drop, ltb, le→ltb, ◌==◌, be_bytes,
  length-be_bytes, from_be-be_bytes, append_assoc, length-append, length-drop, take-append_left,
  drop-append_left, Bool-cases, inl, inr, IsU32, false,
}
use history_chain.Serializer.{
  get_header, decode_from_slice, decode_from, decode_from_slice_with_header, push_front,
  decode_body,
}

-- The size of the bytes, then the bytes.
abbrev pub frame : Bytes → Bytes
frame e = be_bytes 4 (length e) ++ e

abbrev pub frames : List Bytes → Bytes
frames [] = []
frames (e ∷ es) = frame e ++ frames es

pub length-frame : (e : Bytes) → length (frame e) ≡ 4 + length e
length-frame e =
    length-append (be_bytes 4 (length e)) e ∙ omega (arith, length-be_bytes 4 (length e))

-- A header takes four bytes.
pub length-frames : (es : List Bytes) → length es ≤ length (frames es)
length-frames [] = omega arith
length-frames (e ∷ es) =
    omega (arith, length-append (frame e) (frames es), length-frame e, length-frames es)

get_header-frame :
    (e rest : Bytes) → IsU32 (length e) → get_header (be_bytes 4 (length e) ++ rest) ≡ ok (length e)
unfolding get_header
get_header-frame e rest small =
    let size = length-be_bytes 4 (length e) in
    let front = take-append_left 4 (be_bytes 4 (length e)) rest (sym size) in
    let long = length-append (be_bytes 4 (length e)) rest in
    rw (front, le→ltb (length (be_bytes 4 (length e) ++ rest)) 4 (omega (arith, long, size)))
      (ap ok (from_be-be_bytes 4 (length e) small))

module _ {D : Type 0} (decode : Bytes → Option D) where
  -- Each encoding is short enough for its header, and decodes to the datum at its place.
  abbrev pub Decodes : List Bytes → List D → Type 0
  Decodes [] [] = Unit
  Decodes [] (d ∷ ds) = ⊥
  Decodes (e ∷ es) [] = ⊥
  Decodes (e ∷ es) (d ∷ ds) = IsU32 (length e) × (decode e ≡ some d) × Decodes es ds

  push_front-some : (r : Result D) (o : Option (Result (List D))) → o ≢ none → push_front r o ≢ none
  unfolding push_front
  push_front-some (ok val) (some (ok vals)) h e = cc
  push_front-some (ok val) (some (err f)) h e = cc
  push_front-some (ok val) (some panicked) h e = cc
  push_front-some (ok val) none h e = h refl
  push_front-some (err f) o h e = cc
  push_front-some panicked o h e = cc

  decode_body-some :
      (header : Result ℕ) (body : Bytes) (next : Bytes → Option (Result (List D)))
      → ((rest : Bytes) → length rest ≤ length body → next rest ≢ none)
      → decode_body decode header body next ≢ none
  unfolding decode_body
  decode_body-some (ok size) body next rec = elim (Bool-cases (ltb (length body) size)) [
    | inl over ↦ rw over (λ e. cc)
    | inr fits ↦
        rw fits (push_front-some _ _ (rec (drop size body) (omega (arith, length-drop size body))))
  ]
  decode_body-some (err f) body next rec = λ e. cc
  decode_body-some panicked body next rec = λ e. cc

  decode_from-some :
      (fuel : ℕ) (buffer : Bytes) → length buffer < fuel → decode_from decode fuel buffer ≢ none
  unfolding decode_from
  decode_from-some zero buffer enough = absurd (omega arith)
  decode_from-some (suc fuel) buffer enough = elim (Bool-cases (length buffer == 0)) [
    | inl empty ↦ rw empty (λ e. cc)
    | inr more ↦
        let pos : 0 < length buffer = ground arith in
        let shorter = length-drop 4 buffer in
        rw more (
          decode_body-some (get_header buffer) (drop 4 buffer)
            (λ rest. decode_from decode fuel rest)
            (λ (rest : Bytes) (short : length rest ≤ length (drop 4 buffer)).
              decode_from-some fuel rest (omega arith)))
  ]

  -- `decode_from_slice_with_header` ends on all bytes.
  decode_from_slice_with_header-some :
      (buffer : Bytes) → decode_from_slice_with_header decode buffer ≢ none
  unfolding decode_from_slice_with_header
  decode_from_slice_with_header-some buffer =
      decode_from-some (suc (length buffer)) buffer (omega arith)

  decode_body-frame :
      (e rest : Bytes) (d : D) (next : Bytes → Option (Result (List D)))
      → decode e ≡ some d
      → decode_body decode (ok (length e)) (e ++ rest) next ≡ push_front (ok d) (next rest)
  unfolding decode_body decode_from_slice
  decode_body-frame e rest d next read =
      rw (le→ltb (length (e ++ rest)) (length e) (omega (arith, length-append e rest))) (
        rw
          (
            take-append_left (length e) e rest refl,
            drop-append_left (length e) e rest refl,
            read,
            decode_from_slice,
          )
          refl)

  decode_from-frames :
      (fuel : ℕ) (es : List Bytes) (ds : List D)
      → length es < fuel
      → Decodes es ds
      → decode_from decode fuel (frames es) ≡ some (ok ds)
  unfolding decode_from push_front
  decode_from-frames zero es ds enough each = absurd (omega arith)
  decode_from-frames (suc fuel) [] [] enough each = refl
  decode_from-frames (suc fuel) [] (d ∷ ds) enough each = absurd each
  decode_from-frames (suc fuel) (e ∷ es) [] enough each = absurd each
  decode_from-frames (suc fuel) (e ∷ es) (d ∷ ds) enough each =
      let head = be_bytes 4 (length e) in
      let split = append_assoc head e (frames es) in
      let some_bytes : (length (head ++ (e ++ frames es)) == 0) ≡ false =
        ground (arith, length-append head (e ++ frames es), length-be_bytes 4 (length e)) in
      let body = drop-append_left 4 head (e ++ frames es) (sym (length-be_bytes 4 (length e))) in
      rw (split, some_bytes, get_header-frame e (e ++ frames es) (each.0), body)
        (decode_body-frame e (frames es) d (λ rest. decode_from decode fuel rest) (each.1)
          ∙ ap (push_front (ok d)) (decode_from-frames fuel es ds (omega arith) (each.2)))

  pub decode_from_slice_with_header-frames :
      (es : List Bytes) (ds : List D)
      → Decodes es ds
      → decode_from_slice_with_header decode (frames es) ≡ some (ok ds)
  unfolding decode_from_slice_with_header
  decode_from_slice_with_header-frames es ds each =
      decode_from-frames (suc (length (frames es))) es ds (omega (arith, length-frames es)) each
