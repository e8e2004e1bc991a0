-- ===== src/Serializer.antt =====
-- The frames of src/serializer.rs: data behind the size of their encoding. bincode is the parameters
-- `encode_into_slice`, which returns the slice after it too, and `decode`. `none` is a loop that
-- runs out of fuel.
pub mod Decode
pub mod RoundTrip
pub mod Stuck
pub mod Writes
pub mod Grows
pub mod ReadsAll
use history_chain.Base.{
  ℕ, zero, suc, ◌+◌, ◌-◌, ◌*◌, Bytes, List, [], ◌∷◌, ◌++◌, Option, none, some, Result, ok, err,
  panicked, HError, ◌>>=◌, ◌>>◌, err_if, length, take, drop, replicate, ltb, ◌==◌, if◌then◌else◌,
  be_bytes, from_be, as_u32,
}

-- What `bincode::encode_into_slice` returns.
pub data Encoded : Type 0 where
  written : ℕ → Encoded
  unexpected_end other_error : Encoded

abbrev pub buffer_size : ℕ
buffer_size = 1024 * 128

-- `Vec::resize` with zeros.
pub resize : ℕ → Bytes → Bytes
resize n buffer = take n buffer ++ replicate (n - length buffer) 0

-- The header, on the slice from the header on.
save_size_header_into_slice : ℕ → Bytes → Bytes
save_size_header_into_slice size dst = be_bytes 4 size ++ drop 4 dst

-- The arms of the `match` on bincode's result; `retry` is the next round of the loop.
encode_end :
    Encoded → ℕ → Bytes → (Bytes → Option (Result (ℕ × Bytes))) → Option (Result (ℕ × Bytes))
unfolding save_size_header_into_slice
encode_end (written size) offset dst retry = some (
    ok (
      offset + 4 + size,
      take offset dst ++ save_size_header_into_slice (as_u32 size) (drop offset dst),
    ))
encode_end unexpected_end offset dst retry = retry dst
encode_end other_error offset dst retry =
    some (err (HError.message "error in serializer encode_into_vec {}"))

module _ {D : Type 0} (encode_into_slice : D → Bytes → Encoded × Bytes) where
  -- The loop of `encode_vec_into` for one datum: the offset behind it, and the buffer.
  pub encode_one : ℕ → D → ℕ → Bytes → Option (Result (ℕ × Bytes))
  unfolding resize encode_end
  encode_one zero datum offset dst = none
  encode_one (suc fuel) datum offset dst =
      let (result, slice) = encode_into_slice datum (drop (offset + 4) dst) in
      if ltb (length dst) (offset + 4)
      then some panicked
      else encode_end result offset (take (offset + 4) dst ++ slice)
          (λ dst'. encode_one fuel datum offset (resize (buffer_size * (1 + 1) * 1) dst'))

  -- `encode_vec_into` from an offset on, with fuel for each datum.
  pub encode_from : ℕ → List D → ℕ → Bytes → Option (Result (ℕ × Bytes))
  encode_from fuel [] offset dst = some (ok (offset, dst))
  encode_from fuel (datum ∷ src) offset dst = elim (encode_one fuel datum offset dst) [
    | none ↦ none
    | some (ok (offset', dst')) ↦ encode_from fuel src offset' dst'
    | some (err e) ↦ some (err e)
    | some panicked ↦ some panicked
  ]

  pub encode_vec_into : ℕ → List D → Bytes → Option (Result (ℕ × Bytes))
  encode_vec_into fuel src dst = encode_from fuel src 0 dst

pub get_header : Bytes → Result ℕ
get_header buffer = do
  err_if (ltb (length buffer) 4) (HError.message "the buffer is not valid")
  ok (from_be 0 (take 4 buffer))

push_front : {D : Type 0} → Result D → Option (Result (List D)) → Option (Result (List D))
push_front (ok val) (some (ok vals)) = some (ok (val ∷ vals))
push_front (ok val) (some (err e)) = some (err e)
push_front (ok val) (some panicked) = some panicked
push_front (ok val) none = none
push_front (err e) rest = some (err e)
push_front panicked rest = some panicked

module _ {D : Type 0} (decode : Bytes → Option D) where
  pub decode_from_slice : Bytes → Result D
  decode_from_slice src = elim (decode src) [
    | none ↦ err (HError.message "deserialize error: {}")
    | some val ↦ ok val
  ]

  -- A round behind its header; `next` is the rest of the loop.
  decode_body : Result ℕ → Bytes → (Bytes → Option (Result (List D))) → Option (Result (List D))
  unfolding push_front decode_from_slice
  decode_body (ok this_size) body next =
      if ltb (length body) this_size
      then some panicked
      else push_front (decode_from_slice (take this_size body)) (next (drop this_size body))
  decode_body (err e) body next = some (err e)
  decode_body panicked body next = some panicked

  -- The loop of `decode_from_slice_with_header`, on the bytes from the offset on. The loop ends at
  -- the buffer's end only, so that the test behind it never fails.
  pub decode_from : ℕ → Bytes → Option (Result (List D))
  unfolding get_header decode_body
  decode_from zero buffer = none
  decode_from (suc fuel) buffer =
      if length buffer == 0
      then some (ok [])
      else decode_body (get_header buffer) (drop 4 buffer) (λ rest. decode_from fuel rest)

  -- Each round takes a header at least, so that a round for each byte and one more are enough.
  pub decode_from_slice_with_header : Bytes → Option (Result (List D))
  decode_from_slice_with_header buffer = decode_from (suc (length buffer)) buffer
