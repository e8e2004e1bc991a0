-- ===== src/Serializer/Writes.antt =====
-- The `Serializer` of src/serializer.rs with its own datum, and `save_into_asyncwrite`. A stream is
-- the bytes that it has taken; that `write_all` fails is left out.
use history_chain.Base.{
  ℕ, ◌+◌, ◌/◌, ◌%◌, ◌*◌, ◌++◌, Bytes, Option, none, some, Result, ok, err, panicked, HError, length,
  take, drop, replicate, ltb, ◌==◌, if◌then◌else◌, be_bytes, as_u32,
}
use history_chain.Serializer.{Encoded, written, unexpected_end, other_error, buffer_size}

pub record Serializer (D : Type 0) : Type 0 where
  pub buffer : Bytes
  pub datum : Option D

module _ {D : Type 0} where
  unfoldable pub serializer_new : Option D → Serializer D
  serializer_new datum = record { buffer = replicate buffer_size 0; datum = datum }

  abbrev pub set_data : D → Serializer D → Serializer D
  set_data d serializer = record serializer { datum = some d }

  -- The datum, and the serializer without it.
  abbrev take_data : Serializer D → Option D × Serializer D
  take_data serializer = (serializer.datum, record serializer { datum = none })

  abbrev resize_buffer : (ℕ → Bytes → Bytes) → ℕ → Serializer D → Serializer D
  resize_buffer resize size serializer = record serializer {
    buffer = resize size serializer.buffer;
  }

  -- Behind the encoding: the size goes before it, both to the stream, and the datum back.
  unfoldable pub write_end :
      Encoded → D → Bytes → Serializer D → Bytes → Result ℕ × (Serializer D × Bytes)
  write_end (written size) d rest serializer stream =
      let buffer = be_bytes 4 (as_u32 size) ++ rest in
      (
        ok (4 + size),
        (record { buffer = buffer; datum = some d }, stream ++ take (4 + size) buffer),
      )
  write_end unexpected_end d rest serializer stream =
      (err (HError.message "errror in encode_into_slice error: {}"), (serializer, stream))
  write_end other_error d rest serializer stream =
      (err (HError.message "errror in encode_into_slice error: {}"), (serializer, stream))

  -- After an error of bincode the datum is gone, and what stands in the buffer is not said.
  unfoldable pub save_into_asyncwrite :
      (D → Bytes → Encoded × Bytes) → Serializer D → Bytes → Result ℕ × (Serializer D × Bytes)
  unfolding write_end
  save_into_asyncwrite encode_into_slice serializer stream = elim (serializer.datum) [
    | none ↦
        (err (HError.message "error in save_into_asyncwrite error: no data"), (serializer, stream))
    | some d ↦
        let (result, rest) = encode_into_slice d (drop 4 serializer.buffer) in
        if ltb (length serializer.buffer) 4
        then (panicked, (record serializer { datum = none }, stream))
        else write_end result d rest (record serializer { datum = none }) stream
  ]

-- `encode_data_into_slice`, which takes the datum and returns the slice's length, and the slice after
-- it.
encoded_in : Encoded → ℕ → Result ℕ
encoded_in (written size) room = ok room
encoded_in unexpected_end room = err (HError.message "error in serializer encode_into_slice {}")
encoded_in other_error room = err (HError.message "error in serializer encode_into_slice {}")

unfoldable pub encode_data_into_slice :
    {D : Type 0}
    → (D → Bytes → Encoded × Bytes)
    → Serializer D
    → Bytes
    → Result ℕ × (Serializer D × Bytes)
unfolding encoded_in
encode_data_into_slice encode_into_slice serializer dst = elim (serializer.datum) [
  | none ↦ (err (HError.message "no data in serializer"), (serializer, dst))
  | some d ↦
      let (result, dst') = encode_into_slice d dst in
      (encoded_in result (length dst'), (record serializer { datum = none }, dst'))
]

-- `helpers::size_to_align`, for an alignment above zero.
unfoldable pub size_to_align : ℕ → ℕ → ℕ
size_to_align size align =
    let quotient = size / align in
    let remainder = size % align in
    if remainder == 0 then quotient * align else quotient * align + align
