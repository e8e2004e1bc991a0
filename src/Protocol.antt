-- ===== src/Protocol.antt =====
-- The `Header` of src/network/protocol.rs. bincode is a record of its two operations for each type
-- that is encoded; a stream is the parameter `Reader`. What is relied on of them is in the children.
pub mod HeaderRoundTrip
pub mod Message
pub mod Accepts
pub mod Halves
pub mod RoundTrip
pub mod Streams
use history_chain.Base.{
  ℕ, ◌+◌, ◌≤◌, ◌≡◌, Bytes, [], ◌++◌, Option, none, some, Result, ok, err, panicked, HError, ◌>>=◌,
  length, take, drop, slice, replicate, ltb, if◌then◌else◌,
}
use history_chain.Serializer.{Encoded, written, unexpected_end, other_error}
use history_chain.Identity
use history_chain.Identity.{Ed25519}

-- `bincode::encode_into_slice`, with the slice after it, and `bincode::decode_from_slice`, at one
-- type and one configuration.
pub record Bincode (T : Type 0) : Type 0 where
  pub encode_into_slice : T → Bytes → Encoded × Bytes
  pub decode_from_slice : Bytes → Option T

-- What is relied on of bincode for a value: it has an encoding, which is written at the front of a
-- slice that it fits, and decodes to the value.
pub record Encodes {T : Type 0} (m : Bincode T) (value : T) (body : Bytes) : Type 0 where
  pub fits :
      (part : Bytes)
      → length body ≤ length part
      → m.encode_into_slice value part ≡ (written (length body), body ++ drop (length body) part)
  pub reads : m.decode_from_slice body ≡ some value

pub record Header : Type 0 where
  pub msg_length : ℕ
  pub signature : Bytes
  pub public_key : Bytes

abbrev pub header_size : ℕ
header_size = 100

-- What bincode returns, behind `map_err`.
abbrev pub size_or : HError → Encoded → Result ℕ
size_or e (written size) = ok size
size_or e unexpected_end = err e
size_or e other_error = err e

abbrev pub value_or {ℓ} : {T : Type ℓ} → HError → Option T → Result T
value_or e none = err e
value_or e (some value) = ok value

-- The operator `?` in code that changes a buffer.
abbrev pub and_next :
    {X Y : Type 0} → Result X × Bytes → (X → Bytes → Result Y × Bytes) → Result Y × Bytes
and_next (ok x, buffer) next = next x buffer
and_next (err e, buffer) next = (err e, buffer)
and_next (panicked, buffer) next = (panicked, buffer)

-- Encoding a value into `buffer[from..to]`.
unfoldable pub put : {T : Type 0} → Bincode T → HError → T → ℕ → ℕ → Bytes → Result ℕ × Bytes
put codec e value from to buffer =
    let (result, part) = codec.encode_into_slice value (slice from to buffer) in
    (size_or e result, take from buffer ++ (part ++ drop to buffer))

-- tokio's `read_exact` into a buffer of some length: the bytes, and the stream behind them.
abbrev pub Reader : Type 0 → Type 0
Reader S = ℕ → S → Result (Bytes × S)

-- The codecs of the fields: big-endian and of a fixed size.
pub record HeaderCodec : Type 0 where
  pub length_codec : Bincode ℕ
  pub signature_codec : Bincode Bytes
  pub public_key_codec : Bincode Bytes

abbrev encode_error : HError
encode_error = HError.protocol "encode error in header"

abbrev decode_error : HError
decode_error = HError.protocol "decode error in header"

module _ (c : HeaderCodec) where
  pub header_encode_into_slice : Header → Bytes → Result ℕ × Bytes
  unfolding put
  header_encode_into_slice header buffer =
      if ltb (length buffer) 100
      then (
        err (HError.protocol "in header encode_into_slice, buffer size is too small: {}"),
        buffer,
      )
      else and_next (put c.length_codec encode_error header.msg_length 0 4 buffer) (λ size b.
        and_next (put c.signature_codec encode_error header.signature 4 68 b) (λ size' b'.
          and_next (put c.public_key_codec encode_error header.public_key 68 100 b')
            (λ size'' b''. (ok (0 + size + size' + size''), b''))))

  pub header_decode_from_slice : Bytes → Result Header
  header_decode_from_slice src =
      if ltb (length src) 100 then err (HError.protocol "header too small") else do
        msg_length ← value_or decode_error (c.length_codec.decode_from_slice (take 4 src))
        signature ← value_or decode_error (c.signature_codec.decode_from_slice (slice 4 68 src))
        public_key ← value_or decode_error (c.public_key_codec.decode_from_slice (slice 68 100 src))
        ok (record { msg_length = msg_length; signature = signature; public_key = public_key })

  pub header_from_stream : {S : Type 0} → Reader S → S → Result (Header × S)
  unfolding header_decode_from_slice
  header_from_stream reader stream = do
    (header_enc, stream') ← reader 100 stream
    header ← header_decode_from_slice header_enc
    ok (header, stream')

  -- What is written to the stream.
  unfoldable header_into_stream : Header → Result Bytes
  unfolding header_encode_into_slice
  header_into_stream header =
      let (result, header_enc) = header_encode_into_slice header (replicate 100 0) in
      do size ← result; ok (take size header_enc)

  pub verify_header :
      {Key Secret : Type 0} → Ed25519 Key Secret → Header → Bytes → Result (Unit {0})
  verify_header e header bytes =
      Identity.verify_signature_bytes e bytes header.public_key header.signature
