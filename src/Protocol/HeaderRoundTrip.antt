-- ===== src/Protocol/HeaderRoundTrip.antt =====
-- A header is a hundred bytes, which are read back.
use history_chain.Base.{
  ℕ, ◌+◌, ◌≤◌, ◌<◌, Bytes, [], ◌++◌, ◌≡◌, ◌∙◌, refl, sym, ap, some, ok, err, HError, arith, length,
  drop, slice, slice-append, split_at, ltb, le→ltb, lt→ltb, false, length-append, take-append_left,
  drop-append_left, append_assoc, IsU32,
}
use history_chain.Serializer.{written}
use history_chain.Protocol.{
  Bincode, Header, HeaderCodec, put, encode_error, header_encode_into_slice,
  header_decode_from_slice,
}

-- What is relied on of bincode for a field: a value that fits its type has an encoding of the width,
-- which fills a slice of the width and decodes to the value.
pub record IsFixed {T : Type 0} (codec : Bincode T) (enc : T → Bytes) (width : ℕ)
    (Fits : T → Type 0) : Type 0 where
  pub fills :
      (v : T) (part : Bytes)
      → Fits v
      → length part ≡ width
      → codec.encode_into_slice v part ≡ (written width, enc v)
  pub reads : (v : T) → Fits v → codec.decode_from_slice (enc v) ≡ some v
  pub wide : (v : T) → Fits v → length (enc v) ≡ width

regroup : (a b d rest : Bytes) → a ++ (b ++ (d ++ rest)) ≡ (a ++ (b ++ d)) ++ rest
regroup a b d rest =
    ap (λ l. a ++ l) (sym (append_assoc b d rest)) ∙ sym (append_assoc a (b ++ d) rest)

module _ {T : Type 0} {codec : Bincode T} {enc : T → Bytes} {width : ℕ} {Fits : T → Type 0}
    (fixed : IsFixed codec enc width Fits) where
  put-fits :
      (e : HError) (v : T) (from to : ℕ) (before gap after : Bytes)
      → Fits v
      → length gap ≡ width
      → from ≡ length before
      → to ≡ length before + width
      → put codec e v from to (before ++ (gap ++ after)) ≡ (ok width, before ++ (enc v ++ after))
  unfolding put
  put-fits e v from to before gap after fits g f t =
      let whole : to ≡ length (before ++ gap) = omega (arith, length-append before gap) in
      let behind : drop to (before ++ (gap ++ after)) ≡ after =
        ap (λ l. drop to l) (sym (append_assoc before gap after))
        ∙ drop-append_left to (before ++ gap) after whole in
      rw
        (
          slice-append from to before gap after f (omega arith),
          fixed.fills v gap fits g,
          take-append_left from before (gap ++ after) f,
          behind,
        )
        refl

-- The encodings of the three fields.
pub record Encodings : Type 0 where
  pub enc_length : ℕ → Bytes
  pub enc_signature : Bytes → Bytes
  pub enc_public_key : Bytes → Bytes

abbrev IsSignatureBytes : Bytes → Type 0
IsSignatureBytes s = length s ≡ 64

abbrev IsHashValue : Bytes → Type 0
IsHashValue h = length h ≡ 32

pub record IsHeaderCodec (c : HeaderCodec) (encs : Encodings) : Type 0 where
  pub of_length : IsFixed c.length_codec encs.enc_length 4 IsU32
  pub of_signature : IsFixed c.signature_codec encs.enc_signature 64 IsSignatureBytes
  pub of_public_key : IsFixed c.public_key_codec encs.enc_public_key 32 IsHashValue

-- The fields have the sizes of the source's types.
pub record IsHeader (h : Header) : Type 0 where
  pub msg_length : IsU32 h.msg_length
  pub signature : IsSignatureBytes h.signature
  pub public_key : IsHashValue h.public_key

module _ (c : HeaderCodec) where
  -- `encode_into_slice` refuses a buffer below a hundred bytes and leaves it.
  header_encode_into_slice-small :
      (h : Header) (buffer : Bytes)
      → length buffer < 100
      → header_encode_into_slice c h buffer ≡ (
        err (HError.protocol "in header encode_into_slice, buffer size is too small: {}"),
        buffer,
      )
  unfolding header_encode_into_slice
  header_encode_into_slice-small h buffer small = rw (lt→ltb (length buffer) 100 small) refl

  module _ {encs : Encodings} (law : IsHeaderCodec c encs) where
    abbrev pub header_bytes : Header → Bytes
    header_bytes h =
        encs.enc_length h.msg_length
        ++ (encs.enc_signature h.signature ++ encs.enc_public_key h.public_key)

    pub length-header_bytes : (h : Header) → IsHeader h → length (header_bytes h) ≡ 100
    length-header_bytes h good = omega (
      arith,
      length-append (encs.enc_length h.msg_length)
          (encs.enc_signature h.signature ++ encs.enc_public_key h.public_key),
      length-append (encs.enc_signature h.signature) (encs.enc_public_key h.public_key),
      law.of_length.wide h.msg_length good.msg_length,
      law.of_signature.wide h.signature good.signature,
      law.of_public_key.wide h.public_key good.public_key,
    )

    encode_parts :
        (h : Header) (a b d rest : Bytes)
        → IsHeader h
        → length a ≡ 4
        → length b ≡ 64
        → length d ≡ 32
        → header_encode_into_slice c h (a ++ (b ++ (d ++ rest))) ≡ (ok 100, header_bytes h ++ rest)
    unfolding header_encode_into_slice
    encode_parts h a b d rest good la lb ld =
        let ea = encs.enc_length h.msg_length in
        let eb = encs.enc_signature h.signature in
        let ed = encs.enc_public_key h.public_key in
        let wa = law.of_length.wide h.msg_length good.msg_length in
        let wb = law.of_signature.wide h.signature good.signature in
        let long = length-append a (b ++ (d ++ rest)) in
        let long' = length-append b (d ++ rest) in
        let long'' = length-append d rest in
        let first =
          put-fits law.of_length encode_error h.msg_length 0 4 [] a (b ++ (d ++ rest))
            good.msg_length la (omega arith) (omega arith) in
        let second =
          put-fits law.of_signature encode_error h.signature 4 68 ea b (d ++ rest) good.signature lb
            (omega arith) (omega arith) in
        let third =
          put-fits law.of_public_key encode_error h.public_key 68 100 (ea ++ eb) d rest
            good.public_key ld (omega (arith, length-append ea eb))
            (omega (arith, length-append ea eb)) in
        let joined : (ea ++ eb) ++ (ed ++ rest) ≡ header_bytes h ++ rest =
          append_assoc ea eb (ed ++ rest) ∙ regroup ea eb ed rest in
        rw
          (
            le→ltb (length (a ++ (b ++ (d ++ rest)))) 100 (omega arith),
            first,
            second,
            sym (append_assoc ea eb (d ++ rest)),
            third,
            joined,
          )
          refl

    -- `encode_into_slice` of a header fills the first hundred bytes of a buffer that has them.
    pub header_encode_into_slice-bytes :
        (h : Header) (buffer : Bytes)
        → IsHeader h
        → 100 ≤ length buffer
        → header_encode_into_slice c h buffer ≡ (ok 100, header_bytes h ++ drop 100 buffer)
    header_encode_into_slice-bytes h buffer good enough =
        let (a, xs, cut, la, more) = split_at 4 buffer (omega arith) in
        let (b, ys, cut', lb, more') = split_at 64 xs (omega (arith, la, more)) in
        let (d, rest, cut'', ld, more'') = split_at 32 ys (omega (arith, la, lb, more, more')) in
        let parts : buffer ≡ a ++ (b ++ (d ++ rest)) =
          cut ∙ ap (λ l. a ++ l) (cut' ∙ ap (λ l. b ++ l) cut'') in
        let behind : drop 100 buffer ≡ rest =
          ap (λ l. drop 100 l) (parts ∙ regroup a b d rest)
          ∙ drop-append_left 100 (a ++ (b ++ d)) rest
              (omega (arith, la, lb, ld, length-append a (b ++ d), length-append b d)) in
        ap (λ l. header_encode_into_slice c h l) parts
        ∙ (encode_parts h a b d rest good la lb ld
            ∙ ap (λ l. (ok 100, header_bytes h ++ l)) (sym behind))

    -- and `decode_from_slice` reads the header back from them.
    pub header_decode_from_slice-bytes :
        (h : Header) (rest : Bytes)
        → IsHeader h
        → header_decode_from_slice c (header_bytes h ++ rest) ≡ ok h
    unfolding header_decode_from_slice
    header_decode_from_slice-bytes h rest good =
        let ea = encs.enc_length h.msg_length in
        let eb = encs.enc_signature h.signature in
        let ed = encs.enc_public_key h.public_key in
        let wa = law.of_length.wide h.msg_length good.msg_length in
        let wb = law.of_signature.wide h.signature good.signature in
        let wd = law.of_public_key.wide h.public_key good.public_key in
        let apart = sym (regroup ea eb ed rest) in
        let one = take-append_left 4 ea (eb ++ (ed ++ rest)) (sym wa) in
        let two = slice-append 4 68 ea eb (ed ++ rest) (sym wa) (omega arith) in
        let three : slice 68 100 (ea ++ (eb ++ (ed ++ rest))) ≡ ed =
          ap (λ l. slice 68 100 l) (sym (append_assoc ea eb (ed ++ rest)))
          ∙ slice-append 68 100 (ea ++ eb) ed rest (omega (arith, length-append ea eb))
              (omega (arith, length-append ea eb)) in
        let long = length-append (header_bytes h) rest in
        let enough : (ltb (length (ea ++ (eb ++ (ed ++ rest)))) 100) ≡ false = rw (sym apart) (
          le→ltb (length (header_bytes h ++ rest)) 100
            (omega (arith, long, length-header_bytes h good))) in
        rw
          (
            apart,
            enough,
            one,
            two,
            three,
            law.of_length.reads h.msg_length good.msg_length,
            law.of_signature.reads h.signature good.signature,
            law.of_public_key.reads h.public_key good.public_key,
          )
          refl
