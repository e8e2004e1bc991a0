-- ===== src/Tests/OfSerializer.antt =====
-- Frames of one-byte data, and a datum of 300000 bytes.
use history_chain.Base.{
  ℕ, ◌≤◌, ◌<◌, Bytes, [], ◌∷◌, ◌++◌, ◌≡◌, ◌≢◌, refl, Option, none, some, ok, panicked, arith,
  be_bytes, length, take, drop, replicate, ltb, lt→ltb, if◌then◌else◌,
}
use history_chain.Serializer.{Encoded, written, unexpected_end, encode_one}
use history_chain.Serializer.RoundTrip.{IsCodec}
use history_chain.Serializer.Grows.{encode_into_vec_with_header, encode_into_vec_with_header-frame}
use history_chain.Serializer.Writes.{Serializer}
use history_chain.Serializer.Stuck.{encode_one-stuck}

abbrev one_byte : ℕ → Bytes
one_byte d = d ∷ []

abbrev write_byte : ℕ → Bytes → Encoded × Bytes
write_byte d [] = (unexpected_end, [])
write_byte d (x ∷ xs) = (written 1, d ∷ xs)

abbrev read_byte : Bytes → Option ℕ
read_byte [] = none
read_byte (b ∷ bs) = some b

write_byte-fits :
    (d : ℕ) (slice : Bytes)
    → 1 ≤ length slice
    → write_byte d slice ≡ (written 1, one_byte d ++ drop 1 slice)
write_byte-fits d [] h = absurd (omega arith)
write_byte-fits d (x ∷ xs) h = refl

byte_IsCodec : IsCodec write_byte read_byte one_byte
byte_IsCodec = record { fits = write_byte-fits; reads = λ d. refl }

abbrev buffer : Bytes
buffer = replicate 12 0

abbrev write_large : ℕ → Bytes → Encoded × Bytes
write_large d slice =
    if ltb (length slice) 300000
    then (unexpected_end, slice)
    else (written 300000, replicate 300000 d ++ drop 300000 slice)

write_large-short :
    (slice : Bytes)
    → length slice < 300000
    → (slice' : Bytes) × (write_large 7 slice ≡ (unexpected_end, slice'))
      × (length slice' ≡ length slice)
write_large-short slice short = (slice, rw (lt→ltb (length slice) 300000 short) refl, refl)

encode_one-stuck_example :
    (encode_one write_large 5 7 0 buffer ≡ none)
    × (encode_one write_large 6 7 0 (1 ∷ 2 ∷ []) ≡ some panicked)
encode_one-stuck_example =
    encode_one-stuck write_large 7 300000 write_large-short 5 0 buffer (1 ∷ 2 ∷ []) (omega arith)
      (omega arith) (omega arith) (omega arith) (omega arith)

write_byte-too_short :
    (d : ℕ) (part : Bytes)
    → length part < 1
    → (part' : Bytes) × (write_byte d part ≡ (unexpected_end, part'))
write_byte-too_short d [] h = ([], refl)
write_byte-too_short d (x ∷ xs) h = absurd (omega arith)

-- A vector of four bytes has no room for the datum yet.
encode_into_vec_with_header-frame_example :
    ((serializer : Serializer ℕ)
      → encode_into_vec_with_header write_byte 26 serializer (replicate 4 0) ≢ none)
    × ((dst' : Bytes) × (encode_into_vec_with_header write_byte 26
            (record { buffer = []; datum = some 7 })
            (replicate 4 0)
          ≡ some (ok 5, (record { buffer = []; datum = some 7 }, dst')))
        × (take 5 dst' ≡ be_bytes 4 1 ++ (7 ∷ [])))
    × (encode_into_vec_with_header write_byte 26 (record { buffer = []; datum = some 7 }) []
        ≡ some (panicked, (record { buffer = []; datum = none }, [])))
encode_into_vec_with_header-frame_example =
    encode_into_vec_with_header-frame write_byte 7 (7 ∷ []) [] (replicate 4 0) []
      (record { fits = write_byte-fits 7; too_short = write_byte-too_short 7 }) (omega arith)
      (omega arith) (omega arith)
