-- ===== src/Tests/OfFiles.antt =====
-- A file read in two parts, and bundles of chains without data over a file that was there.
use history_chain.Base.{
  ℕ, Bytes, List, [], ◌∷◌, ◌++◌, ◌≡◌, refl, Option, none, some, ok, err, HError, arith, length,
  drop, replicate, length-replicate, ◌≤◌, joined, be_bytes, map, le→ltb, ltb, if◌then◌else◌, ap,
}
use history_chain.Chain.{BlockChain}
use history_chain.Database.Bundle.{Bundle, default_new, save_chains_to_bundle}
use history_chain.Database.Bundle.Overwrites.{decode-save_chains_to_bundle}
use history_chain.Hash.Files.{
  hash, hash_with_chunk_size, archive_slice, archive_file, archive_file-archive_slice,
}
use history_chain.Serializer.{Encoded, written, unexpected_end, decode_from_slice_with_header}
use history_chain.Serializer.Decode.{frames}
use history_chain.Serializer.RoundTrip.{IsCodec}
use history_chain.Serializer.Writes.{serializer_new}
use history_chain.Tests.Fixtures.{sha}

abbrev parts : List Bytes
parts = (1 ∷ 2 ∷ []) ∷ (3 ∷ []) ∷ []

archive_file-archive_slice_example :
    (hash_with_chunk_size sha (ok tt) (map ok parts) ≡ ok (hash sha (1 ∷ 2 ∷ 3 ∷ [])))
    × (archive_file sha [] (ok tt) (map ok parts) ≡ ok (archive_slice sha [] (1 ∷ 2 ∷ 3 ∷ [])))
    × (hash_with_chunk_size sha (ok tt) (map ok parts ++ (err HError.io ∷ [])) ≡ err HError.io)
    × (archive_file sha [] (ok tt) (map ok parts ++ (err HError.io ∷ [])) ≡ err HError.io)
unfolding joined
archive_file-archive_slice_example =
    archive_file-archive_slice sha [] parts HError.io [] (omega arith, (omega arith, tt))

-- A chain is told from how many blocks it has and its limit.
abbrev Plain : Type 0
Plain = BlockChain (Unit {0})

abbrev plain_bytes : Plain → Bytes
plain_bytes c = length c.blocks ∷ c.limit.max_len ∷ c.limit.time_gap ∷ []

abbrev read_plain : Bytes → Option Plain
read_plain (n ∷ m ∷ g ∷ rest) =
    some (record { blocks = replicate n tt; limit = record { max_len = m; time_gap = g } })
read_plain bytes = none

abbrev write_plain : Plain → Bytes → Encoded × Bytes
write_plain c slice =
    if ltb (length slice) 3
    then (unexpected_end, slice)
    else (written 3, plain_bytes c ++ drop 3 slice)

replicate-length : (bs : List (Unit {0})) → replicate (length bs) tt ≡ bs
replicate-length [] = refl
replicate-length (b ∷ bs) = ap (λ l. b ∷ l) (replicate-length bs)

plain_IsCodec : IsCodec write_plain read_plain plain_bytes
plain_IsCodec = record {
  fits = λ c slice room. rw (le→ltb (length slice) 3 room) refl;
  reads =
      λ c. ap (λ bs. some (record { blocks = bs; limit = c.limit })) (replicate-length c.blocks);
}

abbrev plain : ℕ → Plain
plain n = record { blocks = tt ∷ []; limit = record { max_len = n; time_gap = 0 } }

abbrev old_file : Bytes
old_file = frames (map plain_bytes (plain 8 ∷ plain 9 ∷ []))

default_room : 7 ≤ length (default_new {B = Unit {0}} []).serializer.buffer
unfolding default_new serializer_new
default_room = omega (arith, length-replicate {A = ℕ} 131072 0)

old_left : drop 7 old_file ≡ frames (map plain_bytes (plain 9 ∷ []))
unfolding be_bytes
old_left = refl

-- One chain is saved over a file of two.
decode-save_chains_to_bundle_example :
    (bundle' : Bundle (Unit {0})) × (file' : Bytes) × (save_chains_to_bundle write_plain 1
        (ok tt)
        (λ bytes. ok (length bytes))
        (default_new [])
        (plain 5 ∷ [])
        old_file
      ≡ some (ok 7, (bundle', file')))
    × (decode_from_slice_with_header read_plain file' ≡ some (ok (plain 5 ∷ plain 9 ∷ [])))
unfolding be_bytes
decode-save_chains_to_bundle_example =
    decode-save_chains_to_bundle plain_IsCodec 0 (default_new []) (plain 5 ∷ []) (plain 9 ∷ [])
      old_file default_room (omega arith, tt) (omega arith, tt) old_left
