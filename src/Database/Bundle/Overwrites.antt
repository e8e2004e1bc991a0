-- ===== src/Database/Bundle/Overwrites.antt =====
-- What `save_chains_to_bundle` of src/db.rs leaves in a file that was there.
use history_chain.Base.{
  ℕ, suc, ◌≤◌, Bytes, List, [], ◌∷◌, ◌++◌, map, All, All-append, ◌≡◌, ◌∙◌, refl, sym, ap, Option,
  some, ok, arith, length, take, drop, ◌==◌, append_assoc, take-append_left, take-length_le, IsU32,
  true,
}
use history_chain.Chain.{BlockChain}
use history_chain.Database.Bundle.{Bundle, save_chains_to_bundle, encoded_all, written_over}
use history_chain.Serializer.{Encoded, decode_from_slice_with_header}
use history_chain.Serializer.Decode.{frame, frames, decode_from_slice_with_header-frames}
use history_chain.Serializer.RoundTrip.{IsCodec, Decodes-map, encode_vec_into-frames}

equals_itself : (n : ℕ) → (n == n) ≡ true
equals_itself n = ground arith

module _ {B : Type 0} {encode_into_slice : BlockChain B → Bytes → Encoded × Bytes}
    {decode : Bytes → Option (BlockChain B)} {enc : BlockChain B → Bytes}
    (codec : IsCodec encode_into_slice decode enc) where
  frames-append :
      (xs ys : List (BlockChain B))
      → frames (map enc (xs ++ ys)) ≡ frames (map enc xs) ++ frames (map enc ys)
  frames-append [] ys = refl
  frames-append (x ∷ xs) ys =
      ap (λ l. frame (enc x) ++ l) (frames-append xs ys)
      ∙ sym (append_assoc (frame (enc x)) (frames (map enc xs)) (frames (map enc ys)))

  -- Over a codec, with a buffer that has room for the chains and a `write` that takes all bytes,
  -- `save_chains_to_bundle` returns the size of what it has written. The file then decodes to the
  -- chains, followed by all chains that were encoded in the old file from this size on: to the
  -- chains alone if the file was not longer.
  pub decode-save_chains_to_bundle :
      (fuel : ℕ) (bundle : Bundle B) (chains olds : List (BlockChain B)) (file : Bytes)
      → length (frames (map enc chains)) ≤ length bundle.serializer.buffer
      → All (λ c. IsU32 (length (enc c))) chains
      → All (λ c. IsU32 (length (enc c))) olds
      → drop (length (frames (map enc chains))) file ≡ frames (map enc olds)
      → (bundle' : Bundle B) × (file' : Bytes) × (save_chains_to_bundle encode_into_slice
            (suc fuel)
            (ok tt)
            (λ bytes. ok (length bytes))
            bundle
            chains
            file
          ≡ some (ok (length (frames (map enc chains))), (bundle', file')))
        × (decode_from_slice_with_header decode file' ≡ some (ok (chains ++ olds)))
  unfolding save_chains_to_bundle encoded_all written_over
  decode-save_chains_to_bundle fuel bundle chains olds file room small small' left =
      let bytes = frames (map enc chains) in
      let (rest, done) =
        encode_vec_into-frames codec fuel chains bundle.serializer.buffer room small in
      let cut : take (length bytes) (bytes ++ rest) ≡ bytes =
        take-append_left (length bytes) bytes rest refl in
      let whole : take (length bytes) bytes ≡ bytes =
        take-length_le (length bytes) bytes (omega arith) in
      (
        record bundle { serializer = record bundle.serializer { buffer = bytes ++ rest } },
        bytes ++ frames (map enc olds),
        rw (done, encoded_all, cut, equals_itself (length bytes), whole, left) refl,
        ap (decode_from_slice_with_header decode) (sym (frames-append chains olds))
            ∙ decode_from_slice_with_header-frames decode (map enc (chains ++ olds))
                (chains ++ olds)
                (Decodes-map codec (chains ++ olds) (All-append _ chains olds small small')),
      )
