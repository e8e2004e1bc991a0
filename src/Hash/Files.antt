-- ===== src/Hash/Files.antt =====
-- Files that are hashed part by part: `hash_with_chunk_size` and `hash_file` of src/hash.rs, and the
-- trait `Archiver` of src/archive.rs. `opened` is what opening the file returns, and `reads` what the
-- reads return, in order, up to the end of the file. The state of the hasher is the bytes that it
-- was given.
use history_chain.Base.{
  ℕ, ◌<◌, Bytes, List, [], ◌∷◌, ◌++◌, map, All, ◌≡◌, ◌∙◌, refl, sym, ap, Result, ok, err, panicked,
  HError, ◌>>=◌, ◌>>◌, arith, length, ◌==◌, if◌then◌else◌, append_assoc, append-nil, joined, false,
}

pub record DataId : Type 0 where
  pub hash : Bytes
  pub uuid : Bytes

-- The loop of both: what the hasher has got when a read is empty.
hash_loop : Bytes → List (Result Bytes) → Result Bytes
hash_loop hasher [] = ok hasher
hash_loop hasher (panicked ∷ reads) = panicked
hash_loop hasher (err e ∷ reads) = err e
hash_loop hasher (ok chunk ∷ reads) =
    if length chunk == 0 then ok hasher else hash_loop (hasher ++ chunk) reads

module _ (sha256 : Bytes → Bytes) where
  -- `Hasher::hash`
  pub hash : Bytes → Bytes
  hash content = sha256 content

  -- `hash_with_chunk_size`, where the chunk's size bounds what a read returns.
  pub hash_with_chunk_size : Result (Unit {0}) → List (Result Bytes) → Result Bytes
  unfolding hash_loop
  hash_with_chunk_size opened reads = do opened; hasher ← hash_loop [] reads; ok (sha256 hasher)

  -- `hash_file`, whose chunks have 2 ^ 20 bytes.
  unfoldable pub hash_file : Result (Unit {0}) → List (Result Bytes) → Result Bytes
  unfolding hash_with_chunk_size
  hash_file opened reads = hash_with_chunk_size opened reads

  -- `archive_slice`, given the new UUID: it stores nothing yet.
  unfoldable pub archive_slice : Bytes → Bytes → DataId
  archive_slice uuid content = record { hash = sha256 content; uuid = uuid }

  pub archive_file : Bytes → Result (Unit {0}) → List (Result Bytes) → Result DataId
  unfolding hash_loop
  archive_file uuid opened reads = do
    opened
    hasher ← hash_loop [] reads
    ok (record { hash = sha256 hasher; uuid = uuid })

nonempty : (n : ℕ) → 0 < n → (n == 0) ≡ false
nonempty n h = ground arith

-- Reads of something are given to the hasher one behind the other.
hash_loop-joined :
    (hasher : Bytes) (reads : List Bytes) (rest : List (Result Bytes))
    → All (λ chunk. 0 < length chunk) reads
    → hash_loop hasher (map ok reads ++ rest) ≡ hash_loop (hasher ++ joined reads) rest
unfolding hash_loop joined
hash_loop-joined hasher [] rest some_read = ap (λ h. hash_loop h rest) (sym (append-nil hasher))
hash_loop-joined hasher (chunk ∷ reads) rest (one, some_read) = rw (nonempty (length chunk) one) (
    hash_loop-joined (hasher ++ chunk) reads rest some_read
    ∙ ap (λ h. hash_loop h rest) (append_assoc hasher chunk (joined reads)))

module _ (sha256 : Bytes → Bytes) where
  -- Whatever parts a file is read in, none of them empty, `hash_with_chunk_size` returns the hash of
  -- its content, and `archive_file` what `archive_slice` returns for the content; where a read
  -- fails, both return its error.
  pub archive_file-archive_slice :
      (uuid : Bytes) (reads : List Bytes) (e : HError) (rest : List (Result Bytes))
      → All (λ chunk. 0 < length chunk) reads
      → (hash_with_chunk_size sha256 (ok tt) (map ok reads) ≡ ok (hash sha256 (joined reads)))
        × (archive_file sha256 uuid (ok tt) (map ok reads)
            ≡ ok (archive_slice sha256 uuid (joined reads)))
        × (hash_with_chunk_size sha256 (ok tt) (map ok reads ++ (err e ∷ rest)) ≡ err e)
        × (archive_file sha256 uuid (ok tt) (map ok reads ++ (err e ∷ rest)) ≡ err e)
  unfolding hash_with_chunk_size archive_file archive_slice hash hash_loop
  archive_file-archive_slice uuid reads e rest some_read =
      let whole : hash_loop [] (map ok reads) ≡ ok (joined reads) =
        ap (hash_loop []) (sym (append-nil (map ok reads)))
        ∙ hash_loop-joined [] reads [] some_read in
      let broken : hash_loop [] (map ok reads ++ (err e ∷ rest)) ≡ err e =
        hash_loop-joined [] reads (err e ∷ rest) some_read in
      (rw whole refl, rw whole refl, rw broken refl, rw broken refl)
