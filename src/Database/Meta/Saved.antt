-- ===== src/Database/Meta/Saved.antt =====
-- `find_meta` with an empty cache finds what has been saved.
use history_chain.Base.{
  ℕ, zero, suc, ◌+◌, ◌≤◌, ◌<◌, Bytes, List, [], ◌∷◌, ◌++◌, map, All, ◌≡◌, ◌∙◌, refl, sym, ap,
  Option, none, some, ok, arith, length, take, drop, replicate, ◌==◌, bytes_eq, length-append,
  if◌then◌else◌, be_bytes, length-be_bytes, from_be-be_bytes, as_u32-fits, take-append_left,
  drop-append_left, take-append_more, append_assoc, append-nil, length-map, length-replicate, false,
  true,
}
use history_chain.Base.ByteDict.{ByteDict, set}
use history_chain.Serializer.Decode.{frame, frames, length-frame, length-frames}
use history_chain.Protocol.{Bincode, Encodes, Reader}
use history_chain.Protocol.Streams.{IsReader}
use history_chain.Database.Meta.{
  MetaData, save_meta_to_file, encode_into, written_meta, decode_from, get_one_meta_from_file, next,
  next_of, gather, gather_round, find_meta,
}

-- The metadata has an encoding of at most 252 bytes.
pub record IsStored (m : Bincode MetaData) (enc : MetaData → Bytes) (meta : MetaData) : Type 0 where
  pub short : length (enc meta) ≤ 252
  pub coded : Encodes m meta (enc meta)

-- The file after saving the metadata one by one.
abbrev pub save_all : Bincode MetaData → List MetaData → Bytes → Bytes
save_all m [] file = file
save_all m (meta ∷ metas) file = save_all m metas ((save_meta_to_file m (ok tt) meta file).1)

-- The last of the metadata with the UUID, or what there was before.
abbrev pub last_with : Bytes → List MetaData → Option MetaData → Option MetaData
last_with uuid [] found = found
last_with uuid (meta ∷ metas) found =
    last_with uuid metas (if bytes_eq meta.uuid uuid then some meta else found)

abbrev pub set_all : List MetaData → ByteDict MetaData → ByteDict MetaData
set_all [] list = list
set_all (meta ∷ metas) list = set_all metas (set meta.uuid meta list)

below : (pos end : ℕ) → pos < end → (pos == end) ≡ false
below pos end h = ground arith

same : (pos end : ℕ) → pos ≡ end → (pos == end) ≡ true
same pos end h = ground arith

module _ (m : Bincode MetaData) (enc : MetaData → Bytes) where
  save_meta_to_file-frame :
      (meta : MetaData) (file : Bytes)
      → IsStored m enc meta
      → save_meta_to_file m (ok tt) meta file ≡ (ok tt, file ++ frame (enc meta))
  unfolding save_meta_to_file encode_into written_meta
  save_meta_to_file-frame meta file good =
      let e = enc meta in
      let short = good.short in
      let room = length-replicate {A = ℕ} 252 0 in
      let size = as_u32-fits (length e) (omega arith) in
      let header = length-be_bytes 4 (length e) in
      let cut : take (length e + 4)
            (be_bytes 4 (length e) ++ (e ++ drop (length e) (replicate 252 0)))
          ≡ frame e =
        take-append_more (length e + 4) (length e) (be_bytes 4 (length e)) _ (omega arith)
        ∙ ap (λ l. be_bytes 4 (length e) ++ l) (take-append_left (length e) e _ refl) in
      rw (good.coded.fits (replicate 252 0) (omega arith)) (rw (size, written_meta, cut) refl)

  save_all-frames :
      (metas : List MetaData) (file : Bytes)
      → All (IsStored m enc) metas
      → save_all m metas file ≡ file ++ frames (map enc metas)
  save_all-frames [] file good = sym (append-nil file)
  save_all-frames (meta ∷ metas) file good =
      ap (λ r. save_all m metas (r.1)) (save_meta_to_file-frame meta file (good.0))
      ∙ (save_all-frames metas (file ++ frame (enc meta)) (good.1)
          ∙ append_assoc file (frame (enc meta)) (frames (map enc metas)))

  module _ {reader : Reader Bytes} (law : IsReader reader (λ s. s)) where
    reader-append :
        (n : ℕ) (front rest : Bytes)
        → n ≡ length front
        → reader n (front ++ rest) ≡ ok (front, rest)
    reader-append n front rest h =
        let (s', did, left) =
          law.reads n (front ++ rest) (omega (arith, length-append front rest)) in
        did
        ∙ ap ok
            (λ i. (take-append_left n front rest h i, (left ∙ drop-append_left n front rest h) i))

    get_one_meta_from_file-frame :
        (meta : MetaData) (rest : Bytes)
        → IsStored m enc meta
        → get_one_meta_from_file m reader (frame (enc meta) ++ rest)
          ≡ ok ((meta, length (enc meta)), rest)
    unfolding get_one_meta_from_file decode_from
    get_one_meta_from_file-frame meta rest good =
        let e = enc meta in
        let short = good.short in
        let header = be_bytes 4 (length e) in
        rw
          (
            append_assoc header e rest,
            reader-append 4 header (e ++ rest) (sym (length-be_bytes 4 (length e))),
            from_be-be_bytes 4 (length e) (omega arith),
            reader-append (length e) e rest refl,
            good.coded.reads,
            decode_from,
          )
          refl

    next-frame :
        (meta : MetaData) (rest : Bytes) (pos end : ℕ)
        → IsStored m enc meta
        → pos + length (frame (enc meta) ++ rest) ≡ end
        → next m reader
            (record { file_stream = frame (enc meta) ++ rest; current_pos = pos; end_pos = end })
          ≡ some (
            ok meta,
            record {
              file_stream = rest;
              current_pos = pos + (length (enc meta) + 4);
              end_pos = end;
            },
          )
    unfolding next next_of
    next-frame meta rest pos end good at =
        let more : (pos == end) ≡ false =
          below pos end
            (omega (arith, length-append (frame (enc meta)) rest, length-frame (enc meta))) in
        rw (more, get_one_meta_from_file-frame meta rest good, next_of) refl

    gather-frames :
        (fuel : ℕ) (uuid : Bytes) (metas : List MetaData) (pos end : ℕ) (found : Option MetaData)
        (list : ByteDict MetaData)
        → All (IsStored m enc) metas
        → length metas < fuel
        → pos + length (frames (map enc metas)) ≡ end
        → gather m reader fuel uuid
            (record { file_stream = frames (map enc metas); current_pos = pos; end_pos = end })
            found
            list
          ≡ some (last_with uuid metas found, set_all metas list)
    unfolding gather gather_round
    gather-frames zero uuid metas pos end found list good enough at = absurd (omega arith)
    gather-frames (suc fuel) uuid [] pos end found list good enough at =
        let done : (pos == end) ≡ true = same pos end (omega arith) in unfold next in rw done refl
    gather-frames (suc fuel) uuid (meta ∷ metas) pos end found list good enough at =
        let rest = frames (map enc metas) in
        rw (next-frame meta rest pos end (good.0) at, gather_round)
          (gather-frames fuel uuid metas (pos + (length (enc meta) + 4)) end _ _ (good.1)
            (omega arith)
            (omega (arith, at, length-append (frame (enc meta)) rest, length-frame (enc meta))))

    -- Over a reader of files and a codec, with encodings of at most 252 bytes: when metadata has been
    -- saved by `save_meta_to_file`, one after the other, to an empty file, `find_meta` with an empty
    -- cache returns the last one saved with the UUID, or none if there is none, and caches all of
    -- them, a later one in place of an earlier one with its UUID.
    pub find_meta-save_all :
        (uuid : Bytes) (metas : List MetaData)
        → All (IsStored m enc) metas
        → find_meta m reader (ok (save_all m metas [])) uuid []
          ≡ some (last_with uuid metas none, set_all metas [])
    unfolding find_meta
    find_meta-save_all uuid metas good =
        let bytes = frames (map enc metas) in
        ap (λ f. find_meta m reader (ok f) uuid []) (save_all-frames metas [] good)
        ∙ gather-frames (suc (length bytes)) uuid metas 0 (length bytes) none [] good
            (omega (arith, length-frames (map enc metas), length-map enc metas)) (omega arith)
