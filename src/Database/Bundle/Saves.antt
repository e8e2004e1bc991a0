-- ===== src/Database/Bundle/Saves.antt =====
-- Chains saved to a bundle are read back, and described.
use history_chain.Base.{
  ℕ, ◌+◌, ◌≤◌, Bytes, List, [], ◌∷◌, ◌++◌, map, All, ◌≡◌, ◌∙◌, refl, sym, ap, subst, none, some, ok,
  arith, length, take, drop, le→ltb, Bool-cases, inl, inr, ◌==◌, be_bytes, length-be_bytes,
  as_u32-fits, length-append, length-drop, take-append_more, take-append_left, append_assoc,
  append-nil, length-replicate, IsU32, IsU64,
}
use history_chain.Block.{Block}
use history_chain.Chain.{BlockChain, origin, gap}
use history_chain.Serializer.{decode_from_slice_with_header}
use history_chain.Serializer.Decode.{frame, frames, Decodes, decode_from_slice_with_header-frames}
use history_chain.Serializer.Writes.{
  Serializer, serializer_new, set_data, save_into_asyncwrite, write_end,
}
use history_chain.Protocol.{Bincode, Encodes}
use history_chain.Database.Bundle.{
  Bundle, default_new, add_span, update_description_with_chain, encode_to_stream, took_back, saved,
  described, save_to_file,
}
use history_chain.Database.Bundle.Describes.{Span, Describes, add_span-Describes}

module _ {B : Type 0} (k : Block B) (m : Bincode (BlockChain B)) (enc : BlockChain B → Bytes) where
  -- The chain is not empty, its window of time ends before 2 ^ 64, and it has an encoding that the
  -- serializer's buffer has room for.
  pub record IsSavable (chain : BlockChain B) : Type 0 where
    pub start : ℕ
    pub starts : origin k chain ≡ some start
    pub in_time : IsU64 (start + gap chain)
    pub short : length (enc chain) ≤ 131068
    pub coded : Encodes m chain (enc chain)

  -- The bundle and the file after saving the chains one by one.
  abbrev pub save_chains : List (BlockChain B) → Bundle B × Bytes → Bundle B × Bytes
  save_chains [] state = state
  save_chains (chain ∷ chains) state =
      save_chains chains
        ((save_to_file k m.encode_into_slice (ok tt) 0 (state.0) chain (state.1)).1)

  abbrev new_buffer : BlockChain B → Bytes → Bytes
  new_buffer chain buffer =
      let e = enc chain in be_bytes 4 (length e) ++ (e ++ drop (length e) (drop 4 buffer))

  length-new_buffer :
      (chain : BlockChain B) (buffer : Bytes)
      → IsSavable chain
      → length buffer ≡ 131072
      → length (new_buffer chain buffer) ≡ 131072
  length-new_buffer chain buffer s long =
      let e = enc chain in
      let behind = drop (length e) (drop 4 buffer) in
      let short = s.short in
      omega (
        arith,
        length-append (be_bytes 4 (length e)) (e ++ behind),
        length-be_bytes 4 (length e),
        length-append e behind,
        length-drop (length e) (drop 4 buffer),
        length-drop 4 buffer,
      )

  save_into_asyncwrite-frame :
      (serializer : Serializer (BlockChain B)) (chain : BlockChain B) (file : Bytes)
      → IsSavable chain
      → length serializer.buffer ≡ 131072
      → save_into_asyncwrite m.encode_into_slice (set_data chain serializer) file ≡ (
        ok (4 + length (enc chain)),
        (
          record { buffer = new_buffer chain serializer.buffer; datum = some chain },
          file ++ frame (enc chain),
        ),
      )
  unfolding save_into_asyncwrite write_end
  save_into_asyncwrite-frame serializer chain file s long =
      let e = enc chain in
      let short = s.short in
      let behind = drop (length e) (drop 4 serializer.buffer) in
      let cut : take (4 + length e) (be_bytes 4 (length e) ++ (e ++ behind)) ≡ frame e =
        take-append_more (4 + length e) (length e) (be_bytes 4 (length e)) (e ++ behind)
          (omega (arith, length-be_bytes 4 (length e)))
        ∙ ap (λ l. be_bytes 4 (length e) ++ l) (take-append_left (length e) e behind refl) in
      rw
        (
          s.coded.fits (drop 4 serializer.buffer) (omega (arith, length-drop 4 serializer.buffer)),
          le→ltb (length serializer.buffer) 4 (omega arith),
          write_end,
          as_u32-fits (length e) (omega arith),
          cut,
        )
        refl

  abbrev after : Bundle B → BlockChain B → ℕ → Bundle B
  after bundle chain start =
      add_span
        (record bundle {
          serializer = record { buffer = new_buffer chain bundle.serializer.buffer; datum = none };
        })
        start (gap chain)

  update-eq :
      (bundle : Bundle B) (chain : BlockChain B) (s : IsSavable chain)
      → update_description_with_chain k bundle chain ≡ (ok tt, add_span bundle s.start (gap chain))
  unfolding update_description_with_chain
  update-eq bundle chain s = rw (s.starts, update_description_with_chain) refl

  save_to_file-frame :
      (bundle : Bundle B) (chain : BlockChain B) (file : Bytes) (s : IsSavable chain)
      → length bundle.serializer.buffer ≡ 131072
      → save_to_file k m.encode_into_slice (ok tt) 0 bundle chain file
        ≡ (ok chain, (after bundle chain s.start, file ++ frame (enc chain)))
  unfolding save_to_file encode_to_stream took_back saved described
  save_to_file-frame bundle chain file s long =
      let done = record bundle {
        serializer = record { buffer = new_buffer chain bundle.serializer.buffer; datum = none };
      } in
      rw
        (
          save_into_asyncwrite-frame bundle.serializer chain file s long,
          took_back,
          saved,
          update-eq done chain s,
          described,
        )
        refl

  with_serializer :
      (bundle : Bundle B) (serializer : Serializer (BlockChain B)) (spans : List Span)
      → Describes bundle spans
      → Describes (record bundle { serializer = serializer }) spans
  with_serializer bundle serializer spans d = record {
    counted = d.counted;
    fits = d.fits;
    covered = d.covered;
    least = d.least;
  }

  add_span-serializer :
      (bundle : Bundle B) (start time_gap : ℕ)
      → (add_span bundle start time_gap).serializer ≡ bundle.serializer
  unfolding add_span
  add_span-serializer bundle start time_gap = elim (Bool-cases (bundle.counter == 0)) [
    | inl e ↦ rw e refl
    | inr e ↦ rw e refl
  ]

  abbrev pub spans_of :
      (chains : List (BlockChain B)) → All IsSavable chains → List Span → List Span
  spans_of [] good spans = spans
  spans_of (chain ∷ chains) (s, good) spans = spans_of chains good ((s.start, gap chain) ∷ spans)

  save_chains-frames :
      (chains : List (BlockChain B)) (bundle : Bundle B) (file : Bytes) (spans : List Span)
      (good : All IsSavable chains)
      → length bundle.serializer.buffer ≡ 131072
      → Describes bundle spans
      → IsU32 (length spans + length chains)
      → ((save_chains chains (bundle, file)).1 ≡ file ++ frames (map enc chains))
        × Describes ((save_chains chains (bundle, file)).0) (spans_of chains good spans)
  save_chains-frames [] bundle file spans good long d few = (sym (append-nil file), d)
  save_chains-frames (chain ∷ chains) bundle file spans good long d few =
      let s = good.0 in
      let next = after bundle chain s.start in
      let one = save_to_file-frame bundle chain file s long in
      let ready : length next.serializer.buffer ≡ 131072 =
        ap (λ x. length x.buffer) (add_span-serializer _ s.start (gap chain))
        ∙ length-new_buffer chain bundle.serializer.buffer s long in
      let grown : Describes next ((s.start, gap chain) ∷ spans) =
        add_span-Describes _ spans s.start (gap chain) (with_serializer bundle _ spans d) s.in_time
          (omega arith) in
      let rest =
        save_chains-frames chains next (file ++ frame (enc chain)) _ (good.1) ready grown
          (omega arith) in
      let same : save_chains (chain ∷ chains) (bundle, file)
          ≡ save_chains chains (next, file ++ frame (enc chain)) =
        ap (λ r. save_chains chains (r.1)) one in
      (
        ap (λ p. p.1) same
            ∙ (rest.0 ∙ append_assoc file (frame (enc chain)) (frames (map enc chains))),
        subst (λ p. Describes (p.0) (spans_of (chain ∷ chains) good spans)) (sym same) (rest.1),
      )

  Decodes-savable :
      (chains : List (BlockChain B))
      → All IsSavable chains
      → Decodes m.decode_from_slice (map enc chains) chains
  Decodes-savable [] good = tt
  Decodes-savable (chain ∷ chains) (s, good) =
      let short = s.short in (omega arith, s.coded.reads, Decodes-savable chains good)

  -- The bundle's file, and its description.
  pub save_chains-new :
      (path : Bytes) (chains : List (BlockChain B)) (good : All IsSavable chains)
      → IsU32 (length chains)
      → ((save_chains chains (default_new path, [])).1 ≡ frames (map enc chains))
        × Describes ((save_chains chains (default_new path, [])).0) (spans_of chains good [])
  unfolding default_new serializer_new
  save_chains-new path chains good few =
      let few' : IsU32 (0 + length chains) = omega arith in
      let empty : Describes (default_new path) [] = record {
        counted = refl;
        fits = omega arith;
        covered = tt;
        least = λ lo hi none_yet within. absurd (omega arith);
      } in
      save_chains-frames chains (default_new path) [] [] good (length-replicate {A = ℕ} 131072 0)
        empty few'

  -- Fewer than 2 ^ 32 chains with blocks, whose windows of time end before 2 ^ 64 and whose encodings
  -- are at most 131068 bytes, over a codec: after `save_to_file` of each into the empty file of a new
  -- bundle, `decode_from_slice_with_header` reads the chains back from the file, in order, and the
  -- bundle's description counts them, with the least window of time that contains the window of
  -- each, from its origin over its time gap.
  pub decode-save_chains :
      (path : Bytes) (chains : List (BlockChain B)) (good : All IsSavable chains)
      → IsU32 (length chains)
      → (decode_from_slice_with_header m.decode_from_slice
            ((save_chains chains (default_new path, [])).1)
          ≡ some (ok chains))
        × Describes ((save_chains chains (default_new path, [])).0) (spans_of chains good [])
  decode-save_chains path chains good few =
      let done = save_chains-new path chains good few in
      (
        ap (decode_from_slice_with_header m.decode_from_slice) (done.0)
            ∙ decode_from_slice_with_header-frames m.decode_from_slice (map enc chains) chains
                (Decodes-savable chains good),
        done.1,
      )
