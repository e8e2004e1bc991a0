-- ===== src/Chain/Ref/Segment.antt =====
-- `from_chain_by_index` on a chain whose indices run without a gap.
use history_chain.Base.{
  ℕ, zero, suc, ◌+◌, ◌-◌, ◌^◌, ◌%◌, ◌≤◌, ◌<◌, min, max, List, [], ◌∷◌, ◌≡◌, ◌⊎◌, ◌∙◌, refl, sym, ap,
  none, some, ok, arith, length, take, drop, take-length_le, length-drop, last, leb, if◌then◌else◌,
  ◌&&◌, get_elem?-last, get_elem?-ge, add_u64, sub_u64, add_u64-fits, sub_u64-fits, inl, inr,
  le→ltb, le→leb,
}
use history_chain.Block.{Block}
use history_chain.Chain.{BlockChain, ChainLimit, verify}
use history_chain.Chain.Ref.{ChainRef, from_chain_by_index, as_slice, ref_block_ref, deref}

module _ {B : Type 0} (k : Block B) where
  -- The indices of the blocks count up from `n`.
  abbrev IsConsecutive : ℕ → List B → Type 0
  IsConsecutive n [] = Unit
  IsConsecutive n (b ∷ bs) = (k.index b ≡ n) × IsConsecutive (n + 1) bs

  -- The blocks whose index is in the range.
  pub in_range : ℕ → ℕ → List B → List B
  in_range start end [] = []
  in_range start end (b ∷ bs) =
      let rest = in_range start end bs in
      if leb start (k.index b) && leb (k.index b) end then b ∷ rest else rest

  in_range-eq :
      (start end n d t : ℕ) (bs : List B)
      → d ≡ start - n
      → t ≡ end + 1 - max start n
      → IsConsecutive n bs
      → in_range start end bs ≡ take t (drop d bs)
  unfolding in_range
  in_range-eq start end n zero zero [] dn tn c = refl
  in_range-eq start end n zero (suc t) [] dn tn c = refl
  in_range-eq start end n (suc d) zero [] dn tn c = refl
  in_range-eq start end n (suc d) (suc t) [] dn tn c = refl
  in_range-eq start end n (suc d) t (b ∷ bs) dn tn c =
      ground (arith, c.0, in_range-eq start end (n + 1) d t bs (omega arith) (omega arith) (c.1))
  in_range-eq start end n zero zero (b ∷ bs) dn tn c =
      ground
        (arith, c.0, in_range-eq start end (n + 1) zero zero bs (omega arith) (omega arith) (c.1))
  in_range-eq start end n zero (suc t) (b ∷ bs) dn tn c =
      ground (arith, c.0, in_range-eq start end (n + 1) zero t bs (omega arith) (omega arith) (c.1))

  -- Two bounds on what is taken that both reach the end, or agree, take the same.
  take_same :
      (s t : ℕ) (bs : List B)
      → (s ≡ t) ⊎ ((length bs ≤ s) × (length bs ≤ t))
      → take s bs ≡ take t bs
  take_same s t bs (inl e) = rw e
  take_same s t bs (inr h) = take-length_le s bs (h.0) ∙ sym (take-length_le t bs (h.1))

  last_index_lem :
      (n : ℕ) (x : B) (bs : List B) → IsConsecutive n (x ∷ bs) → k.index (last x bs) ≡ n + length bs
  last_index_lem n x [] c = omega (arith, c.0)
  last_index_lem n x (b ∷ bs) c = omega (arith, last_index_lem (n + 1) b bs (c.1))

  module _ (x : B) (bs : List B) (limit : ChainLimit) (start end : ℕ) where
    abbrev chain : BlockChain B
    chain = record { blocks = x ∷ bs; limit = limit }

    -- What is returned of a chain that passes `verify`.
    returned :
        verify k chain ≡ ok tt
        → start ≤ end
        → from_chain_by_index k chain start end
          ≡ ok (record {
            memory = x ∷ bs;
            offset = sub_u64 (max (k.index x) start) (k.index x);
            len = add_u64 (sub_u64 (min (k.index (last x bs)) end) (max (k.index x) start)) 1;
          })
    unfolding from_chain_by_index
    returned valid le = rw valid (
        rw (le→ltb end start le)
          (ground (arith, get_elem?-last x bs (suc (length bs) - 1) (omega arith))))

    -- On a chain that passes `verify`, whose indices count up without a gap, and a range that
    -- meets the chain's indices, `from_chain_by_index` succeeds, and the slice that it refers to
    -- holds exactly the blocks whose index lies in the range, in their order.
    pub from_chain_by_index_segment :
        verify k chain ≡ ok tt
        → start ≤ end
        → IsConsecutive (k.index x) (x ∷ bs)
        → k.index x + length bs + 1 < 2 ^ 64
        → end < 2 ^ 64
        → start ≤ k.index (last x bs)
        → k.index x ≤ end
        → (r : ChainRef B) × (from_chain_by_index k chain start end ≡ ok r)
          × (as_slice r ≡ some (in_range start end (x ∷ bs)))
    unfolding as_slice
    from_chain_by_index_segment valid le c fits small meets_last meets_first =
        let n = k.index x in
        let final = last_index_lem n x bs c in
        let lo = max n start in
        let hi = min (k.index (last x bs)) end in
        let offset : sub_u64 lo n ≡ start - n =
          sub_u64-fits lo n (omega arith) (omega (arith, final)) ∙ omega arith in
        let span : sub_u64 hi lo ≡ hi - lo =
          sub_u64-fits hi lo (omega (arith, final)) (omega arith) in
        let size : add_u64 (sub_u64 hi lo) 1 ≡ hi - lo + 1 =
          ap (λ v. add_u64 v 1) span ∙ add_u64-fits (hi - lo) 1 (omega arith) in
        let room : (start - n) + (hi - lo + 1) ≤ length (x ∷ bs) = omega (arith, final) in
        (
          _,
          returned valid le,
          rw (offset, size)
              (rw (le→leb ((start - n) + (hi - lo + 1)) (length (x ∷ bs)) room) (
                ap some (
                  take_same (hi - lo + 1) (end + 1 - max start n) (drop (start - n) (x ∷ bs))
                    (rw (length-drop (start - n) (x ∷ bs)) (omega (arith, final)))
                  ∙ sym (
                      in_range-eq start end n (start - n) (end + 1 - max start n) (x ∷ bs) refl refl
                        c)))),
        )

    -- On a chain that passes `verify` and a range behind its last block, with a gap to it,
    -- `from_chain_by_index` succeeds too, but no block of what it refers to lies in the vector: it
    -- claims at least one block, and its slice and each read within its length are undefined behaviour.
    pub from_chain_by_index_behind :
        verify k chain ≡ ok tt
        → start ≤ end
        → k.index x + length bs ≤ k.index (last x bs)
        → k.index (last x bs) + 1 < start
        → end < 2 ^ 64
        → (r : ChainRef B) × (from_chain_by_index k chain start end ≡ ok r)
          × (0 < r.len)
          × (as_slice r ≡ none)
          × ((i : ℕ) → ref_block_ref r i ≡ none)
    unfolding as_slice ref_block_ref deref add_u64 sub_u64
    from_chain_by_index_behind valid le span behind small = (
      _,
      returned valid le,
      omega arith,
      ground arith,
      λ i. ground (
        arith,
        get_elem?-ge (x ∷ bs) ((max (k.index x) start + 2 ^ 64 - k.index x) % 2 ^ 64 + i)
            (omega arith),
      ),
    )
