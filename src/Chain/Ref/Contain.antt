-- ===== src/Chain/Ref/Contain.antt =====
-- The `contain` methods of `ChainRef`: searches of the slice that it refers to.
use history_chain.Base.{
  ℕ, zero, suc, ◌+◌, ◌≤◌, ◌<◌, Bytes, List, [], ◌∷◌, ◌≡◌, refl, sym, ◌∙◌, ◌==◌, ap, Option, none,
  some, ok, arith, length, take, drop, get_elem?, Bool, if◌then◌else◌, bytes_eq, Bool-cases, inl,
  inr, leb,
}
use history_chain.Block.{Carrier}
use history_chain.Chain.Ref.{
  ChainRef, deref, as_slice, contain_loop, contain_hash, contain_index, contain_data_hash,
  contain_uuid,
}

module _ {B : Type 0} where
  -- The position of the first element that passes the test, counted from `i`.
  first_from : (B → Bool) → ℕ → List B → Option ℕ
  first_from test i [] = none
  first_from test i (b ∷ bs) =
      let rest = first_from test (i + 1) bs in if test b then some i else rest

  drop-get_elem? :
      (xs : List B) (i : ℕ)
      → i < length xs
      → (b : B) × (get_elem? xs i ≡ some b) × (drop i xs ≡ b ∷ drop (suc i) xs)
  drop-get_elem? [] i h = absurd (omega arith)
  drop-get_elem? (x ∷ xs) zero h = (x, refl, refl)
  drop-get_elem? (x ∷ xs) (suc i) h = drop-get_elem? xs i (omega arith)

  one_round :
      (test : B → Bool) (r : ChainRef B) (rounds i : ℕ) (b : B)
      → get_elem? r.memory (r.offset + i) ≡ some b
      → (tail : List B) → contain_loop test r rounds (i + 1) ≡ ok (first_from test (i + 1) tail)
      → contain_loop test r (suc rounds) i ≡ ok (first_from test i (b ∷ tail))
  unfolding contain_loop first_from deref
  one_round test r rounds i b at_i tail rec =
      rw at_i (elim (Bool-cases (test b)) [ inl hit ↦ rw hit refl | inr miss ↦ rw miss rec ])

  -- The rounds from position `p` of the vector on.
  contain_loop_lem :
      (test : B → Bool) (r : ChainRef B) (rounds i p : ℕ)
      → p ≡ r.offset + i
      → p + rounds ≤ length r.memory
      → contain_loop test r rounds i ≡ ok (first_from test i (take rounds (drop p r.memory)))
  unfolding contain_loop first_from deref
  contain_loop_lem test r zero i p e h = refl
  contain_loop_lem test r (suc rounds) i p e h =
      let (b, at_p, split) = drop-get_elem? r.memory p (omega arith) in
      let rec = contain_loop_lem test r rounds (i + 1) (suc p) (omega arith) (omega arith) in
      one_round test r rounds i b (ap (get_elem? r.memory) (sym e) ∙ at_p) _ rec
      ∙ ap (λ l. ok (first_from test i (take (suc rounds) l))) (sym split)

  -- What the tests of all the searches have in common.
  contain_slice :
      (test : B → Bool) (r : ChainRef B) (slice : List B)
      → as_slice r ≡ some slice
      → contain_loop test r r.len 0 ≡ ok (first_from test 0 slice)
  unfolding as_slice
  contain_slice test r slice h = elim (Bool-cases (leb (r.offset + r.len) (length r.memory))) [
    | inl inside ↦
        let same : take r.len (drop r.offset r.memory) ≡ slice = cc (h, inside) in
        contain_loop_lem test r r.len 0 r.offset (omega arith) (ground arith)
        ∙ ap (λ l. ok (first_from test 0 l)) same
    | inr outside ↦ absurd (cc (h, outside))
  ]

module _ {B : Type 0} where
  -- While the reference lies within its vector, each `contain` method returns the position, within
  -- the slice, of the first block that carries what is looked for, and no position when none does.
  contain-first_from :
      (k : Carrier B) (r : ChainRef B) (slice : List B) (bytes : Bytes) (index : ℕ)
      → as_slice r ≡ some slice
      → (contain_hash (k.block) r bytes ≡ ok (first_from (λ b. bytes_eq (k.hash b) bytes) 0 slice))
        × (contain_index (k.block) r index ≡ ok (first_from (λ b. k.index b == index) 0 slice))
        × (contain_data_hash k r bytes
            ≡ ok (first_from (λ b. bytes_eq (k.data_hash b) bytes) 0 slice))
        × (contain_uuid k r bytes ≡ ok (first_from (λ b. bytes_eq (k.data_uuid b) bytes) 0 slice))
  unfolding contain_hash contain_index contain_data_hash contain_uuid
  contain-first_from k r slice bytes index h = (
    contain_slice _ r slice h,
    contain_slice _ r slice h,
    contain_slice _ r slice h,
    contain_slice _ r slice h,
  )
