-- ===== src/Block/Binding.antt =====
-- Two blocks that carry the digest of their own fields, under one hash: the interface that the three
-- kinds of block fill, and what follows from it.
pub mod OfData
pub mod OfDigest
pub mod OfVote
use history_chain.Base.{
  ℕ, Bytes, ◌≡◌, ◌≢◌, ◌⊎◌, inl, inr, Bool-cases, bytes_eq, bytes_eq→eq, bytes_eq_refl, ◌^◌, ◌<◌,
  length, append_inj, length-be_bytes, be_bytes_inj, be_bytes, arith, IsU32, IsU64, sym, ◌∙◌, ◌++◌,
  Bool, true, false, ap, refl, length-append, ◌+◌,
}
use history_chain.Block.{Block}

-- Two byte strings that differ and have one digest.
abbrev pub Clash : (Bytes → Bytes) → Bytes → Bytes → Type 0
Clash sha256 x y = (x ≢ y) × (sha256 x ≡ sha256 y)

-- A kind of block whose hash is the digest of bytes from which all fields can be read back.
pub record Hashed {B : Type 0} (sha256 : Bytes → Bytes) (k : Block B) : Type 1 where
  pub IsWf : B → Type 0
  pub preimage : B → Bytes
  pub hash_block-eq : (b : B) → k.hash_block b ≡ sha256 (preimage b)
  pub preimage_inj :
      (a b : B) → IsWf a → IsWf b → preimage a ≡ preimage b → k.hash a ≡ k.hash b → a ≡ b

pub same_or_Clash :
    (sha256 : Bytes → Bytes) (x y : Bytes) → sha256 x ≡ sha256 y → (x ≡ y) ⊎ Clash sha256 x y
same_or_Clash sha256 x y e = elim (Bool-cases (bytes_eq x y)) [
  | inl same ↦ inl (bytes_eq→eq x y same)
  | inr differ ↦ inr ((λ p. cc (bytes_eq_refl y, ap (λ t. bytes_eq t y) p)), e)
]

module _ {B : Type 0} {sha256 : Bytes → Bytes} {k : Block B} (h : Hashed sha256 k) where
  pub hash_binds :
      (a b : B)
      → h.IsWf a
      → h.IsWf b
      → k.hash a ≡ k.hash_block a
      → k.hash b ≡ k.hash_block b
      → k.hash a ≡ k.hash b
      → (a ≡ b) ⊎ Clash sha256 (h.preimage a) (h.preimage b)
  hash_binds a b wa wb ha hb e =
      let digests : sha256 (h.preimage a) ≡ sha256 (h.preimage b) =
        sym (h.hash_block-eq a) ∙ (sym ha ∙ (e ∙ (hb ∙ h.hash_block-eq b))) in
      elim (same_or_Clash sha256 _ _ digests) [
        | inl same ↦ inl (h.preimage_inj a b wa wb same e)
        | inr found ↦ inr found
      ]

-- A field of `w` bytes in front, taken off both sides.
pub be_front :
    (w v v' : ℕ) (ys ys' : Bytes)
    → v < 256 ^ w
    → v' < 256 ^ w
    → (be_bytes w v ++ ys) ≡ (be_bytes w v' ++ ys')
    → (v ≡ v') × (ys ≡ ys')
be_front w v v' ys ys' h h' e =
    let parts =
      append_inj (be_bytes w v) (be_bytes w v') ys ys'
        (length-be_bytes w v ∙ sym (length-be_bytes w v')) e in
    (be_bytes_inj w v v' h h' (parts.0), parts.1)
