-- ===== src/Hash/Binding.antt =====
-- Two chains of one length with one Merkle root.
use history_chain.Base.{
  ℕ, zero, suc, ◌+◌, ◌/◌, Bytes, List, [], ◌∷◌, ◌++◌, map, All, ◌≡◌, ◌⊎◌, ◌∙◌, refl, sym, ap, some,
  ok, arith, length, length-map, append_inj, Bool-cases, inl, inr, ◌==◌,
}
use history_chain.Block.{Block}
use history_chain.Block.Binding.{Clash, same_or_Clash}
use history_chain.Chain.{BlockChain}
use history_chain.Hash.{hash_neighbor, merkle_loop, merkle_root}
use history_chain.Hash.Merkle.{length-hash_neighbor, loop_of_root}

-- Two inputs that a round of `hash_neighbor` digests at one place clash.
abbrev RoundClash : (Bytes → Bytes) → List Bytes → List Bytes → Type 0
RoundClash sha256 [] hs' = ⊥
RoundClash sha256 (x ∷ []) [] = ⊥
RoundClash sha256 (x ∷ []) (x' ∷ []) = Clash sha256 x x'
RoundClash sha256 (x ∷ []) (x' ∷ y' ∷ hs') = ⊥
RoundClash sha256 (x ∷ y ∷ hs) [] = ⊥
RoundClash sha256 (x ∷ y ∷ hs) (x' ∷ []) = ⊥
RoundClash sha256 (x ∷ y ∷ hs) (x' ∷ y' ∷ hs') =
    Clash sha256 (x ++ y) (x' ++ y') ⊎ RoundClash sha256 hs hs'

-- They do so in one of the first rounds.
abbrev pub LoopClash : (Bytes → Bytes) → ℕ → List Bytes → List Bytes → Type 0
LoopClash sha256 zero hs hs' = ⊥
LoopClash sha256 (suc rounds) hs hs' =
    RoundClash sha256 hs hs'
    ⊎ LoopClash sha256 rounds (hash_neighbor sha256 hs) (hash_neighbor sha256 hs')

abbrev pub IsHash : Bytes → Type 0
IsHash h = length h ≡ 32

module _ (sha256 : Bytes → Bytes) (sha256_length : (x : Bytes) → length (sha256 x) ≡ 32) where
  hash_neighbor-IsHash : (hs : List Bytes) → All IsHash (hash_neighbor sha256 hs)
  unfolding hash_neighbor
  hash_neighbor-IsHash [] = tt
  hash_neighbor-IsHash (x ∷ []) = (sha256_length x, tt)
  hash_neighbor-IsHash (x ∷ y ∷ rest) = (sha256_length (x ++ y), hash_neighbor-IsHash rest)

  -- One round binds its input.
  round_binds :
      (hs hs' : List Bytes)
      → length hs ≡ length hs'
      → All IsHash hs
      → All IsHash hs'
      → hash_neighbor sha256 hs ≡ hash_neighbor sha256 hs'
      → (hs ≡ hs') ⊎ RoundClash sha256 hs hs'
  unfolding hash_neighbor
  round_binds [] [] n w w' e = inl refl
  round_binds [] (x' ∷ hs') n w w' e = absurd (omega arith)
  round_binds (x ∷ hs) [] n w w' e = absurd (omega arith)
  round_binds (x ∷ []) (x' ∷ []) n w w' e = elim (same_or_Clash sha256 x x' (cc)) [
    | inl same ↦ inl (cc (same))
    | inr found ↦ inr found
  ]
  round_binds (x ∷ []) (x' ∷ y' ∷ hs') n w w' e = absurd (omega arith)
  round_binds (x ∷ y ∷ hs) (x' ∷ []) n w w' e = absurd (omega arith)
  round_binds (x ∷ y ∷ hs) (x' ∷ y' ∷ hs') n w w' e =
      elim (round_binds hs hs' (omega arith) (w.1.1) (w'.1.1) (cc)) [
        | inr found ↦ inr (inr found)
        | inl tails ↦ elim (same_or_Clash sha256 (x ++ y) (x' ++ y') (cc)) [
          | inr found ↦ inr (inl found)
          | inl same ↦
              let parts = append_inj x x' y y' (w.0 ∙ sym (w'.0)) same in
              inl (cc (parts.0, parts.1, tails))
        ]
      ]

  in_round :
      (fuel : ℕ) (hs hs' : List Bytes)
      → (hs ≡ hs') ⊎ RoundClash sha256 hs hs'
      → (hs ≡ hs') ⊎ LoopClash sha256 (suc fuel) hs hs'
  in_round fuel hs hs' (inl same) = inl same
  in_round fuel hs hs' (inr found) = inr (inl found)

  -- Two loops on lists of one length take the same rounds, so that one root gives one list.
  loop_binds :
      (fuel : ℕ) (hs hs' r : List Bytes)
      → length hs ≡ length hs'
      → All IsHash hs
      → All IsHash hs'
      → merkle_loop sha256 fuel hs ≡ some r
      → merkle_loop sha256 fuel hs' ≡ some r
      → (hs ≡ hs') ⊎ LoopClash sha256 fuel hs hs'
  unfolding merkle_loop
  loop_binds zero hs hs' r n w w' e e' = cc
  loop_binds (suc fuel) hs hs' r n w w' e e' =
      let size =
        length-hash_neighbor sha256 hs
        ∙ (ap (λ k. (k + 1) / 2) n ∙ sym (length-hash_neighbor sha256 hs')) in
      elim (Bool-cases (length (hash_neighbor sha256 hs) == 1)) [
        | inl one ↦ in_round fuel hs hs' (round_binds hs hs' n w w' (ground (arith, size)))
        | inr more ↦
            elim (loop_binds fuel (hash_neighbor sha256 hs) (hash_neighbor sha256 hs') r size
              (hash_neighbor-IsHash hs) (hash_neighbor-IsHash hs') (ground (arith, size))
              (ground (arith, size))) [
                | inr found ↦ inr (inr found)
                | inl same ↦ in_round fuel hs hs' (round_binds hs hs' n w w' same)
              ]
      ]

  module _ {B : Type 0} (k : Block B) where
    -- Two chains of one length with one Merkle root carry the same hashes block by block, or
    -- SHA-256 has collided on two inputs that some round of the two computations digests at one
    -- place. Hashes have 32 bytes.
    pub merkle_root_binds :
        (chain chain' : BlockChain B) (root : Bytes)
        → length chain.blocks ≡ length chain'.blocks
        → All IsHash (map k.hash chain.blocks)
        → All IsHash (map k.hash chain'.blocks)
        → merkle_root sha256 k chain ≡ ok root
        → merkle_root sha256 k chain' ≡ ok root
        → (map k.hash chain.blocks ≡ map k.hash chain'.blocks)
          ⊎ LoopClash sha256
              (length (map k.hash chain.blocks))
              (map k.hash chain.blocks)
              (map k.hash chain'.blocks)
    merkle_root_binds chain chain' root n w w' e e' =
        by_blocks chain.blocks chain'.blocks refl refl n w w'
      where
        by_blocks :
            (bs bs' : List B)
            → chain.blocks ≡ bs
            → chain'.blocks ≡ bs'
            → length bs ≡ length bs'
            → All IsHash (map k.hash bs)
            → All IsHash (map k.hash bs')
            → (map k.hash bs ≡ map k.hash bs')
              ⊎ LoopClash sha256 (length (map k.hash bs)) (map k.hash bs) (map k.hash bs')
        by_blocks [] [] c c' n w w' = inl refl
        by_blocks [] (b' ∷ bs') c c' n w w' = absurd (omega arith)
        by_blocks (b ∷ bs) [] c c' n w w' = absurd (omega arith)
        by_blocks (b ∷ bs) (b' ∷ bs') c c' n w w' =
            let counts : length (map k.hash (b ∷ bs)) ≡ length (map k.hash (b' ∷ bs')) =
              length-map k.hash (b ∷ bs) ∙ (n ∙ sym (length-map k.hash (b' ∷ bs'))) in
            loop_binds (length (map k.hash (b ∷ bs))) _ _ (root ∷ []) counts w w'
              (loop_of_root sha256 k b bs chain root c e)
              (rw counts (loop_of_root sha256 k b' bs' chain' root c' e'))
