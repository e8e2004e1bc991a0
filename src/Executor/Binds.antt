-- ===== src/Executor/Binds.antt =====
-- Two keepers whose main chains end in one hash.
use history_chain.Base.{
  ℕ, suc, ◌<◌, ◌^◌, Bytes, List, [], ◌∷◌, map, ◌≡◌, ◌∙◌, refl, ap, sym, subst, ◌⊎◌, inl, inr, some,
  ok, arith, length, last, All, get_elem?, as_u32, as_u32-fits,
}
use history_chain.Base.Dict.{All-lookup}
use history_chain.Block.Binding.OfData.{IsDataWf, data_hashed}
use history_chain.Block.Binding.OfDigest.{IsDigestWf, digest_hashed}
use history_chain.Block.Data.{DataBlock, data_block}
use history_chain.Block.Digest.{DigestBlock}
use history_chain.Chain.{BlockChain, ChainLimit, verify}
use history_chain.Chain.Add.{from_origin}
use history_chain.Chain.Stores.{Sides}
use history_chain.Chain.Tamper.{ClashIn, Linked-binds, verify_binds}
use history_chain.Hash.{merkle_root}
use history_chain.Hash.Binding.{LoopClash, IsHash, merkle_root_binds}
use history_chain.Keeper.{side_ref}
use history_chain.Keeper.SideRef.{side_ref-eq}
use history_chain.Executor.AddChain.{keeper_from}
use history_chain.Executor.Commits.{
  Reached, Commits, Numbered, Numbered-get_elem?, Reached-IsCommitted,
}

same_last :
    {A C : Type 0} (f : A → C) (x x' : A) (xs xs' : List A)
    → map f (x ∷ xs) ≡ map f (x' ∷ xs')
    → f (last x xs) ≡ f (last x' xs')
same_last f x x' [] [] e = cc
same_last f x x' [] (y' ∷ xs') e = cc
same_last f x x' (y ∷ xs) [] e = cc
same_last f x x' (y ∷ xs) (y' ∷ xs') e = same_last f y y' xs xs' (cc)

-- The sizes that the source's types give a chain's blocks, and a length that fits the digest block.
pub record IsSized (y : DataBlock) (cs : List DataBlock) : Type 0 where
  pub blocks : All IsDataWf cs
  pub hashes : All IsHash (map (λ (b : DataBlock). b.hash) (y ∷ cs))
  pub len : suc (length cs) < 2 ^ 32

abbrev pub hashes : DataBlock → List DataBlock → List Bytes
hashes y cs = map (λ (b : DataBlock). b.hash) (y ∷ cs)

module _ (sha256 : Bytes → Bytes) where
  -- Two numbered main chains with the same blocks commit to one root and one length under an id.
  same_digest :
      (ds : List DigestBlock) (id : ℕ) (chain chain' : BlockChain DataBlock)
      → Numbered 2 ds
      → (c : Commits sha256 ds (id, chain)) (c' : Commits sha256 ds (id, chain'))
      → c.digest ≡ c'.digest
  same_digest ds id chain chain' numbered c c' =
      let at = Numbered-get_elem? 2 ds c.place c.digest numbered c.stands in
      let at' = Numbered-get_elem? 2 ds c'.place c'.digest numbered c'.stands in
      let places : c.place ≡ c'.place = omega (arith, at, at', c.id, c'.id) in
      let both : some c.digest ≡ some c'.digest =
        sym c.stands ∙ ap (get_elem? ds) places ∙ c'.stands in
      cc

  -- SHA-256 collides on the fields of two digest blocks at one place, in a round of the two
  -- computations of a Merkle root, or on the fields of two data blocks at one place.
  abbrev pub Collision :
      List DigestBlock
      → List DigestBlock
      → List DataBlock
      → List DataBlock
      → List Bytes
      → List Bytes
      → Type 0
  Collision bs bs' cs cs' hs hs' =
      ClashIn (digest_hashed sha256) bs bs'
      ⊎ (LoopClash sha256 (length hs) hs hs' ⊎ ClashIn (data_hashed sha256) cs cs')

  module _ (sha256_length : (x : Bytes) → length (sha256 x) ≡ 32) (y y' : DataBlock)
      (cs cs' : List DataBlock) (sized : IsSized y cs) (sized' : IsSized y' cs') where
    abbrev chain_of : DataBlock → List DataBlock → ChainLimit → BlockChain DataBlock
    chain_of z zs limit = from_origin (data_block sha256) z zs limit

    -- Two side chains that one list of digest blocks commits to under one id.
    sides_bind :
        (ds : List DigestBlock) (id : ℕ) (limit limit' : ChainLimit)
        → Numbered 2 ds
        → Commits sha256 ds (id, chain_of y cs limit)
        → Commits sha256 ds (id, chain_of y' cs' limit')
        → verify (data_block sha256) (chain_of y cs limit) ≡ ok tt
        → verify (data_block sha256) (chain_of y' cs' limit') ≡ ok tt
        → ((y.hash ≡ y'.hash) × (cs ≡ cs'))
          ⊎ (LoopClash sha256 (length (hashes y cs)) (hashes y cs) (hashes y' cs')
              ⊎ ClashIn (data_hashed sha256) cs cs')
    unfolding data_hashed
    sides_bind ds id limit limit' numbered c c' valid valid' =
        let same = same_digest ds id _ _ numbered c c' in
        let counts : as_u32 (suc (length cs)) ≡ as_u32 (suc (length cs')) =
          sym c.len ∙ ap (λ (d : DigestBlock). d.length) same ∙ c'.len in
        let n : suc (length cs) ≡ suc (length cs') =
          sym (as_u32-fits (suc (length cs)) sized.len)
          ∙ counts
          ∙ as_u32-fits (suc (length cs')) sized'.len in
        let root : merkle_root sha256 (data_block sha256) (chain_of y' cs' limit')
            ≡ ok c.digest.merkle_root =
          c'.root ∙ ap (λ (d : DigestBlock). ok d.merkle_root) (sym same) in
        elim (merkle_root_binds sha256 sha256_length (data_block sha256) (chain_of y cs limit)
          (chain_of y' cs' limit') c.digest.merkle_root n sized.hashes sized'.hashes c.root root) [
            | inr found ↦ inr (inl found)
            | inl equal ↦
                let ends : (last y cs).hash ≡ (last y' cs').hash =
                  same_last (λ (b : DataBlock). b.hash) y y' cs cs' equal in
                elim (verify_binds (data_hashed sha256) y y' cs cs' (chain_of y cs limit)
                  (chain_of y' cs' limit') refl refl (omega (arith, n)) sized.blocks sized'.blocks
                  valid valid' ends) [ inl whole ↦ inl whole | inr found ↦ inr (inr found) ]
          ]

    -- The whole program's guard: two keepers that calls of `add_chain` have built from new ones,
    -- however the calls ended, with main chains of one length that end in one hash. Two side chains
    -- that `side_ref` finds in them under one digest id carry one genesis hash and the same blocks behind
    -- it, all fields included, or SHA-256 has collided: on the fields of two digest blocks, in a
    -- round of a Merkle root, or on the fields of two data blocks. The blocks' fields have the
    -- sizes of their types, and lengths are below 2 ^ 32.
    pub keepers_bind :
        (x x' : DigestBlock) (bs bs' : List DigestBlock) (limit limit' : ChainLimit)
        (sides sides' : Sides DataBlock) (id : ℕ) (l l' : ChainLimit)
        → limit.max_len < 2 ^ 32
        → limit'.max_len < 2 ^ 32
        → Reached sha256 limit (keeper_from x bs limit sides)
        → Reached sha256 limit' (keeper_from x' bs' limit' sides')
        → length bs ≡ length bs'
        → All IsDigestWf bs
        → All IsDigestWf bs'
        → (last x bs).hash ≡ (last x' bs').hash
        → side_ref (keeper_from x bs limit sides) id ≡ some (chain_of y cs l)
        → side_ref (keeper_from x' bs' limit' sides') id ≡ some (chain_of y' cs' l')
        → ((y.hash ≡ y'.hash) × (cs ≡ cs')) ⊎ Collision bs bs' cs cs' (hashes y cs) (hashes y' cs')
    unfolding digest_hashed
    keepers_bind x x' bs bs' limit limit' sides sides' id l l' small small' r r' n w w' e f f' =
        let h = Reached-IsCommitted sha256 limit (keeper_from x bs limit sides) small r in
        let h' = Reached-IsCommitted sha256 limit' (keeper_from x' bs' limit' sides') small' r' in
        let found = sym (side_ref-eq (keeper_from x bs limit sides) id) ∙ f in
        let found' = sym (side_ref-eq (keeper_from x' bs' limit' sides') id) ∙ f' in
        let commits =
          All-lookup (Commits sha256 bs) id (chain_of y cs l) sides (h.committed.2) found in
        let commits' =
          All-lookup (Commits sha256 bs') id (chain_of y' cs' l') sides' (h'.committed.2) found' in
        let valid =
          All-lookup (λ s. verify (data_block sha256) (s.1) ≡ ok tt) id (chain_of y cs l) sides
            h.sound.sides found in
        let valid' =
          All-lookup (λ s. verify (data_block sha256) (s.1) ≡ ok tt) id (chain_of y' cs' l') sides'
            h'.sound.sides found' in
        elim (Linked-binds (digest_hashed sha256) x.timestamp limit.time_gap x'.timestamp
          limit'.time_gap x x' bs bs' n h.sound.main.linked h'.sound.main.linked w w' e) [
            | inr clash ↦ inr (inl clash)
            | inl (heads, same) ↦
                elim (sides_bind bs id l l' (h.committed.1) commits
                  (subst (λ ds. Commits sha256 ds (id, chain_of y' cs' l')) (sym same) commits')
                  valid valid') [ inl whole ↦ inl whole | inr clash ↦ inr (inr clash) ]
          ]
