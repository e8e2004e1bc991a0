-- ===== src/Hash/Merkle.antt =====
-- Hash trees, and the one that `merkle_root` digests.
use history_chain.Base.{
  ℕ, zero, suc, ◌+◌, ◌≤◌, ◌<◌, ◌/◌, Bytes, List, [], ◌∷◌, ◌++◌, map, ◌≡◌, refl, ap, ◌∙◌, sym, some,
  ok, err, HError, arith, length, length-map, append_assoc, append-nil, Bool-cases, ◌⊎◌, inl, inr,
  ◌==◌,
}
use history_chain.Block.{Block}
use history_chain.Chain.{BlockChain}
use history_chain.Hash.{hash_neighbor, merkle_loop, merkle_root}

-- A hash tree: `one` stands over a last hash that has no neighbour.
pub data Tree : Type 0 where
  leaf : Bytes → Tree
  one : Tree → Tree
  two : Tree → Tree → Tree

-- The hashes at the leaves, from left to right.
abbrev pub leaves : Tree → List Bytes
leaves (leaf h) = h ∷ []
leaves (one t) = leaves t
leaves (two l r) = leaves l ++ leaves r

abbrev all_leaves : List Tree → List Bytes
all_leaves [] = []
all_leaves (t ∷ ts) = leaves t ++ all_leaves ts

-- Neighbours joined, as `hash_neighbor` digests them.
pair_up : List Tree → List Tree
pair_up [] = []
pair_up (t ∷ []) = one t ∷ []
pair_up (l ∷ r ∷ ts) = two l r ∷ pair_up ts

all_leaves-pair_up : (ts : List Tree) → all_leaves (pair_up ts) ≡ all_leaves ts
unfolding pair_up
all_leaves-pair_up [] = refl
all_leaves-pair_up (t ∷ []) = refl
all_leaves-pair_up (l ∷ r ∷ ts) =
    rw (all_leaves-pair_up ts) (append_assoc (leaves l) (leaves r) (all_leaves ts))

all_leaves-leaf : (hs : List Bytes) → all_leaves (map leaf hs) ≡ hs
all_leaves-leaf [] = refl
all_leaves-leaf (h ∷ hs) = ap (λ t. h ∷ t) (all_leaves-leaf hs)

module _ (sha256 : Bytes → Bytes) where
  abbrev pub digest : Tree → Bytes
  digest (leaf h) = h
  digest (one t) = sha256 (digest t)
  digest (two l r) = sha256 (digest l ++ digest r)

  digest-leaf : (hs : List Bytes) → map digest (map leaf hs) ≡ hs
  digest-leaf [] = refl
  digest-leaf (h ∷ hs) = ap (λ t. h ∷ t) (digest-leaf hs)

  digest-pair_up : (ts : List Tree) → hash_neighbor sha256 (map digest ts) ≡ map digest (pair_up ts)
  unfolding hash_neighbor pair_up
  digest-pair_up [] = refl
  digest-pair_up (t ∷ []) = refl
  digest-pair_up (l ∷ r ∷ ts) = ap (λ t. sha256 (digest l ++ digest r) ∷ t) (digest-pair_up ts)

  -- A round leaves half of the hashes, rounded up.
  pub length-hash_neighbor :
      (hs : List Bytes) → length (hash_neighbor sha256 hs) ≡ (length hs + 1) / 2
  unfolding hash_neighbor
  length-hash_neighbor [] = omega arith
  length-hash_neighbor (h ∷ []) = omega arith
  length-hash_neighbor (h ∷ h' ∷ hs) = omega (arith, length-hash_neighbor hs)

  length-pair_up : (ts : List Tree) → length (pair_up ts) ≡ (length ts + 1) / 2
  length-pair_up ts =
      sym (length-map digest (pair_up ts))
      ∙ (ap length (sym (digest-pair_up ts))
          ∙ (length-hash_neighbor (map digest ts) ∙ ap (λ n. (n + 1) / 2) (length-map digest ts)))

  -- A list of one tree ends the loop with its digest.
  single :
      (ts : List Tree)
      → length ts ≡ 1
      → (t : Tree) × (map digest ts ≡ (digest t ∷ [])) × (leaves t ≡ all_leaves ts)
  single [] n = absurd (omega arith)
  single (t ∷ []) n = (t, refl, sym (append-nil (leaves t)))
  single (t ∷ u ∷ ts) n = absurd (omega arith)

  -- With a tree over every hash, and fuel for the list, the loop ends in one tree.
  loop_tree :
      (fuel : ℕ) (ts : List Tree)
      → 0 < length ts
      → length ts ≤ fuel
      → (t : Tree) × (merkle_loop sha256 fuel (map digest ts) ≡ some (digest t ∷ []))
        × (leaves t ≡ all_leaves ts)
  unfolding merkle_loop
  loop_tree zero ts pos enough = absurd (omega arith)
  loop_tree (suc fuel) ts pos enough =
      let size = length-pair_up ts in
      let shown = length-map digest (pair_up ts) in
      elim (Bool-cases (length (map digest (pair_up ts)) == 1)) [
        | inl done ↦
            let (t, digested, over) = single (pair_up ts) (ground (arith, shown)) in
            (t, rw (digest-pair_up ts, done, digested), over ∙ all_leaves-pair_up ts)
        | inr more ↦
            let (t, looped, over) =
              loop_tree fuel (pair_up ts) (omega (arith, size)) (ground (arith, size, shown)) in
            (t, rw (digest-pair_up ts, more, looped), over ∙ all_leaves-pair_up ts)
      ]

  module _ {B : Type 0} (k : Block B) where
    from_loop :
        (b : B) (bs : List B) (chain : BlockChain B) (root : Bytes)
        → chain.blocks ≡ (b ∷ bs)
        → merkle_loop sha256 (length (map k.hash (b ∷ bs))) (map k.hash (b ∷ bs)) ≡ some (root ∷ [])
        → merkle_root sha256 k chain ≡ ok root
    unfolding merkle_root
    from_loop b bs chain root e ended = rw (e, ended) (ground arith)

    -- On a chain with a block the loop ends in the digest of a tree.
    loop_end :
        (b : B) (bs : List B)
        → let hs = map k.hash (b ∷ bs) in
          (t : Tree) × (merkle_loop sha256 (length hs) hs ≡ some (digest t ∷ [])) × (leaves t ≡ hs)
    loop_end b bs =
        let hs = map k.hash (b ∷ bs) in
        let many = length-map leaf hs in
        let (t, looped, over) =
          loop_tree (length hs) (map leaf hs) (omega (arith, many)) (omega (arith, many)) in
        (t, rw (digest-leaf hs) at looped, over ∙ all_leaves-leaf hs)

    root_of :
        (bs : List B) (chain : BlockChain B)
        → chain.blocks ≡ bs
        → ((bs ≡ []) × (merkle_root sha256 k chain ≡ err (HError.chain "the chain is empty")))
          ⊎ ((t : Tree) × (merkle_root sha256 k chain ≡ ok (digest t)) × (leaves t ≡ map k.hash bs))
    unfolding merkle_root
    root_of [] chain e = inl (refl, rw e)
    root_of (b ∷ bs) chain e =
        let (t, ended, over) = loop_end b bs in
        inr (t, from_loop b bs chain (digest t) e ended, over)

    pub loop_of_root :
        (b : B) (bs : List B) (chain : BlockChain B) (root : Bytes)
        → chain.blocks ≡ (b ∷ bs)
        → merkle_root sha256 k chain ≡ ok root
        → merkle_loop sha256 (length (map k.hash (b ∷ bs))) (map k.hash (b ∷ bs)) ≡ some (root ∷ [])
    loop_of_root b bs chain root e got =
        let (t, ended, over) = loop_end b bs in
        let same : digest t ≡ root = cc (from_loop b bs chain (digest t) e ended, got) in
        rw (← same) ended

    -- `merkle_root` fails on an empty chain only. On any other it ends within as many rounds as
    -- there are blocks, and gives the digest of a hash tree whose leaves are the blocks' hashes
    -- in order.
    pub merkle_root-Tree :
        (chain : BlockChain B)
        → ((chain.blocks ≡ [])
            × (merkle_root sha256 k chain ≡ err (HError.chain "the chain is empty")))
          ⊎ ((t : Tree) × (merkle_root sha256 k chain ≡ ok (digest t))
              × (leaves t ≡ map k.hash chain.blocks))
    merkle_root-Tree chain = root_of chain.blocks chain refl
