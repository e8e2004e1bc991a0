-- ===== src/Chain/Add.antt =====
-- `BlockChain::add`, by its branches, and the chains that calls of it build.
use history_chain.Base.{
  ℕ, ◌≤◌, ◌<◌, max, List, [], ◌∷◌, ◌≡◌, ◌≢◌, refl, ok, err, arith, length, last, ap, and_then,
  and_then-cases, HError, ◌⊎◌, length-append, get_elem?-last, get_elem?, Bool-cases, inl, inr, ltb,
  leb, some, true, if◌then◌else◌, ◌-◌, suc,
}
use history_chain.Block.{Block}
use history_chain.Block
use history_chain.Block.Verify.{Accepts, verify→Accepts, Accepts→verify}
use history_chain.Chain.{
  BlockChain, ChainLimit, add, push, new, block_verify, is_full, last_block_ref, origin, block_ref,
  verify,
}
use history_chain.Chain.Linked.{IsLinked, IsVerified, Linked-snoc}
use history_chain.Chain.Verify.{verify_iff}

module _ {B : Type 0} (k : Block B) where
  module _ (x : B) (bs : List B) (limit : ChainLimit) where
    -- The chain with origin `x`.
    abbrev pub from_origin : BlockChain B
    from_origin = record { blocks = x ∷ bs; limit = limit }

    pub block_ref-last : block_ref from_origin (suc (length bs) - 1) ≡ some (last x bs)
    unfolding block_ref
    block_ref-last =
        let at_end = get_elem?-last x bs (length bs) refl in
        let same : suc (length bs) - 1 ≡ length bs = omega arith in rw same (ground (arith, at_end))

    -- A chain with those blocks.
    pub chain-eq :
        (chain : BlockChain B) → chain.blocks ≡ (x ∷ bs) → chain.limit ≡ limit → chain ≡ from_origin
    chain-eq chain e l = λ i. record { blocks = e i; limit = l i }

    pub last_block_ref-eq : last_block_ref from_origin ≡ some (last x bs)
    unfolding last_block_ref block_ref
    last_block_ref-eq =
        let at_end = get_elem?-last x bs (length bs) refl in
        let below : ltb (suc (length bs) - 1) (suc (length bs)) ≡ true = ground arith in
        let same : suc (length bs) - 1 ≡ length bs = omega arith in
        ground (arith, at_end, ap (λ n. get_elem? (x ∷ bs) n) same)

    pub origin-eq : origin k from_origin ≡ some (k.timestamp x)
    unfolding origin block_ref
    origin-eq = ground arith

    pub block_verify-eq :
        (b : B)
        → block_verify k from_origin b
          ≡ Block.verify k b (k.hash (last x bs)) (k.timestamp x) limit.time_gap
    unfolding block_verify origin block_ref
    block_verify-eq b = rw last_block_ref-eq (ground arith)

    -- The branches of `add` at a chain that has its origin.
    add-eq :
        (b : B)
        → add k from_origin b ≡ (
            if leb limit.max_len (suc (length bs))
            then (err (HError.chain "chain is full"), from_origin)
            else and_then
                (Block.verify k b (k.hash (last x bs)) (k.timestamp x) limit.time_gap)
                from_origin
                (ok tt, push from_origin b))
    unfolding add is_full
    add-eq b = rw block_verify-eq (ground arith)

    -- On a chain that has its origin, `add` puts the block at the end if the chain is shorter than
    -- its limit and the block follows the last one within the chain's time. Otherwise it does not
    -- succeed, and the chain is as it was.
    pub add_lem :
        (b : B)
        → ((add k from_origin b ≡ (ok tt, push from_origin b))
            × (suc (length bs) < limit.max_len)
            × Accepts k (k.timestamp x) limit.time_gap (k.hash (last x bs)) b)
          ⊎ (((add k from_origin b).0 ≢ ok tt)
              × ((add k from_origin b).1 ≡ from_origin)
              × ¬ (
                  (suc (length bs) < limit.max_len)
                  × Accepts k (k.timestamp x) limit.time_gap (k.hash (last x bs)) b))
    add_lem b = elim (Bool-cases (leb limit.max_len (suc (length bs)))) [
      | inl full ↦ inr (rw (add-eq b, full) (λ e. cc), rw (add-eq b, full), (λ h. ground arith))
      | inr room ↦
          elim (and_then-cases
            (Block.verify k b (k.hash (last x bs)) (k.timestamp x) limit.time_gap) from_origin
            (push from_origin b)) [
              | inl (valid, done) ↦
                  inl (rw (add-eq b, room) done, ground arith, verify→Accepts k b _ _ _ valid)
              | inr (invalid, failed, same) ↦ inr (
                rw (add-eq b, room) failed,
                rw (add-eq b, room) same,
                (λ h. invalid (Accepts→verify k b _ _ _ (h.1))),
              )
            ]
    ]

-- The chains that a run of `new` and of successful calls of `add` builds, at any clock times.
pub data Built {B : Type 0} (k : Block B) : BlockChain B → Type 0 where
  start : (now digest_id : ℕ) (limit : ChainLimit) → Built k (new k now digest_id limit)
  extend :
      (chain : BlockChain B) (b : B)
      → Built k chain
      → (add k chain b).0 ≡ ok tt
      → Built k (add k chain b).1

module _ {B : Type 0} (k : Block B) where
  -- The origin is there, the blocks are linked, and the length keeps to the limit, which a new
  -- chain does not check for its genesis block.
  pub record IsSound (chain : BlockChain B) : Type 0 where
    pub linked : IsLinked k chain.limit.time_gap chain.blocks
    pub fits : length chain.blocks ≤ max 1 chain.limit.max_len

  pub push-IsSound :
      (x : B) (bs : List B) (limit : ChainLimit) (b : B)
      → IsSound (record { blocks = x ∷ bs; limit = limit })
      → suc (length bs) < limit.max_len
      → Accepts k (k.timestamp x) limit.time_gap (k.hash (last x bs)) b
      → IsSound (push (record { blocks = x ∷ bs; limit = limit }) b)
  unfolding push
  push-IsSound x bs limit b s room accepted = record {
    linked = Linked-snoc k _ _ x bs b s.linked accepted;
    fits = omega (arith, length-append bs (b ∷ []));
  }

  add-IsSound_at :
      (bs : List B) (limit : ChainLimit) (b : B)
      → IsSound (record { blocks = bs; limit = limit })
      → IsSound (add k (record { blocks = bs; limit = limit }) b).1
  add-IsSound_at [] limit b s = absurd s.linked
  add-IsSound_at (x ∷ bs) limit b s = elim (add_lem k x bs limit b) [
    | inl (done, room, accepted) ↦ rw done (push-IsSound x bs limit b s room accepted)
    | inr (failed, same, why) ↦ rw same s
  ]

  -- `add` keeps a chain sound, whether it succeeds or not.
  add-IsSound : (chain : BlockChain B) (b : B) → IsSound chain → IsSound (add k chain b).1
  add-IsSound chain b = add-IsSound_at chain.blocks chain.limit b

  Built-IsSound : {chain : BlockChain B} → Built k chain → IsSound chain
  unfolding new
  Built-IsSound (start now digest_id limit) = record { linked = tt; fits = omega arith }
  Built-IsSound (extend chain b built done) = add-IsSound chain b (Built-IsSound built)

  sound-IsVerified :
      (bs : List B) (limit : ChainLimit)
      → IsSound (record { blocks = bs; limit = limit })
      → 2 ≤ length bs
      → IsVerified k (record { blocks = bs; limit = limit })
  sound-IsVerified [] limit s n = absurd s.linked
  sound-IsVerified (x ∷ []) limit s n = absurd (omega arith)
  sound-IsVerified (x ∷ b ∷ bs) limit s n = s.linked

  -- A chain that `new` and successful calls of `add` have built, with at least one block added,
  -- passes `verify` and is no longer than its limit.
  pub verify-Built :
      {chain : BlockChain B}
      → Built k chain
      → 2 ≤ length chain.blocks
      → (verify k chain ≡ ok tt) × (length chain.blocks ≤ max 1 chain.limit.max_len)
  verify-Built {chain} built n =
      let s = Built-IsSound built in
      ((verify_iff k chain).1 (sound-IsVerified chain.blocks chain.limit s n), s.fits)
