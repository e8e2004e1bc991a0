-- ===== src/Chain/Stores/MainAdd.antt =====
-- `Main::add_block`, by its branches.
use history_chain.Base.{
  suc, ◌<◌, List, ◌∷◌, ◌≡◌, ◌≢◌, ◌⊎◌, inl, inr, refl, ap, Result, ok, err, panicked, length, last,
  and_then,
}
use history_chain.Block
use history_chain.Block.{Block}
use history_chain.Block.Verify.{Accepts, Accepts→verify}
use history_chain.Chain.{BlockChain, ChainLimit, push, add}
use history_chain.Chain.Add.{add_lem, last_block_ref-eq, origin-eq}
use history_chain.Chain.Stores.{Main, add_block, main_check}

-- A `?` before a step that fails and changes nothing.
fails :
    {S : Type 0} (m r : Result (Unit {0})) (s t : S)
    → r ≢ ok tt
    → t ≡ s
    → ((and_then m s (r, t)).0 ≢ ok tt) × ((and_then m s (r, t)).1 ≡ s)
fails (ok u) r s t bad same = (bad, same)
fails (err e) r s t bad same = ((λ p. cc), refl)
fails panicked r s t bad same = ((λ p. cc), refl)

module _ {D : Type 0} (k : Block D) where
  module _ (x : D) (bs : List D) (limit : ChainLimit) where
    abbrev from_origin : BlockChain D
    from_origin = record { blocks = x ∷ bs; limit = limit }

    abbrev main_from_origin : Main D
    main_from_origin = record { chain = from_origin }

    add_block-eq :
        (b : D)
        → add_block k main_from_origin b
          ≡ and_then
              (Block.verify k b (k.hash (last x bs)) (k.timestamp x) limit.time_gap)
              main_from_origin
              (((add k from_origin b).0), record { chain = (add k from_origin b).1 })
    unfolding add_block main_check
    add_block-eq b =
        rw (last_block_ref-eq k x bs limit, add_block) (rw (origin-eq k x bs limit, main_check))

    -- `Main::add_block` behaves as `BlockChain::add`: the checks that it makes first are those
    -- that `add` makes again.
    pub add_block_lem :
        (b : D)
        → ((add_block k main_from_origin b ≡ (ok tt, record { chain = push from_origin b }))
            × (suc (length bs) < limit.max_len)
            × Accepts k (k.timestamp x) limit.time_gap (k.hash (last x bs)) b)
          ⊎ (((add_block k main_from_origin b).0 ≢ ok tt)
              × ((add_block k main_from_origin b).1 ≡ main_from_origin)
              × ¬ (
                  (suc (length bs) < limit.max_len)
                  × Accepts k (k.timestamp x) limit.time_gap (k.hash (last x bs)) b))
    add_block_lem b = elim (add_lem k x bs limit b) [
      | inl (done, room, accepted) ↦
          inl (rw (add_block-eq b, Accepts→verify k b _ _ _ accepted, done) refl, room, accepted)
      | inr (failed, same, refused) ↦
          let checked = Block.verify k b (k.hash (last x bs)) (k.timestamp x) limit.time_gap in
          let both =
            fails checked (add k from_origin b).0 main_from_origin _ failed
              (ap (λ c. record { chain = c }) same) in
          inr (rw (add_block-eq b) (both.0), rw (add_block-eq b) (both.1), refused)
    ]
