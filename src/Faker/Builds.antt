-- ===== src/Faker/Builds.antt =====
-- Which chains `faker_data_chain` of src/utils/utils.rs makes.
use history_chain.Base.{
  ℕ, zero, suc, ◌+◌, ◌-◌, ◌≤◌, ◌<◌, ◌^◌, Bytes, List, [], ◌∷◌, ◌++◌, ◌≡◌, ◌∙◌, refl, sym, ap, subst,
  ◌↔◌, inl, inr, some, Result, ok, err, panicked, >>=-eq-ok, ok-inj, unwrap, arith, length, last,
  length-append, ltb, le→ltb, Bool-cases, true, false, add_u64, sub_u64, sub_u64-fits,
}
use history_chain.Block.Data
use history_chain.Block.Data.{DataBlock, data_block, create-hashed}
use history_chain.Block.Verify.{Accepts}
use history_chain.Chain
use history_chain.Chain.{BlockChain, ChainLimit, add, push, block_ref, origin, time_check, verify}
use history_chain.Chain.Add.{
  Built, start, extend, from_origin, add_lem, block_ref-last, verify-Built,
}
use history_chain.Faker.{World, added, faker_block, faker_rounds, faker_data_chain}

added-eq-ok :
    {S : Type 0} (r : Result (Unit {0}) × S) (s : S) → added r ≡ ok s → (r.0 ≡ ok tt) × (r.1 ≡ s)
unfolding added
added-eq-ok (ok tt, t) s h = (refl, ok-inj h)
added-eq-ok (err e, t) s h = cc
added-eq-ok (panicked, t) s h = cc

-- A clock's time that lies in a chain's.
abbrev pub InTime : ℕ → ℕ → ℕ → Type 0
InTime time_origin gap now = (time_origin ≤ now) × (now ≤ add_u64 time_origin gap)

ltb→lt : (a b : ℕ) → ltb a b ≡ true → a < b
ltb→lt a b h = ground arith

antisym : (a b : ℕ) → a ≤ b → ltb a b ≡ false → a ≡ b
antisym a b h k = ground arith

module _ (sha256 : Bytes → Bytes) (world : World) (digest_id : ℕ) where
  abbrev chain_of : DataBlock → List DataBlock → ChainLimit → BlockChain DataBlock
  chain_of x bs limit = from_origin (data_block sha256) x bs limit

  abbrev with_block : DataBlock → List DataBlock → ℕ → DataBlock → List DataBlock
  with_block x bs i pre = bs ++ (faker_block sha256 world digest_id i pre ∷ [])

  -- A block that is added is at the end, within the chain's time, and the chain is still built.
  added-ok :
      (x : DataBlock) (bs : List DataBlock) (limit : ChainLimit) (b : DataBlock)
      (chain : BlockChain DataBlock)
      → Built (data_block sha256) (chain_of x bs limit)
      → added (add (data_block sha256) (chain_of x bs limit) b) ≡ ok chain
      → (chain ≡ chain_of x (bs ++ (b ∷ [])) limit)
        × Built (data_block sha256) (chain_of x (bs ++ (b ∷ [])) limit)
        × InTime x.timestamp limit.time_gap b.timestamp
  unfolding push
  added-ok x bs limit b chain built done =
      let k = data_block sha256 in
      let (success, it) = added-eq-ok _ chain done in
      elim (add_lem k x bs limit b) [
        | inl (same, room, accepted) ↦ (
          sym it ∙ ap (λ r. r.1) same,
          subst (Built k) (ap (λ r. r.1) same) (extend (chain_of x bs limit) b built success),
          (accepted.not_before, accepted.not_after),
        )
        | inr (failed, _, _) ↦ absurd (failed success)
      ]

  faker_rounds-ok :
      (left i : ℕ) (x : DataBlock) (bs : List DataBlock) (limit : ChainLimit)
      (chain : BlockChain DataBlock)
      → Built (data_block sha256) (chain_of x bs limit)
      → length bs ≡ i
      → faker_rounds sha256 world digest_id limit x.timestamp i left (chain_of x bs limit)
        ≡ ok chain
      → Built (data_block sha256) chain
        × (length chain.blocks ≡ suc (i + left))
        × ((j : ℕ) → i ≤ j → j < i + left → InTime x.timestamp limit.time_gap (world.now (suc j)))
  unfolding faker_rounds faker_block Data.create
  faker_rounds-ok zero i x bs limit chain built sized done =
      let it = ok-inj done in
      (
        subst (Built (data_block sha256)) it built,
        omega (arith, ap (λ (c : BlockChain DataBlock). length c.blocks) it),
        (λ j from below. absurd (omega arith)),
      )
  faker_rounds-ok (suc left) i x bs limit chain built sized done =
      let k = data_block sha256 in
      let (pre, _, done') = >>=-eq-ok (unwrap (block_ref (chain_of x bs limit) i)) _ done in
      let block = faker_block sha256 world digest_id i pre in
      let (u, _, done'') = >>=-eq-ok (time_check k limit x.timestamp block) _ done' in
      let (chain', got, later_done) =
        >>=-eq-ok (added (add k (chain_of x bs limit) block)) _ done'' in
      let (it, built', here) = added-ok x bs limit block chain' built got in
      let longer : length (bs ++ (block ∷ [])) ≡ suc i =
        omega (arith, length-append bs (block ∷ [])) in
      let next : faker_rounds sha256 world digest_id limit x.timestamp (suc i) left
            (chain_of x (bs ++ (block ∷ [])) limit)
          ≡ ok chain =
        ap (faker_rounds sha256 world digest_id limit x.timestamp (suc i) left) (sym it)
        ∙ later_done in
      let (built'', sized'', times) =
        faker_rounds-ok left (suc i) x (bs ++ (block ∷ [])) limit chain built' longer next in
      (
        built'',
        omega (arith, sized''),
        (λ j from below. elim (Bool-cases (ltb i j)) [
          | inl later ↦ times j (ltb→lt i j later) (omega arith)
          | inr now ↦
              let same : i ≡ j = antisym i j from now in
              subst (λ n. InTime x.timestamp limit.time_gap (world.now (suc n))) same here
        ]),
      )

  faker_block-Accepts :
      (i : ℕ) (pre : DataBlock) (time_origin gap : ℕ)
      → time_origin ≤ world.now (suc i)
      → world.now (suc i) ≤ add_u64 time_origin gap
      → Accepts
          (data_block sha256)
          time_origin
          gap
          pre.hash
          (faker_block sha256 world digest_id i pre)
  unfolding faker_block Data.create
  faker_block-Accepts i pre time_origin gap begun ended = record {
    hashed = create-hashed sha256 (world.now (suc i)) _;
    not_before = begun;
    not_after = ended;
    linked = refl;
  }

  time_check-ok :
      (limit : ChainLimit) (time_origin : ℕ) (b : DataBlock)
      → b.timestamp ≤ add_u64 time_origin limit.time_gap
      → time_check (data_block sha256) limit time_origin b ≡ ok tt
  unfolding time_check
  time_check-ok limit time_origin b h =
      rw (le→ltb (add_u64 time_origin limit.time_gap) b.timestamp h) refl

  push-eq :
      (x : DataBlock) (bs : List DataBlock) (limit : ChainLimit) (b : DataBlock)
      → suc (length bs) < limit.max_len
      → Accepts (data_block sha256) x.timestamp limit.time_gap ((last x bs).hash) b
      → added (add (data_block sha256) (chain_of x bs limit) b)
        ≡ ok (chain_of x (bs ++ (b ∷ [])) limit)
  unfolding added push
  push-eq x bs limit b room accepted = elim (add_lem (data_block sha256) x bs limit b) [
    | inl (done, _, _) ↦ rw done refl
    | inr (failed, same, why) ↦ absurd (why (room, accepted))
  ]

  -- With room in the chain and the clock in its time, every round succeeds.
  faker_rounds-total :
      (left i : ℕ) (x : DataBlock) (bs : List DataBlock) (limit : ChainLimit)
      → length bs ≡ i
      → suc (i + left) ≤ limit.max_len
      → ((j : ℕ) → i ≤ j → j < i + left → InTime x.timestamp limit.time_gap (world.now (suc j)))
      → (chain : BlockChain DataBlock) × (faker_rounds sha256 world digest_id limit x.timestamp i
            left
            (chain_of x bs limit)
          ≡ ok chain)
  unfolding faker_rounds
  faker_rounds-total zero i x bs limit sized room times = (chain_of x bs limit, refl)
  faker_rounds-total (suc left) i x bs limit sized room times =
      let k = data_block sha256 in
      let block = faker_block sha256 world digest_id i (last x bs) in
      let (begun, ended) = times i (omega arith) (omega arith) in
      let at_end : block_ref (chain_of x bs limit) i ≡ some (last x bs) =
        ap (block_ref (chain_of x bs limit)) (omega arith) ∙ block_ref-last k x bs limit in
      let accepted : Accepts k x.timestamp limit.time_gap ((last x bs).hash) block =
        faker_block-Accepts i (last x bs) x.timestamp limit.time_gap begun ended in
      let pushed = push-eq x bs limit block (omega arith) accepted in
      let (chain, done) =
        faker_rounds-total left (suc i) x (bs ++ (block ∷ [])) limit
          (omega (arith, length-append bs (block ∷ []))) (omega arith)
          (λ j from below. times j (omega arith) (omega arith)) in
      (chain, rw (at_end, time_check-ok limit x.timestamp block accepted.not_after, pushed) done)

  -- `faker_data_chain` for a length of two or more and below 2 ^ 64: a chain that it returns has that
  -- length and passes `verify`, and it returns one exactly when every reading of the clock lies in
  -- the gap behind the reading for the genesis block.
  pub faker_data_chain-verify :
      (len time_gap : ℕ) (chain : BlockChain DataBlock)
      → 2 ≤ len
      → len < 2 ^ 64
      → (faker_data_chain sha256 world len digest_id time_gap ≡ ok chain
          → (length chain.blocks ≡ len) × (verify (data_block sha256) chain ≡ ok tt))
        × (((c : BlockChain DataBlock) × (faker_data_chain sha256 world len digest_id time_gap
                ≡ ok c))
            ↔ ((j : ℕ) → j < len - 1 → InTime (world.now 0) time_gap (world.now (suc j))))
  unfolding faker_data_chain Chain.new Data.genesis Data.create origin
  faker_data_chain-verify len time_gap chain long small =
      let k = data_block sha256 in
      let limit : ChainLimit = record { max_len = len; time_gap = time_gap } in
      let x = Data.genesis sha256 (world.now 0) digest_id in
      let count : sub_u64 len 1 ≡ len - 1 = sub_u64-fits len 1 (omega arith) small in
      let built : Built k (chain_of x [] limit) = start (world.now 0) digest_id limit in
      let rounds : faker_data_chain sha256 world len digest_id time_gap
          ≡ faker_rounds sha256 world digest_id limit (world.now 0) 0 (len - 1)
              (chain_of x [] limit) =
        ap (λ n. faker_rounds sha256 world digest_id limit (world.now 0) 0 n (chain_of x [] limit))
          count in
      let inverted =
        λ (c : BlockChain DataBlock)
            (done : faker_data_chain sha256 world len digest_id time_gap ≡ ok c).
          faker_rounds-ok (len - 1) 0 x [] limit c built refl (sym rounds ∙ done) in
      (
        (λ done.
            let (made, sized, times) = inverted chain done in
            (omega (arith, sized), (verify-Built k made (omega (arith, sized))).0)),
        (
          (λ (c, done) j below.
              let (made, sized, times) = inverted c done in times j (omega arith) (omega arith)),
          (λ times.
              let (c, done) =
                faker_rounds-total (len - 1) 0 x [] limit refl (omega arith)
                  (λ j from below. times j (omega arith)) in
              (c, rounds ∙ done)),
        ),
      )
