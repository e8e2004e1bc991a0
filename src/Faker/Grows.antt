-- ===== src/Faker/Grows.antt =====
-- How far `faker_executor` of src/utils/utils.rs fills a keeper.
use history_chain.Base.{
  All-map, ℕ, zero, suc, ◌+◌, ◌-◌, ◌≤◌, ◌<◌, ◌^◌, Bytes, List, [], ◌∷◌, ◌++◌, ◌≡◌, ◌∙◌, refl, ap,
  subst, inl, inr, ok, arith, length, last, All, length-append, Bool-cases, ◌==◌, as_u32,
  as_u32-fits, sub_u64-fits, false, leb, ◌>>=◌,
}
use history_chain.Base.Dict.{Dict, insert, All-insert}
use history_chain.Block.Data.{DataBlock, data_block}
use history_chain.Block.Digest
use history_chain.Block.Digest.{DigestBlock, digest_block}
use history_chain.Chain
use history_chain.Chain.{BlockChain, ChainLimit, verify, push}
use history_chain.Chain.Stores.{Sides, main_new}
use history_chain.Keeper.{ChainKeeper, keeper_new}
use history_chain.Executor.{ChainExecutor, executor_new}
use history_chain.Executor.AddChain.{keeper_from}
use history_chain.Executor.Keeps.{IsSoundKeeper, add_chain-IsSoundKeeper, keeper_new-IsSoundKeeper}
use history_chain.Executor.Partial.{add_chain_accepts}
use history_chain.Faker.{World, faker_data_chain, executor_rounds, faker_executor}
use history_chain.Faker.Builds.{InTime, faker_data_chain-verify}

module _ {T : Type 0} where
  -- The keys of a table lie below a number.
  abbrev Below : ℕ → Dict T → Type 0
  Below n d = All (λ e. e.0 < n) d

  -- A key that no entry has makes an entry more.
  length-insert : (k : ℕ) (v : T) (d : Dict T) → Below k d → length (insert k v d) ≡ suc (length d)
  length-insert k v [] below = refl
  length-insert k v ((j, w) ∷ d) below = elim (Bool-cases (j == k)) [
    | inl same ↦ absurd (ground (arith, below.0, same))
    | inr other ↦ rw other (ap suc (length-insert k v d below.1))
  ]

  insert-Below : (k : ℕ) (v : T) (d : Dict T) → Below k d → Below (suc k) (insert k v d)
  insert-Below k v d below =
      All-insert (λ e. e.0 < suc k) k v d (omega arith)
        (All-map (λ e (h : e.0 < k). omega arith) d below)

last-append : {A : Type 0} (x : A) (xs : List A) (y : A) → last x (xs ++ (y ∷ [])) ≡ y
last-append x [] y = refl
last-append x (z ∷ xs) y = last-append z xs y

-- A keeper whose last digest id counts its main chain, with a side chain for every digest block
-- behind the first, under a smaller or equal digest id.
pub record IsFilled (x : DigestBlock) (bs : List DigestBlock) (sides : Sides DataBlock)
    : Type 0 where
  pub last_id : (last x bs).digest_id ≡ suc (length bs)
  pub ids : Below (suc (suc (length bs))) sides
  pub count : length sides ≡ length bs

IsFilled-push :
    (x : DigestBlock) (bs : List DigestBlock) (sides : Sides DataBlock) (d : DigestBlock)
    (chain : BlockChain DataBlock)
    → suc (suc (length bs)) < 2 ^ 32
    → IsFilled x bs sides
    → d.digest_id ≡ as_u32 (as_u32 (last x bs).digest_id + 1)
    → IsFilled x (bs ++ (d ∷ [])) (insert d.digest_id chain sides)
IsFilled-push x bs sides d chain small h e =
    let longer : length (bs ++ (d ∷ [])) ≡ suc (length bs) =
      length-append bs (d ∷ []) ∙ omega arith in
    let wraps : as_u32 (as_u32 (last x bs).digest_id + 1) ≡ suc (suc (length bs)) =
      ap (λ n. as_u32 (as_u32 n + 1)) h.last_id
      ∙ ap (λ n. as_u32 (n + 1)) (as_u32-fits (suc (length bs)) (omega arith))
      ∙ as_u32-fits (suc (length bs) + 1) (omega arith)
      ∙ omega arith in
    let id : d.digest_id ≡ suc (suc (length bs)) = e ∙ wraps in
    record {
      last_id =
          ap (λ (b : DigestBlock). b.digest_id) (last-append x bs d) ∙ omega (arith, id, longer);
      ids = rw (longer, id) (insert-Below (suc (suc (length bs))) chain sides h.ids);
      count =
          rw (longer, id)
            (length-insert (suc (suc (length bs))) chain sides h.ids ∙ ap suc h.count);
    }

module _ (sha256 : Bytes → Bytes) (worlds : ℕ → World) (times : ℕ → ℕ) (limit : ChainLimit)
    (long : 2 ≤ limit.max_len) (small : limit.max_len < 2 ^ 32)
    (chain_times : (i j : ℕ)
      → j < limit.max_len - 1
      → InTime ((worlds i).now 0) limit.time_gap ((worlds i).now (suc j))) where
  -- A keeper that the rounds leave behind.
  abbrev Filled : ℕ → ChainKeeper DataBlock DigestBlock → Type 0
  Filled n keeper =
      (length keeper.main.chain.blocks ≡ suc n)
      × (length keeper.sides ≡ n)
      × IsSoundKeeper sha256 keeper

  round_chain :
      (i : ℕ)
      → (chain : BlockChain DataBlock) × (faker_data_chain sha256
            (worlds i)
            limit.max_len
            (as_u32 (suc i))
            limit.time_gap
          ≡ ok chain)
        × (verify (data_block sha256) chain ≡ ok tt)
  round_chain i =
      let made = λ (c : BlockChain DataBlock).
        faker_data_chain-verify sha256 (worlds i) (as_u32 (suc i)) limit.max_len limit.time_gap c
          long (omega arith) in
      let (chain, done) = (made (record { blocks = []; limit = limit })).1.1 (chain_times i) in
      (chain, done, ((made chain).0 done).1)

  executor_rounds-Filled :
      (left i : ℕ) (x : DigestBlock) (bs : List DigestBlock) (sides : Sides DataBlock)
      → IsSoundKeeper sha256 (keeper_from x bs limit sides)
      → IsFilled x bs sides
      → suc (length bs + left) ≤ limit.max_len
      → ((j : ℕ) → i ≤ j → j < i + left → InTime x.timestamp limit.time_gap (times j))
      → (keeper : ChainKeeper DataBlock DigestBlock) × (executor_rounds sha256 worlds times limit i
            left
            (keeper_from x bs limit sides)
          ≡ ok keeper)
        × Filled (length bs + left) keeper
  unfolding executor_rounds push
  executor_rounds-Filled zero i x bs sides sound filled room in_time =
      (keeper_from x bs limit sides, refl, (omega arith, omega (arith, filled.count), sound))
  executor_rounds-Filled (suc left) i x bs sides sound filled room in_time =
      let (chain, made, valid) = round_chain i in
      let (early, late) = in_time i (omega arith) (omega arith) in
      let (d, added_to, sized, numbered) =
        add_chain_accepts sha256 x bs limit sides (times i) chain (omega arith) early late valid in
      let bs' = bs ++ (d ∷ []) in
      let longer : length bs' ≡ suc (length bs) = length-append bs (d ∷ []) ∙ omega arith in
      let sides' = insert d.digest_id chain sides in
      let kept : IsSoundKeeper sha256 (keeper_from x bs' limit sides') =
        subst (λ r. IsSoundKeeper sha256 (r.1)) added_to
          (add_chain-IsSoundKeeper sha256 (keeper_from x bs limit sides) (times i) chain sound) in
      let (keeper, done, rest) =
        executor_rounds-Filled left (suc i) x bs' sides' kept
          (IsFilled-push x bs sides d chain (omega arith) filled numbered) (omega (arith, longer))
          (λ j from below. in_time j (omega arith) (omega arith)) in
      (keeper, rw (made, added_to) done, subst (λ n. Filled n keeper) (omega (arith, longer)) rest)

  -- With limits of two blocks or more and below 2 ^ 32, the clock of every chain in its gap, and the
  -- clock of the main chain in the gap behind its genesis block, `faker_executor` for a main chain
  -- of one block or more and fewer than the limit returns an executor: the main chain has that
  -- number of blocks, there is a side chain for each block behind its first, and the keeper is
  -- sound.
  pub faker_executor-Filled :
      (main_len now now' : ℕ)
      → 1 ≤ main_len
      → main_len < limit.max_len
      → ((j : ℕ) → j < main_len - 1 → InTime now limit.time_gap (times j))
      → (executor : ChainExecutor) × (faker_executor sha256 worlds times now now' main_len limit
          ≡ ok executor)
        × (length executor.keeper.main.chain.blocks ≡ main_len)
        × (length executor.keeper.sides ≡ main_len - 1)
        × IsSoundKeeper sha256 executor.keeper
  unfolding faker_executor executor_new keeper_new main_new Chain.new Digest.genesis Digest.create
  faker_executor-Filled main_len now now' some_blocks room in_time =
      let x = Digest.genesis sha256 now 1 in
      let sound : IsSoundKeeper sha256 (keeper_from x [] limit []) =
        keeper_new-IsSoundKeeper sha256 now limit in
      let filled : IsFilled x [] [] = record { last_id = refl; ids = tt; count = refl } in
      let fewer : leb limit.max_len main_len ≡ false = ground arith in
      let with_keeper = λ (keeper : ChainKeeper DataBlock DigestBlock).
        ok (record (executor_new sha256 now now' limit) { keeper = keeper }) in
      let begun : faker_executor sha256 worlds times now now' main_len limit ≡ (
          executor_rounds sha256 worlds times limit 0 (main_len - 1) (keeper_from x [] limit [])
          >>= with_keeper) =
        rw (fewer, sub_u64-fits main_len 1 some_blocks (omega arith)) refl in
      let (keeper, done, (blocks, sides, kept)) =
        executor_rounds-Filled (main_len - 1) 0 x [] [] sound filled (omega arith)
          (λ j from below. in_time j (omega (arith, below))) in
      (
        record (executor_new sha256 now now' limit) { keeper = keeper },
        begun ∙ ap (λ r. r >>= with_keeper) done,
        omega (arith, blocks),
        omega (arith, sides),
        kept,
      )
