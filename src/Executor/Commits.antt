-- ===== src/Executor/Commits.antt =====
-- The keepers that calls of `add_chain` build, and how their main chain commits to their side chains.
use history_chain.Base.{
  ℕ, zero, suc, ◌+◌, ◌<◌, ◌^◌, Bytes, List, [], ◌∷◌, ◌++◌, ◌≡◌, ◌∙◌, refl, ap, sym, inl, inr, some,
  Result, ok, arith, length, last, All, All-map, get_elem?, as_u32, as_u32-fits,
}
use history_chain.Base.Dict.{insert, All-insert}
use history_chain.Block.Data.{DataBlock, data_block}
use history_chain.Block.Digest
use history_chain.Block.Digest.{DigestBlock, digest_block}
use history_chain.Chain
use history_chain.Chain.{BlockChain, ChainLimit, push}
use history_chain.Chain.Stores.{Sides, main_new}
use history_chain.Hash.{merkle_root}
use history_chain.Keeper.{ChainKeeper, keeper_new}
use history_chain.Executor.{executor_add_chain, next_digest}
use history_chain.Executor.AddChain.{keeper_from, Stores, executor_add_chain_lem}
use history_chain.Executor.Keeps.{IsSoundKeeper, add_chain-IsSoundKeeper, keeper_new-IsSoundKeeper}

-- A keeper that a new one becomes by calls of `add_chain`, however they end.
pub data Reached (sha256 : Bytes → Bytes) (limit : ChainLimit)
    : ChainKeeper DataBlock DigestBlock → Type 0 where
  starts : (now : ℕ) → Reached sha256 limit (keeper_new (digest_block sha256) now limit)
  adds :
      {keeper : ChainKeeper DataBlock DigestBlock} (now : ℕ) (chain : BlockChain DataBlock)
      → Reached sha256 limit keeper
      → Reached sha256 limit ((executor_add_chain sha256 now keeper chain).1)

-- The digest ids behind the genesis block count up from a number.
abbrev pub Numbered : ℕ → List DigestBlock → Type 0
Numbered n [] = Unit
Numbered n (d ∷ ds) = (d.digest_id ≡ n) × Numbered (suc n) ds

Numbered-append :
    (n : ℕ) (ds : List DigestBlock) (d : DigestBlock)
    → Numbered n ds
    → d.digest_id ≡ n + length ds
    → Numbered n (ds ++ (d ∷ []))
Numbered-append n [] d h e = (omega (arith, e), tt)
Numbered-append n (b ∷ ds) d h e = (h.0, Numbered-append (suc n) ds d h.1 (omega (arith, e)))

pub Numbered-get_elem? :
    (n : ℕ) (ds : List DigestBlock) (i : ℕ) (d : DigestBlock)
    → Numbered n ds
    → get_elem? ds i ≡ some d
    → d.digest_id ≡ n + i
Numbered-get_elem? n [] i d h e = cc
Numbered-get_elem? n (b ∷ ds) zero d h e =
    let same : b ≡ d = cc in ap (λ (x : DigestBlock). x.digest_id) (sym same) ∙ omega (arith, h.0)
Numbered-get_elem? n (b ∷ ds) (suc i) d h e = omega (arith, Numbered-get_elem? (suc n) ds i d h.1 e)

last_id :
    (n : ℕ) (x : DigestBlock) (bs : List DigestBlock)
    → x.digest_id ≡ n
    → Numbered (suc n) bs
    → (last x bs).digest_id ≡ n + length bs
last_id n x [] first h = omega (arith, first)
last_id n x (b ∷ bs) first h = last_id (suc n) b bs h.0 h.1 ∙ omega arith

get_elem?-snoc :
    {A : Type 0} (xs : List A) (y : A) → get_elem? (xs ++ (y ∷ [])) (length xs) ≡ some y
get_elem?-snoc [] y = refl
get_elem?-snoc (x ∷ xs) y = get_elem?-snoc xs y

get_elem?-longer :
    {A : Type 0} (xs : List A) (y : A) (i : ℕ) (x : A)
    → get_elem? xs i ≡ some x
    → get_elem? (xs ++ (y ∷ [])) i ≡ some x
get_elem?-longer [] y i x e = cc
get_elem?-longer (z ∷ xs) y zero x e = e
get_elem?-longer (z ∷ xs) y (suc i) x e = get_elem?-longer xs y i x e

module _ (sha256 : Bytes → Bytes) where
  -- Behind the genesis block a digest block stands for the side chain: it has the id, the chain's
  -- Merkle root and its length.
  pub record Commits (ds : List DigestBlock) (side : ℕ × BlockChain DataBlock) : Type 0 where
    pub place : ℕ
    pub digest : DigestBlock
    pub stands : get_elem? ds place ≡ some digest
    pub id : digest.digest_id ≡ side.0
    pub root : merkle_root sha256 (data_block sha256) (side.1) ≡ ok digest.merkle_root
    pub len : digest.length ≡ as_u32 (length side.1.blocks)

  Commits-longer :
      (ds : List DigestBlock) (d : DigestBlock) (side : ℕ × BlockChain DataBlock)
      → Commits ds side
      → Commits (ds ++ (d ∷ [])) side
  Commits-longer ds d side c = record {
    place = c.place;
    digest = c.digest;
    stands = get_elem?-longer ds d c.place c.digest c.stands;
    id = c.id;
    root = c.root;
    len = c.len;
  }

  -- The main chain's ids count up from one, and it commits to every side chain.
  abbrev Committed : List DigestBlock → Sides DataBlock → Type 0
  Committed [] sides = ⊥
  Committed (x ∷ bs) sides = (x.digest_id ≡ 1) × Numbered 2 bs × All (Commits bs) sides

  pub record IsCommitted (limit : ChainLimit) (keeper : ChainKeeper DataBlock DigestBlock)
      : Type 0 where
    pub limited : keeper.main.chain.limit ≡ limit
    pub committed : Committed keeper.main.chain.blocks keeper.sides
    pub sound : IsSoundKeeper sha256 keeper

  module _ (x : DigestBlock) (bs : List DigestBlock) (limit : ChainLimit) (sides : Sides DataBlock)
      (small : limit.max_len < 2 ^ 32) (now : ℕ) (chain : BlockChain DataBlock) (root : Bytes)
      (rooted : merkle_root sha256 (data_block sha256) chain ≡ ok root)
      (room : suc (length bs) < limit.max_len) (h : Committed (x ∷ bs) sides) where
    abbrev digest_of : DigestBlock
    digest_of = next_digest sha256 now (last x bs) root chain

    next_id : digest_of.digest_id ≡ suc (suc (length bs))
    unfolding next_digest Digest.create
    next_id =
        ap (λ n. as_u32 (as_u32 n + 1)) (last_id 1 x bs (h.0) (h.1))
        ∙ ap (λ n. as_u32 (n + 1)) (as_u32-fits (1 + length bs) (omega arith))
        ∙ as_u32-fits (1 + length bs + 1) (omega arith)
        ∙ omega arith

    new-Commits : Commits (bs ++ (digest_of ∷ [])) (digest_of.digest_id, chain)
    unfolding next_digest Digest.create
    new-Commits = record {
      place = length bs;
      digest = digest_of;
      stands = get_elem?-snoc bs digest_of;
      id = refl;
      root = rooted;
      len = refl;
    }

    -- The main chain with the digest block commits to the sides with and without the chain.
    with_chain : Committed (x ∷ (bs ++ (digest_of ∷ []))) (insert digest_of.digest_id chain sides)
    with_chain = (
      h.0,
      Numbered-append 2 bs digest_of (h.1) (next_id ∙ omega arith),
      All-insert (Commits (bs ++ (digest_of ∷ []))) digest_of.digest_id chain sides new-Commits
          (All-map (Commits-longer bs digest_of) sides (h.2)),
    )

    without_chain : Committed (x ∷ (bs ++ (digest_of ∷ []))) sides
    without_chain = (
      h.0,
      Numbered-append 2 bs digest_of (h.1) (next_id ∙ omega arith),
      All-map (Commits-longer bs digest_of) sides (h.2),
    )

  module _ (x : DigestBlock) (bs : List DigestBlock) (limit : ChainLimit) (sides : Sides DataBlock)
      (small : limit.max_len < 2 ^ 32) (h : Committed (x ∷ bs) sides)
      (chain : BlockChain DataBlock) where
    -- What the two invariants say of a keeper, but for its soundness.
    abbrev Kept : ChainKeeper DataBlock DigestBlock → Type 0
    Kept keeper =
        (keeper.main.chain.limit ≡ limit) × Committed keeper.main.chain.blocks keeper.sides

    stores-Kept :
        (now : ℕ) (root : Bytes) (p : Result (Unit {0}) × ChainKeeper DataBlock DigestBlock)
        → merkle_root sha256 (data_block sha256) chain ≡ ok root
        → Stores x bs limit sides sha256 chain (next_digest sha256 now (last x bs) root chain) p
        → Kept (p.1)
    unfolding push
    stores-Kept now root (r, keeper') rooted (inl (done, f, valid, kept)) =
        rw kept (refl, with_chain x bs limit sides small now chain root rooted (f.0) h)
    stores-Kept now root (r, keeper') rooted (inr (inl (failed, f, invalid, kept))) =
        rw kept (refl, without_chain x bs limit sides small now chain root rooted (f.0) h)
    stores-Kept now root (r, keeper') rooted (inr (inr (failed, same))) = rw same (refl, h)

    add_chain-Kept :
        (now : ℕ) → Kept (executor_add_chain sha256 now (keeper_from x bs limit sides) chain).1
    add_chain-Kept now = elim (executor_add_chain_lem x bs limit sides sha256 now chain) [
      | inl (root, rooted, s) ↦ stores-Kept now root _ rooted s
      | inr (failed, same) ↦ rw same (refl, h)
    ]

  adds_at :
      (ds : List DigestBlock) (limit : ChainLimit) (sides : Sides DataBlock) (now : ℕ)
      (chain : BlockChain DataBlock)
      → let keeper : ChainKeeper DataBlock DigestBlock = record {
        main = record { chain = record { blocks = ds; limit = limit } };
        sides = sides;
      } in
        let after = (executor_add_chain sha256 now keeper chain).1 in
        limit.max_len < 2 ^ 32
        → Committed ds sides
        → (after.main.chain.limit ≡ limit) × Committed after.main.chain.blocks after.sides
  adds_at [] limit sides now chain small h = absurd h
  adds_at (x ∷ bs) limit sides now chain small h = add_chain-Kept x bs limit sides small h chain now

  -- A keeper that calls of `add_chain` build from a new one, however they end, is sound, and its
  -- main chain commits to its side chains: the digest ids count up from one, and for every side
  -- chain a digest block behind the genesis block has the id that it is stored under, its Merkle
  -- root and its length. The main chain's limit is below 2 ^ 32.
  pub Reached-IsCommitted :
      (limit : ChainLimit) (keeper : ChainKeeper DataBlock DigestBlock)
      → limit.max_len < 2 ^ 32
      → Reached sha256 limit keeper
      → IsCommitted limit keeper
  unfolding keeper_new main_new Chain.new Digest.genesis Digest.create
  Reached-IsCommitted limit keeper small (starts now) = record {
    limited = refl;
    committed = (refl, tt, tt);
    sound = keeper_new-IsSoundKeeper sha256 now limit;
  }
  Reached-IsCommitted limit keeper small (adds {keeper = before} now chain reached) =
      let h = Reached-IsCommitted limit before small reached in
      let size : before.main.chain.limit.max_len ≡ limit.max_len =
        ap (λ (l : ChainLimit). l.max_len) h.limited in
      let (limited, committed) =
        adds_at before.main.chain.blocks before.main.chain.limit before.sides now chain
          (omega (arith, size)) h.committed in
      record {
        limited = limited ∙ h.limited;
        committed = committed;
        sound = add_chain-IsSoundKeeper sha256 before now chain h.sound;
      }
