-- ===== src/Chain/Linked.antt =====
-- What a verified chain is: each block behind the first follows the one before it.
use history_chain.Base.{ℕ, List, [], ◌∷◌, ◌++◌, ◌≡◌, refl, ok, >>=-eq-ok, last}
use history_chain.Block.{Block, verify}
use history_chain.Block.Verify.{Accepts, verify→Accepts, Accepts→verify}
use history_chain.Chain.{BlockChain, verify_from}

module _ {B : Type 0} (k : Block B) where
  -- Every block of the list follows the one before it, the first of them `p`.
  abbrev pub Linked : ℕ → ℕ → B → List B → Type 0
  Linked start gap p [] = Unit
  Linked start gap p (b ∷ bs) = Accepts k start gap (k.hash p) b × Linked start gap b bs

  -- A list that starts with an origin whose time starts the chain's time.
  abbrev pub IsLinked : ℕ → List B → Type 0
  IsLinked gap [] = ⊥
  IsLinked gap (x ∷ bs) = Linked (k.timestamp x) gap x bs

  -- The same of a list that has a block behind the origin.
  abbrev pub IsLinkedPair : ℕ → List B → Type 0
  IsLinkedPair gap [] = ⊥
  IsLinkedPair gap (x ∷ []) = ⊥
  IsLinkedPair gap (x ∷ b ∷ bs) = Linked (k.timestamp x) gap x (b ∷ bs)

  abbrev pub IsVerified : BlockChain B → Type 0
  IsVerified chain = IsLinkedPair chain.limit.time_gap chain.blocks

  pub verify_from→Linked :
      (start gap : ℕ) (p : B) (bs : List B)
      → verify_from k start gap p bs ≡ ok tt
      → Linked start gap p bs
  unfolding verify_from
  verify_from→Linked start gap p [] e = tt
  verify_from→Linked start gap p (b ∷ bs) e =
      let (u, first, rest) = >>=-eq-ok (verify k b (k.hash p) start gap) _ e in
      (verify→Accepts k b (k.hash p) start gap first, verify_from→Linked start gap b bs rest)

  pub Linked→verify_from :
      (start gap : ℕ) (p : B) (bs : List B)
      → Linked start gap p bs
      → verify_from k start gap p bs ≡ ok tt
  unfolding verify_from
  Linked→verify_from start gap p [] l = refl
  Linked→verify_from start gap p (b ∷ bs) l =
      rw (Accepts→verify k b (k.hash p) start gap (l.0)) (Linked→verify_from start gap b bs (l.1))

  -- A list stays linked when a block that follows its last is put behind it.
  pub Linked-snoc :
      (start gap : ℕ) (p : B) (bs : List B) (b : B)
      → Linked start gap p bs
      → Accepts k start gap (k.hash (last p bs)) b
      → Linked start gap p (bs ++ (b ∷ []))
  Linked-snoc start gap p [] b l a = (a, tt)
  Linked-snoc start gap p (q ∷ bs) b l a = (l.0, Linked-snoc start gap q bs b (l.1) a)
