-- ===== src/Chain/Tamper.antt =====
-- Two verified chains of one length whose last blocks carry one hash.
use history_chain.Base.{
  ℕ, Bytes, List, [], ◌∷◌, ◌≡◌, ◌⊎◌, ◌∙◌, sym, ap, inl, inr, ok, arith, length, last, All, subst,
  refl,
}
use history_chain.Block.{Block}
use history_chain.Block.Binding.{Hashed, Clash, hash_binds}
use history_chain.Chain.{BlockChain, verify}
use history_chain.Chain.Linked.{Linked, IsLinkedPair}
use history_chain.Chain.Verify.{verify_iff}

module _ {B : Type 0} {sha256 : Bytes → Bytes} {k : Block B} (h : Hashed sha256 k) where
  -- At one place in the two lists, the digest is that of two different byte strings.
  abbrev pub ClashIn : List B → List B → Type 0
  ClashIn [] bs' = ⊥
  ClashIn (b ∷ bs) [] = ⊥
  ClashIn (b ∷ bs) (b' ∷ bs') = Clash sha256 (h.preimage b) (h.preimage b') ⊎ ClashIn bs bs'

  -- Two runs of linked blocks of one length, whose last blocks have one hash.
  pub Linked-binds :
      (s g s' g' : ℕ) (p p' : B) (bs bs' : List B)
      → length bs ≡ length bs'
      → Linked k s g p bs
      → Linked k s' g' p' bs'
      → All h.IsWf bs
      → All h.IsWf bs'
      → k.hash (last p bs) ≡ k.hash (last p' bs')
      → ((k.hash p ≡ k.hash p') × (bs ≡ bs')) ⊎ ClashIn bs bs'
  Linked-binds s g s' g' p p' [] [] n l l' w w' e = inl (e, refl)
  Linked-binds s g s' g' p p' [] (b' ∷ bs') n l l' w w' e = absurd (omega arith)
  Linked-binds s g s' g' p p' (b ∷ bs) [] n l l' w w' e = absurd (omega arith)
  Linked-binds s g s' g' p p' (b ∷ bs) (b' ∷ bs') n l l' w w' e =
      elim (Linked-binds s g s' g' b b' bs bs' (omega arith) (l.1) (l'.1) (w.1) (w'.1) e) [
        | inr found ↦ inr (inr found)
        | inl (heads, tails) ↦
            elim (hash_binds h b b' (w.0) (w'.0) (l.0.hashed) (l'.0.hashed) heads) [
              | inr found ↦ inr (inl found)
              | inl same ↦
                  inl (sym (l.0.linked) ∙ (ap k.prev_hash same ∙ l'.0.linked), cc (same, tails))
            ]
      ]

  -- Of two chains of one length that pass `verify` and whose last blocks carry one hash, either
  -- every block behind the first is the same in both, all fields included, and the first blocks
  -- carry one hash, or SHA-256 has collided: at some place in the two chains the blocks' fields are
  -- different byte strings of one digest.
  pub verify_binds :
      (x x' : B) (bs bs' : List B) (chain chain' : BlockChain B)
      → chain.blocks ≡ (x ∷ bs)
      → chain'.blocks ≡ (x' ∷ bs')
      → length bs ≡ length bs'
      → All h.IsWf bs
      → All h.IsWf bs'
      → verify k chain ≡ ok tt
      → verify k chain' ≡ ok tt
      → k.hash (last x bs) ≡ k.hash (last x' bs')
      → ((k.hash x ≡ k.hash x') × (bs ≡ bs')) ⊎ ClashIn bs bs'
  verify_binds x x' bs bs' chain chain' c c' n w w' v v' e =
      let linked = subst (IsLinkedPair k chain.limit.time_gap) c ((verify_iff k chain).0 v) in
      let linked' = subst (IsLinkedPair k chain'.limit.time_gap) c' ((verify_iff k chain').0 v') in
      Linked-binds (k.timestamp x) chain.limit.time_gap (k.timestamp x') chain'.limit.time_gap x x'
        bs bs' n (behind x bs _ linked) (behind x' bs' _ linked') w w' e
    where
      behind :
          (y : B) (ys : List B) (gap : ℕ)
          → IsLinkedPair k gap (y ∷ ys)
          → Linked k (k.timestamp y) gap y ys
      behind y [] gap l = absurd l
      behind y (z ∷ zs) gap l = l
