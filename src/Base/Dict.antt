-- ===== src/Base/Dict.antt =====
-- The source's `HashMap` with integer keys: an association list, without the table's order.
use Prim.Native.Nat.{ℕ}
use mathlib.Core.Path.{◌≡◌, subst}
use mathlib.Core.Logic.{inl, inr}
use mathlib.Core.List.{List, [], ◌∷◌}
use mathlib.Core.Option.{Option, none, some}
use native.Mathlib.Omega.{arith}
use history_chain.Base.Bools.{◌==◌, if◌then◌else◌, Bool-cases}
use history_chain.Base.Lists.{All}

abbrev pub Dict {ℓ} : Type ℓ → Type ℓ
Dict T = List (ℕ × T)

module _ {ℓ} {T : Type ℓ} where
  -- `get`
  abbrev pub lookup : ℕ → Dict T → Option T
  lookup k [] = none
  lookup k ((j, v) ∷ d) = if j == k then some v else lookup k d

  abbrev pub insert : ℕ → T → Dict T → Dict T
  insert k v [] = (k, v) ∷ []
  insert k v ((j, w) ∷ d) = if j == k then (k, v) ∷ d else (j, w) ∷ insert k v d

module _ {T : Type 0} (P : ℕ × T → Type 0) where
  -- A predicate of all entries holds of one that is put in, and of one that is found.
  pub All-insert : (k : ℕ) (v : T) (d : Dict T) → P (k, v) → All P d → All P (insert k v d)
  All-insert k v [] p h = (p, tt)
  All-insert k v ((j, w) ∷ d) p h = elim (Bool-cases (j == k)) [
    | inl same ↦ rw same (p, h.1)
    | inr other ↦ rw other (h.0, All-insert k v d p h.1)
  ]

  pub All-lookup : (k : ℕ) (v : T) (d : Dict T) → All P d → lookup k d ≡ some v → P (k, v)
  All-lookup k v [] h e = cc
  All-lookup k v ((j, w) ∷ d) h e = elim (Bool-cases (j == k)) [
    | inl same ↦
        let it : some w ≡ some v = rw same at e in
        let key : j ≡ k = ground (arith, same) in
        let value : w ≡ v = cc in subst (λ n. P (n, v)) key (subst (λ x. P (j, x)) value (h.0))
    | inr other ↦ All-lookup k v d h.1 (rw other at e)
  ]
