-- ===== src/Keeper/SideRef.antt =====
-- What `side_ref` sees of the side chains.
use history_chain.Base.{ℕ, suc, refl, false, if◌then◌else◌, [], ◌∷◌, ◌≡◌, none, length, arith, ◌==◌}
use history_chain.Base.Dict.{lookup}
use history_chain.Chain.Stores.{Sides}
use history_chain.Keeper.{ChainKeeper, side_ref}

found_in :
    {B : Type 0} (id : ℕ) (sides : Sides B)
    → (if length sides == 0 then none else lookup id sides) ≡ lookup id sides
found_in id [] = refl
found_in id (side ∷ sides) =
    let filled : (suc (length sides) == 0) ≡ false = ground arith in rw filled refl

module _ {B D : Type 0} where
  pub side_ref-eq :
      (keeper : ChainKeeper B D) (id : ℕ) → side_ref keeper id ≡ lookup id keeper.sides
  unfolding side_ref
  side_ref-eq keeper id = found_in id keeper.sides
