-- ===== src/Base/Encoding.antt =====
-- Bytes as numbers below 256, byte strings as lists, and the big-endian form of an integer.
use Prim.Native.Nat.{ℕ, zero, suc, ◌+◌, ◌*◌, ◌/◌, ◌%◌, ◌^◌, ◌<◌}
use mathlib.Core.Path.{◌≡◌, refl, ◌∙◌, sym}
use mathlib.Core.Bool.{Bool, true, false, ◌&&◌}
use mathlib.Core.List.{List, [], ◌∷◌, ◌++◌}
use native.Mathlib.Omega.{arith}
use native.Mathlib.Nat.{pow-suc}
use history_chain.Base.Bools.{◌==◌}
use history_chain.Base.Lists.{length, length-append}

abbrev pub Bytes : Type 0
Bytes = List ℕ

-- `==` of two arrays or slices of bytes.
unfoldable pub bytes_eq : Bytes → Bytes → Bool
bytes_eq [] [] = true
bytes_eq [] (y ∷ ys) = false
bytes_eq (x ∷ xs) [] = false
bytes_eq (x ∷ xs) (y ∷ ys) = (x == y) && bytes_eq xs ys

pub bytes_eq→eq : (xs ys : Bytes) → bytes_eq xs ys ≡ true → xs ≡ ys
unfolding bytes_eq
bytes_eq→eq [] [] h = refl
bytes_eq→eq [] (y ∷ ys) h = cc
bytes_eq→eq (x ∷ xs) [] h = cc
bytes_eq→eq (x ∷ xs) (y ∷ ys) h = ground (arith, bytes_eq→eq xs ys)

pub bytes_eq_refl : (xs : Bytes) → bytes_eq xs xs ≡ true
unfolding bytes_eq
bytes_eq_refl [] = refl
bytes_eq_refl (x ∷ xs) = ground (arith, bytes_eq_refl xs)

-- `v.to_be_bytes()` of an integer of `w` bytes.
unfoldable pub be_bytes : ℕ → ℕ → Bytes
be_bytes zero v = []
be_bytes (suc w) v = be_bytes w (v / 256) ++ ((v % 256) ∷ [])

-- `from_be_bytes`, on the bytes that are left.
pub from_be : ℕ → Bytes → ℕ
from_be acc [] = acc
from_be acc (b ∷ bs) = from_be (acc * 256 + b) bs

pub length-be_bytes : (w v : ℕ) → length (be_bytes w v) ≡ w
unfolding be_bytes
length-be_bytes zero v = refl
length-be_bytes (suc w) v =
    length-append (be_bytes w (v / 256)) ((v % 256) ∷ [])
    ∙ omega (arith, length-be_bytes w (v / 256))

from_be-snoc :
    (acc : ℕ) (bs : Bytes) (b : ℕ) → from_be acc (bs ++ (b ∷ [])) ≡ from_be acc bs * 256 + b
unfolding from_be
from_be-snoc acc [] b = refl
from_be-snoc acc (x ∷ bs) b = from_be-snoc (acc * 256 + x) bs b

-- Reading back what was written, of a value that fits.
pub from_be-be_bytes : (w v : ℕ) → v < 256 ^ w → from_be 0 (be_bytes w v) ≡ v
unfolding be_bytes
from_be-be_bytes zero v h = unfold from_be in omega arith
from_be-be_bytes (suc w) v h =
    from_be-snoc 0 (be_bytes w (v / 256)) (v % 256)
    ∙ omega (arith, pow-suc 256 w, from_be-be_bytes w (v / 256) (omega (arith, pow-suc 256 w)))

-- The big-endian form tells values apart.
pub be_bytes_inj : (w v v' : ℕ) → v < 256 ^ w → v' < 256 ^ w → be_bytes w v ≡ be_bytes w v' → v ≡ v'
be_bytes_inj w v v' h h' e = sym (from_be-be_bytes w v h) ∙ (rw e (from_be-be_bytes w v' h'))
