-- ===== src/Base/Slices.antt =====
-- Slices of byte strings, for code that writes into a part of a buffer.
use Prim.Native.Nat.{ℕ, zero, suc, ◌+◌, ◌-◌, ◌≤◌}
use mathlib.Core.Path.{◌≡◌, refl, ap, ◌∙◌, sym}
use mathlib.Core.List.{List, [], ◌∷◌, ◌++◌, append-nil}
use native.Mathlib.Omega.{arith}
use history_chain.Base.Lists.{
  length, take, drop, replicate, length-take, length-drop, take-append_left, drop-append_left,
  take-append-drop,
}

module _ {ℓ} {A : Type ℓ} where
  -- `buffer[from..to]`
  abbrev pub slice : ℕ → ℕ → List A → List A
  slice from to buffer = take (to - from) (drop from buffer)

  pub slice-append :
      (from to : ℕ) (before here after : List A)
      → from ≡ length before
      → to ≡ length before + length here
      → slice from to (before ++ (here ++ after)) ≡ here
  slice-append from to before here after f t =
      rw (drop-append_left from before (here ++ after) f)
        (take-append_left (to - from) here after (omega arith))

  -- A buffer that is long enough is its first bytes and the others.
  pub split_at :
      (n : ℕ) (xs : List A)
      → n ≤ length xs
      → (before : List A) × (after : List A) × (xs ≡ before ++ after)
        × (length before ≡ n)
        × (length before + length after ≡ length xs)
  split_at n xs enough = (
    take n xs,
    drop n xs,
    sym (take-append-drop n xs),
    omega (arith, length-take n xs),
    omega (arith, length-take n xs, length-drop n xs),
  )

  pub drop-all : (n : ℕ) (xs : List A) → n ≡ length xs → drop n xs ≡ []
  drop-all n xs h = ap (drop n) (sym (append-nil xs)) ∙ drop-append_left n xs [] h

  -- Beyond the left part of an append.
  pub drop-append_more :
      (t n : ℕ) (xs ys : List A) → t ≡ n + length xs → drop t (xs ++ ys) ≡ drop n ys
  drop-append_more t n [] ys h = ap (λ k. drop k ys) (omega arith)
  drop-append_more zero n (x ∷ xs) ys h = absurd (omega arith)
  drop-append_more (suc t) n (x ∷ xs) ys h = drop-append_more t n xs ys (omega arith)

  pub take-append_more :
      (t n : ℕ) (xs ys : List A) → t ≡ n + length xs → take t (xs ++ ys) ≡ xs ++ take n ys
  take-append_more t n [] ys h = ap (λ k. take k ys) (omega arith)
  take-append_more zero n (x ∷ xs) ys h = absurd (omega arith)
  take-append_more (suc t) n (x ∷ xs) ys h =
      ap (λ l. x ∷ l) (take-append_more t n xs ys (omega arith))

  pub take-append_short : (n : ℕ) (xs ys : List A) → n ≤ length xs → take n (xs ++ ys) ≡ take n xs
  take-append_short zero xs ys h = refl
  take-append_short (suc n) [] ys h = absurd (omega arith)
  take-append_short (suc n) (x ∷ xs) ys h =
      ap (λ l. x ∷ l) (take-append_short n xs ys (omega arith))

  pub drop-replicate : (n k : ℕ) (a : A) → drop k (replicate n a) ≡ replicate (n - k) a
  drop-replicate n zero a = let same : n ≡ n - 0 = omega arith in ap (λ k. replicate k a) same
  drop-replicate zero (suc k) a =
      let same : 0 ≡ 0 - suc k = omega arith in ap (λ k. replicate k a) same
  drop-replicate (suc n) (suc k) a =
      let same : n - k ≡ suc n - suc k = omega arith in
      drop-replicate n k a ∙ ap (λ k. replicate k a) same

  pub take-replicate : (k n : ℕ) (a : A) → k ≤ n → take k (replicate n a) ≡ replicate k a
  take-replicate zero n a h = refl
  take-replicate (suc k) zero a h = absurd (omega arith)
  take-replicate (suc k) (suc n) a h = ap (λ l. a ∷ l) (take-replicate k n a (omega arith))

  pub length-replicate : (n : ℕ) (a : A) → length (replicate n a) ≡ n
  length-replicate zero a = refl
  length-replicate (suc n) a = ap suc (length-replicate n a)

-- Chunks, one behind the other.
unfoldable pub joined {ℓ} : {A : Type ℓ} → List (List A) → List A
joined [] = []
joined (chunk ∷ chunks) = chunk ++ joined chunks
