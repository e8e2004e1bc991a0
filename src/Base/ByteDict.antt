-- ===== src/Base/ByteDict.antt =====
-- The source's `HashMap` with byte arrays as keys: an association list, without the table's order.
use mathlib.Core.Path.{◌≡◌, refl}
use mathlib.Core.Logic.{◌≢◌, inl, inr}
use mathlib.Core.Bool.{false}
use mathlib.Core.List.{List, [], ◌∷◌}
use mathlib.Core.Option.{Option, none, some}
use history_chain.Base.Bools.{if◌then◌else◌, Bool-cases}
use history_chain.Base.Encoding.{Bytes, bytes_eq, bytes_eq→eq, bytes_eq_refl}

abbrev pub ByteDict : Type 0 → Type 0
ByteDict T = List (Bytes × T)

bytes_ne : (j k : Bytes) → j ≢ k → bytes_eq j k ≡ false
bytes_ne j k h = elim (Bool-cases (bytes_eq j k)) [
  | inl e ↦ absurd (h (bytes_eq→eq j k e))
  | inr e ↦ e
]

module _ {T : Type 0} where
  -- `get`
  abbrev pub get : Bytes → ByteDict T → Option T
  get k [] = none
  get k ((j, v) ∷ d) = if bytes_eq j k then some v else get k d

  -- `insert`
  abbrev pub set : Bytes → T → ByteDict T → ByteDict T
  set k v [] = (k, v) ∷ []
  set k v ((j, w) ∷ d) = if bytes_eq j k then (k, v) ∷ d else (j, w) ∷ set k v d

  pub get-set : (k : Bytes) (v : T) (d : ByteDict T) → get k (set k v d) ≡ some v
  get-set k v [] = rw (bytes_eq_refl k) refl
  get-set k v ((j, w) ∷ d) = elim (Bool-cases (bytes_eq j k)) [
    | inl e ↦ rw (e, bytes_eq_refl k) refl
    | inr e ↦ rw (e, e) (get-set k v d)
  ]

  pub get-set_ne : (k l : Bytes) (v : T) (d : ByteDict T) → k ≢ l → get l (set k v d) ≡ get l d
  get-set_ne k l v [] h = rw (bytes_ne k l h) refl
  get-set_ne k l v ((j, w) ∷ d) h = elim (Bool-cases (bytes_eq j k)) [
    | inl e ↦ let same : j ≡ k = bytes_eq→eq j k e in rw (e, same, bytes_ne k l h) refl
    | inr e ↦ rw e (elim (Bool-cases (bytes_eq j l)) [
      | inl f ↦ rw f refl
      | inr f ↦ rw f (get-set_ne k l v d h)
    ])
  ]
