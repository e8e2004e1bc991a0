-- ===== src/Base/Results.antt =====
-- The results of fallible code. A panic (`unwrap` of `None`, an index or a slice out of range)
-- is a value of its own, since the source lets it pass through every `?`.
use Prim.Native.String.{String}
use mathlib.Core.Path.{◌≡◌, refl}
use mathlib.Core.Logic.{◌⊎◌, ◌≢◌, inl, inr}
use mathlib.Core.Bool.{Bool, true, false}
use mathlib.Core.Option.{Option, none, some}

-- `enum PipeError`
pub data PipeError : Type 0 where
  close full empty : PipeError

-- `enum HError`. A message is the fixed text of the source's, without the values that it prints.
-- What it wraps of other crates' errors is left out.
pub data HError : Type 0 where
  unexpected_end message protocol network ringbuf block : String → HError
  chain chain_full storage executor center serialization identity nodes : String → HError
  location : String → String → HError
  pipe : PipeError → HError
  io database join mpsc one_shot limit_exceeded : HError

pub data Result {ℓ} (X : Type ℓ) : Type ℓ where
  panicked : Result X
  err : HError → Result X
  ok : X → Result X

-- The operator `?`, and the same where the value is `()`.
infixl 5 ◌>>◌ ◌>>=◌
abbrev pub ◌>>=◌ {ℓ κ} : {X : Type ℓ} {Y : Type κ} → Result X → (X → Result Y) → Result Y
panicked >>= rest = panicked
err e >>= rest = err e
ok x >>= rest = rest x

abbrev pub ◌>>◌ {κ} : {Y : Type κ} → Result (Unit {0}) → Result Y → Result Y
first >> second = first >>= λ u. second

-- `if c { return Err(e) }`
abbrev pub err_if : Bool → HError → Result (Unit {0})
err_if true e = err e
err_if false e = ok tt

-- `Option::unwrap`
abbrev pub unwrap {ℓ} : {A : Type ℓ} → Option A → Result A
unwrap none = panicked
unwrap (some a) = ok a

pub ok-inj {ℓ} : {X : Type ℓ} {x y : X} → ok x ≡ ok y → x ≡ y
ok-inj h = cc

-- Inversion of a successful `?`.
pub >>=-eq-ok {ℓ κ} :
    {X : Type ℓ} {Y : Type κ} (m : Result X) (rest : X → Result Y) {y : Y}
    → (m >>= rest) ≡ ok y
    → (x : X) × (m ≡ ok x) × (rest x ≡ ok y)
>>=-eq-ok panicked rest h = cc
>>=-eq-ok (err e) rest h = cc
>>=-eq-ok (ok x) rest h = (x, refl, h)

-- A method's `?`: what follows runs on success; otherwise the state is as it stands.
abbrev pub and_then {κ} :
    {S : Type κ} → Result (Unit {0}) → S → Result (Unit {0}) × S → Result (Unit {0}) × S
and_then (ok u) s rest = rest
and_then (err e) s rest = (err e, s)
and_then panicked s rest = (panicked, s)

-- A `?` before the last step: it was passed and the step is made, or the state is as it was.
pub and_then-cases {κ} :
    {S : Type κ} (m : Result (Unit {0})) (s t : S)
    → ((m ≡ ok tt) × (and_then m s (ok tt, t) ≡ (ok tt, t)))
      ⊎ ((m ≢ ok tt) × ((and_then m s (ok tt, t)).0 ≢ ok tt) × ((and_then m s (ok tt, t)).1 ≡ s))
and_then-cases (ok tt) s t = inl (refl, refl)
and_then-cases (err e) s t = inr ((λ p. cc), (λ p. cc), refl)
and_then-cases panicked s t = inr ((λ p. cc), (λ p. cc), refl)
