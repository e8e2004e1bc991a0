-- ===== src/Database/Bundle/Describes.antt =====
-- The description of a bundle is the least window of time over its chains.
use history_chain.Base.{
  ℕ, suc, ◌+◌, ◌%◌, ◌^◌, ◌≤◌, ◌<◌, List, [], ◌∷◌, min, max, All, ◌≡◌, ◌∙◌, refl, sym, ap, arith,
  length, ◌==◌, add_u64, add_u64-fits, sub_u64, sub_u64-fits, IsU32, IsU64, Bool-cases, inl, inr,
}
use history_chain.Database.Bundle.{Bundle, add_span}

-- A start and a length of time.
abbrev pub Span : Type 0
Span = ℕ × ℕ

abbrev Within : ℕ → ℕ → Span → Type 0
Within lo hi s = (lo ≤ s.0) × (s.0 + s.1 ≤ hi)

-- The description counts the spans, and its window is the least one that they lie in.
pub record Describes {B : Type 0} (bundle : Bundle B) (spans : List Span) : Type 0 where
  pub counted : bundle.counter ≡ length spans
  pub fits : IsU64 (bundle.origin + bundle.time_gap)
  pub covered : All (Within bundle.origin (bundle.origin + bundle.time_gap)) spans
  pub least :
      (lo hi : ℕ)
      → 0 < length spans
      → All (Within lo hi) spans
      → (lo ≤ bundle.origin) × (bundle.origin + bundle.time_gap ≤ hi)

widen :
    (lo hi lo' hi' : ℕ) (spans : List Span)
    → lo' ≤ lo
    → hi ≤ hi'
    → All (Within lo hi) spans
    → All (Within lo' hi') spans
widen lo hi lo' hi' [] a b h = tt
widen lo hi lo' hi' (s ∷ spans) a b h =
    let (x, y) = h.0 in ((omega arith, omega arith), widen lo hi lo' hi' spans a b h.1)

-- The window of the two windows.
joined_end :
    (o g start time_gap : ℕ)
    → IsU64 (o + g)
    → IsU64 (start + time_gap)
    → min o start + sub_u64 (max (add_u64 o g) (add_u64 start time_gap)) (min o start)
      ≡ max (o + g) (start + time_gap)
joined_end o g start time_gap f f' =
    let whole = max (o + g) (start + time_gap) in
    let same : whole ≡ max (add_u64 o g) (add_u64 start time_gap) =
      ap (λ x. max x (start + time_gap)) (sym (add_u64-fits o g f))
      ∙ ap (λ y. max (add_u64 o g) y) (sym (add_u64-fits start time_gap f')) in
    let behind = sub_u64-fits whole (min o start) (omega arith) (omega arith) in
    ap (λ x. min o start + sub_u64 x (min o start)) (sym same) ∙ omega (arith, behind)

module _ {B : Type 0} where
  first-Describes :
      (bundle : Bundle B) (spans : List Span) (start time_gap : ℕ)
      → length spans ≡ 0
      → IsU64 (start + time_gap)
      → Describes
          (record bundle { origin = start; time_gap = time_gap; counter = 1 })
          ((start, time_gap) ∷ spans)
  first-Describes bundle [] start time_gap none_yet fits = record {
    counted = omega arith;
    fits = fits;
    covered = ((omega arith, omega arith), tt);
    least = λ lo hi some_span within. within.0;
  }
  first-Describes bundle (s ∷ spans) start time_gap none_yet fits = absurd (omega arith)

  next-Describes :
      (bundle bundle' : Bundle B) (spans : List Span) (start time_gap : ℕ)
      → Describes bundle spans
      → 0 < length spans
      → bundle'.counter ≡ suc (length spans)
      → bundle'.origin ≡ min bundle.origin start
      → bundle'.origin + bundle'.time_gap ≡ max (bundle.origin + bundle.time_gap) (start + time_gap)
      → IsU64 (start + time_gap)
      → Describes bundle' ((start, time_gap) ∷ spans)
  next-Describes bundle bundle' spans start time_gap d some_span counted at till fits =
      let before = d.fits in
      record {
        counted = counted;
        fits = omega arith;
        covered = (
          (omega arith, omega arith),
          widen bundle.origin (bundle.origin + bundle.time_gap) bundle'.origin
              (bundle'.origin + bundle'.time_gap) spans (omega arith) (omega arith) d.covered,
        );
        least = λ lo hi some_span' within.
            let (here, others) = within in
            let (x, y) = here in
            let (u, v) = d.least lo hi some_span others in (omega arith, omega arith);
      }

  pub add_span-Describes :
      (bundle : Bundle B) (spans : List Span) (start time_gap : ℕ)
      → Describes bundle spans
      → IsU64 (start + time_gap)
      → IsU32 (suc (length spans))
      → Describes (add_span bundle start time_gap) ((start, time_gap) ∷ spans)
  unfolding add_span
  add_span-Describes bundle spans start time_gap d fits few =
      let counted = d.counted in
      elim (Bool-cases (bundle.counter == 0)) [
        | inl none_yet ↦
            let empty : length spans ≡ 0 = ground arith in
            rw none_yet (first-Describes bundle spans start time_gap empty fits)
        | inr some_yet ↦
            let some_span : 0 < length spans = ground arith in
            let next : (bundle.counter + 1) % 2 ^ 32 ≡ suc (length spans) = omega arith in
            rw some_yet (
              next-Describes bundle _ spans start time_gap d some_span next refl
                (joined_end bundle.origin bundle.time_gap start time_gap d.fits fits) fits)
      ]
