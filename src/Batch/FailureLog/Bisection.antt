-- ===== src/Batch/FailureLog/Bisection.antt =====
-- internal/buildbatch/failure_log_store.go: the truncation of a log by bisection.
use buildkit_service.Prelude.{
  ℕ, zero, suc, ◌+◌, ◌-◌, ◌/◌, ◌≤◌, ◌<◌, ◌≡◌, ◌≢◌, ◌⊎◌, refl, subst, Option-cases, Bool, true,
  false, Option, none, some, inl, inr, Bool-cases, if◌then◌else◌, arith,
}
use buildkit_service.Batch.FailureLog.{bisect}

le_or_lt : (a b : ℕ) → (a ≤ b) ⊎ (b < a)
le_or_lt a b = ground arith

halves :
    (fits : ℕ → Bool) (fuel low above : ℕ) (best : Option ℕ)
    → low < above
    → let mid = low + (above - 1 - low) / 2 in
      bisect fits (suc fuel) low above best ≡ (
        if fits mid
        then bisect fits fuel (mid + 1) above (some mid)
        else bisect fits fuel low mid best)
unfolding bisect
halves fits fuel low above best h = ground arith

ends :
    (fits : ℕ → Bool) (fuel low above : ℕ) (best : Option ℕ)
    → above ≤ low
    → bisect fits fuel low above best ≡ some best
unfolding bisect
ends fits zero low above best h = ground arith
ends fits (suc fuel) low above best h = ground arith

-- Fuel above the length of the interval is enough.
pub bisect-total :
    (fits : ℕ → Bool) (fuel low above : ℕ) (best : Option ℕ)
    → above - low < fuel
    → bisect fits fuel low above best ≢ none
bisect-total fits zero low above best h = λ _. omega arith
bisect-total fits (suc fuel) low above best h = elim (le_or_lt above low) [
  | inl done ↦ λ e. cc (ends fits (suc fuel) low above best done)
  | inr lt ↦ λ e.
      let mid : ℕ = low + (above - 1 - low) / 2 in
      let split = halves fits fuel low above best lt in
      elim (Bool-cases (fits mid)) [
        | inl f ↦
            bisect-total fits fuel (mid + 1) above (some mid) (omega arith)
              (ground (arith, split, e, f))
        | inr f ↦ bisect-total fits fuel low mid best (omega arith) (ground (arith, split, e, f))
      ]
]

-- What the loop keeps: the greatest length that is known to fit is below `low`, and none from
-- `above` on fits.
Kept : ℕ → (ℕ → Bool) → ℕ → ℕ → Option ℕ → Type 0
Kept top fits low above none = (low ≡ 0) × ((j : ℕ) → above ≤ j → j < top → fits j ≡ false)
Kept top fits low above (some k) =
    (low ≡ k + 1) × (fits k ≡ true) × ((j : ℕ) → above ≤ j → j < top → fits j ≡ false)

-- The greatest length that fits, if one does.
abbrev pub IsBest : ℕ → (ℕ → Bool) → Option ℕ → Type 0
IsBest top fits none = (j : ℕ) → j < top → fits j ≡ false
IsBest top fits (some k) = (fits k ≡ true) × ((j : ℕ) → k < j → j < top → fits j ≡ false)

-- A shorter text fits where a longer one does.
abbrev pub IsMonotone : ℕ → (ℕ → Bool) → Type 0
IsMonotone top fits = (j k : ℕ) → j ≤ k → k < top → fits k ≡ true → fits j ≡ true

closed :
    (top : ℕ) (fits : ℕ → Bool) (low above : ℕ) (best : Option ℕ)
    → above ≤ low
    → Kept top fits low above best
    → IsBest top fits best
unfolding Kept
closed top fits low above none h k = λ j lt. k.1 j (omega (arith, k.0)) lt
closed top fits low above (some b) h k = (k.1, λ j below lt. k.2 j (omega (arith, k.0)) lt)

moved_left :
    (top : ℕ) (fits : ℕ → Bool) (low above mid : ℕ) (best : Option ℕ)
    → IsMonotone top fits
    → fits mid ≡ false
    → Kept top fits low above best
    → Kept top fits low mid best
unfolding Kept
moved_left top fits low above mid none m f k = (k.0, λ j h lt. refute j h lt)
  where
    refute : (j : ℕ) → mid ≤ j → j < top → fits j ≡ false
    refute j h lt = ground (arith, m mid j h lt, f)
moved_left top fits low above mid (some b) m f k = (k.0, k.1, λ j h lt. refute j h lt)
  where
    refute : (j : ℕ) → mid ≤ j → j < top → fits j ≡ false
    refute j h lt = ground (arith, m mid j h lt, f)

beyond :
    (top : ℕ) (fits : ℕ → Bool) (low above : ℕ) (best : Option ℕ)
    → Kept top fits low above best
    → (j : ℕ) → above ≤ j
    → j < top
    → fits j ≡ false
unfolding Kept
beyond top fits low above none k = k.1
beyond top fits low above (some b) k = k.2

moved_right :
    (top : ℕ) (fits : ℕ → Bool) (low above mid : ℕ) (best : Option ℕ)
    → fits mid ≡ true
    → Kept top fits low above best
    → Kept top fits (mid + 1) above (some mid)
unfolding Kept
moved_right top fits low above mid best f k = (refl, f, beyond top fits low above best k)

same_best : {a b : Option ℕ} {x : Option (Option ℕ)} → x ≡ some a → x ≡ some b → a ≡ b
same_best p q = cc

starves :
    (fits : ℕ → Bool) (low above : ℕ) (best : Option ℕ)
    → low < above
    → bisect fits zero low above best ≡ none
unfolding bisect
starves fits low above best h = ground arith

bisect-IsBest :
    (top : ℕ) (fits : ℕ → Bool) (fuel low above : ℕ) (best r : Option ℕ)
    → IsMonotone top fits
    → Kept top fits low above best
    → bisect fits fuel low above best ≡ some r
    → IsBest top fits r
bisect-IsBest top fits zero low above best r m k e = elim (le_or_lt above low) [
  | inl done ↦
      subst (IsBest top fits) (same_best (ends fits zero low above best done) e)
        (closed top fits low above best done k)
  | inr lt ↦ cc (starves fits low above best lt)
]
bisect-IsBest top fits (suc fuel) low above best r m k e = elim (le_or_lt above low) [
  | inl done ↦
      subst (IsBest top fits) (same_best (ends fits (suc fuel) low above best done) e)
        (closed top fits low above best done k)
  | inr lt ↦
      let mid : ℕ = low + (above - 1 - low) / 2 in
      let split = halves fits fuel low above best lt in
      elim (Bool-cases (fits mid)) [
        | inl f ↦
            bisect-IsBest top fits fuel (mid + 1) above (some mid) r m
              (moved_right top fits low above mid best f k) (ground (arith, split, e, f))
        | inr f ↦
            bisect-IsBest top fits fuel low mid best r m
              (moved_left top fits low above mid best m f k) (ground (arith, split, e, f))
      ]
]

-- The bisection of the lengths below `top` finds the greatest one that fits.
pub bisect_lem :
    (fits : ℕ → Bool) (fuel top : ℕ)
    → IsMonotone top fits
    → top < fuel
    → (r : Option ℕ) × (bisect fits fuel 0 top none ≡ some r) × IsBest top fits r
unfolding Kept
bisect_lem fits fuel top m enough = elim (Option-cases (bisect fits fuel 0 top none)) [
  | inl e ↦ absurd (bisect-total fits fuel 0 top none (omega arith) e)
  | inr (r, e) ↦
      (r, e, bisect-IsBest top fits fuel 0 top none r m (refl, λ j h lt. absurd (omega arith)) e)
]
