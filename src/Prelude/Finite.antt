-- ===== src/Prelude/Finite.antt =====
-- Lists of numbers as finite sets, and the pigeonhole principle.
use Prim.Native.Nat.{ℕ, zero, suc, ◌≤◌, ◌<◌}
use mathlib.Core.Path.{◌≡◌, refl, ◌∙◌}
use mathlib.Core.Logic.{◌≢◌, inl, inr}
use mathlib.Core.Bool.{Bool, true, false, ◌||◌}
use mathlib.Core.List.{List, [], ◌∷◌, ◌++◌}
use native.Mathlib.Omega.{arith}
use buildkit_service.Prelude.Tests.{nat_eq, if◌then◌else◌, Bool-cases}
use buildkit_service.Prelude.Lists.{length}

unfoldable pub contains : List ℕ → ℕ → Bool
contains [] n = false
contains (x ∷ xs) n = nat_eq x n || contains xs n

abbrev pub Distinct : List ℕ → Type 0
Distinct [] = Unit
Distinct (x ∷ xs) = (contains xs x ≡ false) × Distinct xs

-- Every number below `n` occurs; every number that occurs is below `n`.
abbrev pub Covers : ℕ → List ℕ → Type 0
Covers n xs = (i : ℕ) → i < n → contains xs i ≡ true

abbrev pub Within : ℕ → List ℕ → Type 0
Within n xs = (i : ℕ) → contains xs i ≡ true → i < n

remove : ℕ → List ℕ → List ℕ
remove n [] = []
remove n (x ∷ xs) = if nat_eq x n then xs else x ∷ remove n xs

length-remove :
    (n : ℕ) (xs : List ℕ) → contains xs n ≡ true → length xs ≡ suc (length (remove n xs))
unfolding contains remove
length-remove n [] h = cc
length-remove n (x ∷ xs) h = ground (arith, length-remove n xs)

contains-remove_ne : (n i : ℕ) (xs : List ℕ) → i ≢ n → contains (remove n xs) i ≡ contains xs i
unfolding contains remove
contains-remove_ne n i [] h = refl
contains-remove_ne n i (x ∷ xs) h = ground (arith, contains-remove_ne n i xs h)

contains-remove : (n i : ℕ) (xs : List ℕ) → contains (remove n xs) i ≡ true → contains xs i ≡ true
unfolding contains remove
contains-remove n i [] h = h
contains-remove n i (x ∷ xs) h = ground (arith, contains-remove n i xs)

remove-Distinct : (n : ℕ) (xs : List ℕ) → Distinct xs → Distinct (remove n xs)
unfolding remove contains
remove-Distinct n [] d = tt
remove-Distinct n (x ∷ xs) d = ground (arith, remove-Distinct n xs d.1, contains-remove n x xs)

contains-remove_self : (n : ℕ) (xs : List ℕ) → Distinct xs → contains (remove n xs) n ≡ false
unfolding remove contains
contains-remove_self n [] d = refl
contains-remove_self n (x ∷ xs) d = ground (arith, contains-remove_self n xs d.1)

pub Covers-le-length : (n : ℕ) (xs : List ℕ) → Covers n xs → n ≤ length xs
Covers-le-length zero xs c = omega arith
Covers-le-length (suc n) xs c = omega (
  arith,
  length-remove n xs (c n (omega arith)),
  Covers-le-length n (remove n xs)
      (λ i h. contains-remove_ne n i xs (omega arith) ∙ c i (omega arith)),
)

none-Within_zero : (xs : List ℕ) → Within 0 xs → length xs ≤ 0
unfolding contains
none-Within_zero [] w = omega arith
none-Within_zero (x ∷ xs) w = absurd (omega (arith, w x (ground arith)))

pub Distinct-length-le : (n : ℕ) (xs : List ℕ) → Distinct xs → Within n xs → length xs ≤ n
Distinct-length-le zero xs d w = none-Within_zero xs w
Distinct-length-le (suc n) xs d w = elim (Bool-cases (contains xs n)) [
  | inl e ↦ omega (
    arith,
    length-remove n xs e,
    Distinct-length-le n (remove n xs) (remove-Distinct n xs d)
        (λ i h. smaller i h (contains-remove n i xs h)),
  )
  | inr e ↦ omega (arith, Distinct-length-le n xs d (λ i h. ground (arith, w i h)))
]
  where
    smaller : (i : ℕ) → contains (remove n xs) i ≡ true → contains xs i ≡ true → i < n
    smaller i h k = ground (arith, w i k, contains-remove_self n xs d)

-- As many distinct numbers below `n` as there are: all of them.
pub Distinct-Covers :
    (n : ℕ) (xs : List ℕ) → Distinct xs → Within n xs → n ≤ length xs → Covers n xs
unfolding contains
Distinct-Covers n xs d w l i h = elim (Bool-cases (contains xs i)) [
  | inl e ↦ e
  | inr e ↦
      absurd (omega (arith, Distinct-length-le n (i ∷ xs) (e, d) (λ j k. ground (arith, w j))))
]

pub contains-append :
    (xs ys : List ℕ) (i : ℕ) → contains (xs ++ ys) i ≡ (contains xs i || contains ys i)
unfolding contains
contains-append [] ys i = refl
contains-append (x ∷ xs) ys i = ground (arith, contains-append xs ys i)

pub append_one-Distinct :
    (xs : List ℕ) (n : ℕ) → contains xs n ≡ false → Distinct xs → Distinct (xs ++ n ∷ [])
unfolding contains
append_one-Distinct [] n h d = (refl, tt)
append_one-Distinct (x ∷ xs) n h d =
    ground (arith, append_one-Distinct xs n, contains-append xs (n ∷ []) x)
