-- ===== src/Batch/Command/Sums.antt =====
-- Sums over the tasks of a command.
use buildkit_service.Prelude.{
  ℕ, zero, suc, ◌+◌, ◌≡◌, ap, Option, none, some, List, [], ◌∷◌, ◌++◌, get_elem?, arith,
}
use buildkit_service.Batch.Command.{BuildTask, remove_at}

module _ {ℓ} {A : Type ℓ} (w : A → ℕ) where
  abbrev pub sum_of : List A → ℕ
  sum_of [] = 0
  sum_of (x ∷ xs) = w x + sum_of xs

  abbrev pub one_of : Option A → ℕ
  one_of none = 0
  one_of (some x) = w x

  pub sum_of-append : (xs ys : List A) → sum_of (xs ++ ys) ≡ sum_of xs + sum_of ys
  sum_of-append [] ys = omega arith
  sum_of-append (x ∷ xs) ys = omega (arith, sum_of-append xs ys)

  pub sum_of-append_one : (xs : List A) (y : A) → sum_of (xs ++ y ∷ []) ≡ sum_of xs + w y
  sum_of-append_one xs y = omega (arith, sum_of-append xs (y ∷ []))

pub sum_of-remove_at :
    (w : BuildTask → ℕ) (ts : List BuildTask) (i : ℕ) (t : BuildTask)
    → get_elem? ts i ≡ some t
    → sum_of w ts ≡ sum_of w (remove_at i ts) + w t
unfolding remove_at
sum_of-remove_at w [] i t e = cc
sum_of-remove_at w (x ∷ ts) zero t e = let same : x ≡ t = some_eq e in ground (arith, ap w same)
  where
    some_eq : {a b : BuildTask} → some a ≡ some b → a ≡ b
    some_eq p = cc
sum_of-remove_at w (x ∷ ts) (suc i) t e = omega (arith, sum_of-remove_at w ts i t e)
