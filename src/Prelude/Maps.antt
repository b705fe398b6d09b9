-- ===== src/Prelude/Maps.antt =====
-- Go maps as association lists. What a program ranges over is the list, in an order that the
-- language leaves open.
use Prim.Native.Nat.{ℕ, ◌+◌, ◌≤◌}
use mathlib.Core.Path.{◌≡◌, refl}
use mathlib.Core.Bool.{Bool, true, false}
use mathlib.Core.Option.{Option, none, some}
use mathlib.Core.List.{List, [], ◌∷◌}
use native.Mathlib.Omega.{arith}
use buildkit_service.Prelude.Tests.{Comparable, ◌==◌, if◌then◌else◌}

abbrev pub Map {ℓ κ} : Type ℓ → Type κ → Type (ℓ ⊔ κ)
Map K V = List (K × V)

abbrev pub keys {ℓ κ} : {K : Type ℓ} {V : Type κ} → Map K V → List K
keys [] = []
keys ((k, v) ∷ m) = k ∷ keys m

module _ {ℓ κ} {K : Type ℓ} {V : Type κ} ⦃e : Comparable K⦄ where
  unfoldable pub lookup : K → Map K V → Option V
  lookup key [] = none
  lookup key ((at, value) ∷ rest) = if at == key then some value else lookup key rest

  unfoldable pub insert : K → V → Map K V → Map K V
  insert key value [] = (key, value) ∷ []
  insert key value ((at, old) ∷ rest) =
      if at == key then (at, value) ∷ rest else (at, old) ∷ insert key value rest

  unfoldable pub erase : K → Map K V → Map K V
  erase key [] = []
  erase key ((at, old) ∷ m) = let rest = erase key m in if at == key then rest else (at, old) ∷ rest

  pub lookup-insert :
      (key other : K) (value : V) (m : Map K V)
      → lookup other (insert key value m) ≡ (if key == other then some value else lookup other m)
  unfolding lookup insert
  lookup-insert key other value [] = refl
  lookup-insert key other value ((at, old) ∷ rest) = ground (
    arith,
    e.same_iff at key,
    e.same_iff at other,
    e.same_iff key other,
    lookup-insert key other value rest,
  )

  pub lookup-insert_self : (k : K) (v : V) (m : Map K V) → lookup k (insert k v m) ≡ some v
  lookup-insert_self k v m = ground (arith, lookup-insert k k v m, e.same_iff k k)

  pub lookup-erase :
      (key other : K) (m : Map K V)
      → lookup other (erase key m) ≡ (if key == other then none else lookup other m)
  unfolding lookup erase
  lookup-erase key other [] = ground arith
  lookup-erase key other ((at, old) ∷ m) = ground (
    arith,
    e.same_iff at key,
    e.same_iff at other,
    e.same_iff key other,
    lookup-erase key other m,
  )

abbrev pub bit : Bool → ℕ
bit true = 1
bit false = 0

module _ {ℓ κ} {K : Type ℓ} {V : Type κ} ⦃e : Comparable K⦄ where
  pub insert-eq_self : (k : K) (v : V) (m : Map K V) → lookup k m ≡ some v → insert k v m ≡ m
  unfolding lookup insert
  insert-eq_self k v [] h = cc
  insert-eq_self k v ((j, w) ∷ m) h = ground (arith, insert-eq_self k v m)

  pub insert-insert : (k : K) (v w : V) (m : Map K V) → insert k w (insert k v m) ≡ insert k w m
  unfolding insert
  insert-insert k v w [] = ground (arith, e.same_iff k k)
  insert-insert k v w ((j, x) ∷ m) = ground (arith, insert-insert k v w m)

  -- No key occurs twice, as in a Go map.
  abbrev pub Unique : Map K V → Type κ
  Unique [] = Unit
  Unique ((k, v) ∷ m) = (lookup k m ≡ none) × Unique m

  pub insert-Unique : (k : K) (v : V) (m : Map K V) → Unique m → Unique (insert k v m)
  unfolding insert lookup
  insert-Unique k v [] u = (refl, tt)
  insert-Unique k v ((j, w) ∷ m) u =
      ground (arith, insert-Unique k v m u.1, lookup-insert k j v m, e.same_iff j k, e.same_iff k j)

  pub erase-Unique : (k : K) (m : Map K V) → Unique m → Unique (erase k m)
  unfolding erase
  erase-Unique k [] u = tt
  erase-Unique k ((j, w) ∷ m) u = ground (arith, erase-Unique k m u.1, lookup-erase k j m)

  -- How many entries have a value that passes a test.
  abbrev pub count_values : (V → Bool) → Map K V → ℕ
  count_values p [] = 0
  count_values p ((k, v) ∷ m) = bit (p v) + count_values p m

  pub count_values-insert :
      (p : V → Bool) (k : K) (v w : V) (m : Map K V)
      → lookup k m ≡ some w
      → count_values p (insert k v m) + bit (p w) ≡ count_values p m + bit (p v)
  unfolding lookup insert
  count_values-insert p k v w [] h = cc
  count_values-insert p k v w ((j, x) ∷ m) h = ground (arith, count_values-insert p k v w m)

  pub count_values-insert_new :
      (p : V → Bool) (k : K) (v : V) (m : Map K V)
      → lookup k m ≡ none
      → count_values p (insert k v m) ≡ count_values p m + bit (p v)
  unfolding lookup insert
  count_values-insert_new p k v [] h = omega arith
  count_values-insert_new p k v ((j, x) ∷ m) h = ground (arith, count_values-insert_new p k v m)

  pub count_values-erase :
      (p : V → Bool) (k : K) (m : Map K V) → count_values p (erase k m) ≤ count_values p m
  unfolding erase
  count_values-erase p k [] = omega arith
  count_values-erase p k ((j, x) ∷ m) = ground (arith, count_values-erase p k m)

abbrev pub IsKey {ℓ κ} : {K : Type ℓ} {V : Type κ} ⦃e : Comparable K⦄ → K → Map K V → Type κ
IsKey {V} k m = (v : V) × (lookup k m ≡ some v)
