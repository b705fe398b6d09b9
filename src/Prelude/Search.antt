-- ===== src/Prelude/Search.antt =====
-- More of package strings: ToLower, Contains, Split, Trim and Join.
use Prim.Native.Nat.{ℕ, ◌+◌}
use mathlib.Core.Path.{◌≡◌, refl}
use mathlib.Core.Bool.{Bool, true, false, ◌&&◌, ◌||◌}
use mathlib.Core.Option.{Option, none, some}
use mathlib.Core.List.{List, [], ◌∷◌, ◌++◌}
use native.Mathlib.Omega.{arith}
use buildkit_service.Prelude.Tests.{leb, nat_eq, if◌then◌else◌}
use buildkit_service.Prelude.Texts.{
  Text, starts_with, trim_left, trim_right_by, text_eq, text_eq_iff,
}

-- unicode.ToLower as far as its result is ASCII; other letters stay, and no text that the program
-- looks for has them.
lower : ℕ → ℕ
lower c =
    if leb 65 c && leb c 90
    then c + 32
    else if nat_eq c 0x212a
    then 107
    else if nat_eq c 0x130
    then 105
    else c

-- strings.ToLower
unfoldable pub to_lower : Text → Text
unfolding lower
to_lower [] = []
to_lower (c ∷ s) = lower c ∷ to_lower s

-- strings.Contains, with the part first
unfoldable pub has_part : Text → Text → Bool
unfolding starts_with
has_part p [] = starts_with p []
has_part p (c ∷ s) = starts_with p (c ∷ s) || has_part p s

unfoldable pub has_one_of : List Text → Text → Bool
unfolding has_part
has_one_of [] s = false
has_one_of (p ∷ ps) s = has_part p s || has_one_of ps s

-- What comes before the first separator, and the parts after it.
add_char : ℕ → Text × List Text → Text × List Text
add_char c (part, parts) = (c ∷ part, parts)

next_part : Text × List Text → Text × List Text
next_part (part, parts) = ([], part ∷ parts)

split_from : ℕ → Text → Text × List Text
split_from sep [] = ([], [])
split_from sep (c ∷ s) =
    let rest = split_from sep s in if nat_eq c sep then next_part rest else add_char c rest

-- strings.Split at a separator of one character
unfoldable pub split : ℕ → Text → List Text
unfolding split_from next_part add_char
split sep s = let (part, parts) = split_from sep s in part ∷ parts

-- strings.Trim with a cutset of one character
unfoldable pub trim_char : ℕ → Text → Text
unfolding trim_left trim_right_by
trim_char c s = trim_right_by (nat_eq c) (trim_left (nat_eq c) s)

-- A Go map with the value true for some keys.
unfoldable pub member : Text → List Text → Bool
unfolding text_eq
member k [] = false
member k (x ∷ xs) = text_eq x k || member k xs

pub member-append :
    (k : Text) (xs ys : List Text) → member k (xs ++ ys) ≡ (member k xs || member k ys)
unfolding member
member-append k [] ys = refl
member-append k (x ∷ xs) ys = ground (arith, member-append k xs ys)

pub member-head : (k : Text) (xs : List Text) → member k (k ∷ xs) ≡ true
unfolding member
member-head k xs = ground (arith, text_eq_iff k k)

-- strings.Cut at one character.
before_cut : ℕ → Option (Text × Text) → Option (Text × Text)
before_cut c none = none
before_cut c (some (before, after)) = some (c ∷ before, after)

unfoldable pub cut : ℕ → Text → Option (Text × Text)
unfolding before_cut
cut sep [] = none
cut sep (c ∷ s) = let rest = before_cut c (cut sep s) in if nat_eq c sep then some ([], s) else rest
