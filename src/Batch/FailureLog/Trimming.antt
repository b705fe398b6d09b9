-- ===== src/Batch/FailureLog/Trimming.antt =====
-- internal/buildbatch/failure_log_store.go: which part of the file the trimming keeps.
use buildkit_service.Prelude.{
  ℕ, zero, suc, ◌+◌, ◌-◌, ◌≤◌, ◌<◌, ◌≡◌, ◌⊎◌, refl, sym, ap, ◌∙◌, true, false, Option, none, some,
  [], ◌∷◌, length, length-drop, drop, append_nil, get_elem?, nat_eq, inl, inr, Bool-cases, arith,
}
use buildkit_service.Batch.FailureLog.{Bytes, line_from, read_line, trim_failure_log_file}
use buildkit_service.Batch.FailureLog.Size.{is_whole, drop-is_whole}
use buildkit_service.Batch.FailureLog.Lines.{cut_at, fits_whole, read_line-whole}

-- A place of a file where a line starts, after the first line.
abbrev pub StartsLine : ℕ → Bytes → Type 0
StartsLine zero file = ⊥
StartsLine (suc i) file = get_elem? file i ≡ some 10

-- The first line feed.
abbrev IsFirst : ℕ → Bytes → Type 0
IsFirst m bs = (get_elem? bs m ≡ some 10) × ((j : ℕ) → get_elem? bs j ≡ some 10 → m ≤ j)

later_IsFirst :
    (b m : ℕ) (bs : Bytes) → nat_eq b 10 ≡ false → IsFirst m bs → IsFirst (suc m) (b ∷ bs)
later_IsFirst b m bs f (at, first) = (at, beyond)
  where
    beyond : (j : ℕ) → get_elem? (b ∷ bs) j ≡ some 10 → suc m ≤ j
    beyond zero e = ground (arith, f, same e)
      where
        same : {c : ℕ} → ◌≡◌ {A = Option ℕ} (some c) (some 10) → c ≡ 10
        same p = cc p
    beyond (suc j) e = omega (arith, first j e)

read_line-IsFirst :
    (bs : Bytes) (n : ℕ) → read_line bs ≡ some n → (m : ℕ) × (n ≡ suc m) × IsFirst m bs
unfolding read_line
read_line-IsFirst [] n h = cc h
read_line-IsFirst (b ∷ bs) n h = elim (Bool-cases (nat_eq b 10)) [
  | inl f ↦ (0, at_start (read_line bs) f h, (ap some (ground (arith, f)), λ j e. omega arith))
  | inr f ↦ later f (read_line bs) (λ k e. read_line-IsFirst bs k e) refl h
]
  where
    at_start : (o : Option ℕ) → nat_eq b 10 ≡ true → line_from b o ≡ some n → n ≡ 1
    at_start none f e = ground (arith, f, e)
    at_start (some k) f e = ground (arith, f, e)

    later :
        nat_eq b 10 ≡ false
        → (o : Option ℕ) → ((k : ℕ) → o ≡ some k → (m : ℕ) × (k ≡ suc m) × IsFirst m bs)
        → read_line bs ≡ o
        → line_from b o ≡ some n
        → (m : ℕ) × (n ≡ suc m) × IsFirst m (b ∷ bs)
    later f none next e g = cc (rw f at g)
    later f (some k) next e g =
        let (m, same, first) = next k refl in
        (suc m, ground (arith, same, f, g), later_IsFirst b m bs f first)

get_elem?-drop : (n j : ℕ) (xs : Bytes) → get_elem? (drop n xs) j ≡ get_elem? xs (n + j)
get_elem?-drop zero j xs = ap (get_elem? xs) (omega arith)
get_elem?-drop (suc n) j [] = refl
get_elem?-drop (suc n) j (x ∷ xs) =
    let place : suc (n + j) ≡ suc n + j = omega arith in
    get_elem?-drop n j xs ∙ ap (get_elem? (x ∷ xs)) place

-- What is kept of a file: all of it within the limit; else the longest end of it that starts a line
-- and is shorter than the limit.
abbrev pub IsTrimmed : ℕ → Bytes → Bytes → Type 0
IsTrimmed limit file kept =
    ((length file ≤ limit) × (kept ≡ file))
    ⊎ ((limit < length file)
        × ((k : ℕ) × (kept ≡ drop k file)
            × StartsLine k file
            × (length file - limit < k)
            × ((j : ℕ) → StartsLine j file → length file - limit < j → k ≤ j)))

cut-IsTrimmed :
    (limit n : ℕ) (file : Bytes)
    → limit < length file
    → read_line (drop (length file - limit) file) ≡ some n
    → IsTrimmed limit file (trim_failure_log_file limit file)
cut-IsTrimmed limit n file over e =
    let trim : ℕ = length file - limit in
    let (m, same, (at, first)) = read_line-IsFirst (drop trim file) n e in
    let place : trim + n ≡ suc (trim + m) = omega (arith, same) in
    inr (
      over,
      (
        suc (trim + m),
        cut_at limit n file over e ∙ ap (λ k. drop k file) place,
        sym (get_elem?-drop trim m file) ∙ at,
        omega arith,
        earliest trim m first,
      ),
    )
  where
    earliest :
        (trim m : ℕ)
        → ((j : ℕ) → get_elem? (drop trim file) j ≡ some 10 → m ≤ j)
        → (j : ℕ) → StartsLine j file
        → trim < j
        → suc (trim + m) ≤ j
    earliest trim m first zero s lt = omega arith
    earliest trim m first (suc i) s lt =
        let inside : trim + (i - trim) ≡ i = omega arith in
        omega (
          arith,
          first (i - trim) (get_elem?-drop trim (i - trim) file ∙ ap (get_elem? file) inside ∙ s),
        )

pub trim-IsTrimmed :
    (limit : ℕ) (file : Bytes)
    → is_whole file ≡ true
    → 0 < limit
    → IsTrimmed limit file (trim_failure_log_file limit file)
trim-IsTrimmed limit file w some_room = elim (le_or_lt (length file) limit) [
  | inl le ↦ inl (le, fits_whole limit file le)
  | inr over ↦
      let rest : Bytes = drop (length file - limit) file in
      let size = length-drop (length file - limit) file in
      let (n, e, _) =
        read_line-whole rest [] (drop-is_whole (length file - limit) file w)
          (omega (arith, size)) in
      cut-IsTrimmed limit n file over (ap read_line (sym (append_nil rest)) ∙ e)
]
  where
    le_or_lt : (a b : ℕ) → (a ≤ b) ⊎ (b < a)
    le_or_lt a b = ground arith
