-- ===== src/Batch/FailureLog/Lines.antt =====
-- internal/buildbatch/failure_log_store.go: which lines the trimming of the file keeps.
use buildkit_service.Prelude.{
  ℕ, zero, suc, ◌+◌, ◌-◌, ◌≤◌, ◌<◌, ◌≡◌, ◌⊎◌, refl, sym, ap, subst, ◌∙◌, true, false, Option, none,
  some, [], ◌∷◌, ◌++◌, length, drop, length-append, length-drop, nat_eq, contains, inl, inr,
  Bool-cases, arith,
}
use buildkit_service.Batch.FailureLog.{
  Bytes, line_from, read_line, find_failure_log_keep_offset, trim_failure_log_file,
}
use buildkit_service.Batch.FailureLog.Size.{is_whole, drop-is_whole, drop-length}

read_line-cons : (b : ℕ) (bs : Bytes) → read_line (b ∷ bs) ≡ line_from b (read_line bs)
unfolding read_line
read_line-cons b bs = refl

line_feed : (o : Option ℕ) → line_from 10 o ≡ some 1
line_feed none = refl
line_feed (some n) = refl

line_from-within : (b n k : ℕ) → n ≤ k → (m : ℕ) × (line_from b (some n) ≡ some m) × (m ≤ suc k)
line_from-within b n k h = elim (Bool-cases (nat_eq b 10)) [
  | inl f ↦ (1, rw f refl, omega arith)
  | inr f ↦ (suc n, rw f refl, omega arith)
]

-- The first line of a text that begins with whole lines lies within them.
pub read_line-whole :
    (bs ys : Bytes)
    → is_whole bs ≡ true
    → 0 < length bs
    → (n : ℕ) × (read_line (bs ++ ys) ≡ some n) × (n ≤ length bs)
unfolding is_whole
read_line-whole [] ys w h = absurd (omega arith)
read_line-whole (b ∷ []) ys w h =
    let same : b ≡ 10 = ground (arith, w) in
    (
      1,
      read_line-cons b ys
          ∙ subst (λ c. line_from c (read_line ys) ≡ some 1) (sym same) (line_feed (read_line ys)),
      omega arith,
    )
read_line-whole (b ∷ c ∷ bs) ys w h =
    let (n, e, le) = read_line-whole (c ∷ bs) ys w (omega arith) in
    let (m, f, lf) = line_from-within b n (length (c ∷ bs)) le in
    (m, read_line-cons b ((c ∷ bs) ++ ys) ∙ ap (line_from b) e ∙ f, lf)

read_line-line :
    (line : Bytes)
    → contains line 10 ≡ false
    → read_line (line ++ 10 ∷ []) ≡ some (suc (length line))
unfolding read_line contains
read_line-line [] h = refl
read_line-line (b ∷ line) h = ground (arith, read_line-line line)

drop-append_le : (n : ℕ) (xs ys : Bytes) → n ≤ length xs → drop n (xs ++ ys) ≡ drop n xs ++ ys
drop-append_le zero xs ys h = refl
drop-append_le (suc n) [] ys h = absurd (omega arith)
drop-append_le (suc n) (x ∷ xs) ys h = drop-append_le n xs ys (omega arith)

drop-length-append : (xs ys : Bytes) → drop (length xs) (xs ++ ys) ≡ ys
drop-length-append [] ys = refl
drop-length-append (x ∷ xs) ys = drop-length-append xs ys

-- The offset of a file that is over the limit.
pub cut_at :
    (limit n : ℕ) (file : Bytes)
    → limit < length file
    → read_line (drop (length file - limit) file) ≡ some n
    → trim_failure_log_file limit file ≡ drop (length file - limit + n) file
unfolding trim_failure_log_file find_failure_log_keep_offset
cut_at limit n file over e = ground (arith, e)

pub fits_whole :
    (limit : ℕ) (file : Bytes) → length file ≤ limit → trim_failure_log_file limit file ≡ file
unfolding trim_failure_log_file
fits_whole limit file le = ground arith

-- A line that is shorter than the limit, appended to a file of whole lines, is in the trimmed
-- file, after the end of the old file.
pub trim-append_line :
    (limit : ℕ) (file line : Bytes)
    → is_whole file ≡ true
    → length line < limit
    → (k : ℕ) × (k ≤ length file)
      × (trim_failure_log_file limit (file ++ line) ≡ drop k file ++ line)
trim-append_line limit file line w short = elim (le_or_lt (length (file ++ line)) limit) [
  | inl le ↦ (0, omega arith, fits_whole limit (file ++ line) le)
  | inr over ↦
      let total = length-append file line in
      let trim : ℕ = length (file ++ line) - limit in
      let inside : trim < length file = omega (arith, total) in
      let rest = drop-append_le trim file line (omega arith) in
      let size = length-drop trim file in
      let (n, e, le) =
        read_line-whole (drop trim file) line (drop-is_whole trim file w) (omega (arith, size)) in
      let bound : trim + n ≤ length file = omega (arith, size, le) in
      (
        trim + n,
        bound,
        cut_at limit n (file ++ line) over (ap read_line rest ∙ e)
            ∙ drop-append_le (trim + n) file line bound,
      )
]
  where
    le_or_lt : (a b : ℕ) → (a ≤ b) ⊎ (b < a)
    le_or_lt a b = ground arith

-- A line that fills the limit exactly, with no line feed before its end, is lost when the file was
-- not empty, and the trimmed file is empty.
pub trim-full_line :
    (limit : ℕ) (file line : Bytes)
    → contains line 10 ≡ false
    → length line + 1 ≡ limit
    → 0 < length file
    → trim_failure_log_file limit (file ++ (line ++ 10 ∷ [])) ≡ []
trim-full_line limit file line plain full some_old =
    let whole = line ++ 10 ∷ [] in
    let total = length-append file whole in
    let own = length-append line (10 ∷ []) in
    let trim : length (file ++ whole) - limit ≡ length file = omega (arith, total, own) in
    let at : drop (length (file ++ whole) - limit) (file ++ whole) ≡ whole =
      ap (λ k. drop k (file ++ whole)) trim ∙ drop-length-append file whole in
    let ends : length (file ++ whole) - limit + suc (length line) ≡ length (file ++ whole) =
      omega (arith, total, own) in
    cut_at limit (suc (length line)) (file ++ whole) (omega (arith, total, own))
      (ap read_line at ∙ read_line-line line plain)
    ∙ ap (λ k. drop k (file ++ whole)) ends
    ∙ drop-length (file ++ whole)
