-- ===== src/Dockerfile/Splitting.antt =====
-- pkg/dockerfilepreprocess: lines, headers and heredoc bodies are split off without a loss.
use buildkit_service.Prelude.{
  ℕ, ◌≡◌, refl, ap, ◌∙◌, Bool, true, false, ◌&&◌, ◌||◌, Option, none, some, List, [], ◌∷◌, ◌++◌,
  Text, trim_right_by, append_assoc, nat_eq, Bool-cases, inl, inr, if◌then◌else◌, Result, ok, err,
  ◌>>=◌,
}
use buildkit_service.Dockerfile.Lines.{
  split_after, add_to_first, drop_last_empty, split_dockerfile_lines, join_lines, Header, taking,
  header_from, instruction_header, find_heredoc_end, with_line, is_end, is_line_end, is_blank,
  is_comment_or_blank, ends_continued, without_last,
}
use buildkit_service.Dockerfile.Transform.{take_bodies, body_or_error, add_body}
use buildkit_service.Dockerfile.Heredocs.{Heredoc}

-- The lines of a text are the text.
join_lines-add_to_first :
    (c : ℕ) (lines : List Text) → join_lines (add_to_first c lines) ≡ c ∷ join_lines lines
unfolding join_lines
join_lines-add_to_first c [] = refl
join_lines-add_to_first c (line ∷ lines) = refl

join_lines-split_after : (s : Text) → join_lines (split_after s) ≡ s
unfolding join_lines split_after
join_lines-split_after [] = refl
join_lines-split_after (c ∷ s) = elim (Bool-cases (nat_eq c 10)) [
  | inl e ↦ rw e (ap (λ r. c ∷ r) (join_lines-split_after s))
  | inr e ↦
      rw e (join_lines-add_to_first c (split_after s) ∙ ap (λ r. c ∷ r) (join_lines-split_after s))
]

join_lines-drop_last_empty :
    (lines : List Text) → join_lines (drop_last_empty lines) ≡ join_lines lines
unfolding join_lines drop_last_empty
join_lines-drop_last_empty [] = refl
join_lines-drop_last_empty ([] ∷ []) = refl
join_lines-drop_last_empty ((c ∷ s) ∷ []) = refl
join_lines-drop_last_empty (line ∷ next ∷ lines) =
    ap (λ r. line ++ r) (join_lines-drop_last_empty (next ∷ lines))

pub join_lines-split_dockerfile_lines : (raw : Text) → join_lines (split_dockerfile_lines raw) ≡ raw
unfolding split_dockerfile_lines
join_lines-split_dockerfile_lines raw =
    join_lines-drop_last_empty (split_after raw) ∙ join_lines-split_after raw

-- A header takes lines from the front, the first one at least.
abbrev stepped : Bool → Bool → Text → Text → Text → List Text → Header → Header
stepped stops goes line whole raw lines later =
    if stops
    then record { plain = line; taken = raw ∷ []; rest = lines }
    else if goes
    then taking raw later
    else record { plain = whole; taken = raw ∷ []; rest = lines }

abbrev pub IsSplit : Header → List Text → Type 0
IsSplit h lines = h.taken ++ h.rest ≡ lines

stepped-IsSplit :
    (stops goes : Bool) (line whole raw : Text) (lines : List Text) (later : Header)
    → IsSplit later lines
    → IsSplit (stepped stops goes line whole raw lines later) (raw ∷ lines)
stepped-IsSplit true goes line whole raw lines later e = refl
stepped-IsSplit false true line whole raw lines later e = ap (λ r. raw ∷ r) e
stepped-IsSplit false false line whole raw lines later e = refl

header_from-IsSplit :
    (escape : ℕ) (first : Bool) (header : Text) (lines : List Text)
    → IsSplit (header_from escape first header lines) lines
unfolding header_from
header_from-IsSplit escape first header [] = refl
header_from-IsSplit escape first header (raw ∷ lines) =
    let line = trim_right_by is_line_end raw in
    let skipped = is_comment_or_blank line in
    let longer = if skipped then header else header ++ without_last (trim_right_by is_blank line) in
    stepped-IsSplit (skipped && first)
      (skipped || ends_continued escape (trim_right_by is_blank line)) line (header ++ line) raw
      lines (header_from escape false longer lines) (header_from-IsSplit escape false longer lines)

abbrev pub Begins : Text → Header → Type 0
Begins raw h = (more : List Text) × (h.taken ≡ raw ∷ more)

stepped-Begins :
    (stops goes : Bool) (line whole raw : Text) (lines : List Text) (later : Header)
    → Begins raw (stepped stops goes line whole raw lines later)
stepped-Begins true goes line whole raw lines later = ([], refl)
stepped-Begins false true line whole raw lines later = (later.taken, refl)
stepped-Begins false false line whole raw lines later = ([], refl)

pub header-Begins :
    (escape : ℕ) (raw : Text) (lines : List Text)
    → Begins raw (instruction_header escape (raw ∷ lines))
unfolding instruction_header header_from
header-Begins escape raw lines =
    let line = trim_right_by is_line_end raw in
    let skipped = is_comment_or_blank line in
    let longer = if skipped then [] else without_last (trim_right_by is_blank line) in
    stepped-Begins (skipped && true)
      (skipped || ends_continued escape (trim_right_by is_blank line)) line line raw lines
      (header_from escape false longer lines)

-- So do the bodies of heredocs.
abbrev pub BodySplit : List Text → Option (List Text × List Text) → Type 0
BodySplit lines none = Unit {0}
BodySplit lines (some (body, rest)) = body ++ rest ≡ lines

find_heredoc_end-split :
    (name : Text) (chomp : Bool) (lines : List Text)
    → BodySplit lines (find_heredoc_end name chomp lines)
unfolding find_heredoc_end
find_heredoc_end-split name chomp [] = tt
find_heredoc_end-split name chomp (line ∷ lines) = elim (Bool-cases (is_end name chomp line)) [
  | inl e ↦ rw e refl
  | inr e ↦
      rw e (later (find_heredoc_end name chomp lines) (find_heredoc_end-split name chomp lines))
]
  where
    later :
        (o : Option (List Text × List Text))
        → BodySplit lines o
        → BodySplit (line ∷ lines) (with_line line o)
    later none h = tt
    later (some (body, rest)) h = ap (λ r. line ∷ r) h

abbrev pub BodiesSplit : List Text → Result Text (List Text × List Text) → Type 0
BodiesSplit lines (err e) = Unit {0}
BodiesSplit lines (ok (bodies, rest)) = bodies ++ rest ≡ lines

pub take_bodies-split :
    (docs : List Heredoc) (lines : List Text) → BodiesSplit lines (take_bodies docs lines)
unfolding take_bodies
take_bodies-split [] lines = refl
take_bodies-split (doc ∷ docs) lines =
    by_end (λ rest. take_bodies-split docs rest) (find_heredoc_end doc.name doc.chomp lines)
      (find_heredoc_end-split doc.name doc.chomp lines)
  where
    by_more :
        (body rest : List Text)
        → body ++ rest ≡ lines
        → (r : Result Text (List Text × List Text)) → BodiesSplit rest r
        → BodiesSplit lines (r >>= λ more. ok (add_body (body, rest) more))
    by_more body rest e (err x) h = tt
    by_more body rest e (ok (bodies, after)) h =
        append_assoc body bodies after ∙ ap (λ r. body ++ r) h ∙ e

    by_end :
        ((rest : List Text) → BodiesSplit rest (take_bodies docs rest))
        → (o : Option (List Text × List Text)) → BodySplit lines o
        → BodiesSplit lines (
            body_or_error o >>= λ found.
            take_bodies docs found.1 >>= λ more. ok (add_body found more))
    by_end next none h = tt
    by_end next (some (body, rest)) h = by_more body rest h (take_bodies docs rest) (next rest)

pub instruction_header-IsSplit :
    (escape : ℕ) (lines : List Text) → IsSplit (instruction_header escape lines) lines
unfolding instruction_header
instruction_header-IsSplit escape lines = header_from-IsSplit escape true [] lines
