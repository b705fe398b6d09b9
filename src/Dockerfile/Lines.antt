-- ===== src/Dockerfile/Lines.antt =====
-- pkg/dockerfilepreprocess/heredoc.go, instructions.go: the lines of a Dockerfile, the header of an
-- instruction and the end of a heredoc. An index into the lines is a split of them: those that were
-- taken, and the rest.
use buildkit_service.Prelude.{
  ℕ, ◌-◌, Bool, true, false, not, ◌&&◌, ◌||◌, Option, none, some, List, [], ◌∷◌, ◌++◌, Text, text,
  text_eq, trim_space, trim_left, trim_right_by, trim_suffix, starts_with, leb, nat_eq,
  if◌then◌else◌,
}

-- strings.SplitAfter at newlines.
abbrev pub add_to_first : ℕ → List Text → List Text
add_to_first c [] = (c ∷ []) ∷ []
add_to_first c (line ∷ lines) = (c ∷ line) ∷ lines

unfoldable pub split_after : Text → List Text
split_after [] = [] ∷ []
split_after (c ∷ s) =
    let lines = split_after s in if nat_eq c 10 then (c ∷ []) ∷ lines else add_to_first c lines

abbrev pub unless_empty : Text → List Text
unless_empty [] = []
unless_empty (c ∷ s) = (c ∷ s) ∷ []

unfoldable pub drop_last_empty : List Text → List Text
drop_last_empty [] = []
drop_last_empty (line ∷ []) = unless_empty line
drop_last_empty (line ∷ next ∷ lines) = line ∷ drop_last_empty (next ∷ lines)

unfoldable pub split_dockerfile_lines : Text → List Text
unfolding split_after drop_last_empty
split_dockerfile_lines content = drop_last_empty (split_after content)

-- strings.Join with no separator.
unfoldable pub join_lines : List Text → Text
join_lines [] = []
join_lines (line ∷ lines) = line ++ join_lines lines

abbrev pub is_blank : ℕ → Bool
is_blank c = nat_eq c 32 || nat_eq c 9

-- unicode.ToUpper as far as its result is an ASCII letter.
abbrev pub upper : ℕ → ℕ
upper c =
    if leb 97 c && leb c 122
    then c - 32
    else if nat_eq c 0x131
    then 73
    else if nat_eq c 0x17f
    then 83
    else c

unfoldable pub to_upper : Text → Text
to_upper [] = []
to_upper (c ∷ s) = upper c ∷ to_upper s

-- What comes before the first space or tab, and what comes after it.
abbrev pub word_front : ℕ → Text × Text → Text × Text
word_front c (word, rest) = (c ∷ word, rest)

unfoldable pub cut_blank : Text → Text × Text
cut_blank [] = ([], [])
cut_blank (c ∷ s) = let rest = word_front c (cut_blank s) in if is_blank c then ([], s) else rest

unfoldable pub split_instruction : Text → Text × Text
unfolding trim_space cut_blank to_upper
split_instruction header =
    (to_upper (cut_blank (trim_space header)).0, trim_space (cut_blank (trim_space header)).1)

abbrev pub is_comment_or_blank : Text → Bool
is_comment_or_blank line = starts_with (text "#") (trim_space line) || text_eq (trim_space line) []

-- The last character is the escape, and the one before it is not.
unfoldable pub ends_continued : ℕ → Text → Bool
ends_continued escape [] = false
ends_continued escape (c ∷ []) = nat_eq c escape
ends_continued escape (b ∷ c ∷ []) = nat_eq c escape && not (nat_eq b escape)
ends_continued escape (b ∷ c ∷ d ∷ s) = ends_continued escape (c ∷ d ∷ s)

unfoldable pub without_last : Text → Text
without_last [] = []
without_last (c ∷ []) = []
without_last (c ∷ d ∷ s) = c ∷ without_last (d ∷ s)

abbrev pub is_line_end : ℕ → Bool
is_line_end c = nat_eq c 10 || nat_eq c 13

pub record Header : Type 0 where
  pub plain : Text
  pub taken : List Text
  pub rest : List Text

abbrev pub taking : Text → Header → Header
taking line h = record h { taken = line ∷ h.taken }

-- The loop of instructionHeader, with what the builder holds.
unfoldable pub header_from : ℕ → Bool → Text → List Text → Header
unfolding trim_space trim_right_by starts_with text_eq ends_continued without_last
header_from escape first header [] = record { plain = header; taken = []; rest = [] }
header_from escape first header (raw ∷ lines) =
    let line = trim_right_by is_line_end raw in
    let trimmed = trim_right_by is_blank line in
    let skipped = is_comment_or_blank line in
    let longer = if skipped then header else header ++ without_last trimmed in
    let joined = taking raw (header_from escape false longer lines) in
    if skipped && first
    then record { plain = line; taken = raw ∷ []; rest = lines }
    else if skipped || ends_continued escape trimmed
    then joined
    else record { plain = header ++ line; taken = raw ∷ []; rest = lines }

unfoldable pub instruction_header : ℕ → List Text → Header
unfolding header_from
instruction_header escape lines = header_from escape true [] lines

abbrev pub is_tab : ℕ → Bool
is_tab c = nat_eq c 9

-- A line that ends a heredoc.
unfoldable pub is_end : Text → Bool → Text → Bool
unfolding trim_suffix trim_left text_eq
is_end delimiter strip_tabs raw =
    let line = trim_suffix (text "\r") (trim_suffix (text "\n") raw) in
    text_eq (if strip_tabs then trim_left is_tab line else line) delimiter

abbrev pub with_line : Text → Option (List Text × List Text) → Option (List Text × List Text)
with_line line none = none
with_line line (some (body, rest)) = some (line ∷ body, rest)

-- findHeredocEnd: the lines up to the end, with it, and those after it.
unfoldable pub find_heredoc_end : Text → Bool → List Text → Option (List Text × List Text)
unfolding is_end
find_heredoc_end delimiter strip_tabs [] = none
find_heredoc_end delimiter strip_tabs (line ∷ lines) =
    let later = with_line line (find_heredoc_end delimiter strip_tabs lines) in
    if is_end delimiter strip_tabs line then some (line ∷ [], lines) else later
