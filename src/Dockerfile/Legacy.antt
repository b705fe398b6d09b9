-- ===== src/Dockerfile/Legacy.antt =====
-- pkg/dockerfilepreprocess/heredoc.go: the three patterns of legacy heredocs, as scanners: each
-- piece of a pattern takes what it matches from the front of a text. No piece can take less than
-- the most it can where the rest is to match.
use buildkit_service.Prelude.{
  ℕ, Bool, true, false, not, ◌&&◌, ◌||◌, Option, none, some, [], ◌∷◌, ◌++◌, Text, text, text_eq,
  starts_with, trim_left, drop, length, leb, nat_eq, if◌then◌else◌, Result, ok, err,
}
use buildkit_service.Dockerfile.Lines.{is_blank}

infixl 5 ◌>>?◌
abbrev pub ◌>>?◌ {ℓ κ} : {A : Type ℓ} {B : Type κ} → Option A → (A → Option B) → Option B
none >>? f = none
some a >>? f = f a

abbrev pub eat : Text → Text → Option Text
eat p s = if starts_with p s then some (drop (length p) s) else none

abbrev pub first_is : (ℕ → Bool) → Text → Bool
first_is p [] = false
first_is p (c ∷ s) = p c

-- `[ \t]+`
abbrev pub eat_blanks : Text → Option Text
eat_blanks s = if first_is is_blank s then some (trim_left is_blank s) else none

-- The longest start whose characters pass a test, and the rest.
abbrev pub add_front : ℕ → Text × Text → Text × Text
add_front c (front, rest) = (c ∷ front, rest)

unfoldable pub span : (ℕ → Bool) → Text → Text × Text
span p [] = ([], [])
span p (c ∷ s) = let rest = add_front c (span p s) in if p c then rest else ([], c ∷ s)

abbrev pub is_word_char : ℕ → Bool
is_word_char c = not (is_blank c)

abbrev pub eat_word : Text → Option (Text × Text)
eat_word s = if first_is is_word_char s then some (span is_word_char s) else none

abbrev pub is_letter : ℕ → Bool
is_letter c = (leb 65 c && leb c 90) || (leb 97 c && leb c 122) || nat_eq c 95

abbrev pub is_name_char : ℕ → Bool
is_name_char c = is_letter c || (leb 48 c && leb c 57)

abbrev pub eat_name : Text → Option (Text × Text)
eat_name s = if first_is is_letter s then some (span is_name_char s) else none

abbrev pub is_quote : ℕ → Bool
is_quote c = nat_eq c 39 || nat_eq c 34

abbrev pub is_dash : ℕ → Bool
is_dash c = nat_eq c 45

-- A piece that may be missing, of one character.
abbrev pub maybe_one : (ℕ → Bool) → Text → Text × Text
maybe_one p [] = ([], [])
maybe_one p (c ∷ s) = if p c then (c ∷ [], s) else ([], c ∷ s)

abbrev pub at_end : Text → Option (Unit {0})
at_end s = if text_eq (trim_left is_blank s) [] then some tt else none

-- `RUN cat`, after blanks.
abbrev pub eat_run_cat : Text → Option Text
eat_run_cat s = eat (text "RUN") s >>? eat_blanks >>? eat (text "cat") >>? eat_blanks

pub record Delimiter : Type 0 where
  pub dash : Text
  pub quote_left : Text
  pub name : Text
  pub quote_right : Text

-- `<<`, a dash, and a name that may be quoted.
abbrev pub named_delimiter : Text → Text → Text × Text → Delimiter × Text
named_delimiter dash quote_left (name, s) = (
  record {
    dash = dash;
    quote_left = quote_left;
    name = name;
    quote_right = (maybe_one is_quote s).0;
  },
  (maybe_one is_quote s).1,
)

abbrev pub after_dash : Text × Text → Option (Delimiter × Text)
after_dash (dash, s) =
    let quoted = maybe_one is_quote (trim_left is_blank s) in
    eat_name quoted.1 >>? λ named. some (named_delimiter dash quoted.0 named)

abbrev pub eat_delimiter : Text → Option (Delimiter × Text)
eat_delimiter s = eat (text "<<") s >>? λ rest. after_dash (maybe_one is_dash rest)

abbrev pub end_with_target : Text → Delimiter × Text → Option (Text × Delimiter)
end_with_target target (d, s) = at_end s >>? λ _. some (target, d)

unfoldable pub match_redirect_heredoc : Text → Option (Text × Delimiter)
unfolding starts_with trim_left span text_eq
match_redirect_heredoc line =
    eat_run_cat (trim_left is_blank line) >>? eat (text ">") >>? eat_blanks >>? eat_word >>? λ word.
    eat_blanks word.1 >>? eat_delimiter >>? end_with_target word.0

abbrev pub end_with_word : Delimiter → Text × Text → Option (Text × Delimiter)
end_with_word d (target, s) = at_end s >>? λ _. some (target, d)

unfoldable pub match_heredoc_redirect : Text → Option (Text × Delimiter)
unfolding starts_with trim_left span text_eq
match_heredoc_redirect line = eat_run_cat (trim_left is_blank line) >>? eat_delimiter >>? λ found.
    eat_blanks found.1 >>? eat (text ">") >>? eat_blanks >>? eat_word >>? end_with_word found.0

abbrev pub is_some {ℓ} : {A : Type ℓ} → Option A → Bool
is_some none = false
is_some (some a) = true

unfoldable pub match_append_heredoc : Text → Bool
unfolding starts_with trim_left span
match_append_heredoc line = is_some (
    eat_run_cat (trim_left is_blank line)
    >>? eat (text ">>")
    >>? eat_blanks
    >>? eat_word
    >>? λ word. eat_blanks word.1 >>? eat (text "<<"))

pub record LegacyHeredocSpec : Type 0 where
  pub indent : Text
  pub target : Text
  pub delimiter_token : Text

abbrev pub spec_of : Text → Text × Delimiter → Result Text (Option LegacyHeredocSpec)
spec_of line (target, d) =
    if not (text_eq d.quote_left d.quote_right)
    then err (text "mismatched heredoc delimiter quotes")
    else ok (
        some (record {
          indent = (span is_blank line).0;
          target = target;
          delimiter_token = d.dash ++ (d.quote_left ++ (d.name ++ d.quote_right));
        }))

abbrev pub spec_by :
    Text
    → Option (Text × Delimiter)
    → Option (Text × Delimiter)
    → Result Text (Option LegacyHeredocSpec)
spec_by line (some m) second = spec_of line m
spec_by line none (some m) = spec_of line m
spec_by line none none = ok none

-- The number of the line is only part of the error's text.
unfoldable pub parse_legacy_cat_heredoc : Text → Result Text (Option LegacyHeredocSpec)
unfolding match_redirect_heredoc match_heredoc_redirect span text_eq
parse_legacy_cat_heredoc line =
    spec_by line (match_redirect_heredoc line) (match_heredoc_redirect line)
