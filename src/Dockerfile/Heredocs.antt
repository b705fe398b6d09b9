-- ===== src/Dockerfile/Heredocs.antt =====
-- pkg/dockerfilepreprocess/instructions.go: the heredocs of an instruction. BuildKit's parser, the
-- shell parser and the JSON library are parameters.
use buildkit_service.Prelude.{
  Bool, false, not, ◌&&◌, ◌||◌, Option, none, some, List, [], ◌∷◌, ◌++◌, Text, text, starts_with,
  has_part, if◌then◌else◌, Result, ok, err, ◌>>=◌,
}

pub record Directive : Type 0 where
  pub name : Text
  pub value : Text

pub record Heredoc : Type 0 where
  pub name : Text
  pub chomp : Bool

-- DirectiveParser.ParseLine after the lines that it has had; json.Valid; whether the parser finds a
-- RUN of a JSON form; the heredoc tokens of a shell command in the order of the walk, with the error
-- of its parser; parser.ParseHeredoc; Lex.ProcessWords.
pub record Libraries : Type 0 where
  pub parse_directive : List Text → Text → Result Text (Option Directive)
  pub json_valid : Text → Bool
  pub is_json_run : Text → Bool
  pub shell_heredocs : Text → List Text × Option Text
  pub parse_heredoc : Text → Result Text (Option Heredoc)
  pub process_words : Text → Result Text (List Text)

unfoldable pub json_command : Libraries → Text → Bool
unfolding starts_with has_part
json_command lib command =
    lib.json_valid command
    || (starts_with (text "--") command && has_part (text "[") command && lib.is_json_run command)

-- The walk goes on after an error, and the last error is the result.
abbrev pub add_doc :
    Result Text (Option Heredoc) → List Heredoc × Option Text → List Heredoc × Option Text
add_doc (err e) (docs, none) = (docs, some e)
add_doc (err e) (docs, some later) = (docs, some later)
add_doc (ok none) found = found
add_doc (ok (some doc)) (docs, e) = (doc ∷ docs, e)

unfoldable pub walk : Libraries → List Text → List Heredoc × Option Text
walk lib [] = ([], none)
walk lib (token ∷ tokens) = add_doc (lib.parse_heredoc token) (walk lib tokens)

abbrev pub docs_of : List Heredoc × Option Text → Option Text → Result Text (List Heredoc)
docs_of ([], e) (some shell_error) = err (text "cannot validate heredoc header: " ++ shell_error)
docs_of (docs, some e) shell_error = err e
docs_of (docs, none) shell_error = ok docs

unfoldable pub instruction_heredocs : Libraries → Text → Result Text (List Heredoc)
unfolding has_part json_command walk
instruction_heredocs lib command =
    if not (has_part (text "<<") command) || json_command lib command
    then ok []
    else docs_of (walk lib (lib.shell_heredocs command).0) (lib.shell_heredocs command).1

abbrev pub with_doc : Option Heredoc → List Heredoc → List Heredoc
with_doc none docs = docs
with_doc (some doc) docs = doc ∷ docs

unfoldable pub docs_of_words : Libraries → List Text → Result Text (List Heredoc)
docs_of_words lib [] = ok []
docs_of_words lib (word ∷ words) =
    lib.parse_heredoc word >>= λ doc. docs_of_words lib words >>= λ docs. ok (with_doc doc docs)

unfoldable pub dockerfile_heredocs : Libraries → Text → Result Text (List Heredoc)
unfolding has_part json_command docs_of_words
dockerfile_heredocs lib command =
    if not (has_part (text "<<") command) || json_command lib command
    then ok []
    else lib.process_words command >>= docs_of_words lib

unfoldable pub first_word_is_heredoc : List Text → Bool
unfolding starts_with
first_word_is_heredoc [] = false
first_word_is_heredoc (word ∷ words) =
    let rest = first_word_is_heredoc words in
    if starts_with (text "--") word
    then rest
    else starts_with (text "<<") word && not (starts_with (text "<<<") word)

abbrev pub native_by : Result Text (List Text) → Bool
native_by (err e) = false
native_by (ok words) = first_word_is_heredoc words

abbrev pub native_run_heredoc : Libraries → Text → Bool
native_run_heredoc lib command = native_by (lib.process_words command)
