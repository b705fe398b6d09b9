-- ===== src/Dockerfile/Transform.antt =====
-- pkg/dockerfilepreprocess/heredoc.go, instructions.go: TransformLegacyHeredocs. BuildKit's parser,
-- the shell parser and the JSON library are parameters. Errors leave out the number of the line.
use buildkit_service.Prelude.{
  ℕ, zero, suc, ◌-◌, Bool, true, false, not, ◌&&◌, ◌||◌, Option, none, some, List, [], ◌∷◌, ◌++◌,
  Text, text, text_eq, trim_space, has_one_of, length, if◌then◌else◌, Result, ok, err, ◌>>=◌,
}
use buildkit_service.Dockerfile.Lines.{
  split_dockerfile_lines, join_lines, is_blank, split_instruction, Header, instruction_header,
  find_heredoc_end,
}
use buildkit_service.Dockerfile.Legacy.{
  span, is_some, match_append_heredoc, LegacyHeredocSpec, parse_legacy_cat_heredoc,
}
use buildkit_service.Dockerfile.Heredocs.{
  Directive, Heredoc, Libraries, instruction_heredocs, dockerfile_heredocs, first_word_is_heredoc,
  native_run_heredoc,
}

-- The bodies of the heredocs, one after another.
abbrev pub add_body : List Text × List Text → List Text × List Text → List Text × List Text
add_body (body, rest) (bodies, after) = (body ++ bodies, after)

abbrev pub body_or_error : Option (List Text × List Text) → Result Text (List Text × List Text)
body_or_error none = err (text "heredoc delimiter was not found")
body_or_error (some found) = ok found

unfoldable pub take_bodies : List Heredoc → List Text → Result Text (List Text × List Text)
unfolding find_heredoc_end
take_bodies [] lines = ok ([], lines)
take_bodies (doc ∷ docs) lines =
    body_or_error (find_heredoc_end doc.name doc.chomp lines) >>= λ found.
    take_bodies docs found.1 >>= λ more. ok (add_body found more)

-- An instruction: its lines, the lines that replace them, and whether it was rewritten.
pub record Taken : Type 0 where
  pub source : List Text
  pub output : List Text
  pub rewritten : Bool

abbrev pub kept : List Text → Taken
kept lines = record { source = lines; output = lines; rewritten = false }

abbrev pub copy_line : LegacyHeredocSpec → Text
copy_line spec =
    spec.indent
    ++ (text "COPY <<" ++ (spec.delimiter_token ++ (text " " ++ (spec.target ++ text "\n"))))

abbrev pub emitted : Option LegacyHeredocSpec → List Text → List Text → Taken
emitted none head body = kept (head ++ body)
emitted (some spec) head body = record {
  source = head ++ body;
  output = copy_line spec ∷ body;
  rewritten = true;
}

-- What a shell could expand or read as syntax.
abbrev pub is_shell_char : ℕ → Bool
is_shell_char c =
    has_one_of
      ((36 ∷ [])
        ∷ (96 ∷ [])
        ∷ (92 ∷ [])
        ∷ (34 ∷ [])
        ∷ (39 ∷ [])
        ∷ (126 ∷ [])
        ∷ (42 ∷ [])
        ∷ (63 ∷ [])
        ∷ (91 ∷ [])
        ∷ (93 ∷ [])
        ∷ (123 ∷ [])
        ∷ (125 ∷ [])
        ∷ (59 ∷ [])
        ∷ (38 ∷ [])
        ∷ (124 ∷ [])
        ∷ (60 ∷ [])
        ∷ (62 ∷ [])
        ∷ (40 ∷ [])
        ∷ (41 ∷ [])
        ∷ [])
      (c ∷ [])

unfoldable pub is_shell_syntax : Text → Bool
unfolding has_one_of
is_shell_syntax [] = false
is_shell_syntax (c ∷ s) = is_shell_char c || is_shell_syntax s

abbrev pub usable : Bool → Option LegacyHeredocSpec → Option LegacyHeredocSpec
usable onbuild none = none
usable onbuild (some spec) = if onbuild || is_shell_syntax spec.target then none else some spec

abbrev pub has_docs : List Heredoc → Bool
has_docs [] = false
has_docs (doc ∷ docs) = true

abbrev pub is_run : Text → Bool
is_run instruction = text_eq instruction (text "RUN")

abbrev pub heredocs_of : Libraries → Text → Text → Result Text (List Heredoc)
heredocs_of lib instruction command =
    if is_run instruction then instruction_heredocs lib command else dockerfile_heredocs lib command

abbrev pub with_docs :
    Libraries → Text × Text → Header → Option LegacyHeredocSpec → List Heredoc → Result Text Taken
with_docs lib (instruction, command) h legacy docs =
    if is_run instruction
      && has_docs docs
      && not (is_some legacy)
      && not (native_run_heredoc lib command)
    then err (text "unsupported RUN heredoc")
    else take_bodies docs h.rest >>= λ bodies. ok (emitted legacy h.taken bodies.0)

-- Only the keyword is normalized.
abbrev pub normalized : Text → Text × Text → Text
normalized plain (instruction, command) =
    (span is_blank plain).0 ++ (instruction ++ (text " " ++ trim_space command))

abbrev pub take_instruction : Libraries → Bool → Header → Text × Text → Result Text Taken
take_instruction lib onbuild h (instruction, command) =
    if not
      (is_run instruction || text_eq instruction (text "COPY") || text_eq instruction (text "ADD"))
    then ok (kept h.taken)
    else if match_append_heredoc (normalized h.plain (instruction, command))
    then err (text "append heredoc with cat >> is not supported")
    else (parse_legacy_cat_heredoc (normalized h.plain (instruction, command)) >>= λ spec.
        heredocs_of lib instruction command >>= λ docs.
        with_docs lib (instruction, command) h (usable onbuild spec) docs)

-- An ONBUILD is taken as the instruction that it holds.
abbrev pub take_header : Libraries → Header → Text × Text → Result Text Taken
take_header lib h (instruction, command) =
    if text_eq instruction (text "ONBUILD")
    then take_instruction lib true h (split_instruction command)
    else take_instruction lib false h (instruction, command)

unfoldable pub take_piece : Libraries → ℕ → List Text → Result Text Taken
unfolding instruction_header split_instruction match_append_heredoc parse_legacy_cat_heredoc
    instruction_heredocs dockerfile_heredocs first_word_is_heredoc take_bodies is_shell_syntax span
    trim_space text_eq
take_piece lib escape lines =
    let h = instruction_header escape lines in take_header lib h (split_instruction h.plain)

abbrev pub escape_of : Option Directive → ℕ → ℕ
escape_of none escape = escape
escape_of (some d) escape =
    if text_eq d.name (text "escape") && text_eq d.value (text "\\")
    then 92
    else if text_eq d.name (text "escape") && text_eq d.value (text "`")
    then 96
    else escape

abbrev pub add_taken : Taken → List Text × Bool → List Text × Bool
add_taken t (out, changed) = (t.output ++ out, t.rewritten || changed)

-- The loop over the lines: how many of them belong to the instruction before, and the lines that
-- the directive parser has had.
unfoldable pub transform_lines :
    Libraries → ℕ → List Text → ℕ → List Text → Result Text (List Text × Bool)
unfolding take_piece trim_space text_eq
transform_lines lib escape seen skip [] = ok ([], false)
transform_lines lib escape seen (suc skip) (line ∷ lines) =
    transform_lines lib escape seen skip lines
transform_lines lib escape seen zero (line ∷ lines) =
    lib.parse_directive seen (trim_space line) >>= λ d.
    take_piece lib (escape_of d escape) (line ∷ lines) >>= λ taken.
    transform_lines lib (escape_of d escape) (seen ++ trim_space line ∷ [])
      (length taken.source - 1) lines
    >>= λ out. ok (add_taken taken out)

abbrev pub joined : Text → List Text × Bool → Text × Bool
joined raw (out, changed) = if not changed then (raw, false) else (join_lines out, true)

unfoldable pub transform_legacy_heredocs : Libraries → Text → Result Text (Text × Bool)
unfolding transform_lines split_dockerfile_lines join_lines
transform_legacy_heredocs lib raw =
    transform_lines lib 92 [] 0 (split_dockerfile_lines raw) >>= λ out. ok (joined raw out)

-- PreprocessDockerfile: the file with its content afterwards, and the result; os.Stat and
-- os.WriteFile with what they leave of the content where they fail.
abbrev pub after_transform :
    Text → Option Text → Option (Text × Text) → Result Text (Text × Bool) → Text × Result Text Bool
after_transform raw stat_error write_error (err e) = (raw, err e)
after_transform raw stat_error write_error (ok (processed, false)) = (raw, ok false)
after_transform raw (some e) write_error (ok (processed, true)) = (raw, err e)
after_transform raw none (some (left, e)) (ok (processed, true)) = (left, err e)
after_transform raw none none (ok (processed, true)) = (processed, ok true)

unfoldable pub preprocess_dockerfile :
    Libraries → Text → Option Text → Option Text → Option (Text × Text) → Text × Result Text Bool
unfolding transform_legacy_heredocs
preprocess_dockerfile lib raw (some e) stat_error write_error = (raw, err e)
preprocess_dockerfile lib raw none stat_error write_error =
    after_transform raw stat_error write_error (transform_legacy_heredocs lib raw)
