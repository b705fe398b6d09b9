-- ===== src/Dockerfile/Rewriting.antt =====
-- pkg/dockerfilepreprocess/heredoc.go: what TransformLegacyHeredocs keeps, and what it replaces.
use buildkit_service.Prelude.{
  ℕ, ◌≡◌, refl, sym, subst, Bool, true, false, not, ◌&&◌, ◌||◌, Option, none, some, List, [], ◌∷◌,
  ◌++◌, Text, text_eq, text_eq_iff, text, trim_space, append_nil, if◌then◌else◌, Result, ok, err,
  ◌>>=◌,
}
use buildkit_service.Dockerfile.Lines.{Header, instruction_header, split_instruction}
use buildkit_service.Dockerfile.Legacy.{
  LegacyHeredocSpec, parse_legacy_cat_heredoc, is_some, match_append_heredoc,
}
use buildkit_service.Dockerfile.Transform.{
  take_bodies, Taken, kept, emitted, is_shell_syntax, usable, heredocs_of, with_docs, normalized,
  is_run, take_instruction, take_header, take_piece, has_docs, escape_of,
}
use buildkit_service.Dockerfile.Heredocs.{Directive, Heredoc, Libraries, native_run_heredoc}

-- The instructions that may have heredocs.
abbrev takes_docs : Text → Bool
takes_docs instruction =
    is_run instruction || text_eq instruction (text "COPY") || text_eq instruction (text "ADD")

abbrev found_legacy : Result Text (Option LegacyHeredocSpec) → Option LegacyHeredocSpec
found_legacy (err e) = none
found_legacy (ok none) = none
found_legacy (ok (some spec)) = if is_shell_syntax spec.target then none else some spec

abbrev legacy_in : Header → Text × Text → Option LegacyHeredocSpec
legacy_in h (instruction, command) =
    if takes_docs instruction
    then found_legacy (parse_legacy_cat_heredoc (normalized h.plain (instruction, command)))
    else none

-- The legacy heredoc that the header of an instruction is, if it is one and its target has nothing
-- that a shell would expand. The instruction within an ONBUILD is none.
abbrev pub legacy_of : Header → Option LegacyHeredocSpec
legacy_of h = legacy_in h (split_instruction h.plain)

abbrev docs_in : Libraries → Text × Text → Result Text (List Heredoc)
docs_in lib (instruction, command) =
    if takes_docs instruction then heredocs_of lib instruction command else ok []

abbrev docs_below : Libraries → Text × Text → Result Text (List Heredoc)
docs_below lib (instruction, command) =
    if text_eq instruction (text "ONBUILD")
    then docs_in lib (split_instruction command)
    else docs_in lib (instruction, command)

-- The heredocs that the header of an instruction opens.
abbrev pub docs_of : Libraries → Header → Result Text (List Heredoc)
docs_of lib h = docs_below lib (split_instruction h.plain)

-- The lines after a header are the bodies of its heredocs and the rest.
abbrev pub HasBodies : Result Text (List Heredoc) → Header → List Text → List Text → Type 0
HasBodies opened h body rest =
    (docs : List Heredoc) × (opened ≡ ok docs) × (take_bodies docs h.rest ≡ ok (body, rest))

-- The first line of an instruction, with the lines after it, the directive that it may be, the
-- bodies and the lines after them; `seen` are the first lines of the instructions before.
abbrev pub Begin :
    Libraries → ℕ → List Text → Text → List Text → Option Directive → List Text → List Text → Type 0
Begin lib escape seen line lines d body src =
    let h : Header = instruction_header (escape_of d escape) (line ∷ lines) in
    (lib.parse_directive seen (trim_space line) ≡ ok d)
    × HasBodies (docs_of lib h) h body src
    × ((h.taken ++ body) ++ src ≡ line ∷ lines)

-- The header of the COPY that takes the place of a legacy heredoc.
abbrev pub copy_header : LegacyHeredocSpec → Text
copy_header spec =
    spec.indent
    ++ (text "COPY <<" ++ (spec.delimiter_token ++ (text " " ++ (spec.target ++ text "\n"))))

-- Lines, what becomes of them, and whether a heredoc was replaced: an instruction whose header is
-- no legacy heredoc is kept with its bodies; the header of one that is becomes that of a COPY, and
-- its body is kept.
pub data Rewrites (lib : Libraries) : ℕ → List Text → List Text → List Text → Bool → Type 0 where
  done : (escape : ℕ) (seen : List Text) → Rewrites lib escape seen [] [] false
  keeps :
      (escape : ℕ) (seen : List Text) (line : Text) (lines : List Text) (d : Option Directive)
      (body src out : List Text) (changed : Bool)
      → Begin lib escape seen line lines d body src
      → legacy_of (instruction_header (escape_of d escape) (line ∷ lines)) ≡ none
      → Rewrites lib (escape_of d escape) (seen ++ trim_space line ∷ []) src out changed
      → Rewrites lib escape seen
          (line ∷ lines)
          (((instruction_header (escape_of d escape) (line ∷ lines)).taken ++ body) ++ out)
          changed
  replaces :
      (escape : ℕ) (seen : List Text) (line : Text) (lines : List Text) (d : Option Directive)
      (body src out : List Text) (changed : Bool) (spec : LegacyHeredocSpec)
      → Begin lib escape seen line lines d body src
      → legacy_of (instruction_header (escape_of d escape) (line ∷ lines)) ≡ some spec
      → Rewrites lib (escape_of d escape) (seen ++ trim_space line ∷ []) src out changed
      → Rewrites lib escape seen (line ∷ lines) (copy_header spec ∷ (body ++ out)) true

-- The same of the lines that one instruction has.
abbrev pub Becomes : Option LegacyHeredocSpec → List Text → Taken → Type 0
Becomes none body t = (t.output ≡ t.source) × (t.rewritten ≡ false)
Becomes (some spec) body t = (t.output ≡ copy_header spec ∷ body) × (t.rewritten ≡ true)

abbrev pub IsPieceAt :
    Header → Option LegacyHeredocSpec → Result Text (List Heredoc) → Result Text Taken → Type 0
IsPieceAt h legacy opened (err e) = Unit {0}
IsPieceAt h legacy opened (ok t) =
    (body : List Text) × (rest : List Text) × HasBodies opened h body rest
    × (t.source ≡ h.taken ++ body)
    × Becomes legacy body t

module _ (lib : Libraries) (h : Header) where
  emitted-Becomes :
      (legacy : Option LegacyHeredocSpec) (body : List Text)
      → ((emitted legacy h.taken body).source ≡ h.taken ++ body)
        × Becomes legacy body (emitted legacy h.taken body)
  emitted-Becomes none body = (refl, (refl, refl))
  emitted-Becomes (some spec) body = (refl, (refl, refl))

  with_docs-IsPieceAt :
      (ic : Text × Text) (legacy : Option LegacyHeredocSpec) (opened : Result Text (List Heredoc))
      (docs : List Heredoc)
      → opened ≡ ok docs
      → IsPieceAt h legacy opened (with_docs lib ic h legacy docs)
  with_docs-IsPieceAt (instruction, command) legacy opened docs e = by_test (
      is_run instruction
      && has_docs docs
      && not (is_some legacy)
      && not (native_run_heredoc lib command))
    where
      by_bodies :
          (r : Result Text (List Text × List Text))
          → take_bodies docs h.rest ≡ r
          → IsPieceAt h legacy opened (r >>= λ bodies. ok (emitted legacy h.taken bodies.0))
      by_bodies (err x) f = tt
      by_bodies (ok (body, rest)) f =
          let (same, becomes) = emitted-Becomes legacy body in
          (body, rest, (docs, e, f), same, becomes)

      by_test :
          (b : Bool)
          → IsPieceAt h legacy opened (
              if b
              then err (text "unsupported RUN heredoc")
              else (take_bodies docs h.rest >>= λ bodies. ok (emitted legacy h.taken bodies.0)))
      by_test true = tt
      by_test false = by_bodies (take_bodies docs h.rest) refl

  kept-IsPieceAt : IsPieceAt h none (ok []) (ok (kept h.taken))
  unfolding take_bodies
  kept-IsPieceAt = ([], h.rest, ([], refl, refl), sym (append_nil h.taken), (refl, refl))

  abbrev unless_onbuild : Bool → Option LegacyHeredocSpec → Option LegacyHeredocSpec
  unless_onbuild onbuild legacy = if onbuild then none else legacy

  usable-found :
      (onbuild : Bool) (o : Option LegacyHeredocSpec)
      → usable onbuild o ≡ unless_onbuild onbuild (found_legacy (ok o))
  usable-found true none = refl
  usable-found false none = refl
  usable-found true (some spec) = refl
  usable-found false (some spec) = refl

  take_instruction-IsPieceAt :
      (onbuild : Bool) (ic : Text × Text)
      → IsPieceAt h
          (unless_onbuild onbuild (legacy_in h ic))
          (docs_in lib ic)
          (take_instruction lib onbuild h ic)
  take_instruction-IsPieceAt onbuild (instruction, command) =
      by_kind (takes_docs instruction)
        (match_append_heredoc (normalized h.plain (instruction, command)))
    where
      by_docs :
          (o : Option LegacyHeredocSpec) (r : Result Text (List Heredoc))
          → IsPieceAt h
              (unless_onbuild onbuild (found_legacy (ok o)))
              r
              (r >>= λ docs. with_docs lib (instruction, command) h (usable onbuild o) docs)
      by_docs o (err e) = tt
      by_docs o (ok docs) =
          subst
            (λ legacy.
              IsPieceAt h legacy (ok docs)
                (with_docs lib (instruction, command) h (usable onbuild o) docs))
            (usable-found onbuild o)
            (with_docs-IsPieceAt (instruction, command) (usable onbuild o) (ok docs) docs refl)

      by_spec :
          (r : Result Text (Option LegacyHeredocSpec))
          → IsPieceAt h
              (unless_onbuild onbuild (found_legacy r))
              (heredocs_of lib instruction command)
              (r >>= λ spec. heredocs_of lib instruction command >>= λ docs.
                with_docs lib (instruction, command) h (usable onbuild spec) docs)
      by_spec (err e) = tt
      by_spec (ok o) = by_docs o (heredocs_of lib instruction command)

      nothing_of : unless_onbuild onbuild none ≡ none
      nothing_of = by_onbuild onbuild
        where
          by_onbuild : (b : Bool) → unless_onbuild b none ≡ none
          by_onbuild true = refl
          by_onbuild false = refl

      by_kind :
          (kind append : Bool)
          → IsPieceAt h
              (unless_onbuild onbuild (
                if kind
                then found_legacy
                    (parse_legacy_cat_heredoc (normalized h.plain (instruction, command)))
                else none))
              (if kind then heredocs_of lib instruction command else ok [])
              (if not kind
                then ok (kept h.taken)
                else if append
                then err (text "append heredoc with cat >> is not supported")
                else (parse_legacy_cat_heredoc (normalized h.plain (instruction, command))
                    >>= λ spec. heredocs_of lib instruction command >>= λ docs.
                        with_docs lib (instruction, command) h (usable onbuild spec) docs))
      by_kind false append =
          subst (λ legacy. IsPieceAt h legacy (ok []) (ok (kept h.taken))) (sym nothing_of)
            kept-IsPieceAt
      by_kind true true = tt
      by_kind true false =
          by_spec (parse_legacy_cat_heredoc (normalized h.plain (instruction, command)))

  -- An ONBUILD is no instruction that may have heredocs.
  onbuild_legacy : (ic : Text × Text) → text_eq ic.0 (text "ONBUILD") ≡ true → legacy_in h ic ≡ none
  unfolding text_eq
  onbuild_legacy (instruction, command) e = rw ((text_eq_iff instruction (text "ONBUILD")).0 e) refl

  take_header-IsPieceAt :
      (ic : Text × Text) → IsPieceAt h (legacy_in h ic) (docs_below lib ic) (take_header lib h ic)
  take_header-IsPieceAt (instruction, command) =
      by_onbuild (text_eq instruction (text "ONBUILD")) refl
    where
      by_onbuild :
          (b : Bool)
          → text_eq instruction (text "ONBUILD") ≡ b
          → IsPieceAt h
              (legacy_in h (instruction, command))
              (if b
                then docs_in lib (split_instruction command)
                else docs_in lib (instruction, command))
              (if b
                then take_instruction lib true h (split_instruction command)
                else take_instruction lib false h (instruction, command))
      by_onbuild true e =
          subst
            (λ legacy.
              IsPieceAt h legacy (docs_in lib (split_instruction command))
                (take_instruction lib true h (split_instruction command)))
            (sym (onbuild_legacy (instruction, command) e))
            (take_instruction-IsPieceAt true (split_instruction command))
      by_onbuild false e = take_instruction-IsPieceAt false (instruction, command)

-- The lines that the header of an instruction says are what is taken of it.
pub take_piece-IsPieceAt :
    (lib : Libraries) (escape : ℕ) (lines : List Text)
    → IsPieceAt
        (instruction_header escape lines)
        (legacy_of (instruction_header escape lines))
        (docs_of lib (instruction_header escape lines))
        (take_piece lib escape lines)
unfolding take_piece
take_piece-IsPieceAt lib escape lines =
    take_header-IsPieceAt lib (instruction_header escape lines)
      (split_instruction (instruction_header escape lines).plain)
