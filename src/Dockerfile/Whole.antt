-- ===== src/Dockerfile/Whole.antt =====
-- pkg/dockerfilepreprocess/heredoc.go: TransformLegacyHeredocs of a whole file.
use buildkit_service.Prelude.{
  ℕ, zero, suc, ◌-◌, ◌≡◌, refl, sym, ap, ◌∙◌, subst, Bool, true, false, ◌||◌, Option, none, some,
  List, [], ◌∷◌, ◌++◌, Text, trim_space, length, drop, append_assoc, Result, ok, err, ◌>>=◌, arith,
}
use buildkit_service.Dockerfile.Lines.{
  Header, split_dockerfile_lines, join_lines, instruction_header,
}
use buildkit_service.Dockerfile.Splitting.{
  join_lines-split_dockerfile_lines, instruction_header-IsSplit, header-Begins, BodiesSplit,
  take_bodies-split,
}
use buildkit_service.Dockerfile.Legacy.{LegacyHeredocSpec}
use buildkit_service.Dockerfile.Transform.{
  Taken, take_piece, escape_of, add_taken, transform_lines, joined, transform_legacy_heredocs,
}
use buildkit_service.Dockerfile.Heredocs.{Directive, Libraries}
use buildkit_service.Dockerfile.Rewriting.{
  legacy_of, docs_of, HasBodies, Rewrites, done, keeps, replaces, Becomes, IsPieceAt,
  take_piece-IsPieceAt,
}

abbrev Transformed : Libraries → ℕ → List Text → List Text → Result Text (List Text × Bool) → Type 0
Transformed lib escape seen src (err e) = Unit {0}
Transformed lib escape seen src (ok (out, changed)) = Rewrites lib escape seen src out changed

drop_front : (xs ys : List Text) → drop (length xs) (xs ++ ys) ≡ ys
drop_front [] ys = refl
drop_front (x ∷ xs) ys = drop_front xs ys

-- After the source of an instruction come the lines after it.
rest_at :
    (raw : Text) (lines rest source : List Text)
    → (more : List Text) × (source ≡ raw ∷ more)
    → source ++ rest ≡ raw ∷ lines
    → drop (length source - 1) lines ≡ rest
rest_at raw lines rest source (more, e) f =
    let skipped : length source - 1 ≡ length more = omega (arith, ap length e) in
    let after : lines ≡ more ++ rest = tail_eq (sym f ∙ ap (λ xs. xs ++ rest) e) in
    ap (λ n. drop n lines) skipped ∙ ap (drop (length more)) after ∙ drop_front more rest
  where
    tail_eq : {x : Text} {xs ys : List Text} → x ∷ xs ≡ x ∷ ys → xs ≡ ys
    tail_eq p = cc p

module _ (lib : Libraries) (escape : ℕ) (seen : List Text) (line : Text) (lines : List Text)
    (d : Option Directive) (directive : lib.parse_directive seen (trim_space line) ≡ ok d) where
  abbrev header : Header
  header = instruction_header (escape_of d escape) (line ∷ lines)

  -- The header, the bodies and the rest are the lines.
  split_at :
      (body rest : List Text)
      → HasBodies (docs_of lib header) header body rest
      → (header.taken ++ body) ++ rest ≡ line ∷ lines
  split_at body rest (docs, e, f) =
      append_assoc header.taken body rest
      ∙ ap (λ r. header.taken ++ r)
          (subst (BodiesSplit header.rest) f (take_bodies-split docs header.rest))
      ∙ instruction_header-IsSplit (escape_of d escape) (line ∷ lines)

  taken_at : (body : List Text) → (more : List Text) × (header.taken ++ body ≡ line ∷ more)
  taken_at body =
      let (more, e) = header-Begins (escape_of d escape) line lines in
      (more ++ body, ap (λ r. r ++ body) e)

  -- What follows an instruction is transformed in its turn.
  abbrev After : List Text → List Text → Bool → Type 0
  After rest out changed =
      Rewrites lib (escape_of d escape) (seen ++ trim_space line ∷ []) rest out changed

  add_taken-Rewrites :
      (legacy : Option LegacyHeredocSpec) (body rest out : List Text) (changed : Bool) (t : Taken)
      → legacy_of header ≡ legacy
      → HasBodies (docs_of lib header) header body rest
      → t.source ≡ header.taken ++ body
      → Becomes legacy body t
      → After rest out changed
      → Rewrites lib escape seen (line ∷ lines) (t.output ++ out) (t.rewritten || changed)
  add_taken-Rewrites none body rest out changed t e bodies same (o, w) r =
      rw (o, w, same)
        (keeps escape seen line lines d body rest out changed
          (directive, bodies, split_at body rest bodies) e r)
  add_taken-Rewrites (some spec) body rest out changed t e bodies same (o, w) r =
      rw (o, w)
        (replaces escape seen line lines d body rest out changed spec
          (directive, bodies, split_at body rest bodies) e r)

  by_rest :
      (t : Taken) (body rest : List Text)
      → HasBodies (docs_of lib header) header body rest
      → t.source ≡ header.taken ++ body
      → Becomes (legacy_of header) body t
      → (r : Result Text (List Text × Bool))
      → Transformed lib (escape_of d escape) (seen ++ trim_space line ∷ []) rest r
      → Transformed lib escape seen (line ∷ lines) (r >>= λ out. ok (add_taken t out))
  by_rest t body rest bodies same becomes (err x) h = tt
  by_rest t body rest bodies same becomes (ok (out, changed)) h =
      add_taken-Rewrites (legacy_of header) body rest out changed t refl bodies same becomes h

  by_piece :
      ((skip : ℕ)
        → Transformed lib
            (escape_of d escape)
            (seen ++ trim_space line ∷ [])
            (drop skip lines)
            (transform_lines lib (escape_of d escape) (seen ++ trim_space line ∷ []) skip lines))
      → (r : Result Text Taken) → IsPieceAt header (legacy_of header) (docs_of lib header) r
      → Transformed lib escape seen (line ∷ lines) (
          r >>= λ taken.
          transform_lines lib
            (escape_of d escape)
            (seen ++ trim_space line ∷ [])
            (length taken.source - 1)
            lines
          >>= λ out. ok (add_taken taken out))
  by_piece next (err x) piece = tt
  by_piece next (ok t) (body, rest, bodies, same, becomes) =
      by_rest t body rest bodies same becomes
        (transform_lines lib (escape_of d escape) (seen ++ trim_space line ∷ [])
          (length t.source - 1) lines)
        (subst
          (λ src. Transformed lib (escape_of d escape) (seen ++ trim_space line ∷ []) src (
            transform_lines lib (escape_of d escape) (seen ++ trim_space line ∷ [])
              (length t.source - 1) lines))
          (rest_at line lines rest t.source
            (subst (λ s. (more : List Text) × (s ≡ line ∷ more)) (sym same) (taken_at body))
            (ap (λ s. s ++ rest) same ∙ split_at body rest bodies))
          (next (length t.source - 1)))

transform_lines-Transformed :
    (lib : Libraries) (escape : ℕ) (seen : List Text) (skip : ℕ) (lines : List Text)
    → Transformed lib escape seen (drop skip lines) (transform_lines lib escape seen skip lines)
unfolding transform_lines
transform_lines-Transformed lib escape seen zero [] = done escape seen
transform_lines-Transformed lib escape seen (suc skip) [] = done escape seen
transform_lines-Transformed lib escape seen (suc skip) (line ∷ lines) =
    transform_lines-Transformed lib escape seen skip lines
transform_lines-Transformed lib escape seen zero (line ∷ lines) =
    by_directive
      (λ esc skip. transform_lines-Transformed lib esc (seen ++ trim_space line ∷ []) skip lines)
      (lib.parse_directive seen (trim_space line)) refl
  where
    by_directive :
        ((esc skip : ℕ)
          → Transformed lib esc
              (seen ++ trim_space line ∷ [])
              (drop skip lines)
              (transform_lines lib esc (seen ++ trim_space line ∷ []) skip lines))
        → (r : Result Text (Option Directive)) → lib.parse_directive seen (trim_space line) ≡ r
        → Transformed lib escape seen (line ∷ lines) (
            r >>= λ d. take_piece lib (escape_of d escape) (line ∷ lines) >>= λ taken.
            transform_lines lib
              (escape_of d escape)
              (seen ++ trim_space line ∷ [])
              (length taken.source - 1)
              lines
            >>= λ out. ok (add_taken taken out))
    by_directive next (err x) e = tt
    by_directive next (ok d) e =
        by_piece lib escape seen line lines d e (next (escape_of d escape))
          (take_piece lib (escape_of d escape) (line ∷ lines))
          (take_piece-IsPieceAt lib (escape_of d escape) (line ∷ lines))

-- Where nothing is replaced, nothing changes.
Rewrites-false :
    {lib : Libraries} {escape : ℕ} {seen src out : List Text} {changed : Bool}
    → Rewrites lib escape seen src out changed
    → changed ≡ false
    → out ≡ src
Rewrites-false (done escape seen) e = refl
Rewrites-false
      (keeps escape seen line lines d body src out changed (parsed, bodies, split) none_found r) e =
    ap (λ s. ((instruction_header (escape_of d escape) (line ∷ lines)).taken ++ body) ++ s)
      (Rewrites-false r e)
    ∙ split
Rewrites-false (replaces escape seen line lines d body src out changed spec begin found r) e = cc e

abbrev pub IsRewriting : Libraries → Text → Result Text (Text × Bool) → Type 0
IsRewriting lib raw (err e) = Unit {0}
IsRewriting lib raw (ok (out, changed)) =
    (lines : List Text) × Rewrites lib 92 [] (split_dockerfile_lines raw) lines changed
    × (join_lines lines ≡ out)

-- A transformation that succeeds goes through the file by its instructions, from the first line on:
-- an instruction is a header and the bodies of the heredocs that it opens. The header of a RUN, COPY
-- or ADD that is a legacy heredoc to a target without shell syntax becomes one COPY, and its bodies
-- are kept; every other instruction is kept byte for byte, in its place. The file changes only if
-- it says so.
pub transform_legacy_heredocs-IsRewriting :
    (lib : Libraries) (raw : Text) → IsRewriting lib raw (transform_legacy_heredocs lib raw)
unfolding transform_legacy_heredocs
transform_legacy_heredocs-IsRewriting lib raw =
    by_result (transform_lines lib 92 [] 0 (split_dockerfile_lines raw))
      (transform_lines-Transformed lib 92 [] 0 (split_dockerfile_lines raw))
  where
    by_result :
        (r : Result Text (List Text × Bool))
        → Transformed lib 92 [] (split_dockerfile_lines raw) r
        → IsRewriting lib raw (r >>= λ out. ok (joined raw out))
    by_result (err e) h = tt
    by_result (ok (out, true)) h = (out, h, refl)
    by_result (ok (out, false)) h =
        (out, h, ap join_lines (Rewrites-false h refl) ∙ join_lines-split_dockerfile_lines raw)
