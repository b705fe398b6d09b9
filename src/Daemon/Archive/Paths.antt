-- ===== src/Daemon/Archive/Paths.antt =====
-- internal/builddaemon/workspace.go: where a path of an archive leads.
use buildkit_service.Prelude.{
  ℕ, zero, suc, ◌≡◌, refl, ap, ◌∙◌, Bool, true, false, not, ◌&&◌, ◌||◌, List, [], ◌∷◌, ◌++◌, Text,
  text, text_eq, split, starts_with, ltb, inl, inr, Bool-cases, arith,
}
use buildkit_service.Daemon.Archive.{
  clean_from, clean_up, clean, is_none, validate_build_archive_path, join_from, tail_parts, join,
}

abbrev is_skipped : Text → Bool
is_skipped part = text_eq part [] || text_eq part (text ".")

-- While no `..` is left over, joining to a directory and cleaning agree.
join-clean :
    (ups : ℕ) (parts dst rest : List Text)
    → (clean_from (ups, parts) rest).0 ≡ 0
    → (ups ≡ 0) × (join_from (parts ++ dst) rest ≡ (clean_from (ups, parts) rest).1 ++ dst)
unfolding clean_from join_from
join-clean ups parts dst [] h = (h, refl)
join-clean ups parts dst (part ∷ rest) h = elim (Bool-cases (is_skipped part)) [
  | inl skip ↦ rw skip (join-clean ups parts dst rest (rw skip at h))
  | inr keep ↦ elim (Bool-cases (text_eq part (text ".."))) [
    | inl up ↦
        rw (keep, up) (goes_up (λ u qs k. join-clean u qs dst rest k) parts (rw (keep, up) at h))
    | inr down ↦ rw (keep, down) (join-clean ups (part ∷ parts) dst rest (rw (keep, down) at h))
  ]
]
  where
    goes_up :
        ((u : ℕ) (qs : List Text)
          → (clean_from (u, qs) rest).0 ≡ 0
          → (u ≡ 0) × (join_from (qs ++ dst) rest ≡ (clean_from (u, qs) rest).1 ++ dst))
        → (ps : List Text) → (clean_from (clean_up ups ps) rest).0 ≡ 0
        → (ups ≡ 0)
          × (join_from (tail_parts (ps ++ dst)) rest ≡ (clean_from (clean_up ups ps) rest).1 ++ dst)
    goes_up next [] k = absurd (omega (arith, (next (suc ups) [] k).0))
    goes_up next (p ∷ ps) k = next ups ps k

-- Below a directory: its parts with others before them, as the last comes first.
abbrev pub IsBelow : List Text → List Text → Type 0
IsBelow dst path = (first : Text) × (inner : List Text) × (path ≡ first ∷ (inner ++ dst))

-- An accepted path joined to a directory is below it.
pub join-IsBelow :
    (dst : List Text) (name : Text)
    → validate_build_archive_path name ≡ true
    → IsBelow dst (join dst name)
unfolding validate_build_archive_path join clean
join-IsBelow dst name h =
    by_clean (clean_from (0, []) (split 47 name)) refl
      (tests (clean_from (0, []) (split 47 name)) h)
  where
    tests :
        (c : ℕ × List Text)
        → (not (text_eq name [] || starts_with (text "/") name) && not (is_none c || ltb 0 c.0))
          ≡ true
        → (is_none c ≡ false) × (ltb 0 c.0 ≡ false)
    tests c k = (ground (arith, k), ground (arith, k))

    by_clean :
        (c : ℕ × List Text)
        → clean_from (0, []) (split 47 name) ≡ c
        → (is_none c ≡ false) × (ltb 0 c.0 ≡ false)
        → IsBelow dst (join_from dst (split 47 name))
    by_clean (zero, []) e k = cc (k.0)
    by_clean (zero, part ∷ parts) e k = (
      part,
      parts,
      (join-clean 0 [] dst (split 47 name) (ap (λ r. r.0) e)).1 ∙ ap (λ r. r.1 ++ dst) e,
    )
    by_clean (suc n, parts) e k = absurd (ground (arith, k.1))
