-- ===== src/Batch/Preparation/Doubled.antt =====
-- internal/buildbatch/build_command_streaming.go: a directory with two jobs.
use buildkit_service.Prelude.{
  ◌≡◌, refl, true, false, [], ◌∷◌, text_eq, text_ltb, eq_text, lookup, insert, sort_by, insert_by,
  length, inl, inr, Bool-cases,
}
use buildkit_service.Batch.Specs.{spec_key, group_into, jobs_for, group_build_specs}
use buildkit_service.Batch.Preparation.{ImageDir, spec_for, specs_for}

-- Where the two forms of a target have different keys, one directory is two jobs in both formats.
pub group_build_specs-two :
    (d : ImageDir)
    → text_eq (spec_key (spec_for d false)) (spec_key (spec_for d true)) ≡ false
    → length (group_build_specs (specs_for [] d (false ∷ true ∷ []))) ≡ 2
unfolding group_build_specs specs_for group_into lookup insert jobs_for sort_by insert_by
group_build_specs-two d e =
    rw e (elim (Bool-cases (text_ltb (spec_key (spec_for d true)) (spec_key (spec_for d false)))) [
      | inl f ↦ rw f refl
      | inr f ↦ rw f refl
    ])
