-- ===== src/Tests/Specs.antt =====
-- Grouping and filtering the jobs of a batch: internal/buildbatch/build_specs.go.
use buildkit_service.Prelude.{
  ◌≡◌, refl, Bool, true, false, Option, none, some, List, [], ◌∷◌, Text, text, text_eq, text_ltb,
  member, All, IsSorted, count_if, if◌then◌else◌, ok, err, insert,
}
use buildkit_service.Daemon.Build.{strip_nydus_v3_suffix}
use buildkit_service.Batch.Counters.{ResultEntry}
use buildkit_service.Batch.Specs.{
  BuildSpec, BuildJob, Filtered, Reader, group_build_specs, filter_build_jobs, spec_key,
  resolve_build_modes, specs_for_target,
}
use buildkit_service.Batch.Specs.Filter.{open_jobs, is_done, is_given_up, filter_build_jobs_lem}
use buildkit_service.Batch.Specs.Group.{HasItsSpecs, job_keys, group_build_specs_lem}

abbrev spec_of : Text → Bool → BuildSpec
spec_of target oci = record { dir = text "images/x"; target = target; schedule_key = []; oci = oci }

abbrev specs : List BuildSpec
specs =
    spec_of (text "r/b") true ∷ spec_of (text "r/a") true ∷ spec_of (text "r/b_nydus_v3") false ∷ []

grouped :
    group_build_specs specs
    ≡ record { key = text "r/a"; schedule_key = text "r/a"; specs = spec_of (text "r/a") true ∷ [] }
      ∷ record {
        key = text "r/b";
        schedule_key = text "r/b";
        specs = spec_of (text "r/b_nydus_v3") false ∷ spec_of (text "r/b") true ∷ [];
      }
      ∷ []
unfolding group_build_specs insert strip_nydus_v3_suffix text_ltb
grouped = refl

both_modes :
    specs_for_target (text " r/a ") (false ∷ true ∷ [])
    ≡ record { dir = []; target = text "r/a_nydus_v3"; schedule_key = text "r/a"; oci = false }
      ∷ record { dir = []; target = text "r/a"; schedule_key = text "r/a"; oci = true }
      ∷ []
unfolding specs_for_target
both_modes = refl

one_mode :
    resolve_build_modes true true ≡ err (text "--oci and --both-formats are mutually exclusive")
unfolding resolve_build_modes
one_mode = refl

group_build_specs_lem_example :
    All (HasItsSpecs specs) (group_build_specs specs)
    × All (λ spec. member (spec_key spec) (job_keys (group_build_specs specs)) ≡ true) specs
    × IsSorted text_ltb (job_keys (group_build_specs specs))
group_build_specs_lem_example = group_build_specs_lem specs

abbrev entry : Bool → ResultEntry
entry success = record {
  started_at = [];
  finished_at = [];
  elapsed = [];
  target = [];
  node_ip = [];
  success = success;
  logs = [];
  reason = [];
}

-- One target succeeded, one failed, the others are unknown.
found : Text → Option ResultEntry
unfolding text_eq
found target =
    if text_eq target (text "r/a")
    then some (entry true)
    else if text_eq target (text "r/b")
    then some (entry false)
    else none

abbrev reader : Reader
reader target = ok (found target)

abbrev jobs : List BuildJob
jobs =
    record { key = text "r/a"; schedule_key = []; specs = spec_of (text "r/a") true ∷ [] }
    ∷ record {
      key = text "r/b";
      schedule_key = [];
      specs = spec_of (text "r/b_nydus_v3") false ∷ spec_of (text "r/b") true ∷ [];
    }
    ∷ []

filter_build_jobs_lem_example :
    (r : Filtered) × (filter_build_jobs jobs reader true ≡ ok r)
    × (r.jobs ≡ open_jobs found true jobs)
    × (r.skipped_succeeded ≡ count_if (is_done found) jobs)
    × (r.skipped_failed ≡ count_if (is_given_up found true) jobs)
filter_build_jobs_lem_example = filter_build_jobs_lem jobs reader found true (λ t. refl)

counted : (count_if (is_done found) jobs ≡ 1) × (count_if (is_given_up found true) jobs ≡ 1)
unfolding found
counted = (refl, refl)
