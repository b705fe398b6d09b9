-- ===== src/Batch/Specs.antt =====
-- internal/buildbatch/build_specs.go: the jobs of a batch, and those that stored results leave.
pub mod Filter
pub mod Group
use buildkit_service.Prelude.{
  ℕ, ◌+◌, ◌<◌, Bool, true, false, not, ◌&&◌, ◌||◌, Option, none, some, List, [], ◌∷◌, ◌++◌, Map,
  Text, text, eq_text, text_eq, text_ltb, trim_space, lookup, insert, keys, sort_by, ltb, length,
  if◌then◌else◌, Result, ok, err, ◌>>=◌,
}
use buildkit_service.Daemon.Build.{
  has_nydus_v3_suffix, ensure_nydus_v3_suffix, strip_nydus_v3_suffix,
}
use buildkit_service.Batch.Counters.{
  ResultEntry, BuildOutcomeState, outcome_failed, outcome_succeeded,
}

pub record BuildSpec : Type 0 where
  pub dir : Text
  pub target : Text
  pub schedule_key : Text
  pub oci : Bool

pub record BuildJob : Type 0 where
  pub key : Text
  pub schedule_key : Text
  pub specs : List BuildSpec

-- The suffix functions of this package are those of internal/builddaemon/build.go.
unfoldable pub normalize_target_for_mode : Text → Bool → Text
unfolding strip_nydus_v3_suffix ensure_nydus_v3_suffix
normalize_target_for_mode target true = strip_nydus_v3_suffix target
normalize_target_for_mode target false = ensure_nydus_v3_suffix target

unfoldable pub resolve_build_modes : Bool → Bool → Result Text (List Bool)
resolve_build_modes oci both_formats =
    if oci && both_formats
    then err (text "--oci and --both-formats are mutually exclusive")
    else if both_formats
    then ok (false ∷ true ∷ [])
    else if oci
    then ok (true ∷ [])
    else ok (false ∷ [])

unfoldable pub target_matches_mode : Text → Bool → Bool
unfolding has_nydus_v3_suffix
target_matches_mode target true = not (has_nydus_v3_suffix target)
target_matches_mode target false = has_nydus_v3_suffix target

-- loadBuildSpecs without image directories.
unfoldable pub specs_for_target : Text → List Bool → List BuildSpec
unfolding normalize_target_for_mode strip_nydus_v3_suffix
specs_for_target target [] = []
specs_for_target target (oci ∷ modes) =
    let normalized = normalize_target_for_mode target oci in
    record {
      dir = [];
      target = normalized;
      schedule_key = strip_nydus_v3_suffix normalized;
      oci = oci;
    }
    ∷ specs_for_target target modes

abbrev pub spec_key : BuildSpec → Text
spec_key spec = strip_nydus_v3_suffix spec.target

abbrev pub or_no_specs : Option (List BuildSpec) → List BuildSpec
or_no_specs none = []
or_no_specs (some specs) = specs

-- The loop that fills the map `grouped`.
unfoldable pub group_into : List BuildSpec → Map Text (List BuildSpec) → Map Text (List BuildSpec)
unfolding lookup insert text_eq
group_into [] m = m
group_into (spec ∷ specs) m =
    group_into specs
      (insert (spec_key spec) (or_no_specs (lookup (spec_key spec) m) ++ spec ∷ []) m)

-- Nydus before OCI, then by target.
abbrev pub spec_before : BuildSpec → BuildSpec → Bool
spec_before a b =
    if not (if a.oci then b.oci else not b.oci) then not a.oci else text_ltb a.target b.target

abbrev pub schedule_key_of : Text → List BuildSpec → Text
schedule_key_of key [] = key
schedule_key_of key (spec ∷ specs) =
    if text_eq (trim_space spec.schedule_key) [] then key else spec.schedule_key

abbrev pub job_for : Map Text (List BuildSpec) → Text → BuildJob
job_for m key =
    let specs = sort_by spec_before (or_no_specs (lookup key m)) in
    record { key = key; schedule_key = schedule_key_of key specs; specs = specs }

unfoldable pub jobs_for : Map Text (List BuildSpec) → List Text → List BuildJob
unfolding sort_by lookup text_eq trim_space
jobs_for m [] = []
jobs_for m (key ∷ rest) = job_for m key ∷ jobs_for m rest

unfoldable pub group_build_specs : List BuildSpec → List BuildJob
unfolding group_into jobs_for sort_by
group_build_specs specs = let m = group_into specs [] in jobs_for m (sort_by text_ltb (keys m))

-- The answer of a stored result for a target.
abbrev pub Reader : Type 0
Reader = Text → Result Text (Option ResultEntry)

pub record Scan : Type 0 where
  pub pending : List BuildSpec
  pub all_succeeded : Bool
  pub any_failed : Bool

-- The body of the loop over the specs of a job, by what the store has.
abbrev pub scan_spec : Bool → BuildSpec → Scan → Option ResultEntry → Scan
scan_spec skip_fail spec s none = record s {
  pending = s.pending ++ spec ∷ [];
  all_succeeded = false;
}
scan_spec skip_fail spec s (some e) = if e.success then s else record {
  pending = if not skip_fail then s.pending ++ spec ∷ [] else s.pending;
  all_succeeded = false;
  any_failed = true;
}

unfoldable pub scan_specs : Reader → Bool → List BuildSpec → Scan → Result Text Scan
scan_specs get skip_fail [] s = ok s
scan_specs get skip_fail (spec ∷ specs) s =
    get spec.target >>= λ found. scan_specs get skip_fail specs (scan_spec skip_fail spec s found)

pub record Filtered : Type 0 where
  pub jobs : List BuildJob
  pub outcomes : Map Text BuildOutcomeState
  pub skipped_succeeded : ℕ
  pub skipped_failed : ℕ

abbrev pub keep_job : Bool → BuildJob → Filtered → Scan → Filtered
keep_job skip_fail job f s =
    if s.all_succeeded
    then record f {
      outcomes = insert job.key outcome_succeeded f.outcomes;
      skipped_succeeded = f.skipped_succeeded + 1;
    }
    else if s.any_failed && skip_fail
    then record f {
      outcomes = insert job.key outcome_failed f.outcomes;
      skipped_failed = f.skipped_failed + 1;
    }
    else record f { jobs = f.jobs ++ record job { specs = s.pending } ∷ [] }

abbrev pub first_scan : BuildJob → Scan
first_scan job = record {
  pending = [];
  all_succeeded = ltb 0 (length job.specs);
  any_failed = false;
}

unfoldable pub filter_loop : Reader → Bool → List BuildJob → Filtered → Result Text Filtered
unfolding scan_specs insert
filter_loop get skip_fail [] f = ok f
filter_loop get skip_fail (job ∷ jobs) f =
    scan_specs get skip_fail job.specs (first_scan job) >>= λ s.
    filter_loop get skip_fail jobs (keep_job skip_fail job f s)

unfoldable pub filter_build_jobs : List BuildJob → Reader → Bool → Result Text Filtered
unfolding filter_loop
filter_build_jobs jobs get skip_fail =
    filter_loop get skip_fail jobs
      (record { jobs = []; outcomes = []; skipped_succeeded = 0; skipped_failed = 0 })
