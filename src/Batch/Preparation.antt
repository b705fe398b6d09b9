-- ===== src/Batch/Preparation.antt =====
-- internal/buildbatch/build_command_streaming.go: streamPreparedBuildJobs, which prepares one image
-- directory after another and sends their jobs to the scheduler.
pub mod Accounts
pub mod Total
pub mod Doubled
use buildkit_service.Prelude.{
  ℕ, zero, suc, ◌+◌, Bool, true, false, not, ◌&&◌, ◌||◌, Option, none, some, List, [], ◌∷◌, ◌++◌,
  Map, Text, text, text_eq, trim_space, member, length, take, ltb, if◌then◌else◌, Result, ok, err,
}
use buildkit_service.Batch.Counters.{
  BuildOutcomeCounters, BuildOutcomeState, apply_existing, decrement_total,
  new_build_outcome_counters,
}
use buildkit_service.Batch.Specs.{
  BuildSpec, BuildJob, Reader, Filtered, normalize_target_for_mode, group_build_specs,
  filter_build_jobs,
}

-- An entry of the directory, with what its preparation meets: whether the context has ended before
-- it; the first error of its validation, copy, hash, rewriting and metadata; its copy with the hash
-- and the target; and after how many of its jobs the context ends, if it does.
pub record ImageDir : Type 0 where
  pub context_ended : Bool
  pub is_dir : Bool
  pub failure : Option Text
  pub dst_dir : Text
  pub schedule_key : Text
  pub target : Text
  pub ends_after : Option ℕ

-- What has been sent to the scheduler, the counters, and the error that ended the loop; `excluded`
-- and `skipped` only count the entries without a job.
pub record Prepared : Type 0 where
  pub sent : List BuildJob
  pub counters : BuildOutcomeCounters
  pub error : Option Text
  pub excluded : ℕ
  pub skipped : ℕ

abbrev pub fails : Text → Prepared → Prepared
fails e p = record p { error = some e }

-- The filter of --target: every mode's form of it, or nothing.
unfoldable pub target_filters : Text → List Bool → List Text
unfolding trim_space text_eq normalize_target_for_mode
target_filters target [] = []
target_filters target (oci ∷ modes) =
    let rest = target_filters target modes in
    if not (text_eq (trim_space target) []) then normalize_target_for_mode target oci ∷ rest else []

abbrev pub is_filtered_out : List Text → Text → Bool
is_filtered_out filters target = ltb 0 (length filters) && not (member target filters)

abbrev pub spec_for : ImageDir → Bool → BuildSpec
spec_for d oci = record {
  dir = d.dst_dir;
  target = normalize_target_for_mode d.target oci;
  schedule_key = d.schedule_key;
  oci = oci;
}

unfoldable pub specs_for : List Text → ImageDir → List Bool → List BuildSpec
unfolding normalize_target_for_mode member
specs_for filters d [] = []
specs_for filters d (oci ∷ modes) =
    let rest = specs_for filters d modes in
    if is_filtered_out filters (normalize_target_for_mode d.target oci)
    then rest
    else spec_for d oci ∷ rest

unfoldable pub apply_outcomes :
    Map Text BuildOutcomeState → BuildOutcomeCounters → BuildOutcomeCounters
unfolding apply_existing
apply_outcomes [] c = c
apply_outcomes ((target, state) ∷ outcomes) c =
    apply_outcomes outcomes (apply_existing target state c)

-- The sends, until the context ends.
abbrev pub send_jobs : Option ℕ → List BuildJob → Prepared → Prepared
send_jobs none jobs p = record p { sent = p.sent ++ jobs }
send_jobs (some n) jobs p =
    if ltb n (length jobs)
    then record p { sent = p.sent ++ take n jobs; error = some (text "context canceled") }
    else record p { sent = p.sent ++ jobs }

abbrev pub after_filter : ImageDir → Result Text Filtered → Prepared → Prepared
after_filter d (err e) p = fails e p
after_filter d (ok f) p = send_jobs d.ends_after f.jobs (record p {
  counters = apply_outcomes f.outcomes p.counters;
  skipped = p.skipped + (f.skipped_succeeded + f.skipped_failed);
})

abbrev pub of_specs : Reader → Bool → ImageDir → List BuildSpec → Prepared → Prepared
of_specs results skip_fail d [] p = record p {
  counters = decrement_total p.counters;
  excluded = p.excluded + 1;
}
of_specs results skip_fail d (spec ∷ specs) p =
    after_filter d (filter_build_jobs (group_build_specs (spec ∷ specs)) results skip_fail) p

abbrev pub of_files :
    List Text → List Bool → Reader → Bool → ImageDir → Option Text → Prepared → Prepared
of_files filters modes results skip_fail d (some e) p = fails e p
of_files filters modes results skip_fail d none p =
    if text_eq d.target []
    then fails (text "empty target in metadata.json") p
    else of_specs results skip_fail d (specs_for filters d modes) p

-- The body of the loop.
unfoldable pub prepare_one : List Text → List Bool → Reader → Bool → ImageDir → Prepared → Prepared
unfolding specs_for group_build_specs filter_build_jobs apply_outcomes decrement_total text_eq
prepare_one filters modes results skip_fail d p =
    if d.context_ended
    then fails (text "context canceled") p
    else if not d.is_dir
    then fails (text "image-dirs must contain only directories") p
    else of_files filters modes results skip_fail d d.failure p

abbrev pub unless_failed : Option Text → Prepared → Prepared → Prepared
unless_failed (some e) p next = p
unless_failed none p next = next

unfoldable pub prepare_all :
    List Text → List Bool → Reader → Bool → List ImageDir → Prepared → Prepared
unfolding prepare_one
prepare_all filters modes results skip_fail [] p = p
prepare_all filters modes results skip_fail (d ∷ dirs) p = unless_failed p.error p (
    prepare_all filters modes results skip_fail dirs
      (prepare_one filters modes results skip_fail d p))

-- With the filters and the counters that runBuildCommandStreamingImageDirs makes.
unfoldable pub stream_prepared_build_jobs :
    Text → List Bool → Reader → Bool → List ImageDir → Prepared
unfolding prepare_all target_filters new_build_outcome_counters
stream_prepared_build_jobs target modes results skip_fail dirs =
    prepare_all (target_filters target modes) modes results skip_fail dirs (record {
      sent = [];
      counters = new_build_outcome_counters (length dirs) [];
      error = none;
      excluded = 0;
      skipped = 0;
    })
