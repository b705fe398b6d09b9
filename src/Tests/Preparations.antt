-- ===== src/Tests/Preparations.antt =====
-- The preparation of image directories: internal/buildbatch/build_command_streaming.go.
use buildkit_service.Prelude.{
  ◌+◌, ◌≤◌, ◌≡◌, refl, Bool, true, false, none, List, [], ◌∷◌, Text, text, text_eq, All, ok, length,
}
use buildkit_service.Batch.Specs.{Reader, group_build_specs, spec_key, normalize_target_for_mode}
use buildkit_service.Batch.Preparation.{ImageDir, spec_for, specs_for, stream_prepared_build_jobs}
use buildkit_service.Batch.Preparation.Accounts.{HasOneKey}
use buildkit_service.Batch.Preparation.Total.{stream_prepared_build_jobs-total}
use buildkit_service.Batch.Preparation.Doubled.{group_build_specs-two}

abbrev dir_of : Text → ImageDir
dir_of target = record {
  context_ended = false;
  is_dir = true;
  failure = none;
  dst_dir = text "/tmp/a";
  schedule_key = text "source:0";
  target = target;
  ends_after = none;
}

abbrev both : List Bool
both = false ∷ true ∷ []

abbrev nothing_stored : Reader
nothing_stored target = ok none

abbrev dirs : List ImageDir
dirs = dir_of (text "r/a") ∷ dir_of (text "r/b_nydus_v3") ∷ []

one_key : All (HasOneKey both) dirs
unfolding normalize_target_for_mode
one_key = ((text "r/a", (refl, (refl, tt))), ((text "r/b", (refl, (refl, tt))), tt))

stream_prepared_build_jobs-total_example :
    (length (stream_prepared_build_jobs [] both nothing_stored false dirs).sent ≤ 2)
    × ((stream_prepared_build_jobs [] both nothing_stored false dirs).error ≡ none
        → (stream_prepared_build_jobs [] both nothing_stored false dirs).counters.total
          ≡ length (stream_prepared_build_jobs [] both nothing_stored false dirs).sent
            + (stream_prepared_build_jobs [] both nothing_stored false dirs).skipped)
stream_prepared_build_jobs-total_example =
    stream_prepared_build_jobs-total [] both nothing_stored false dirs one_key

abbrev doubled : ImageDir
doubled = dir_of (text "r/a_nydus_v3_nydus_v3")

two_keys : text_eq (spec_key (spec_for doubled false)) (spec_key (spec_for doubled true)) ≡ false
unfolding normalize_target_for_mode text_eq
two_keys = refl

group_build_specs-two_example : length (group_build_specs (specs_for [] doubled both)) ≡ 2
group_build_specs-two_example = group_build_specs-two doubled two_keys
