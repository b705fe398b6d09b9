-- ===== src/Tests/Results.antt =====
-- Counting and logging the results of a batch: internal/buildbatch/results.go and
-- failure_log_store.go.
use buildkit_service.Prelude.{
  ◌+◌, ◌≡◌, refl, true, false, some, List, [], ◌∷◌, ◌++◌, Map, Text, text, eq_text, text_eq, lookup,
  insert, length, take, length-append, length-take, contains, Unique, ok, arith,
}
use buildkit_service.Batch.Counters.{
  BuildOutcomeState, outcome_failed, outcome_succeeded, new_build_outcome_counters,
  BuildOutcomeCounters, apply, snapshot_counts, decrement_total,
}
use buildkit_service.Batch.Counters.Tally.{
  IsTally, Change, applies, shrinks, change_all, change, change_all-IsTally,
}
use buildkit_service.Batch.FailureLog.{
  Bytes, Encoder, truncated_failure_log_suffix, line_fits, candidate, append_failure,
}
use buildkit_service.Batch.FailureLog.Bisection.{IsMonotone}

abbrev stored : Map Text BuildOutcomeState
stored = (text "r/a", outcome_failed) ∷ (text "r/b", outcome_succeeded) ∷ []

abbrev changes : List Change
changes = applies (text "r/a") true ∷ applies (text "r/c") false ∷ shrinks ∷ []

counted : snapshot_counts (change_all changes (new_build_outcome_counters 4 stored)) ≡ (2, 3, 1)
unfolding snapshot_counts change_all change new_build_outcome_counters apply decrement_total insert
    lookup
counted = refl

stored-Unique : Unique stored
unfolding lookup text_eq
stored-Unique = (refl, (refl, tt))

change_all-IsTally_example : IsTally (change_all changes (new_build_outcome_counters 4 stored))
change_all-IsTally_example = change_all-IsTally changes 4 stored stored-Unique

abbrev two_counts : BuildOutcomeCounters
two_counts = record { total = 4; succeeded = 1; failed = 1; states = stored }

abbrev plain : Encoder
plain = record { encode = λ target logs. target ++ 58 ∷ logs; limit = 60 }

abbrev long_logs : Bytes
long_logs = text "error: no space left on device, and again no space left on device"

abbrev old_file : Bytes
old_file = text "r/a:failed\nr/b:failed\n"

abbrev new_file : Bytes
new_file = text "r/b:failed\nr/c:failed to push\n"

appended :
    append_failure (record plain { limit = 35 }) (text "r/c") (text "failed to push") old_file
    ≡ some (ok new_file)
unfolding append_failure
appended = refl

long-IsMonotone :
    IsMonotone
      (length long_logs + 1)
      (λ mid. line_fits plain (text "r/c") (candidate long_logs mid))
long-IsMonotone j k le lt h = ground (
  arith,
  length-take j long_logs,
  length-take k long_logs,
  length-append (take j long_logs) truncated_failure_log_suffix,
  length-append (take k long_logs) truncated_failure_log_suffix,
)

plain_line : contains (text "r/c:lost") 10 ≡ false
unfolding contains
plain_line = refl
