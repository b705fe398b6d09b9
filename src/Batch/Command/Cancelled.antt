-- ===== src/Batch/Command/Cancelled.antt =====
-- internal/buildbatch/build_command_batch.go: what a command that is cancelled returns.
use buildkit_service.Prelude.{
  ℕ, ◌<◌, ◌≡◌, refl, true, false, Option, none, List, [], ◌∷◌, ltb, arith,
}
use buildkit_service.Batch.Counters.{BuildOutcomeCounters, ResultEntry}
use buildkit_service.Batch.Specs.{BuildSpec, BuildJob}
use buildkit_service.Batch.Command.{
  Options, start_command, remove_at, Event, admitted, slot_acquired, spec_built, round_ended,
  interrupted, step, run_events, IsOver, command_error,
}

-- One job is started, the context ends, its build fails, and the retry is not started any more.
abbrev pub cancelled_run : ResultEntry → Option (List ℕ) → List Event
cancelled_run e put =
    admitted ∷ slot_acquired ∷ interrupted ∷ spec_built 0 e put ∷ round_ended ∷ admitted ∷ []

-- Where a retry is left and a job has a spec, a command that is cancelled while it builds the job,
-- whose build then fails, ends with no result for the job and returns no error.
pub command_error-cancelled :
    (o : Options) (job : BuildJob) (spec : BuildSpec) (specs : List BuildSpec) (e : ResultEntry)
    (put : Option (List ℕ)) (k : BuildOutcomeCounters)
    → 0 < o.retry
    → job.specs ≡ spec ∷ specs
    → e.success ≡ false
    → IsOver (run_events o (cancelled_run e put) (start_command (job ∷ []) k))
      × (command_error (run_events o (cancelled_run e put) (start_command (job ∷ []) k)) ≡ none)
      × ((run_events o (cancelled_run e put) (start_command (job ∷ []) k)).results ≡ [])
unfolding run_events step start_command remove_at command_error
command_error-cancelled o job spec specs e put k more has bad =
    rw (has, bad, left)
      (
        record { no_pending = refl; no_waiting = refl; no_running = refl; no_retry = refl },
        refl,
        refl,
      )
  where
    left : ltb 0 o.retry ≡ true
    left = ground arith
