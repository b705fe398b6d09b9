-- ===== src/Tests/Commands.antt =====
-- A batch command: internal/buildbatch/build_command_batch.go and scheduler.go.
use buildkit_service.Prelude.{
  ◌+◌, ◌≤◌, ◌≡◌, refl, Bool, true, false, none, List, [], ◌∷◌, Text, text, All, length, inl, arith,
}
use buildkit_service.Batch.Counters.{ResultEntry, BuildOutcomeCounters, apply, upsert_result}
use buildkit_service.Batch.Specs.{BuildSpec, BuildJob}
use buildkit_service.Batch.Command.{
  Options, start_command, first_tasks, remove_at, Event, admitted, slot_acquired, spec_built,
  round_ended, step, run_events, IsOver, command_error,
}
use buildkit_service.Batch.Command.Sums.{sum_of}
use buildkit_service.Batch.Command.Conservation.{
  held, job_weight, result_weight, run_events-conserved, retry_queue-fits,
}
use buildkit_service.Batch.Command.Ending.{Succeeded, command_error-none}
use buildkit_service.Batch.Command.Progress.{own_events, work, run_events-bounded}
use buildkit_service.Batch.Command.Completion.{Completes, run_events-Completes}
use buildkit_service.Batch.Command.Cancelled.{cancelled_run, command_error-cancelled}

abbrev spec : BuildSpec
spec = record { dir = []; target = text "r/a"; schedule_key = text "k"; oci = true }

abbrev job : BuildJob
job = record { key = text "r/a"; schedule_key = text "k"; specs = spec ∷ [] }

abbrev counters : BuildOutcomeCounters
counters = record { total = 1; succeeded = 0; failed = 0; states = [] }

abbrev entry : Bool → ResultEntry
entry success = record {
  started_at = [];
  finished_at = [];
  elapsed = [];
  target = text "r/a";
  node_ip = text "10.0.0.1";
  success = success;
  logs = [];
  reason = [];
}

abbrev once : Options
once = record { failfast = false; retry = 1 }

-- A build that fails, is tried again and succeeds.
abbrev second_try : List Event
second_try =
    admitted
    ∷ slot_acquired
    ∷ spec_built 0 (entry false) none
    ∷ round_ended
    ∷ admitted
    ∷ slot_acquired
    ∷ spec_built 0 (entry true) none
    ∷ []

abbrev any_key : Text → Bool
any_key key = true

run_events-conserved_example :
    held any_key (run_events once second_try (start_command (job ∷ []) counters))
    ≡ sum_of (job_weight any_key) (job ∷ [])
run_events-conserved_example = run_events-conserved any_key once second_try (job ∷ []) counters

retry_queue-fits_example :
    length (run_events once second_try (start_command (job ∷ []) counters)).retry_queue
      + length (run_events once second_try (start_command (job ∷ []) counters)).running
    ≤ 1
retry_queue-fits_example = retry_queue-fits once second_try (job ∷ []) counters

command_error-none_example :
    (sum_of
        (result_weight any_key)
        (run_events once second_try (start_command (job ∷ []) counters)).results
      ≡ sum_of (job_weight any_key) (job ∷ []))
    × All Succeeded (run_events once second_try (start_command (job ∷ []) counters)).results
unfolding run_events step start_command first_tasks remove_at command_error apply upsert_result
command_error-none_example =
    command_error-none any_key once second_try (job ∷ []) counters
      (record { no_pending = refl; no_waiting = refl; no_running = refl; no_retry = refl }) refl
      refl

run_events-bounded_example :
    own_events second_try
      + work once (run_events once second_try (start_command (job ∷ []) counters))
    ≤ work once (start_command (job ∷ []) counters)
unfolding run_events step start_command first_tasks remove_at
run_events-bounded_example =
    run_events-bounded once second_try (start_command (job ∷ []) counters)
      (inl refl, (inl refl, (inl refl, (inl refl, (inl refl, (inl refl, (inl refl, tt)))))))

run_events-Completes_example :
    Completes once
      (λ t. (entry false, none))
      (start_command (job ∷ []) counters)
      (work once (start_command (job ∷ []) counters))
run_events-Completes_example =
    run_events-Completes once (λ t. (entry false, none)) (start_command (job ∷ []) counters)

command_error-cancelled_example :
    IsOver (run_events once (cancelled_run (entry false) none) (start_command (job ∷ []) counters))
    × (command_error
          (run_events once (cancelled_run (entry false) none) (start_command (job ∷ []) counters))
        ≡ none)
    × ((run_events once
          (cancelled_run (entry false) none)
          (start_command (job ∷ []) counters)).results
        ≡ [])
command_error-cancelled_example =
    command_error-cancelled once job spec [] (entry false) none counters (omega arith) refl refl
