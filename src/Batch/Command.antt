-- ===== src/Batch/Command.antt =====
-- internal/buildbatch/build_command_batch.go: runBuildCommandBatch from its first pass to its end.
-- The main goroutine schedules the jobs and the retries round by round; the builds run beside it.
-- Every step below is one action of one goroutine, so that a list of events is an interleaving.
pub mod Sums
pub mod Conservation
pub mod Ending
pub mod Progress
pub mod Completion
pub mod Cancelled
use buildkit_service.Prelude.{
  ℕ, zero, suc, ◌≡◌, Bool, true, false, not, ◌&&◌, ◌||◌, Option, none, some, List, [], ◌∷◌, ◌++◌,
  Text, text, text_eq, ltb, length, get_elem?, if◌then◌else◌, Result, ok, err,
}
use buildkit_service.Batch.Counters.{
  BuildOutcomeCounters, ResultEntry, apply, upsert_result, new_build_outcome_counters,
}
use buildkit_service.Batch.Specs.{BuildSpec, BuildJob}

-- The options that the scheduling reads.
pub record Options : Type 0 where
  pub failfast : Bool
  pub retry : ℕ

pub record BuildTask : Type 0 where
  pub job : BuildJob
  pub attempt : ℕ

-- What printBuildResult and printSummary read of a task.
pub record TaskResult : Type 0 where
  pub target : Text
  pub node_ip : Text
  pub success : Bool

-- `pending` are the tasks that the scheduling loop has before it, `waiting` the one whose
-- scheduleTask is at its wait for a slot, `running` the builds with the specs that they have left.
-- `stored` and `failure_logs` are what reached the store. `dropped` and `aborted` only record the
-- tasks that a break leaves, and those whose result could not be stored.
pub record Command : Type 0 where
  pub pending : List BuildTask
  pub waiting : Option BuildTask
  pub running : List BuildTask
  pub retry_queue : List BuildTask
  pub results : List TaskResult
  pub failed : Bool
  pub fatal_err : Option Text
  pub cancelled : Bool
  pub counters : BuildOutcomeCounters
  pub stored : List ResultEntry
  pub failure_logs : List (Text × Text)
  pub dropped : List BuildTask
  pub aborted : List BuildTask

unfoldable pub first_tasks : List BuildJob → List BuildTask
first_tasks [] = []
first_tasks (job ∷ jobs) = record { job = job; attempt = 0 } ∷ first_tasks jobs

unfoldable pub start_command : List BuildJob → BuildOutcomeCounters → Command
unfolding first_tasks
start_command jobs counters = record {
  pending = first_tasks jobs;
  waiting = none;
  running = [];
  retry_queue = [];
  results = [];
  failed = false;
  fatal_err = none;
  cancelled = false;
  counters = counters;
  stored = [];
  failure_logs = [];
  dropped = [];
  aborted = [];
}

-- The break of a scheduling loop at a task.
abbrev pub break_at : BuildTask → List BuildTask → Command → Command
break_at task rest c = record c { pending = []; waiting = none; dropped = c.dropped ++ task ∷ rest }

-- scheduleTask up to its wait for a slot.
abbrev pub admit_next : Options → List BuildTask → Option BuildTask → Command → Command
admit_next o [] w c = c
admit_next o (task ∷ rest) (some w) c = c
admit_next o (task ∷ rest) none c =
    if (c.failed && o.failfast) || c.cancelled
    then break_at task rest c
    else record c { pending = rest; waiting = some task }

-- Its wait ends with a slot of a worker and of the command, and the build is started.
abbrev pub start_build : Option BuildTask → Command → Command
start_build none c = c
start_build (some task) c = record c { waiting = none; running = c.running ++ task ∷ [] }

-- Or it ends with the context.
abbrev pub give_up : Option BuildTask → Command → Command
give_up none c = c
give_up (some task) c = if c.cancelled then break_at task c.pending c else c

abbrev pub record_fatal_err : Text → Command → Command
record_fatal_err e c = record c { fatal_err = elim c.fatal_err [ none ↦ some e | some f ↦ some f ] }

-- The end of a task, with its result.
abbrev pub finish_task : Options → BuildTask → Text → Bool → Command → Command
finish_task o task node_ip success c = record c {
  results =
      c.results ++ record { target = task.job.key; node_ip = node_ip; success = success } ∷ [];
  counters = apply task.job.key success c.counters;
  failed = if success then c.failed else true;
  cancelled = if not success && o.failfast then true else c.cancelled;
}

-- The task with the specs that are left, tried once more.
abbrev pub retry_task : BuildTask → List BuildSpec → BuildTask
retry_task task specs = record {
  job = record { key = task.job.key; schedule_key = task.job.schedule_key; specs = specs };
  attempt = suc task.attempt;
}

abbrev pub queue_retry : BuildTask → List BuildSpec → ResultEntry → Command → Command
queue_retry task specs entry c = record c {
  retry_queue = c.retry_queue ++ retry_task task specs ∷ [];
  failure_logs =
      if not (text_eq entry.logs [])
      then c.failure_logs ++ (entry.target, entry.logs) ∷ []
      else c.failure_logs;
}

abbrev pub add_log : Option (Text × Text) → Command → Command
add_log none c = c
add_log (some log) c = record c { failure_logs = c.failure_logs ++ log ∷ [] }

-- UpsertResult: the log goes first, then the entry, whose put may fail.
abbrev pub store_entry : ResultEntry → Option Text → Command → Command
store_entry entry none c =
    let logged = add_log (upsert_result entry).0 c in
    record logged { stored = logged.stored ++ (upsert_result entry).1 ∷ [] }
store_entry entry (some e) c = add_log (upsert_result entry).0 c

-- A result that cannot be stored ends the command.
abbrev pub abort_task : BuildTask → Text → Command → Command
abort_task task e c =
    let fatal = record_fatal_err e c in
    record fatal { failed = true; cancelled = true; aborted = fatal.aborted ++ task ∷ [] }

-- After a stored entry: the next spec, or the end of the task.
abbrev pub after_stored : Options → BuildTask → List BuildSpec → ResultEntry → Command → Command
after_stored o task [] entry c = finish_task o task entry.node_ip entry.success c
after_stored o task (spec ∷ rest) entry c =
    if entry.success
    then record c {
      running = c.running ++ record task { job = record task.job { specs = spec ∷ rest } } ∷ [];
    }
    else finish_task o task entry.node_ip false c

abbrev pub on_stored :
    Options → BuildTask → List BuildSpec → ResultEntry → Option Text → Command → Command
on_stored o task rest entry none c = after_stored o task rest entry c
on_stored o task rest entry (some e) c = abort_task task e c

-- The body of the loop over the specs, with what executeBuild and the database answer.
abbrev pub after_build :
    Options → BuildTask → List BuildSpec → ResultEntry → Option Text → Command → Command
after_build o task [] entry put c = finish_task o task [] true c
after_build o task (spec ∷ rest) entry put c =
    if not entry.success && ltb task.attempt o.retry
    then queue_retry task (spec ∷ rest) entry c
    else on_stored o task rest entry put (store_entry entry put c)

unfoldable pub remove_at : ℕ → List BuildTask → List BuildTask
remove_at i [] = []
remove_at zero (t ∷ ts) = ts
remove_at (suc i) (t ∷ ts) = t ∷ remove_at i ts

abbrev pub built : Options → Option BuildTask → ℕ → ResultEntry → Option Text → Command → Command
built o none i entry put c = c
built o (some task) i entry put c =
    after_build o task task.job.specs entry put (record c { running = remove_at i c.running })

-- wg.Wait has returned: all that is queued makes the next round.
abbrev pub next_round : List BuildTask → Option BuildTask → List BuildTask → Command → Command
next_round [] none [] c = record c { pending = c.retry_queue; retry_queue = [] }
next_round _ _ _ c = c

-- `spec_built` is the end of executeBuild in the build at a place of `running`; `interrupted` is
-- the end of the context from outside.
pub data Event : Type 0 where
  admitted : Event
  slot_acquired : Event
  wait_ended : Event
  spec_built : ℕ → ResultEntry → Option Text → Event
  round_ended : Event
  interrupted : Event

-- An event that cannot happen changes nothing.
unfoldable pub step : Options → Event → Command → Command
unfolding remove_at apply upsert_result
step o admitted c = admit_next o c.pending c.waiting c
step o slot_acquired c = start_build c.waiting c
step o wait_ended c = give_up c.waiting c
step o (spec_built i entry put) c = built o (get_elem? c.running i) i entry put c
step o round_ended c = next_round c.pending c.waiting c.running c
step o interrupted c = record c { cancelled = true }

unfoldable pub run_events : Options → List Event → Command → Command
unfolding step
run_events o [] c = c
run_events o (e ∷ es) c = run_events o es (step o e c)

-- Nothing is left to start, to wait for or to try again.
pub record IsOver (c : Command) : Type 0 where
  pub no_pending : c.pending ≡ []
  pub no_waiting : c.waiting ≡ none
  pub no_running : c.running ≡ []
  pub no_retry : c.retry_queue ≡ []

-- What runBuildCommandBatch returns; `none` is nil.
unfoldable pub command_error : Command → Option Text
command_error c = elim c.fatal_err [
  | some e ↦ some e
  | none ↦ if c.failed then some (text "one or more builds failed") else none
]
