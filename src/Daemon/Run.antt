-- ===== src/Daemon/Run.antt =====
-- internal/builddaemon/tasks.go: runBuildTask, which builds the steps of a task one after another
-- and retries a step, and createNydusFromOCIContext of build.go.
pub mod Preserves
pub mod Slots
pub mod Reaching
pub mod Ending
pub mod Termination
pub mod Verdicts
pub mod Statuses
use buildkit_service.Prelude.{
  ℕ, zero, suc, ◌+◌, ◌/◌, Bool, true, false, not, ◌&&◌, ◌||◌, Option, none, some, List, [], ◌∷◌,
  ◌++◌, Map, Text, text, text_eq, eq_text, lookup, nat_eq, contains, trim_space, if◌then◌else◌,
  Result, ok, err, ◌>>=◌,
}
use buildkit_service.Daemon.Task.{Task, Status, succeeded, failed, canceled, status_eq}
use buildkit_service.Daemon.Store.{get}
use buildkit_service.Daemon.Lifecycle.{Server, mark_task_queued, finish_task, close_done}
use buildkit_service.Daemon.Steps.{Op, run}
use buildkit_service.Daemon.Build.{
  BuildStep, build_steps_for_image_type, is_deterministic_build_error,
}
use buildkit_service.Daemon.Pool.{AddrPool}
use buildkit_service.Daemon.Attempt.{
  Moment, Event, Outcome, Run, done, starved, stuck, run_build_step_attempt,
}

-- The packages digest and reference, and the file system: `pin` parses the digest and the image,
-- pins the one to the other and prints the familiar form; `write` makes the directory and writes
-- the Dockerfile.
pub record ImageTools : Type 0 where
  pub pin : Text → Text → Result Text Text
  pub write : Text → Text → Option Text

abbrev or_empty : Option Text → Text
or_empty none = []
or_empty (some t) = t

abbrev pub exporter_image_digest_key : Text
exporter_image_digest_key = text "containerimage.digest"

-- filepath.Join with a directory that has no final slash.
abbrev nydus_context : Text → Text
nydus_context work_dir = work_dir ++ text "/nydus-from-oci"

abbrev written : Text → Text → Option Text → Result Text (Text × Text)
written dir base none = ok (dir, base)
written dir base (some e) = err e

-- The context directory and the base image.
unfoldable pub create_nydus_from_oci_context :
    ImageTools → Text → Text → Map Text Text → Result Text (Text × Text)
unfolding lookup text_eq trim_space
create_nydus_from_oci_context tools work_dir image exporter =
    let digest = trim_space (or_empty (lookup exporter_image_digest_key exporter)) in
    if text_eq digest []
    then err (text "OCI build did not return containerimage.digest")
    else (tools.pin (trim_space image) digest >>= λ base.
        written (nydus_context work_dir) base
          (tools.write (nydus_context work_dir) (text "FROM " ++ (base ++ text "\n"))))

-- What runBuildTask meets: the error of opening the log, the packages, the rounds of its attempts,
-- and for the attempt that starts at a moment the clock of its retry and whether the interval
-- passed before the context ended, and whether the deadline has passed when it returns; the error of
-- an ended context; the clock of finishTask; and the critical sections of the other goroutines during
-- the wait for a retry, before finishTask and before the deferred function.
pub record Env : Type 0 where
  pub log_error : Option Text
  pub tools : ImageTools
  pub at : ℕ → Moment
  pub retried_at : ℕ → ℕ
  pub passed : ℕ → Bool
  pub expired : ℕ → Bool
  pub ctx_error : Text
  pub finished : ℕ
  pub before_retry : ℕ → List Op
  pub before_finish : List Op
  pub before_close : List Op

-- What is carried from one statement to the next.
pub record World : Type 0 where
  pub server : Server
  pub pool : AddrPool
  pub next : ℕ
  pub events : List Event
  pub exporter : Map Text Text

pub data Verdict : Type 0 where
  passes cancels : Verdict
  fails : Text → Verdict

-- waitRetryInterval
unfoldable pub wait_retry_interval : ℕ → Bool → Bool
wait_retry_interval interval passed = if nat_eq interval 0 then true else passed

abbrev outcome_world : World → Outcome → World
outcome_world w o = record {
  server = o.server;
  pool = o.pool;
  next = o.next;
  events = w.events ++ o.events;
  exporter = o.exporter;
}

-- After an attempt: `more` makes the attempts that are left, if any, else the last error stands.
unfoldable pub judge :
    Bool
    → World
    → Outcome
    → (Text → World → Run (World × Verdict))
    → Option Text
    → Run (World × Verdict)
unfolding is_deterministic_build_error
judge ended w o more none = done (outcome_world w o, passes)
judge ended w o more (some e) =
    if ended
    then done (outcome_world w o, cancels)
    else if is_deterministic_build_error e
    then done (outcome_world w o, fails e)
    else more e (outcome_world w o)

-- snapshot.ctx.Err() != nil after an attempt.
unfoldable pub ctx_ended : Task → Env → Outcome → Bool
unfolding contains
ctx_ended t env o = contains o.server.ended t.ctx || env.expired o.next

abbrev on_outcome :
    Task
    → Env
    → World
    → (Text → World → Run (World × Verdict))
    → Run Outcome
    → Run (World × Verdict)
on_outcome t env w more starved = starved
on_outcome t env w more stuck = stuck
on_outcome t env w more (done o) = judge (ctx_ended t env o) w o more o.error

unfoldable pub attempt :
    Text
    → Task
    → BuildStep
    → Env
    → ℕ
    → World
    → (Text → World → Run (World × Verdict))
    → Run (World × Verdict)
unfolding judge ctx_ended run_build_step_attempt
attempt id t step env fuel w more =
    on_outcome t env w more (run_build_step_attempt id t step env.at fuel w.next w.server w.pool)

-- What comes before a retry: the task is queued again, and others go on while it waits.
unfoldable pub requeue : Text → Env → World → World
unfolding mark_task_queued run
requeue id env w = record w {
  server = run (env.before_retry w.next) (mark_task_queued id (env.retried_at w.next) w.server);
}

-- The retries that are left after the error `e`; `fuel` is that of each attempt.
unfoldable pub retries :
    Text → Task → BuildStep → Env → ℕ → ℕ → Text → World → Run (World × Verdict)
unfolding attempt wait_retry_interval requeue
retries id t step env fuel zero e w = done (w, fails e)
retries id t step env fuel (suc left) e w =
    let next = attempt id t step env fuel (requeue id env w) (retries id t step env fuel left) in
    if wait_retry_interval t.retry_interval (env.passed w.next)
    then next
    else done (requeue id env w, cancels)

-- The loop over the attempts of a step.
unfoldable pub attempts : Text → Task → BuildStep → Env → ℕ → World → Run (World × Verdict)
unfolding attempt retries
attempts id t step env fuel w = attempt id t step env fuel w (retries id t step env fuel t.retry)

unfoldable pub finish_world : Text → Env → Status → Option Text → World → World
unfolding finish_task run
finish_world id env st e w = record w {
  server = finish_task id st w.exporter e env.finished (run env.before_finish w.server);
}

-- After the attempts of a step: `rest` makes the steps that are left.
unfoldable pub on_verdict : Text → Env → (World → Run World) → Run (World × Verdict) → Run World
unfolding finish_world
on_verdict id env rest starved = starved
on_verdict id env rest stuck = stuck
on_verdict id env rest (done (w, passes)) = rest w
on_verdict id env rest (done (w, cancels)) =
    done (finish_world id env canceled (some env.ctx_error) w)
on_verdict id env rest (done (w, fails e)) = done (finish_world id env failed (some e) w)

-- A step with a base image gets the context that is made for it.
unfoldable pub prepare : Env → Task → BuildStep → Map Text Text → Result Text BuildStep
unfolding create_nydus_from_oci_context text_eq
prepare env t step exporter =
    if text_eq step.base_image []
    then ok step
    else (create_nydus_from_oci_context env.tools t.work_dir step.base_image exporter >>= λ r.
        ok (record step { context_dir = r.0 }))

abbrev on_prepared :
    Text → Env → World → (BuildStep → Run World) → Result Text BuildStep → Run World
on_prepared id env w k (ok step) = k step
on_prepared id env w k (err e) = done (finish_world id env failed (some e) w)

unfoldable pub run_steps : Text → Task → Env → ℕ → List BuildStep → World → Run World
unfolding prepare attempts on_verdict finish_world
run_steps id t env fuel [] w = done (finish_world id env succeeded none w)
run_steps id t env fuel (step ∷ steps) w =
    on_prepared id env w
      (λ ready. on_verdict id env (run_steps id t env fuel steps) (attempts id t ready env fuel w))
      (prepare env t step w.exporter)

abbrev build_image : Task → Text
build_image t = if text_eq t.routed_target [] then t.image else t.routed_target

abbrev on_log : Text → Task → Env → ℕ → World → Option Text → Run World
on_log id t env fuel w (some e) = done (finish_world id env failed (some e) w)
on_log id t env fuel w none =
    run_steps id t env fuel (build_steps_for_image_type (build_image t) t.image_type) w

abbrev on_snapshot : Text → Env → ℕ → World → Option Task → Run World
on_snapshot id env fuel w none = done w
on_snapshot id env fuel w (some t) =
    if status_eq t.status canceled then done w else on_log id t env fuel w env.log_error

-- The body of runBuildTask, then its deferred function.
unfoldable pub run_body : Text → Env → ℕ → World → Run World
unfolding run_steps build_steps_for_image_type get text_eq
run_body id env fuel w = on_snapshot id env fuel w (get id w.server.store)

abbrev close_after : Text → Env → Run World → Run World
close_after id env (done w) =
    done (record w { server = close_done id (run env.before_close w.server) })
close_after id env starved = starved
close_after id env stuck = stuck

unfoldable pub run_build_task : Text → Env → ℕ → Server → AddrPool → Run World
unfolding run_body close_done run
run_build_task id env fuel s p =
    close_after id env
      (run_body id env fuel (record { server = s; pool = p; next = 0; events = []; exporter = [] }))
