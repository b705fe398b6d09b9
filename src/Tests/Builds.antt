-- ===== src/Tests/Builds.antt =====
-- One build on two workers, the first of which refuses: internal/builddaemon/tasks.go.
use buildkit_service.Prelude.{
  ◌≡◌, ◌≢◌, refl, Bool, true, false, Option, none, some, [], ◌∷◌, Map, Text, text, eq_text, lookup,
  insert, text_eq, text_ltb, member, contains, All, err, arith, sort_by,
}
use buildkit_service.Daemon.Task.{Task, succeeded, is_terminal}
use buildkit_service.Daemon.Steps.{adds, run, step, new_server}
use buildkit_service.Daemon.Steps.Soundness.{AllSound, run-AllSound}
use buildkit_service.Daemon.Lifecycle.{Server, add_task}
use buildkit_service.Daemon.Hash.{ConsistentHash}
use buildkit_service.Daemon.Pool.{AddrPool, AddrSlot, BuildkitAddr, addresses, replace}
use buildkit_service.Daemon.Pool.Replace.{Kept, present, replace_lem}
use buildkit_service.Daemon.Build.{BuildStep}
use buildkit_service.Daemon.Attempt.{Moment, Outcome, Run, done, starved, run_build_step_attempt}
use buildkit_service.Daemon.Attempt.Slots.{IsBalanced}
use buildkit_service.Daemon.Attempt.Failover.{IsFresh, built_addrs, run_build_step_attempt-IsFresh}
use buildkit_service.Daemon.Attempt.Ending.{KnownSlot, run_build_step_attempt-ends}
use buildkit_service.Daemon.Run.{Env, World, run_build_task}
use buildkit_service.Daemon.Run.Slots.{run_build_task-IsBalanced}
use buildkit_service.Daemon.Run.Reaching.{FairEnv}
use buildkit_service.Daemon.Run.Ending.{run_build_task-Over}
use buildkit_service.Daemon.Run.Termination.{run_build_task-ends}
use buildkit_service.Tests.Tasks.{build_id, new_task}

abbrev addr_1 : BuildkitAddr
addr_1 = record { original = text "w1:1"; addr = text "tcp://w1:1"; node_ip = [] }

abbrev addr_2 : BuildkitAddr
addr_2 = record { original = text "w2:1"; addr = text "tcp://w2:1"; node_ip = [] }

abbrev slot_1 : AddrSlot
slot_1 = record { addr = addr_1; sem = 0; capacity = 1 }

abbrev slot_2 : AddrSlot
slot_2 = record { addr = addr_2; sem = 1; capacity = 1 }

abbrev small_ring : ConsistentHash
small_ring = record { ring = 10 ∷ 20 ∷ []; node_map = (10, 0) ∷ (20, 1) ∷ []; num_nodes = 2 }

abbrev two_workers : AddrPool
two_workers = record {
  concurrency = 1;
  slots = slot_1 ∷ slot_2 ∷ [];
  hash = some small_ring;
  next_sem = 2;
}

-- The first worker refuses the connection.
abbrev answer : Bool → Map Text Text × Option Text
answer true = ([], some (text "dial tcp w1:1: connect: connection refused"))
answer false = ((text "containerimage.digest", text "sha256:00") ∷ [], none)

abbrev moment : Moment
moment = record {
  requeued_at = 7;
  started = 8;
  global = true;
  held = λ _. 0;
  waited = none;
  waiting = [];
  building = [];
  built = λ req. answer (text_eq req.buildkit_addr (text "tcp://w1:1"));
  resolved = err (text "no such host");
  expired = false;
  ctx_error = text "context canceled";
}

abbrev oci_step : BuildStep
oci_step = record { image = text "r/app"; format = text "oci"; base_image = []; context_dir = [] }

abbrev one_task : Server
one_task = record {
  store = (build_id, new_task) ∷ [];
  ended = [];
  closed = [];
  succeeded = 0;
  failed = 0;
  canceled = 0;
}

abbrev outcome_of : Run Outcome → Outcome
outcome_of (done o) = o
outcome_of _ = record {
  exporter = [];
  error = none;
  server = one_task;
  pool = two_workers;
  next = 0;
  events = [];
}

failed_over : Outcome
failed_over =
    outcome_of
      (run_build_step_attempt build_id new_task oci_step (λ _. moment) 3 0 one_task two_workers)

failed_over_done :
    run_build_step_attempt build_id new_task oci_step (λ _. moment) 3 0 one_task two_workers
    ≡ done failed_over
unfolding failed_over run_build_step_attempt insert
failed_over_done = refl

failed_over_addrs : built_addrs failed_over.events ≡ text "tcp://w1:1" ∷ text "tcp://w2:1" ∷ []
unfolding failed_over run_build_step_attempt built_addrs insert
failed_over_addrs = refl

run_build_step_attempt-IsFresh_example : IsFresh [] (built_addrs failed_over.events)
run_build_step_attempt-IsFresh_example =
    run_build_step_attempt-IsFresh build_id new_task oci_step (λ _. moment) 3 0 one_task two_workers
      failed_over failed_over_done

both_known : All (KnownSlot (text "tcp://w1:1" ∷ text "tcp://w2:1" ∷ [])) two_workers.slots
unfolding member text_eq
both_known = (refl, (refl, tt))

run_build_step_attempt-ends_example :
    run_build_step_attempt build_id new_task oci_step (λ _. moment) 3 0 one_task two_workers
    ≢ starved
run_build_step_attempt-ends_example =
    run_build_step_attempt-ends (text "tcp://w1:1" ∷ text "tcp://w2:1" ∷ []) build_id new_task
      oci_step (λ _. moment) 3 0 one_task two_workers (λ _. tt) both_known (omega arith)

abbrev env : Env
env = record {
  log_error = none;
  tools = record { pin = λ _ _. err (text "no reference"); write = λ _ _. none };
  at = λ _. moment;
  retried_at = λ _. 9;
  passed = λ _. true;
  expired = λ _. false;
  ctx_error = text "context canceled";
  finished = 20;
  before_retry = λ _. [];
  before_finish = [];
  before_close = [];
}

env-FairEnv : FairEnv build_id env
env-FairEnv = record {
  fair_rounds = λ _. (tt, tt);
  fair_retries = λ _. tt;
  fair_finish = tt;
  fair_close = tt;
}

abbrev world_of : Run World → World
world_of (done w) = w
world_of _ = record { server = one_task; pool = two_workers; next = 0; events = []; exporter = [] }

built_world : World
unfolding run_build_task
built_world = world_of (run_build_task build_id env 3 one_task two_workers)

built_world_done : run_build_task build_id env 3 one_task two_workers ≡ done built_world
unfolding built_world run_build_task insert lookup
built_world_done = refl

abbrev built_task : Task
built_task = record new_task {
  status = succeeded;
  started_at = some 8;
  finished_at = some 20;
  buildkit_addr = text "tcp://w2:1";
  exporter_response = (text "containerimage.digest", text "sha256:00") ∷ [];
  observed = true;
  done = none;
  queued_at = some 7;
}

built_task_found : lookup build_id built_world.server.store ≡ some built_task
unfolding built_world run_build_task insert lookup
built_task_found = refl

one_task-AllSound : AllSound one_task
unfolding run step new_server add_task insert
one_task-AllSound = run-AllSound (adds new_task ∷ []) (
  record { waits = refl; unobserved = refl; unstarted = refl; unfinished = refl; unplaced = refl },
  tt,
)

run_build_task-IsBalanced_example : IsBalanced built_world.events
run_build_task-IsBalanced_example =
    run_build_task-IsBalanced build_id env 3 one_task two_workers built_world built_world_done

run_build_task-Over_example :
    (is_terminal built_task.status ≡ true)
    × (built_task.done ≡ none)
    × (contains built_world.server.closed 1 ≡ true)
unfolding run step new_server add_task insert lookup text_eq
run_build_task-Over_example =
    run_build_task-Over build_id env 3 one_task two_workers built_world new_task built_task 1
      env-FairEnv one_task-AllSound refl refl built_world_done built_task_found

run_build_task-ends_example : run_build_task build_id env 3 one_task two_workers ≢ starved
run_build_task-ends_example =
    run_build_task-ends (text "tcp://w1:1" ∷ text "tcp://w2:1" ∷ []) build_id env 3 one_task
      two_workers (λ _. tt) both_known (omega arith)

abbrev addr_3 : BuildkitAddr
addr_3 = record { original = text "w0:1"; addr = text "tcp://w0:1"; node_ip = [] }

replace_lem_example :
    (addresses (replace (some addr_2 ∷ some addr_3 ∷ []) two_workers)
      ≡ sort_by text_ltb (present (some addr_2 ∷ some addr_3 ∷ [])))
    × All (Kept two_workers) (replace (some addr_2 ∷ some addr_3 ∷ []) two_workers).slots
replace_lem_example = replace_lem (some addr_2 ∷ some addr_3 ∷ []) two_workers
