-- ===== src/Tests/Tasks.antt =====
-- One build from its request to its removal: internal/builddaemon/tasks.go and server.go.
use buildkit_service.Prelude.{
  ◌≡◌, refl, ◌⊎◌, true, false, none, some, List, [], ◌∷◌, Text, text, eq_text, lookup, insert,
  text_eq, All, arith,
}
use buildkit_service.Daemon.Task.{Task, queued, running, succeeded}
use buildkit_service.Daemon.Lifecycle.{
  Server, handle_cancel_build, finish_task, assign_worker, close_done, mark_task_queued, add_task,
}
use buildkit_service.Daemon.Steps.{
  Op, adds, cancels, requeues, assigns, finishes, closes, run, step, Fair, new_server,
}
use buildkit_service.Daemon.Steps.Soundness.{AllSound, run-AllSound}
use buildkit_service.Daemon.Steps.Finality.{Later, run-Later}
use buildkit_service.Daemon.Steps.Counters.{Bounded, run-Bounded}
use buildkit_service.Daemon.Steps.Cancel.{IsCancellation, handle_cancel_build_lem}

abbrev pub build_id : Text
build_id = text "b1"

abbrev pub new_task : Task
new_task = record {
  trace_id = [];
  queued_at = some 5;
  observed = false;
  id = build_id;
  status = queued;
  image = text "r/app";
  mode = text "default_mode";
  routed_target = text "r/app";
  image_type = text "oci";
  target = [];
  buildkit_addr = [];
  node_ip = [];
  created_at = 5;
  started_at = none;
  finished_at = none;
  error = [];
  log_path = text "w/b1/build.log";
  work_dir = text "w/b1";
  exporter_response = [];
  context_dir = text "w/b1/context";
  schedule_key = text "source:00";
  routing_digest = text "00";
  no_cache = false;
  retry = 1;
  retry_interval = 3_000_000_000;
  build_args = [];
  ctx = 1;
  done = some 1;
}

abbrev life : List Op
life =
    adds new_task
    ∷ requeues build_id 6
    ∷ assigns build_id (text "tcp://w1") (text "10.0.0.1") 7
    ∷ finishes build_id succeeded refl [] none 9
    ∷ closes build_id
    ∷ []

life_ends : (run life new_server).succeeded ≡ 1
unfolding run step new_server finish_task assign_worker close_done mark_task_queued add_task lookup
    insert text_eq
life_ends = refl

life-Fair : All Fair life
life-Fair = (ground arith, (tt, (tt, (tt, (tt, tt)))))

run-AllSound_example : AllSound (run life new_server)
run-AllSound_example = run-AllSound life life-Fair

run-Bounded_example : Bounded succeeded (run life new_server)
run-Bounded_example = run-Bounded life succeeded life-Fair refl

-- A table that holds one build.
abbrev holding : Task → Server
holding t = record {
  store = (build_id, t) ∷ [];
  ended = [];
  closed = [];
  succeeded = 0;
  failed = 0;
  canceled = 0;
}

abbrev running_task : Task
running_task = record new_task {
  status = running;
  started_at = some 7;
  buildkit_addr = text "tcp://w1";
}

abbrev done_task : Task
done_task = record running_task { status = succeeded; finished_at = some 9; observed = true }

run-Later_example :
    (lookup build_id
        (run (cancels build_id 8 ∷ requeues build_id 9 ∷ []) (holding running_task)).store
      ≡ none)
    ⊎ ((t : Task) × (lookup build_id
            (run (cancels build_id 8 ∷ requeues build_id 9 ∷ []) (holding running_task)).store
          ≡ some t)
        × Later running_task t)
unfolding lookup text_eq
run-Later_example =
    run-Later (cancels build_id 8 ∷ requeues build_id 9 ∷ []) build_id (holding running_task)
      running_task (tt, (tt, tt)) refl (ground arith)

handle_cancel_build_lem_example :
    IsCancellation 8
      (holding running_task)
      running_task
      (handle_cancel_build build_id 8 (run (requeues build_id 9 ∷ [])) 9 (holding running_task))
unfolding lookup text_eq
handle_cancel_build_lem_example =
    handle_cancel_build_lem 8 9 (requeues build_id 9 ∷ []) (holding running_task) running_task
      (tt, tt) (ground arith) refl
