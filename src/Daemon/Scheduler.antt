-- ===== src/Daemon/Scheduler.antt =====
-- internal/builddaemon/mode_scheduler.go: buildModeScheduler, one queue and its workers for each
-- mode.
pub mod Isolation
use buildkit_service.Prelude.{
  ℕ, Bool, true, false, Option, none, some, List, [], ◌∷◌, Map, Text, eq_text, lookup, insert,
  if◌then◌else◌, Result, ok, err, pos_part,
}
use buildkit_service.Daemon.Modes.{BuildModes, ModeConfig, names}
use buildkit_service.Daemon.Queue.{
  TaskQueue, Popped, waits, ends, gets, new_build_task_queue, push, pop, close,
}

-- `workers` counts the goroutines that newBuildModeScheduler starts on each queue.
pub record ModeScheduler : Type 0 where
  pub queues : Map Text TaskQueue
  pub workers : Map Text ℕ
  pub once : Bool

pub data SchedulerError : Type 0 where
  not_configured scheduler_closed : SchedulerError
  unknown_mode : Text → SchedulerError

-- modes.configs[name] of a missing name is the zero configuration.
abbrev workers_of : Option ModeConfig → ℕ
workers_of none = 0
workers_of (some cfg) = pos_part cfg.concurrency

start_queues : BuildModes → List Text → ModeScheduler → ModeScheduler
start_queues m [] s = s
start_queues m (name ∷ rest) s = start_queues m rest (record s {
  queues = insert name new_build_task_queue s.queues;
  workers = insert name (workers_of (lookup name m.configs)) s.workers;
})

start_modes : BuildModes → Option ModeScheduler
start_modes m =
    if m.explicit
    then some (start_queues m (names (some m)) (record { queues = []; workers = []; once = false }))
    else none

-- A nil scheduler where no modes are given; the runner is never nil here.
unfoldable pub new_build_mode_scheduler : Option BuildModes → Option ModeScheduler
unfolding start_modes start_queues names lookup insert new_build_task_queue
new_build_mode_scheduler none = none
new_build_mode_scheduler (some m) = start_modes m

push_to : Text → ModeScheduler → Option TaskQueue → Result SchedulerError ModeScheduler
push_to mode s none = err scheduler_closed
push_to mode s (some q) = ok (record s { queues = insert mode q s.queues })

enqueue_in : Text → Text → ModeScheduler → Option TaskQueue → Result SchedulerError ModeScheduler
enqueue_in mode id s none = err (unknown_mode mode)
enqueue_in mode id s (some q) = push_to mode s (push id q)

unfoldable pub enqueue : Text → Text → Option ModeScheduler → Result SchedulerError ModeScheduler
unfolding enqueue_in push_to
enqueue mode id none = err not_configured
enqueue mode id (some s) = enqueue_in mode id s (lookup mode s.queues)

close_queues : Map Text TaskQueue → Map Text TaskQueue
close_queues [] = []
close_queues ((name, q) ∷ m) = (name, close q) ∷ close_queues m

unfoldable pub close_all : ModeScheduler → ModeScheduler
unfolding close_queues
close_all s = if s.once then s else record s { queues = close_queues s.queues; once = true }

take_from : Text → ModeScheduler → Popped → ModeScheduler × Option Text
take_from mode s waits = (s, none)
take_from mode s ends = (s, none)
take_from mode s (gets id q) = (record s { queues = insert mode q s.queues }, some id)

work_on : Text → ModeScheduler → Option TaskQueue → ModeScheduler × Option Text
work_on mode s none = (s, none)
work_on mode s (some q) = take_from mode s (pop q)

-- A turn of runWorker on the queue of a mode: the id that it runs, if any.
unfoldable pub run_worker : Text → ModeScheduler → ModeScheduler × Option Text
unfolding work_on take_from
run_worker mode s = work_on mode s (lookup mode s.queues)
