-- ===== src/Daemon/Steps.antt =====
-- The daemon's task table under any interleaving of requests, workers and the reaper: each
-- critical section of internal/builddaemon/tasks.go is one step.
pub mod Frame
pub mod Evolution
pub mod Growth
pub mod Soundness
pub mod Finality
pub mod Counters
pub mod Cancel
pub mod Channels
use buildkit_service.Prelude.{
  ℕ, ◌≡◌, ◌≢◌, Bool, true, false, Option, none, some, List, [], ◌∷◌, Map, Text, All,
}
use buildkit_service.Daemon.Task.{Task, Status, queued, is_terminal}
use buildkit_service.Daemon.Lifecycle.{
  Server, add_task, cancel, mark_task_queued, assign_worker, finish_task, close_done,
  cleanup_expired_tasks, cleanup_task,
}

-- Times are read from the clock at each step. finishTask is called with a terminal status only.
pub data Op : Type 0 where
  adds : Task → Op
  cancels : Text → ℕ → Op
  requeues : Text → ℕ → Op
  assigns : Text → Text → Text → ℕ → Op
  finishes : Text → (st : Status) → is_terminal st ≡ true → Map Text Text → Option Text → ℕ → Op
  closes : Text → Op
  expires : ℕ → ℕ → Op
  deletes : Text → Op

unfoldable pub step : Op → Server → Server
step (adds t) s = add_task t s
step (cancels id now) s = (cancel id now s).0
step (requeues id now) s = mark_task_queued id now s
step (assigns id addr ip now) s = (assign_worker id addr ip now s).0
step (finishes id st _ exporter err now) s = finish_task id st exporter err now s
step (closes id) s = close_done id s
step (expires now keep_ttl) s = (cleanup_expired_tasks now keep_ttl s).0
step (deletes id) s = (cleanup_task id s).0

unfoldable pub run : List Op → Server → Server
run [] s = s
run (o ∷ os) s = run os (step o s)

-- A task as handleCreateBuild makes it.
pub record IsNew (t : Task) : Type 0 where
  pub waits : t.status ≡ queued
  pub unobserved : t.observed ≡ false
  pub unstarted : t.started_at ≡ none
  pub unfinished : t.finished_at ≡ none
  pub unplaced : t.buildkit_addr ≡ []

-- The only tasks that are added are new ones.
abbrev pub Fair : Op → Type 0
Fair (adds t) = IsNew t
Fair _ = Unit

-- No step adds a task under this id.
abbrev pub Spares : Text → Op → Type 0
Spares id (adds t) = t.id ≢ id
Spares id _ = Unit

unfoldable pub new_server : Server
new_server = record { store = []; ended = []; closed = []; succeeded = 0; failed = 0; canceled = 0 }
