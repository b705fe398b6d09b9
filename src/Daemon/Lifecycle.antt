-- ===== src/Daemon/Lifecycle.antt =====
-- internal/builddaemon/tasks.go, server.go and build_request.go: the operations by which requests,
-- workers and the reaper change a task. Each is one critical section of the store and what
-- follows it.
use buildkit_service.Prelude.{
  ℕ, ◌+◌, Bool, true, false, not, ◌&&◌, ◌||◌, Option, none, some, List, [], ◌∷◌, Map, Text, text,
  if◌then◌else◌,
}
use buildkit_service.Daemon.Task.{
  Task, Status, queued, running, succeeded, failed, canceled, status_eq, is_live, clone_string_map,
  clone_task,
}
use buildkit_service.Daemon.Store.{Store, add, update, delete, delete_expired}

-- The part of buildServer that a task's life touches: the store, the contexts that are done, the
-- closed channels, and the counters of finished tasks (int64 in the source; they count tasks).
pub record Server : Type 0 where
  pub store : Store
  pub ended : List ℕ
  pub closed : List ℕ
  pub succeeded : ℕ
  pub failed : ℕ
  pub canceled : ℕ

unfoldable pub add_task : Task → Server → Server
unfolding add
add_task t s = record s { store = add t s.store }

abbrev pub end_context : Option ℕ → List ℕ → List ℕ
end_context none cs = cs
end_context (some c) cs = c ∷ cs

unfoldable pub cancel_update : ℕ → Task → Task × Option ℕ
cancel_update now t =
    if is_live t.status
    then (record t { status = canceled; finished_at = some now }, some t.ctx)
    else (t, none)

-- taskStore.cancel: the context is cancelled after the lock is released.
unfoldable pub cancel : Text → ℕ → Server → Server × Option Task
unfolding cancel_update update
cancel id now s =
    let (store', snapshot, handle) = update id (cancel_update now) none s.store in
    (record s { store = store'; ended = end_context handle s.ended }, snapshot)

unfoldable pub mark_queued_update : ℕ → Task → Task × Bool
mark_queued_update now t =
    if is_live t.status
    then (
      record t {
        queued_at =
            if not (status_eq t.status queued)
            then some now
            else elim t.queued_at [ none ↦ some now | some since ↦ some since ];
        status = queued;
        buildkit_addr = [];
        node_ip = [];
      },
      true,
    )
    else (t, false)

unfoldable pub mark_task_queued : Text → ℕ → Server → Server
unfolding mark_queued_update update
mark_task_queued id now s = record s {
  store = (update id (mark_queued_update now) false s.store).0;
}

-- The closure of runBuildStepAttempt that assigns a worker; its result is `assigned`.
unfoldable pub assign_update : Text → Text → ℕ → Task → Task × Bool
assign_update addr ip started t =
    if status_eq t.status canceled || t.observed then (t, false) else (
      record t {
        started_at = elim t.started_at [ none ↦ some started | some first ↦ some first ];
        status = running;
        buildkit_addr = addr;
        node_ip = ip;
      },
      true,
    )

unfoldable pub assign_worker : Text → Text → Text → ℕ → Server → Server × Bool
unfolding assign_update update
assign_worker id addr ip started s =
    let (store', _, assigned) = update id (assign_update addr ip started) false s.store in
    (record s { store = store' }, assigned)

abbrev pub error_or : Option Text → Text → Text
error_or none old = old
error_or (some e) old = e

-- The closure of finishTask; its result is `terminal`, whose status is `applied`.
unfoldable pub finish_update : Status → Map Text Text → Option Text → ℕ → Task → Task × Option Task
unfolding clone_task clone_string_map
finish_update status exporter err finished t =
    if t.observed
    then (t, none)
    else if status_eq t.status canceled && not (status_eq status canceled)
    then (t, none)
    else let t' : Task = record t {
      status = status;
      finished_at = some finished;
      exporter_response = clone_string_map exporter;
      error = error_or err t.error;
      observed = true;
    } in
      (t', some (clone_task t'))

-- observeTerminal's counter of cancelled builds, and the switch on `applied`.
unfoldable pub count_terminal : Option Task → Server → Server
count_terminal none s = s
count_terminal (some t) s = elim t.status [
  | succeeded ↦ record s { succeeded = s.succeeded + 1 }
  | failed ↦ record s { failed = s.failed + 1 }
  | canceled ↦ record s { canceled = s.canceled + 1 }
  | _ ↦ s
]

unfoldable pub finish_task : Text → Status → Map Text Text → Option Text → ℕ → Server → Server
unfolding finish_update count_terminal update
finish_task id status exporter err finished s =
    let (store', _, terminal) =
      update id (finish_update status exporter err finished) none s.store in
    count_terminal terminal (record s { store = store' })

unfoldable pub close_done_update : Task → Task × Option ℕ
close_done_update t = elim t.done [
  | none ↦ (t, none)
  | some ch ↦ (record t { done = none }, some ch)
]

-- The deferred function of runBuildTask.
unfoldable pub close_done : Text → Server → Server
unfolding close_done_update update
close_done id s =
    let (store', _, ch) = update id close_done_update none s.store in
    record s { store = store'; closed = end_context ch s.closed }

abbrev pub context_canceled : Text
context_canceled = text "context canceled"

-- What handleCancelBuild does after taskStore.cancel. Until it takes the lock again in finishTask,
-- other goroutines go on: `between` is what they do to the server.
unfoldable pub answer_cancel : (Server → Server) → ℕ → Server × Option Task → Server × Option Task
answer_cancel between finished (s, none) = (s, none)
answer_cancel between finished (s, some t) = (
  if status_eq t.status canceled
      then finish_task t.id canceled [] (some context_canceled) finished (between s)
      else s,
  some t,
)

-- handleCancelBuild, with the times that it reads. `none` is 404, else the task that the answer
-- 202 shows.
unfoldable pub handle_cancel_build :
    Text → ℕ → (Server → Server) → ℕ → Server → Server × Option Task
unfolding answer_cancel
handle_cancel_build id now between finished s = answer_cancel between finished (cancel id now s)

-- cleanupExpiredTasks; the second part is the tasks whose directories are removed.
unfoldable pub cleanup_expired_tasks : ℕ → ℕ → Server → Server × List Task
unfolding delete_expired
cleanup_expired_tasks now keep_ttl s =
    let (store', expired) = delete_expired now keep_ttl s.store in
    (record s { store = store' }, expired)

unfoldable pub cleanup_task : Text → Server → Server × Option Task
unfolding delete
cleanup_task id s =
    let (store', removed) = delete id s.store in (record s { store = store' }, removed)
