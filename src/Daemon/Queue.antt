-- ===== src/Daemon/Queue.antt =====
-- internal/builddaemon/mode_scheduler.go: buildTaskQueue, the FIFO queue of one build mode. Each
-- method is one critical section; a consumer that waits leaves the lock and tries again.
pub mod Order
use buildkit_service.Prelude.{
  Bool, true, false, Option, none, some, List, [], ◌∷◌, ◌++◌, Text, if◌then◌else◌,
}

pub record TaskQueue : Type 0 where
  pub ids : List Text
  pub closed : Bool

unfoldable pub new_build_task_queue : TaskQueue
new_build_task_queue = record { ids = []; closed = false }

-- `none` is errModeSchedulerClosed.
unfoldable pub push : Text → TaskQueue → Option TaskQueue
push id q = if q.closed then none else some (record q { ids = q.ids ++ id ∷ [] })

-- What a turn of pop finds: nothing yet, the end of the queue, or an id.
pub data Popped : Type 0 where
  waits : Popped
  ends : Popped
  gets : Text → TaskQueue → Popped

pop_ids : TaskQueue → List Text → Popped
pop_ids q [] = if q.closed then ends else waits
pop_ids q (id ∷ rest) = if q.closed then ends else gets id (record q { ids = rest })

unfoldable pub pop : TaskQueue → Popped
unfolding pop_ids
pop q = pop_ids q q.ids

unfoldable pub close : TaskQueue → TaskQueue
close q = record q { closed = true; ids = [] }
