-- ===== src/Daemon/Scheduler/Isolation.antt =====
-- The modes do not disturb one another, and a close is final.
use buildkit_service.Prelude.{
  ◌≡◌, true, false, none, some, [], ◌∷◌, ◌++◌, Map, Text, eq_text, text_eq, lookup, lookup-insert,
  if◌then◌else◌, ok, err, arith,
}
use buildkit_service.Daemon.Queue.{TaskQueue, push, pop, close}
use buildkit_service.Daemon.Scheduler.{
  ModeScheduler, enqueue, close_all, close_queues, run_worker, scheduler_closed,
}

lookup-close_queues :
    (mode : Text) (m : Map Text TaskQueue) (q : TaskQueue)
    → lookup mode (close_queues m) ≡ some q
    → (q.closed ≡ true) × (q.ids ≡ [])
unfolding close_queues lookup close
lookup-close_queues mode [] q h = cc
lookup-close_queues mode ((name, p) ∷ m) q h = ground (arith, lookup-close_queues mode m q)

-- A build enqueued for a mode goes to the end of that mode's queue, and the queues of the other
-- modes stay as they were.
pub lookup-enqueue :
    (mode other id : Text) (s s' : ModeScheduler) (q : TaskQueue)
    → lookup mode s.queues ≡ some q
    → enqueue mode id (some s) ≡ ok s'
    → lookup other s'.queues ≡ (
        if text_eq mode other
        then some (record q { ids = q.ids ++ id ∷ [] })
        else lookup other s.queues)
unfolding enqueue push
lookup-enqueue mode other id s s' q h e =
    ground (arith, lookup-insert mode other (record q { ids = q.ids ++ id ∷ [] }) s.queues)

closed_queues :
    (mode : Text) (s : ModeScheduler) (q : TaskQueue)
    → s.once ≡ false
    → lookup mode (close_all s).queues ≡ some q
    → (q.closed ≡ true) × (q.ids ≡ [])
unfolding close_all
closed_queues mode s q o h = lookup-close_queues mode s.queues q (rw o at h)

-- After the first close no mode takes a build any more and no worker of a mode gets one: an
-- enqueue for a mode that the scheduler has is refused as closed, and a worker's turn runs nothing
-- and changes nothing.
pub close_all-final :
    (mode id : Text) (s : ModeScheduler) (q : TaskQueue)
    → s.once ≡ false
    → lookup mode (close_all s).queues ≡ some q
    → (enqueue mode id (some (close_all s)) ≡ err scheduler_closed)
      × (run_worker mode (close_all s) ≡ (close_all s, none))
unfolding enqueue push run_worker pop
close_all-final mode id s q o h =
    let (shut, empty) = closed_queues mode s q o h in (ground arith, ground arith)
