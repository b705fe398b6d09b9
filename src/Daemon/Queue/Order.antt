-- ===== src/Daemon/Queue/Order.antt =====
-- The queue delivers what was pushed, in that order.
use buildkit_service.Prelude.{
  ◌≡◌, refl, sym, ap, ◌∙◌, true, false, Option, none, some, List, [], ◌∷◌, ◌++◌, Text, arith,
  append_nil,
}
use mathlib.Core.List.{append_assoc}
use buildkit_service.Daemon.Queue.{
  TaskQueue, Popped, waits, ends, gets, new_build_task_queue, push, pop, close,
}

-- What producers and consumers do, in any interleaving.
pub data Event : Type 0 where
  pushes : Text → Event
  pops : Event
  closes : Event

-- The queue with its history: what it accepted, what it delivered, what a close dropped.
pub record History : Type 0 where
  pub queue : TaskQueue
  pub accepted : List Text
  pub delivered : List Text
  pub dropped : List Text

accept : Text → History → Option TaskQueue → History
accept id h none = h
accept id h (some q) = record h { queue = q; accepted = h.accepted ++ id ∷ [] }

deliver : History → Popped → History
deliver h waits = h
deliver h ends = h
deliver h (gets id q) = record h { queue = q; delivered = h.delivered ++ id ∷ [] }

unfoldable pub happen : Event → History → History
unfolding accept deliver push pop close
happen (pushes id) h = accept id h (push id h.queue)
happen pops h = deliver h (pop h.queue)
happen closes h = record h { queue = close h.queue; dropped = h.dropped ++ h.queue.ids }

unfoldable pub happen_all : List Event → History → History
unfolding happen
happen_all [] h = h
happen_all (e ∷ es) h = happen_all es (happen e h)

unfoldable pub no_history : History
unfolding new_build_task_queue
no_history = record { queue = new_build_task_queue; accepted = []; delivered = []; dropped = [] }

-- A closed queue is empty; what was accepted was delivered, then dropped, then is in the queue; an
-- open queue has dropped nothing.
pub record IsOrdered (h : History) : Type 0 where
  pub emptied : h.queue.closed ≡ true → h.queue.ids ≡ []
  pub undropped : h.queue.closed ≡ false → h.dropped ≡ []
  pub in_order : h.accepted ≡ h.delivered ++ (h.dropped ++ h.queue.ids)

pushed-IsOrdered : (id : Text) (h : History) → IsOrdered h → IsOrdered (happen (pushes id) h)
unfolding happen
pushed-IsOrdered id h v = ground (
  arith,
  append_assoc h.delivered (h.dropped ++ h.queue.ids) (id ∷ []),
  append_assoc h.dropped h.queue.ids (id ∷ []),
)

popped-IsOrdered :
    (h : History) (ids : List Text) → h.queue.ids ≡ ids → IsOrdered h → IsOrdered (happen pops h)
unfolding happen
popped-IsOrdered h [] e v = ground arith
popped-IsOrdered h (id ∷ rest) e v = ground (arith, append_assoc h.delivered (id ∷ []) rest)

closed-IsOrdered : (h : History) → IsOrdered h → IsOrdered (happen closes h)
unfolding happen
closed-IsOrdered h v = record {
  emptied = λ c. refl;
  undropped = λ c. cc;
  in_order = v.in_order ∙ ap (λ l. h.delivered ++ l) (sym (append_nil (h.dropped ++ h.queue.ids)));
}

happen-IsOrdered : (e : Event) (h : History) → IsOrdered h → IsOrdered (happen e h)
happen-IsOrdered (pushes id) h v = pushed-IsOrdered id h v
happen-IsOrdered pops h v = popped-IsOrdered h h.queue.ids refl v
happen-IsOrdered closes h v = closed-IsOrdered h v

happen_all_from-IsOrdered :
    (es : List Event) (h : History) → IsOrdered h → IsOrdered (happen_all es h)
unfolding happen_all
happen_all_from-IsOrdered [] h v = v
happen_all_from-IsOrdered (e ∷ es) h v =
    happen_all_from-IsOrdered es (happen e h) (happen-IsOrdered e h v)

no_history-IsOrdered : IsOrdered no_history
unfolding no_history
no_history-IsOrdered = ground arith

-- After any pushes, pops and closes on a new queue, in any interleaving: the ids that pushes were
-- accepted with are, in order, those delivered, those dropped by a close, and those still queued;
-- an open queue has dropped none, and a closed queue is empty.
pub happen_all-IsOrdered : (es : List Event) → IsOrdered (happen_all es no_history)
happen_all-IsOrdered es = happen_all_from-IsOrdered es no_history no_history-IsOrdered
