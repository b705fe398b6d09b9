-- ===== src/Daemon/Steps/Growth.antt =====
-- The contexts that have ended and the channels that are closed stay so.
use buildkit_service.Prelude.{
  ℕ, ◌≡◌, refl, ap, ◌∙◌, true, Option, none, some, List, [], ◌∷◌, contains, arith,
}
use buildkit_service.Daemon.Task.{Task}
use buildkit_service.Daemon.Lifecycle.{
  Server, add_task, cancel, end_context, mark_task_queued, assign_worker, finish_task,
  count_terminal, close_done, cleanup_expired_tasks, cleanup_task,
}
use buildkit_service.Daemon.Steps.{
  Op, adds, cancels, requeues, assigns, finishes, closes, expires, deletes, step, run,
}

end_context-contains :
    (o : Option ℕ) (cs : List ℕ) (c : ℕ)
    → contains cs c ≡ true
    → contains (end_context o cs) c ≡ true
unfolding contains
end_context-contains none cs c h = h
end_context-contains (some d) cs c h = ground (arith, h)

pub ended-count_terminal : (o : Option Task) (s : Server) → (count_terminal o s).ended ≡ s.ended
unfolding count_terminal
ended-count_terminal none s = refl
ended-count_terminal (some t) s = ground arith

pub closed-count_terminal : (o : Option Task) (s : Server) → (count_terminal o s).closed ≡ s.closed
unfolding count_terminal
closed-count_terminal none s = refl
closed-count_terminal (some t) s = ground arith

pub step-ended :
    (o : Op) (c : ℕ) (s : Server) → contains s.ended c ≡ true → contains (step o s).ended c ≡ true
unfolding step add_task cancel mark_task_queued assign_worker finish_task close_done
    cleanup_expired_tasks cleanup_task
step-ended (adds t) c s h = h
step-ended (cancels id now) c s h = end_context-contains _ s.ended c h
step-ended (requeues id now) c s h = h
step-ended (assigns id addr ip now) c s h = h
step-ended (finishes id st f exporter err now) c s h =
    ap (λ cs. contains cs c) (ended-count_terminal _ _) ∙ h
step-ended (closes id) c s h = h
step-ended (expires now keep_ttl) c s h = h
step-ended (deletes id) c s h = h

pub step-closed :
    (o : Op) (c : ℕ) (s : Server) → contains s.closed c ≡ true → contains (step o s).closed c ≡ true
unfolding step add_task cancel mark_task_queued assign_worker finish_task close_done
    cleanup_expired_tasks cleanup_task
step-closed (adds t) c s h = h
step-closed (cancels id now) c s h = h
step-closed (requeues id now) c s h = h
step-closed (assigns id addr ip now) c s h = h
step-closed (finishes id st f exporter err now) c s h =
    ap (λ cs. contains cs c) (closed-count_terminal _ _) ∙ h
step-closed (closes id) c s h = end_context-contains _ s.closed c h
step-closed (expires now keep_ttl) c s h = h
step-closed (deletes id) c s h = h

pub run-ended :
    (os : List Op) (c : ℕ) (s : Server)
    → contains s.ended c ≡ true
    → contains (run os s).ended c ≡ true
unfolding run
run-ended [] c s h = h
run-ended (o ∷ os) c s h = run-ended os c (step o s) (step-ended o c s h)
