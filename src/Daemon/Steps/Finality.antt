-- ===== src/Daemon/Steps/Finality.antt =====
-- What later steps cannot undo.
use buildkit_service.Prelude.{
  ◌≡◌, refl, ◌⊎◌, inl, inr, true, none, some, List, [], ◌∷◌, Text, lookup, eq_text, All, arith,
}
use buildkit_service.Daemon.Task.{Task, canceled, is_terminal}
use buildkit_service.Daemon.Lifecycle.{
  Server, cancel_update, mark_queued_update, assign_update, finish_update, close_done_update,
}
use buildkit_service.Daemon.Steps.{Op, step, run, Spares}
use buildkit_service.Daemon.Steps.Evolution.{
  Moves, stays, cancelled, requeued, assigned, finished, closed, step-Leaves, step-absent,
}
use buildkit_service.Daemon.Steps.Soundness.{IsSound, Moves-IsSound}

-- `t'` is what `t` may later be.
pub record Later (t t' : Task) : Type 0 where
  pub cancelled_stays : t.status ≡ canceled → t'.status ≡ canceled
  pub terminal_stays : is_terminal t.status ≡ true → t'.status ≡ t.status
  pub observed_stays : t.observed ≡ true → t' ≡ record t { done = t'.done }

Later-refl : (t : Task) → Later t t
Later-refl t = record {
  cancelled_stays = λ h. h;
  terminal_stays = λ h. refl;
  observed_stays = λ h. refl;
}

Later-trans : {t u v : Task} → Later t u → Later u v → Later t v
Later-trans a b = ground arith

Moves-Later : {t t' : Task} → IsSound t → Moves t t' → Later t t'
unfolding cancel_update mark_queued_update assign_update finish_update close_done_update
Moves-Later v (stays e) = ground arith
Moves-Later v (cancelled now e) = ground arith
Moves-Later v (requeued now e) = ground arith
Moves-Later v (assigned addr ip now e) = ground arith
Moves-Later v (finished st exporter err now final e) = ground arith
Moves-Later v (closed e) = ground arith

pub run-absent :
    (os : List Op) (id : Text) (s : Server)
    → All (Spares id) os
    → lookup id s.store ≡ none
    → lookup id (run os s).store ≡ none
unfolding run
run-absent [] id s f h = h
run-absent (o ∷ os) id s f h = run-absent os id (step o s) f.1 (step-absent o id s f.0 h)

-- After any steps, none of which adds a task under its id, a sound task is gone for good, or it is
-- in the table and: if it was cancelled it still is, if its status was terminal its status is the
-- same, and if its end was observed nothing of it has changed but `done`.
pub run-Later :
    (os : List Op) (id : Text) (s : Server) (t : Task)
    → All (Spares id) os
    → lookup id s.store ≡ some t
    → IsSound t
    → (lookup id (run os s).store ≡ none)
      ⊎ ((t' : Task) × (lookup id (run os s).store ≡ some t') × Later t t')
unfolding run
run-Later [] id s t f h v = inr (t, h, Later-refl t)
run-Later (o ∷ os) id s t f h v = elim (step-Leaves o id s t f.0 h) [
  | inl gone ↦ inl (run-absent os id (step o s) f.1 gone)
  | inr (u, e, m) ↦ elim (run-Later os id (step o s) u f.1 e (Moves-IsSound m v)) [
    | inl gone ↦ inl gone
    | inr (t', e', l) ↦ inr (t', e', Later-trans (Moves-Later v m) l)
  ]
]
