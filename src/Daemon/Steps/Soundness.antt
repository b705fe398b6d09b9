-- ===== src/Daemon/Steps/Soundness.antt =====
-- The fields of a task agree with its status, after any steps from an empty table.
use buildkit_service.Prelude.{
  ℕ, ◌≡◌, subst, ◌∙◌, ◌⊎◌, inl, inr, Bool, true, false, Option, none, some, List, [], ◌∷◌, Text,
  lookup, lookup-insert, text_eq, text_eq_iff, eq_text, All, Option-cases, Bool-cases, arith,
}
use buildkit_service.Daemon.Task.{Task, queued, running, succeeded, failed, is_terminal}
use buildkit_service.Daemon.Store.{add}
use buildkit_service.Daemon.Lifecycle.{
  Server, add_task, cancel_update, mark_queued_update, assign_update, finish_update,
  close_done_update,
}
use buildkit_service.Daemon.Steps.{
  Op, adds, cancels, requeues, assigns, finishes, closes, expires, deletes, step, run, IsNew, Fair,
  Spares, new_server,
}
use buildkit_service.Daemon.Steps.Evolution.{
  Moves, stays, cancelled, requeued, assigned, finished, closed, step-Leaves, step-absent,
}

abbrev pub is_set : Option ℕ → Bool
is_set none = false
is_set (some n) = true

-- What a reader of a task may rely on.
pub record IsSound (t : Task) : Type 0 where
  pub ended : is_set t.finished_at ≡ is_terminal t.status
  pub settled : t.observed ≡ true → is_terminal t.status ≡ true
  pub counted : (t.status ≡ succeeded) ⊎ (t.status ≡ failed) → t.observed ≡ true
  pub started : t.status ≡ running → is_set t.started_at ≡ true
  pub unplaced : t.status ≡ queued → t.buildkit_addr ≡ []

pub Moves-IsSound : {t t' : Task} → Moves t t' → IsSound t → IsSound t'
unfolding cancel_update mark_queued_update assign_update finish_update close_done_update
Moves-IsSound (stays e) v = ground arith
Moves-IsSound (cancelled now e) v = ground arith
Moves-IsSound (requeued now e) v = ground arith
Moves-IsSound (assigned addr ip now e) v = ground arith
Moves-IsSound (finished st exporter err now final e) v = ground arith
Moves-IsSound (closed e) v = ground arith

IsNew-IsSound : (t : Task) → IsNew t → IsSound t
IsNew-IsSound t n = ground arith

-- A step spares an id, or it adds the task that is then found under it.
abbrev pub Adds : Text → Op → Server → Type 0
Adds id o s = (t : Task) × (lookup id (step o s).store ≡ some t) × IsNew t

pub Spares-or_Adds : (o : Op) (id : Text) (s : Server) → Fair o → Spares id o ⊎ Adds id o s
unfolding step add_task add
Spares-or_Adds (adds t) id s f = elim (Bool-cases (text_eq t.id id)) [
  | inl e ↦ inr (t, lookup-insert t.id id t s.store ∙ ground (arith), f)
  | inr e ↦ inl (λ p. ground (arith, text_eq_iff t.id id))
]
Spares-or_Adds (cancels _ _) id s f = inl tt
Spares-or_Adds (requeues _ _) id s f = inl tt
Spares-or_Adds (assigns _ _ _ _) id s f = inl tt
Spares-or_Adds (finishes _ _ _ _ _ _) id s f = inl tt
Spares-or_Adds (closes _) id s f = inl tt
Spares-or_Adds (expires _ _) id s f = inl tt
Spares-or_Adds (deletes _) id s f = inl tt

abbrev pub AllSound : Server → Type 0
AllSound s = (id : Text) (t : Task) → lookup id s.store ≡ some t → IsSound t

some_eq : {t u : Task} {o : Option Task} → o ≡ some t → o ≡ some u → t ≡ u
some_eq p q = cc

pub step-AllSound : (o : Op) (s : Server) → Fair o → AllSound s → AllSound (step o s)
step-AllSound o s f v id u h = elim (Spares-or_Adds o id s f) [
  | inr (t, e, n) ↦ subst IsSound (some_eq e h) (IsNew-IsSound t n)
  | inl spare ↦ elim (Option-cases (lookup id s.store)) [
    | inl gone ↦ cc (step-absent o id s spare gone)
    | inr (t, e) ↦ elim (step-Leaves o id s t spare e) [
      | inl gone ↦ cc
      | inr (t', e', m) ↦ subst IsSound (some_eq e' h) (Moves-IsSound m (v id t e))
    ]
  ]
]

pub run_from-AllSound : (os : List Op) (s : Server) → All Fair os → AllSound s → AllSound (run os s)
unfolding run
run_from-AllSound [] s f v = v
run_from-AllSound (o ∷ os) s f v = run_from-AllSound os (step o s) f.1 (step-AllSound o s f.0 v)

-- Whatever requests, workers and the reaper do to an empty table, in any order, each task that it
-- then holds has a finishing time exactly if its status is terminal, is observed only in a
-- terminal status and has been if it succeeded or failed, has a starting time if it runs, and
-- names no worker while it is queued.
pub run-AllSound : (os : List Op) → All Fair os → AllSound (run os new_server)
unfolding new_server lookup
run-AllSound os f = run_from-AllSound os new_server f (λ id t h. cc)
