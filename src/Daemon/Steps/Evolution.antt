-- ===== src/Daemon/Steps/Evolution.antt =====
-- How one task changes along any steps.
use buildkit_service.Prelude.{
  ℕ, ◌≡◌, refl, ap, ◌∙◌, ◌⊎◌, inl, inr, true, false, Option, none, some, Text, Map, lookup, eq_text,
  lookup-insert, text_eq_iff, arith,
}
use buildkit_service.Daemon.Task.{Task, Status, is_terminal}
use buildkit_service.Daemon.Store.{Store, add, update}
use buildkit_service.Daemon.Lifecycle.{
  Server, cancel, cancel_update, mark_task_queued, mark_queued_update, assign_worker, assign_update,
  finish_task, finish_update, count_terminal, close_done, close_done_update, add_task,
  cleanup_expired_tasks, cleanup_task,
}
use buildkit_service.Daemon.Steps.{
  Op, adds, cancels, requeues, assigns, finishes, closes, expires, deletes, step, Spares,
}
use buildkit_service.Daemon.Steps.Frame.{lookup-update, lookup-delete, lookup-delete_expired}

-- One closure of tasks.go, run on a task.
pub data Moves (t t' : Task) : Type 0 where
  stays : t' ≡ t → Moves t t'
  cancelled : (now : ℕ) → t' ≡ (cancel_update now t).0 → Moves t t'
  requeued : (now : ℕ) → t' ≡ (mark_queued_update now t).0 → Moves t t'
  assigned : (addr ip : Text) (now : ℕ) → t' ≡ (assign_update addr ip now t).0 → Moves t t'
  finished :
      (st : Status) (exporter : Map Text Text) (err : Option Text) (now : ℕ)
      → is_terminal st ≡ true
      → t' ≡ (finish_update st exporter err now t).0
      → Moves t t'
  closed : t' ≡ (close_done_update t).0 → Moves t t'

-- What a step leaves of the task `t` under `id`: nothing, or the result of a move.
abbrev pub Leaves : Text → Task → Store → Type 0
Leaves id t s = (lookup id s ≡ none) ⊎ ((t' : Task) × (lookup id s ≡ some t') × Moves t t')

pub store-count_terminal : (o : Option Task) (s : Server) → (count_terminal o s).store ≡ s.store
unfolding count_terminal
store-count_terminal none s = refl
store-count_terminal (some t) s = ground arith

pub moved_by {ℓ} :
    {R : Type ℓ} (id j : Text) (f : Task → Task × R) (r : R) (s : Store) (t : Task)
    → lookup j s ≡ some t
    → (lookup j (update id f r s).0 ≡ some t) ⊎ (lookup j (update id f r s).0 ≡ some (f t).0)
moved_by id j f r s t h = ground (arith, lookup-update id j f r s)

leaves {ℓ} :
    {R : Type ℓ} (id j : Text) (f : Task → Task × R) (r : R) (s : Store) (t : Task) (u : Store)
    → u ≡ (update id f r s).0
    → lookup j s ≡ some t
    → Moves t (f t).0
    → Leaves j t u
leaves id j f r s t u e h move = elim (moved_by id j f r s t h) [
  | inl k ↦ inr (t, rw e k, stays refl)
  | inr k ↦ inr ((f t).0, rw e k, move)
]

pub step-Leaves :
    (o : Op) (j : Text) (s : Server) (t : Task)
    → Spares j o
    → lookup j s.store ≡ some t
    → Leaves j t (step o s).store
unfolding step add_task add cancel mark_task_queued assign_worker finish_task close_done
    cleanup_expired_tasks cleanup_task
step-Leaves (adds n) j s t spare h =
    inr (t, lookup-insert n.id j n s.store ∙ ground (arith, text_eq_iff n.id j), stays refl)
step-Leaves (cancels id now) j s t spare h =
    leaves id j (cancel_update now) none s.store t _ refl h (cancelled now refl)
step-Leaves (requeues id now) j s t spare h =
    leaves id j (mark_queued_update now) false s.store t _ refl h (requeued now refl)
step-Leaves (assigns id addr ip now) j s t spare h =
    leaves id j (assign_update addr ip now) false s.store t _ refl h (assigned addr ip now refl)
step-Leaves (finishes id st final exporter err now) j s t spare h =
    leaves id j (finish_update st exporter err now) none s.store t _ (store-count_terminal _ _) h
      (finished st exporter err now final refl)
step-Leaves (closes id) j s t spare h =
    leaves id j close_done_update none s.store t _ refl h (closed refl)
step-Leaves (expires now ttl) j s t spare h = elim (lookup-delete_expired now ttl j s.store) [
  | inl e ↦ inr (t, e ∙ h, stays refl)
  | inr e ↦ inl e
]
step-Leaves (deletes id) j s t spare h = elim (lookup-delete id j s.store) [
  | inl e ↦ inr (t, e ∙ h, stays refl)
  | inr e ↦ inl e
]

store_at : (j : Text) {s u : Store} → s ≡ u → lookup j u ≡ none → lookup j s ≡ none
store_at j e h = ap (lookup j) e ∙ h

absent {ℓ} :
    {R : Type ℓ} (id j : Text) (f : Task → Task × R) (r : R) (s : Store)
    → lookup j s ≡ none
    → lookup j (update id f r s).0 ≡ none
absent id j f r s h = ground (arith, lookup-update id j f r s)

-- Only `add` brings in a task.
pub step-absent :
    (o : Op) (j : Text) (s : Server)
    → Spares j o
    → lookup j s.store ≡ none
    → lookup j (step o s).store ≡ none
unfolding step add_task add cancel mark_task_queued assign_worker finish_task close_done
    cleanup_expired_tasks cleanup_task
step-absent (adds n) j s spare h =
    lookup-insert n.id j n s.store ∙ ground (arith, text_eq_iff n.id j)
step-absent (cancels id now) j s spare h = absent id j (cancel_update now) none s.store h
step-absent (requeues id now) j s spare h = absent id j (mark_queued_update now) false s.store h
step-absent (assigns id addr ip now) j s spare h =
    absent id j (assign_update addr ip now) false s.store h
step-absent (finishes id st final exporter err now) j s spare h =
    store_at j (store-count_terminal _ _)
      (absent id j (finish_update st exporter err now) none s.store h)
step-absent (closes id) j s spare h = absent id j close_done_update none s.store h
step-absent (expires now ttl) j s spare h = ground (arith, lookup-delete_expired now ttl j s.store)
step-absent (deletes id) j s spare h = ground (arith, lookup-delete id j s.store)
