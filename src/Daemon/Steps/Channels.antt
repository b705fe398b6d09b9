-- ===== src/Daemon/Steps/Channels.antt =====
-- The channel `done` of a task: it stays the task's, or the task is gone, or it is closed.
use buildkit_service.Prelude.{
  ℕ, ◌≡◌, refl, ap, ◌∙◌, ◌⊎◌, inl, inr, true, false, Option, none, some, List, [], ◌∷◌, Map, Text,
  lookup, lookup-insert, text_eq, text_eq_iff, eq_text, contains, All, Bool-cases, arith,
}
use buildkit_service.Daemon.Task.{Task, Status}
use buildkit_service.Daemon.Store.{Store, add, update}
use buildkit_service.Daemon.Lifecycle.{
  Server, add_task, cancel, cancel_update, mark_task_queued, mark_queued_update, assign_worker,
  assign_update, finish_task, finish_update, close_done, close_done_update, end_context,
  cleanup_expired_tasks, cleanup_task,
}
use buildkit_service.Daemon.Steps.{
  Op, adds, cancels, requeues, assigns, finishes, closes, expires, deletes, step, run, Spares,
}
use buildkit_service.Daemon.Steps.Frame.{lookup-update, lookup-delete, lookup-delete_expired}
use buildkit_service.Daemon.Steps.Evolution.{moved_by, store-count_terminal, step-absent}
use buildkit_service.Daemon.Steps.Growth.{step-closed}
use buildkit_service.Daemon.Steps.Cancel.{update-some}

-- The table has a task with the channel under the id.
abbrev Has : Text → ℕ → Store → Type 0
Has id ch s = (u : Task) × (lookup id s ≡ some u) × (u.done ≡ some ch)

abbrev pub HasChannel : Text → ℕ → Server → Type 0
HasChannel id ch s =
    (lookup id s.store ≡ none) ⊎ ((contains s.closed ch ≡ true) ⊎ Has id ch s.store)

-- A closure that leaves the channel alone.
updated-Has {ℓ} :
    {R : Type ℓ} (id j : Text) (f : Task → Task × R) (r : R) (s u : Store) (ch : ℕ)
    → u ≡ (update id f r s).0
    → ((t : Task) → (f t).0.done ≡ t.done)
    → Has j ch s
    → Has j ch u
updated-Has id j f r s u ch same keeps (t, h, d) = elim (moved_by id j f r s t h) [
  | inl k ↦ (t, ap (lookup j) same ∙ k, d)
  | inr k ↦ ((f t).0, ap (lookup j) same ∙ k, keeps t ∙ d)
]

cancel-done : (now : ℕ) (t : Task) → (cancel_update now t).0.done ≡ t.done
unfolding cancel_update
cancel-done now t = ground arith

requeue-done : (now : ℕ) (t : Task) → (mark_queued_update now t).0.done ≡ t.done
unfolding mark_queued_update
requeue-done now t = ground arith

assign-done : (addr ip : Text) (now : ℕ) (t : Task) → (assign_update addr ip now t).0.done ≡ t.done
unfolding assign_update
assign-done addr ip now t = ground arith

finish-done :
    (st : Status) (exporter : Map Text Text) (err : Option Text) (now : ℕ) (t : Task)
    → (finish_update st exporter err now t).0.done ≡ t.done
unfolding finish_update
finish-done st exporter err now t = ground arith

closed_head : (c : ℕ) (cs : List ℕ) → contains (c ∷ cs) c ≡ true
unfolding contains
closed_head c cs = ground arith

close_done_update-some : (t : Task) (ch : ℕ) → t.done ≡ some ch → (close_done_update t).1 ≡ some ch
unfolding close_done_update
close_done_update-some t ch d = rw d refl

-- The deferred function closes the channel of its own task, and leaves those of the others.
close_done-HasChannel :
    (id j : Text) (ch : ℕ) (s : Server) → Has j ch s.store → HasChannel j ch (close_done id s)
unfolding close_done
close_done-HasChannel id j ch s (t, h, d) = elim (Bool-cases (text_eq id j)) [
  | inl same ↦
      let here : lookup id s.store ≡ some t =
        ap (λ k. lookup k s.store) ((text_eq_iff id j).0 same) ∙ h in
      let given : (update id close_done_update none s.store).2 ≡ some ch =
        ap (λ r. r.2) (update-some id close_done_update none s.store t here)
        ∙ close_done_update-some t ch d in
      inr (inl (ap (λ o. contains (end_context o s.closed) ch) given ∙ closed_head ch s.closed))
  | inr other ↦
      inr (inr (t, lookup-update id j close_done_update none s.store ∙ ground (arith, other, h), d))
]

step_with :
    (o : Op) (j : Text) (ch : ℕ) (s : Server)
    → Spares j o
    → Has j ch s.store
    → HasChannel j ch (step o s)
unfolding step add_task add cancel mark_task_queued assign_worker finish_task cleanup_expired_tasks
    cleanup_task
step_with (adds n) j ch s spare (t, h, d) =
    inr (inr (t, lookup-insert n.id j n s.store ∙ ground (arith, text_eq_iff n.id j), d))
step_with (cancels id now) j ch s spare h =
    inr (inr (updated-Has id j (cancel_update now) none s.store _ ch refl (cancel-done now) h))
step_with (requeues id now) j ch s spare h =
    inr
      (inr (updated-Has id j (mark_queued_update now) false s.store _ ch refl (requeue-done now) h))
step_with (assigns id addr ip now) j ch s spare h = inr (
    inr (
      updated-Has id j (assign_update addr ip now) false s.store _ ch refl (assign-done addr ip now)
        h))
step_with (finishes id st final exporter err now) j ch s spare h = inr (
    inr (
      updated-Has id j (finish_update st exporter err now) none s.store _ ch
        (store-count_terminal _ _) (finish-done st exporter err now) h))
step_with (closes id) j ch s spare h = close_done-HasChannel id j ch s h
step_with (expires now ttl) j ch s spare (t, h, d) =
    elim (lookup-delete_expired now ttl j s.store) [
      | inl e ↦ inr (inr (t, e ∙ h, d))
      | inr e ↦ inl e
    ]
step_with (deletes id) j ch s spare (t, h, d) = elim (lookup-delete id j s.store) [
  | inl e ↦ inr (inr (t, e ∙ h, d))
  | inr e ↦ inl e
]

step-HasChannel :
    (o : Op) (j : Text) (ch : ℕ) (s : Server)
    → Spares j o
    → HasChannel j ch s
    → HasChannel j ch (step o s)
step-HasChannel o j ch s spare (inl gone) = inl (step-absent o j s spare gone)
step-HasChannel o j ch s spare (inr (inl c)) = inr (inl (step-closed o ch s c))
step-HasChannel o j ch s spare (inr (inr h)) = step_with o j ch s spare h

pub run-HasChannel :
    (os : List Op) (j : Text) (ch : ℕ) (s : Server)
    → All (Spares j) os
    → HasChannel j ch s
    → HasChannel j ch (run os s)
unfolding run
run-HasChannel [] j ch s spare h = h
run-HasChannel (o ∷ os) j ch s spare h =
    run-HasChannel os j ch (step o s) spare.1 (step-HasChannel o j ch s spare.0 h)
