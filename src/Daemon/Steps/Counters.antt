-- ===== src/Daemon/Steps/Counters.antt =====
-- The counters of finished tasks against the tasks in the table.
use buildkit_service.Prelude.{
  ℕ, ◌+◌, ◌≤◌, ◌≡◌, refl, inl, inr, Bool, true, false, ◌&&◌, Option, none, some, List, [], ◌∷◌,
  Text, Map, lookup, insert, erase, eq_text, All, Option-cases, Bool-cases, bit, count_values,
  count_values-insert, count_values-insert_new, count_values-erase, arith,
}
use buildkit_service.Daemon.Task.{
  Task, Status, queued, running, succeeded, failed, canceled, status_eq, is_terminal,
}
use buildkit_service.Daemon.Store.{
  Store, add, update, delete, delete_expired, delete_expired_loop, is_expired,
}
use buildkit_service.Daemon.Lifecycle.{
  Server, add_task, cancel, cancel_update, mark_task_queued, mark_queued_update, assign_worker,
  assign_update, finish_task, finish_update, count_terminal, close_done, close_done_update,
  cleanup_expired_tasks, cleanup_task,
}
use buildkit_service.Daemon.Steps.{
  Op, adds, cancels, requeues, assigns, finishes, closes, expires, deletes, step, run, Fair,
  new_server,
}
use buildkit_service.Daemon.Steps.Soundness.{IsSound, AllSound, step-AllSound}

-- A task whose end was counted under a status.
abbrev pub is_counted : Status → Task → Bool
is_counted st t = t.observed && status_eq t.status st

module _ (p : Task → Bool) where
  count-update {ℓ} :
      {R : Type ℓ} (id : Text) (f : Task → Task × R) (r : R) (s : Store)
      → ((t : Task) → lookup id s ≡ some t → bit (p (f t).0) ≤ bit (p t))
      → count_values p (update id f r s).0 ≤ count_values p s
  unfolding update
  count-update id f r s h = elim (Option-cases (lookup id s)) [
    | inl e ↦ rw (e, update) (omega arith)
    | inr (t, e) ↦ rw (e, update) (omega (arith, h t e, count_values-insert p id (f t).0 t s e))
  ]

  count-insert_le :
      (id : Text) (t : Task) (s : Store)
      → p t ≡ false
      → count_values p (insert id t s) ≤ count_values p s
  count-insert_le id t s h = elim (Option-cases (lookup id s)) [
    | inl e ↦ ground (arith, count_values-insert_new p id t s e)
    | inr (w, e) ↦ ground (arith, count_values-insert p id t w s e)
  ]

  count-delete : (id : Text) (s : Store) → count_values p (delete id s).0 ≤ count_values p s
  unfolding delete
  count-delete id s = elim (Option-cases (lookup id s)) [
    | inl e ↦ rw (e, delete) (omega arith)
    | inr (t, e) ↦ rw (e, delete) (count_values-erase p id s)
  ]

  count-delete_expired :
      (now keep_ttl : ℕ) (es s : Store)
      → count_values p (delete_expired_loop now keep_ttl es s).0 ≤ count_values p s
  unfolding delete_expired_loop
  count-delete_expired now keep_ttl [] s = omega arith
  count-delete_expired now keep_ttl ((id, t) ∷ es) s =
      elim (Bool-cases (is_expired now keep_ttl t)) [
        | inl e ↦ rw e (
            omega
              (arith, count-delete_expired now keep_ttl es (erase id s), count_values-erase p id s))
        | inr e ↦ rw e (count-delete_expired now keep_ttl es s)
      ]

abbrev pub counter : Status → Server → ℕ
counter succeeded s = s.succeeded
counter failed s = s.failed
counter canceled s = s.canceled
counter _ s = 0

abbrev counted : Status → Option Task → ℕ
counted st none = 0
counted st (some t) = bit (is_counted st t)

finish_adds :
    (a b : Status) (exporter : Map Text Text) (err : Option Text) (now : ℕ) (t : Task) (x y : ℕ)
    → y + bit (is_counted a t) ≡ x + bit (is_counted a (finish_update b exporter err now t).0)
    → y ≤ x + counted a (finish_update b exporter err now t).1
unfolding finish_update
finish_adds a b exporter err now t x y h = ground arith

-- The last part is what `terminal` adds to the table.
count-finish :
    (a b : Status) (id : Text) (exporter : Map Text Text) (err : Option Text) (now : ℕ) (s : Store)
    → count_values (is_counted a) (update id (finish_update b exporter err now) none s).0
      ≤ count_values (is_counted a) s
        + counted a (update id (finish_update b exporter err now) none s).2
unfolding update
count-finish a b id exporter err now s = elim (Option-cases (lookup id s)) [
  | inl e ↦ rw (e, update) (omega arith)
  | inr (t, e) ↦
      rw (e, update)
        (finish_adds a b exporter err now t (count_values (is_counted a) s) _
          (count_values-insert (is_counted a) id (finish_update b exporter err now t).0 t s e))
]

counter-count_terminal :
    (a : Status) (o : Option Task) (s : Server)
    → is_terminal a ≡ true
    → counter a s + counted a o ≤ counter a (count_terminal o s)
unfolding count_terminal
counter-count_terminal a none s h = omega arith
counter-count_terminal a (some t) s h = ground arith

store-count_terminal : (o : Option Task) (s : Server) → (count_terminal o s).store ≡ s.store
unfolding count_terminal
store-count_terminal none s = refl
store-count_terminal (some t) s = ground arith

abbrev pub Bounded : Status → Server → Type 0
Bounded a s = count_values (is_counted a) s.store ≤ counter a s

kept :
    (a : Status) (s u : Server)
    → u.succeeded ≡ s.succeeded
    → u.failed ≡ s.failed
    → u.canceled ≡ s.canceled
    → count_values (is_counted a) u.store ≤ count_values (is_counted a) s.store
    → Bounded a s
    → Bounded a u
kept succeeded s u e₁ e₂ e₃ l b = omega arith
kept failed s u e₁ e₂ e₃ l b = omega arith
kept canceled s u e₁ e₂ e₃ l b = omega arith
kept queued s u e₁ e₂ e₃ l b = omega arith
kept running s u e₁ e₂ e₃ l b = omega arith

counter-store :
    (a : Status) (s : Server) (store' : Store)
    → counter a (record s { store = store' }) ≡ counter a s
counter-store succeeded s store' = refl
counter-store failed s store' = refl
counter-store _ s store' = refl

finish_bound :
    (a : Status) (o : Option Task) (s : Server) (store' : Store)
    → is_terminal a ≡ true
    → count_values (is_counted a) store' ≤ count_values (is_counted a) s.store + counted a o
    → Bounded a s
    → Bounded a (count_terminal o (record s { store = store' }))
unfolding count_terminal
finish_bound a o s store' h l b = rw (store-count_terminal o (record s { store = store' })) (
    omega
      (arith, counter-count_terminal a o (record s { store = store' }) h, counter-store a s store'))

counted-cancel :
    (a : Status) (now : ℕ) (t : Task)
    → IsSound t
    → bit (is_counted a (cancel_update now t).0) ≤ bit (is_counted a t)
unfolding cancel_update
counted-cancel a now t v = ground arith

counted-mark_queued :
    (a : Status) (now : ℕ) (t : Task)
    → IsSound t
    → bit (is_counted a (mark_queued_update now t).0) ≤ bit (is_counted a t)
unfolding mark_queued_update
counted-mark_queued a now t v = ground arith

counted-assign :
    (a : Status) (addr ip : Text) (now : ℕ) (t : Task)
    → bit (is_counted a (assign_update addr ip now t).0) ≤ bit (is_counted a t)
unfolding assign_update
counted-assign a addr ip now t = ground arith

counted-close_done :
    (a : Status) (t : Task) → bit (is_counted a (close_done_update t).0) ≤ bit (is_counted a t)
unfolding close_done_update
counted-close_done a t = ground arith

step-Bounded :
    (o : Op) (a : Status) (s : Server)
    → Fair o
    → is_terminal a ≡ true
    → AllSound s
    → Bounded a s
    → Bounded a (step o s)
unfolding step add_task add cancel mark_task_queued assign_worker close_done cleanup_expired_tasks
    cleanup_task finish_task delete_expired
step-Bounded (adds t) a s f h v b =
    kept a s (step (adds t) s) refl refl refl
      (count-insert_le (is_counted a) t.id t s.store (ground arith)) b
step-Bounded (cancels id now) a s f h v b =
    kept a s (step (cancels id now) s) refl refl refl
      (count-update (is_counted a) id (cancel_update now) none s.store
        (λ t e. counted-cancel a now t (v id t e)))
      b
step-Bounded (requeues id now) a s f h v b =
    kept a s (step (requeues id now) s) refl refl refl
      (count-update (is_counted a) id (mark_queued_update now) false s.store
        (λ t e. counted-mark_queued a now t (v id t e)))
      b
step-Bounded (assigns id addr ip now) a s f h v b =
    kept a s (step (assigns id addr ip now) s) refl refl refl
      (count-update (is_counted a) id (assign_update addr ip now) false s.store
        (λ t _. counted-assign a addr ip now t))
      b
step-Bounded (finishes id st final exporter err now) a s f h v b =
    finish_bound a (update id (finish_update st exporter err now) none s.store).2 s
      (update id (finish_update st exporter err now) none s.store).0 h
      (count-finish a st id exporter err now s.store) b
step-Bounded (closes id) a s f h v b =
    kept a s (step (closes id) s) refl refl refl
      (count-update (is_counted a) id close_done_update none s.store
        (λ t _. counted-close_done a t))
      b
step-Bounded (expires now keep_ttl) a s f h v b =
    kept a s (step (expires now keep_ttl) s) refl refl refl
      (count-delete_expired (is_counted a) now keep_ttl s.store s.store) b
step-Bounded (deletes id) a s f h v b =
    kept a s (step (deletes id) s) refl refl refl (count-delete (is_counted a) id s.store) b

run_from-Bounded :
    (os : List Op) (a : Status) (s : Server)
    → All Fair os
    → is_terminal a ≡ true
    → AllSound s
    → Bounded a s
    → Bounded a (run os s)
unfolding run
run_from-Bounded [] a s f h v b = b
run_from-Bounded (o ∷ os) a s f h v b =
    run_from-Bounded os a (step o s) f.1 h (step-AllSound o s f.0 v) (step-Bounded o a s f.0 h v b)

-- After any steps from an empty table, the tasks in it whose end was observed as succeeded, failed
-- or cancelled are no more than the counter of that status: each of them was counted.
pub run-Bounded :
    (os : List Op) (a : Status) → All Fair os → is_terminal a ≡ true → Bounded a (run os new_server)
unfolding new_server lookup
run-Bounded os a f h = run_from-Bounded os a new_server f h (λ id t e. cc) (omega arith)
