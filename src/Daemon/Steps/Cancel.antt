-- ===== src/Daemon/Steps/Cancel.antt =====
-- What the handler of a cancellation does, on every branch.
use buildkit_service.Prelude.{
  ℕ, ◌≡◌, ◌≢◌, ◌⊎◌, refl, ap, Map, true, false, Option, none, some, List, [], ◌∷◌, Text, lookup,
  insert, eq_text, text_eq_refl, lookup-insert_self, insert-eq_self, contains, All, Bool-cases, inl,
  inr, ◌∙◌, arith,
}
use buildkit_service.Daemon.Task.{
  Task, Status, queued, running, succeeded, failed, canceled, status_eq, is_live, clone_task_lem,
  clone_string_map_lem,
}
use buildkit_service.Daemon.Store.{Store, update}
use buildkit_service.Daemon.Lifecycle.{
  Server, cancel, cancel_update, finish_task, finish_update, count_terminal, handle_cancel_build,
  context_canceled,
}
use buildkit_service.Daemon.Steps.{Op, run, Spares}
use buildkit_service.Daemon.Steps.Frame.{map_first, lookup-update}
use buildkit_service.Daemon.Steps.Evolution.{cancelled, store-count_terminal}
use buildkit_service.Daemon.Steps.Growth.{ended-count_terminal, run-ended}
use buildkit_service.Daemon.Steps.Soundness.{IsSound, Moves-IsSound}
use buildkit_service.Daemon.Steps.Finality.{run-Later}

pub update-some {ℓ} :
    {R : Type ℓ} (id : Text) (f : Task → Task × R) (r : R) (s : Store) (t : Task)
    → lookup id s ≡ some t
    → update id f r s ≡ (insert id (f t).0 s, some (f t).0, (f t).1)
unfolding update
update-some id f r s t h = rw (h, update) (rw (clone_task_lem (f t).0))

cancel_live :
    (id : Text) (now : ℕ) (s : Server) (t : Task)
    → lookup id s.store ≡ some t
    → is_live t.status ≡ true
    → cancel id now s ≡ (
      record s {
        store = insert id (record t { status = canceled; finished_at = some now }) s.store;
        ended = t.ctx ∷ s.ended;
      },
      some (record t { status = canceled; finished_at = some now }),
    )
unfolding cancel cancel_update
cancel_live id now s t h live = ground (arith, update-some id (cancel_update now) none s.store t h)

finish_shut :
    (id : Text) (st : Status) (ex : Map Text Text) (err : Option Text) (now : ℕ) (s : Server)
    (t : Task)
    → lookup id s.store ≡ some t
    → (t.observed ≡ true) ⊎ ((t.status ≡ canceled) × (st ≢ canceled))
    → finish_task id st ex err now s ≡ s
unfolding finish_task finish_update count_terminal
finish_shut id st ex err now s t h o = ground (
  arith,
  update-some id (finish_update st ex err now) none s.store t h,
  insert-eq_self id t s.store h,
)

cancel_missing :
    (id : Text) (now : ℕ) (s : Server) → lookup id s.store ≡ none → cancel id now s ≡ (s, none)
unfolding cancel update
cancel_missing id now s h = rw (h, cancel, update)

cancel_shut :
    (id : Text) (now : ℕ) (s : Server) (t : Task)
    → lookup id s.store ≡ some t
    → is_live t.status ≡ false
    → cancel id now s ≡ (s, some t)
unfolding cancel cancel_update
cancel_shut id now s t h live =
    ground
      (arith, update-some id (cancel_update now) none s.store t h, insert-eq_self id t s.store h)

pub lookup-finish_task :
    (id : Text) (st : Status) (ex : Map Text Text) (e : Option Text) (now : ℕ) (s : Server)
    → lookup id (finish_task id st ex e now s).store
      ≡ map_first (finish_update st ex e now) (lookup id s.store)
unfolding finish_task
lookup-finish_task id st ex e now s =
    ap (lookup id) (store-count_terminal _ _)
    ∙ lookup-update id id (finish_update st ex e now) none s.store
    ∙ rw (text_eq_refl id) refl

-- A task that is gone, or is cancelled with its end observed.
abbrev pub IsSettled : Text → Server → Type 0
IsSettled id s =
    (lookup id s.store ≡ none)
    ⊎ ((u : Task) × (lookup id s.store ≡ some u) × (u.status ≡ canceled) × (u.observed ≡ true))

finish_cancelled :
    (now : ℕ) (u : Task)
    → u.status ≡ canceled
    → ((finish_update canceled [] (some context_canceled) now u).0.status ≡ canceled)
      × ((finish_update canceled [] (some context_canceled) now u).0.observed ≡ true)
unfolding finish_update
finish_cancelled now u c = ground (arith, c, clone_string_map_lem [])

-- The second critical section settles a cancelled task, whatever came before it.
finish_task-IsSettled :
    (ops : List Op) (id : Text) (finished : ℕ) (s : Server) (t : Task)
    → All (Spares id) ops
    → IsSound t
    → lookup id s.store ≡ some t
    → t.status ≡ canceled
    → IsSettled id (finish_task id canceled [] (some context_canceled) finished (run ops s))
finish_task-IsSettled ops id finished s t spare v h c =
    let after = lookup-finish_task id canceled [] (some context_canceled) finished (run ops s) in
    elim (run-Later ops id s t spare h v) [
      | inl gone ↦
          inl (
            after
            ∙ ap (map_first (finish_update canceled [] (some context_canceled) finished)) gone)
      | inr (u, e, later) ↦
          let (still, observed) = finish_cancelled finished u (later.cancelled_stays c) in
          inr (
            (finish_update canceled [] (some context_canceled) finished u).0,
            after ∙ ap (map_first (finish_update canceled [] (some context_canceled) finished)) e,
            still,
            observed,
          )
    ]

finish_task-ended :
    (id : Text) (st : Status) (ex : Map Text Text) (e : Option Text) (now c : ℕ) (s : Server)
    → contains s.ended c ≡ true
    → contains (finish_task id st ex e now s).ended c ≡ true
unfolding finish_task
finish_task-ended id st ex e now c s h = ap (λ cs. contains cs c) (ended-count_terminal _ _) ∙ h

head_contains : (c : ℕ) (cs : List ℕ) → contains (c ∷ cs) c ≡ true
unfolding contains
head_contains c cs = ground arith

abbrev pub cancelled_at : ℕ → Task → Task
cancelled_at now t = record t { status = canceled; finished_at = some now }

-- What a cancellation of a task does, by its status: a queued or running one is answered as
-- cancelled at the first time, its context has ended and it is settled; one that is cancelled is
-- answered as it is and settled; one that has succeeded or failed is answered as it is, and nothing
-- is done.
abbrev pub IsCancellation : ℕ → Server → Task → Server × Option Task → Type 0
IsCancellation now s t (s', answer) =
    ((is_live t.status ≡ true)
      × (answer ≡ some (cancelled_at now t))
      × (contains s'.ended t.ctx ≡ true)
      × IsSettled t.id s')
    ⊎ (((t.status ≡ canceled) × (answer ≡ some t) × IsSettled t.id s')
        ⊎ (((t.status ≡ succeeded) ⊎ (t.status ≡ failed)) × (answer ≡ some t) × (s' ≡ s)))

handle_live :
    (now finished : ℕ) (ops : List Op) (s : Server) (t : Task)
    → All (Spares t.id) ops
    → IsSound t
    → lookup t.id s.store ≡ some t
    → is_live t.status ≡ true
    → IsCancellation now s t (handle_cancel_build t.id now (run ops) finished s)
unfolding handle_cancel_build cancel_update
handle_live now finished ops s t spare v h live =
    let t1 : Task = cancelled_at now t in
    let s1 : Server = record s { store = insert t.id t1 s.store; ended = t.ctx ∷ s.ended } in
    let sound : IsSound t1 = Moves-IsSound (cancelled now (ground (arith, live))) v in
    rw (cancel_live t.id now s t h live) (
      inl (
        live,
        refl,
        finish_task-ended t.id canceled [] (some context_canceled) finished t.ctx (run ops s1)
            (run-ended ops t.ctx s1 (head_contains t.ctx s.ended)),
        finish_task-IsSettled ops t.id finished s1 t1 spare sound
            (lookup-insert_self t.id t1 s.store) refl,
      ))

shut_cases :
    (st : Status) → is_live st ≡ false → (st ≡ canceled) ⊎ ((st ≡ succeeded) ⊎ (st ≡ failed))
shut_cases queued h = cc h
shut_cases running h = cc h
shut_cases succeeded h = inr (inl refl)
shut_cases failed h = inr (inr refl)
shut_cases canceled h = inl refl

not_canceled : (st : Status) → (st ≡ succeeded) ⊎ (st ≡ failed) → status_eq st canceled ≡ false
not_canceled st (inl e) = rw e refl
not_canceled st (inr e) = rw e refl

handle_shut :
    (now finished : ℕ) (ops : List Op) (s : Server) (t : Task)
    → All (Spares t.id) ops
    → IsSound t
    → lookup t.id s.store ≡ some t
    → is_live t.status ≡ false
    → IsCancellation now s t (handle_cancel_build t.id now (run ops) finished s)
unfolding handle_cancel_build
handle_shut now finished ops s t spare v h shut = elim (shut_cases t.status shut) [
  | inl c ↦
      rw (cancel_shut t.id now s t h shut)
        (rw c (inr (inl (refl, refl, finish_task-IsSettled ops t.id finished s t spare v h c))))
  | inr over ↦
      rw (cancel_shut t.id now s t h shut)
        (rw (not_canceled t.status over) (inr (inr (over, refl, refl))))
]

-- A cancellation of a sound task under its own id, where other goroutines take any steps between
-- its two critical sections, none of which adds a task under that id. A queued or running task is
-- answered as cancelled at the time of the first, its context has ended, and in the end the task is
-- gone or is cancelled with its end observed. So is in the end one that was cancelled before, which
-- is answered as it is. One that has succeeded or failed is answered as it is, and the handler does
-- nothing.
pub handle_cancel_build_lem :
    (now finished : ℕ) (ops : List Op) (s : Server) (t : Task)
    → All (Spares t.id) ops
    → IsSound t
    → lookup t.id s.store ≡ some t
    → IsCancellation now s t (handle_cancel_build t.id now (run ops) finished s)
handle_cancel_build_lem now finished ops s t spare v h = elim (Bool-cases (is_live t.status)) [
  | inl live ↦ handle_live now finished ops s t spare v h live
  | inr shut ↦ handle_shut now finished ops s t spare v h shut
]

-- An unknown build is answered with 404, and nothing changes.
pub handle_cancel_build-missing :
    (id : Text) (now finished : ℕ) (between : Server → Server) (s : Server)
    → lookup id s.store ≡ none
    → handle_cancel_build id now between finished s ≡ (s, none)
unfolding handle_cancel_build
handle_cancel_build-missing id now finished between s h = rw (cancel_missing id now s h)

-- finishTask on a build whose end was observed, or that was cancelled where it is to succeed or
-- fail, changes neither the table nor a counter: each build's end is counted once.
pub finish_task-settled :
    (id : Text) (st : Status) (ex : Map Text Text) (err : Option Text) (now : ℕ) (s : Server)
    (t : Task)
    → lookup id s.store ≡ some t
    → (t.observed ≡ true) ⊎ ((t.status ≡ canceled) × (st ≢ canceled))
    → finish_task id st ex err now s ≡ s
finish_task-settled id st ex err now s t h o = finish_shut id st ex err now s t h o
