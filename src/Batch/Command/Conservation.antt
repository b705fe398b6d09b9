-- ===== src/Batch/Command/Conservation.antt =====
-- internal/buildbatch/build_command_batch.go: no job of a command is lost or doubled.
use buildkit_service.Prelude.{
  ℕ, ◌+◌, ◌≤◌, ◌≡◌, refl, ap, ◌∙◌, Bool, true, false, not, ◌&&◌, Option, none, some, List, [], ◌∷◌,
  Text, get_elem?, length, ltb, if◌then◌else◌, inl, inr, Bool-cases, arith,
}
use buildkit_service.Batch.Counters.{BuildOutcomeCounters, ResultEntry, upsert_result}
use buildkit_service.Batch.Specs.{BuildSpec, BuildJob}
use buildkit_service.Batch.Command.{
  Options, BuildTask, TaskResult, Command, first_tasks, start_command, admit_next, start_build,
  give_up, finish_task, retry_task, store_entry, add_log, abort_task, after_stored, on_stored,
  after_build, remove_at, built, next_round, Event, admitted, slot_acquired, wait_ended, spec_built,
  round_ended, interrupted, step, run_events,
}
use buildkit_service.Batch.Command.Sums.{
  sum_of, one_of, sum_of-append, sum_of-append_one, sum_of-remove_at,
}

-- 1 for a task, or a result, whose key passes a test.
abbrev pub task_weight : (Text → Bool) → BuildTask → ℕ
task_weight p t = if p t.job.key then 1 else 0

abbrev pub job_weight : (Text → Bool) → BuildJob → ℕ
job_weight p j = if p j.key then 1 else 0

abbrev pub result_weight : (Text → Bool) → TaskResult → ℕ
result_weight p r = if p r.target then 1 else 0

-- How many tasks with a key that passes the test the command has, wherever they are.
abbrev pub held : (Text → Bool) → Command → ℕ
held p c =
    sum_of (task_weight p) c.pending
    + one_of (task_weight p) c.waiting
    + sum_of (task_weight p) c.running
    + sum_of (task_weight p) c.retry_queue
    + sum_of (result_weight p) c.results
    + sum_of (task_weight p) c.dropped
    + sum_of (task_weight p) c.aborted

module _ (p : Text → Bool) (o : Options) where
  admit_next-held :
      (ts : List BuildTask) (w : Option BuildTask) (c : Command)
      → c.pending ≡ ts
      → c.waiting ≡ w
      → held p (admit_next o ts w c) ≡ held p c
  admit_next-held [] w c e f = refl
  admit_next-held (t ∷ ts) (some w) c e f = refl
  admit_next-held (t ∷ ts) none c e f = ground (
    arith,
    ap (sum_of (task_weight p)) e,
    ap (one_of (task_weight p)) f,
    sum_of-append (task_weight p) c.dropped (t ∷ ts),
  )

  start_build-held :
      (w : Option BuildTask) (c : Command) → c.waiting ≡ w → held p (start_build w c) ≡ held p c
  start_build-held none c f = refl
  start_build-held (some t) c f =
      ground (arith, ap (one_of (task_weight p)) f, sum_of-append_one (task_weight p) c.running t)

  give_up-held :
      (w : Option BuildTask) (c : Command) → c.waiting ≡ w → held p (give_up w c) ≡ held p c
  give_up-held none c f = refl
  give_up-held (some t) c f = ground (
    arith,
    ap (one_of (task_weight p)) f,
    sum_of-append (task_weight p) c.dropped (t ∷ c.pending),
  )

  finish_task-held :
      (t : BuildTask) (ip : Text) (s : Bool) (c : Command)
      → held p (finish_task o t ip s c) ≡ held p c + task_weight p t
  finish_task-held t ip s c = ground (
    arith,
    sum_of-append_one (result_weight p) c.results
        (record { target = t.job.key; node_ip = ip; success = s }),
  )

  add_log-held : (l : Option (Text × Text)) (c : Command) → held p (add_log l c) ≡ held p c
  add_log-held none c = refl
  add_log-held (some l) c = refl

  store_entry-held :
      (e : ResultEntry) (put : Option Text) (c : Command) → held p (store_entry e put c) ≡ held p c
  store_entry-held e none c = add_log-held (upsert_result e).0 c
  store_entry-held e (some f) c = add_log-held (upsert_result e).0 c

  abort_task-held :
      (t : BuildTask) (e : Text) (c : Command)
      → held p (abort_task t e c) ≡ held p c + task_weight p t
  abort_task-held t e c = ground (arith, sum_of-append_one (task_weight p) c.aborted t)

  after_stored-held :
      (t : BuildTask) (rest : List BuildSpec) (e : ResultEntry) (c : Command)
      → held p (after_stored o t rest e c) ≡ held p c + task_weight p t
  after_stored-held t [] e c = finish_task-held t e.node_ip e.success c
  after_stored-held t (s ∷ rest) e c = elim (Bool-cases e.success) [
    | inl y ↦ rw y (
        ground (
          arith,
          sum_of-append_one (task_weight p) c.running
              (record t { job = record t.job { specs = s ∷ rest } }),
        ))
    | inr n ↦ rw n (finish_task-held t e.node_ip false c)
  ]

  on_stored-held :
      (t : BuildTask) (rest : List BuildSpec) (e : ResultEntry) (put : Option Text) (c : Command)
      → held p (on_stored o t rest e put c) ≡ held p c + task_weight p t
  on_stored-held t rest e none c = after_stored-held t rest e c
  on_stored-held t rest e (some f) c = abort_task-held t f c

  after_build-held :
      (t : BuildTask) (specs : List BuildSpec) (e : ResultEntry) (put : Option Text) (c : Command)
      → held p (after_build o t specs e put c) ≡ held p c + task_weight p t
  after_build-held t [] e put c = finish_task-held t [] true c
  after_build-held t (s ∷ rest) e put c =
      elim (Bool-cases (not e.success && ltb t.attempt o.retry)) [
        | inl y ↦ rw y (
            ground
              (arith, sum_of-append_one (task_weight p) c.retry_queue (retry_task t (s ∷ rest))))
        | inr n ↦ rw n (
            on_stored-held t rest e put (store_entry e put c)
            ∙ ap (λ m. m + task_weight p t) (store_entry-held e put c))
      ]

  built-held :
      (t : Option BuildTask) (i : ℕ) (e : ResultEntry) (put : Option Text) (c : Command)
      → get_elem? c.running i ≡ t
      → held p (built o t i e put c) ≡ held p c
  built-held none i e put c f = refl
  built-held (some t) i e put c f =
      after_build-held t t.job.specs e put (record c { running = remove_at i c.running })
      ∙ omega (arith, sum_of-remove_at (task_weight p) c.running i t f)

  next_round-held :
      (ts : List BuildTask) (w : Option BuildTask) (rs : List BuildTask) (c : Command)
      → c.pending ≡ ts
      → held p (next_round ts w rs c) ≡ held p c
  next_round-held [] none [] c e = ground (arith, ap (sum_of (task_weight p)) e)
  next_round-held [] none (r ∷ rs) c e = refl
  next_round-held [] (some w) rs c e = refl
  next_round-held (t ∷ ts) w rs c e = refl

  step-held : (e : Event) (c : Command) → held p (step o e c) ≡ held p c
  unfolding step
  step-held admitted c = admit_next-held c.pending c.waiting c refl refl
  step-held slot_acquired c = start_build-held c.waiting c refl
  step-held wait_ended c = give_up-held c.waiting c refl
  step-held (spec_built i e put) c = built-held (get_elem? c.running i) i e put c refl
  step-held round_ended c = next_round-held c.pending c.waiting c.running c refl
  step-held interrupted c = refl

  run_events-held : (es : List Event) (c : Command) → held p (run_events o es c) ≡ held p c
  unfolding run_events
  run_events-held [] c = refl
  run_events-held (e ∷ es) c = run_events-held es (step o e c) ∙ step-held e c

first_tasks-weight :
    (p : Text → Bool) (jobs : List BuildJob)
    → sum_of (task_weight p) (first_tasks jobs) ≡ sum_of (job_weight p) jobs
unfolding first_tasks
first_tasks-weight p [] = refl
first_tasks-weight p (j ∷ js) = omega (arith, first_tasks-weight p js)

-- Whatever happens, in any interleaving, every job is in one place and as often as at the start: to
-- be started, at its wait, being built, to be tried again, with a result, dropped or aborted.
pub run_events-conserved :
    (p : Text → Bool) (o : Options) (es : List Event) (jobs : List BuildJob)
    (k : BuildOutcomeCounters)
    → held p (run_events o es (start_command jobs k)) ≡ sum_of (job_weight p) jobs
unfolding start_command
run_events-conserved p o es jobs k =
    run_events-held p o es (start_command jobs k) ∙ omega (arith, first_tasks-weight p jobs)

every : Text → Bool
every key = true

sum_of-length {ℓ} : {A : Type ℓ} (xs : List A) → sum_of (λ _. 1) xs ≡ length xs
sum_of-length [] = refl
sum_of-length (x ∷ xs) = omega (arith, sum_of-length xs)

-- A send to the retry queue, whose capacity is the number of the jobs, finds a place: what is
-- queued and what still runs are never more than the jobs.
pub retry_queue-fits :
    (o : Options) (es : List Event) (jobs : List BuildJob) (k : BuildOutcomeCounters)
    → length (run_events o es (start_command jobs k)).retry_queue
        + length (run_events o es (start_command jobs k)).running
      ≤ length jobs
unfolding every
retry_queue-fits o es jobs k =
    let c = run_events o es (start_command jobs k) in
    omega (
      arith,
      run_events-conserved every o es jobs k,
      sum_of-length c.retry_queue,
      sum_of-length c.running,
      sum_of-length jobs,
    )
