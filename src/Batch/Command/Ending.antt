-- ===== src/Batch/Command/Ending.antt =====
-- internal/buildbatch/build_command_batch.go: what it means that a command returns no error.
use buildkit_service.Prelude.{
  ℕ, ◌≡◌, refl, ap, Bool, true, false, not, ◌&&◌, ◌||◌, Option, none, some, List, [], ◌∷◌, Text,
  All, All-append, get_elem?, ltb, if◌then◌else◌, inl, inr, Bool-cases, Option-cases, arith,
}
use buildkit_service.Batch.Counters.{BuildOutcomeCounters, ResultEntry, upsert_result}
use buildkit_service.Batch.Specs.{BuildSpec, BuildJob}
use buildkit_service.Batch.Command.{
  Options, BuildTask, TaskResult, Command, start_command, break_at, admit_next, start_build,
  give_up, finish_task, store_entry, add_log, abort_task, after_stored, on_stored, after_build,
  remove_at, built, next_round, Event, admitted, slot_acquired, wait_ended, spec_built, round_ended,
  interrupted, step, run_events, IsOver, command_error,
}
use buildkit_service.Batch.Command.Sums.{sum_of}
use buildkit_service.Batch.Command.Conservation.{
  task_weight, job_weight, result_weight, run_events-conserved,
}

abbrev pub Succeeded : TaskResult → Type 0
Succeeded r = r.success ≡ true

-- A command that did not fail has only good results and lost none; one that was not cancelled
-- either has dropped no task.
pub record Honest (failed cancelled : Bool) (results : List TaskResult) (fatal_err : Option Text)
    (aborted dropped : List BuildTask) : Type 0 where
  pub good : failed ≡ false → All Succeeded results
  pub no_fatal : failed ≡ false → fatal_err ≡ none
  pub none_aborted : failed ≡ false → aborted ≡ []
  pub none_dropped : failed ≡ false → cancelled ≡ false → dropped ≡ []

abbrev pub IsHonest : Command → Type 0
IsHonest c = Honest c.failed c.cancelled c.results c.fatal_err c.aborted c.dropped

module _ (o : Options) where
  break_at-IsHonest :
      (t : BuildTask) (ts : List BuildTask) (c : Command)
      → ((c.failed && o.failfast) || c.cancelled) ≡ true
      → IsHonest c
      → IsHonest (break_at t ts c)
  break_at-IsHonest t ts c why v = record {
    good = v.good;
    no_fatal = v.no_fatal;
    none_aborted = v.none_aborted;
    none_dropped = λ f n. cc (bad f n);
  }
    where
      bad : c.failed ≡ false → c.cancelled ≡ false → false ≡ true
      bad f n = ground (arith, why, f, n)

  admit_next-IsHonest :
      (ts : List BuildTask) (w : Option BuildTask) (c : Command)
      → IsHonest c
      → IsHonest (admit_next o ts w c)
  admit_next-IsHonest [] w c v = v
  admit_next-IsHonest (t ∷ ts) (some w) c v = v
  admit_next-IsHonest (t ∷ ts) none c v =
      elim (Bool-cases ((c.failed && o.failfast) || c.cancelled)) [
        | inl y ↦ rw y (break_at-IsHonest t ts c y v)
        | inr n ↦ rw n v
      ]

  start_build-IsHonest :
      (w : Option BuildTask) (c : Command) → IsHonest c → IsHonest (start_build w c)
  start_build-IsHonest none c v = v
  start_build-IsHonest (some t) c v = v

  give_up-IsHonest : (w : Option BuildTask) (c : Command) → IsHonest c → IsHonest (give_up w c)
  give_up-IsHonest none c v = v
  give_up-IsHonest (some t) c v = by_test c.cancelled refl
    where
      by_test : (b : Bool) → c.cancelled ≡ b → IsHonest (if b then break_at t c.pending c else c)
      by_test true e = break_at-IsHonest t c.pending c (ground (arith, e)) v
      by_test false e = v

  finish_task-IsHonest :
      (t : BuildTask) (ip : Text) (s : Bool) (c : Command)
      → IsHonest c
      → IsHonest (finish_task o t ip s c)
  finish_task-IsHonest t ip true c v = record {
    good = λ f. All-append Succeeded c.results _ (v.good f, (refl, tt));
    no_fatal = v.no_fatal;
    none_aborted = v.none_aborted;
    none_dropped = v.none_dropped;
  }
  finish_task-IsHonest t ip false c v = record {
    good = λ f. cc;
    no_fatal = λ f. cc;
    none_aborted = λ f. cc;
    none_dropped = λ f. cc;
  }

  add_log-IsHonest : (l : Option (Text × Text)) (c : Command) → IsHonest c → IsHonest (add_log l c)
  add_log-IsHonest none c v = v
  add_log-IsHonest (some l) c v = v

  store_entry-IsHonest :
      (e : ResultEntry) (put : Option Text) (c : Command)
      → IsHonest c
      → IsHonest (store_entry e put c)
  store_entry-IsHonest e none c v = add_log-IsHonest (upsert_result e).0 c v
  store_entry-IsHonest e (some f) c v = add_log-IsHonest (upsert_result e).0 c v

  abort_task-IsHonest : (t : BuildTask) (e : Text) (c : Command) → IsHonest (abort_task t e c)
  abort_task-IsHonest t e c = record {
    good = λ f. cc;
    no_fatal = λ f. cc;
    none_aborted = λ f. cc;
    none_dropped = λ f. cc;
  }

  after_stored-IsHonest :
      (t : BuildTask) (rest : List BuildSpec) (e : ResultEntry) (c : Command)
      → IsHonest c
      → IsHonest (after_stored o t rest e c)
  after_stored-IsHonest t [] e c v = finish_task-IsHonest t e.node_ip e.success c v
  after_stored-IsHonest t (s ∷ rest) e c v = elim (Bool-cases e.success) [
    | inl y ↦ rw y v
    | inr n ↦ rw n (finish_task-IsHonest t e.node_ip false c v)
  ]

  on_stored-IsHonest :
      (t : BuildTask) (rest : List BuildSpec) (e : ResultEntry) (put : Option Text) (c : Command)
      → IsHonest c
      → IsHonest (on_stored o t rest e put c)
  on_stored-IsHonest t rest e none c v = after_stored-IsHonest t rest e c v
  on_stored-IsHonest t rest e (some f) c v = abort_task-IsHonest t f c

  after_build-IsHonest :
      (t : BuildTask) (specs : List BuildSpec) (e : ResultEntry) (put : Option Text) (c : Command)
      → IsHonest c
      → IsHonest (after_build o t specs e put c)
  after_build-IsHonest t [] e put c v = finish_task-IsHonest t [] true c v
  after_build-IsHonest t (s ∷ rest) e put c v =
      elim (Bool-cases (not e.success && ltb t.attempt o.retry)) [
        | inl y ↦ rw y v
        | inr n ↦
            rw n (
              on_stored-IsHonest t rest e put (store_entry e put c)
                (store_entry-IsHonest e put c v))
      ]

  built-IsHonest :
      (t : Option BuildTask) (i : ℕ) (e : ResultEntry) (put : Option Text) (c : Command)
      → IsHonest c
      → IsHonest (built o t i e put c)
  built-IsHonest none i e put c v = v
  built-IsHonest (some t) i e put c v =
      after_build-IsHonest t t.job.specs e put (record c { running = remove_at i c.running }) v

  next_round-IsHonest :
      (ts : List BuildTask) (w : Option BuildTask) (rs : List BuildTask) (c : Command)
      → IsHonest c
      → IsHonest (next_round ts w rs c)
  next_round-IsHonest [] none [] c v = v
  next_round-IsHonest [] none (r ∷ rs) c v = v
  next_round-IsHonest [] (some w) rs c v = v
  next_round-IsHonest (t ∷ ts) w rs c v = v

  step-IsHonest : (e : Event) (c : Command) → IsHonest c → IsHonest (step o e c)
  unfolding step
  step-IsHonest admitted c v = admit_next-IsHonest c.pending c.waiting c v
  step-IsHonest slot_acquired c v = start_build-IsHonest c.waiting c v
  step-IsHonest wait_ended c v = give_up-IsHonest c.waiting c v
  step-IsHonest (spec_built i e put) c v = built-IsHonest (get_elem? c.running i) i e put c v
  step-IsHonest round_ended c v = next_round-IsHonest c.pending c.waiting c.running c v
  step-IsHonest interrupted c v = record {
    good = v.good;
    no_fatal = v.no_fatal;
    none_aborted = v.none_aborted;
    none_dropped = λ f n. cc;
  }

  run_events-IsHonest : (es : List Event) (c : Command) → IsHonest c → IsHonest (run_events o es c)
  unfolding run_events
  run_events-IsHonest [] c v = v
  run_events-IsHonest (e ∷ es) c v = run_events-IsHonest es (step o e c) (step-IsHonest e c v)

start_command-IsHonest :
    (jobs : List BuildJob) (k : BuildOutcomeCounters) → IsHonest (start_command jobs k)
unfolding start_command
start_command-IsHonest jobs k = record {
  good = λ f. tt;
  no_fatal = λ f. refl;
  none_aborted = λ f. refl;
  none_dropped = λ f n. refl;
}

no_failure : (c : Command) → IsHonest c → command_error c ≡ none → c.failed ≡ false
unfolding command_error
no_failure c v e = elim (Option-cases c.fatal_err) [
  | inl n ↦ ground (arith, (rw n at e))
  | inr (f, s) ↦ cc (rw s at e)
]

-- A command that is over, was not cancelled and returns nil has exactly one result for every job,
-- and each is a success.
pub command_error-none :
    (p : Text → Bool) (o : Options) (es : List Event) (jobs : List BuildJob)
    (k : BuildOutcomeCounters)
    → IsOver (run_events o es (start_command jobs k))
    → command_error (run_events o es (start_command jobs k)) ≡ none
    → (run_events o es (start_command jobs k)).cancelled ≡ false
    → (sum_of (result_weight p) (run_events o es (start_command jobs k)).results
        ≡ sum_of (job_weight p) jobs)
      × All Succeeded (run_events o es (start_command jobs k)).results
command_error-none p o es jobs k over quiet running =
    let c = run_events o es (start_command jobs k) in
    let v = run_events-IsHonest o es (start_command jobs k) (start_command-IsHonest jobs k) in
    let fine = no_failure c v quiet in
    (
      ground (
        arith,
        run_events-conserved p o es jobs k,
        ap (sum_of (task_weight p)) over.no_pending,
        ap (sum_of (task_weight p)) over.no_running,
        ap (sum_of (task_weight p)) over.no_retry,
        over.no_waiting,
        ap (sum_of (task_weight p)) (v.none_dropped fine running),
        ap (sum_of (task_weight p)) (v.none_aborted fine),
      ),
      v.good fine,
    )
