-- ===== src/Batch/Command/Progress.antt =====
-- internal/buildbatch/build_command_batch.go: a command always has a step to take until it is over,
-- and takes only so many.
use buildkit_service.Prelude.{
  ℕ, suc, ◌+◌, ◌-◌, ◌*◌, ◌≤◌, ◌<◌, ◌≡◌, refl, ap, Bool, true, false, not, ◌&&◌, ◌⊎◌, Option, none,
  some, List, [], ◌∷◌, Text, get_elem?, length, ltb, if◌then◌else◌, inl, inr, Bool-cases, arith,
}
use buildkit_service.Batch.Counters.{ResultEntry, upsert_result}
use buildkit_service.Batch.Specs.{BuildSpec}
use buildkit_service.Batch.Command.{
  Options, BuildTask, Command, admit_next, start_build, give_up, retry_task, store_entry, add_log,
  after_stored, on_stored, after_build, remove_at, built, next_round, Event, admitted,
  slot_acquired, wait_ended, spec_built, round_ended, interrupted, step, run_events,
}
use buildkit_service.Batch.Command.Sums.{sum_of, one_of, sum_of-append_one, sum_of-remove_at}

-- What the retries that a task has left may still cost.
abbrev later_work : Options → BuildTask → ℕ
later_work o t = (o.retry - t.attempt) * (length t.job.specs + 6)

abbrev running_work : Options → BuildTask → ℕ
running_work o t = later_work o t + length t.job.specs + 3

abbrev waiting_work : Options → BuildTask → ℕ
waiting_work o t = later_work o t + length t.job.specs + 4

abbrev pending_work : Options → BuildTask → ℕ
pending_work o t = later_work o t + length t.job.specs + 5

abbrev retry_work : Options → BuildTask → ℕ
retry_work o t = later_work o t + length t.job.specs + 6

-- A bound on the steps that a command may still take.
abbrev pub work : Options → Command → ℕ
work o c =
    sum_of (pending_work o) c.pending
    + one_of (waiting_work o) c.waiting
    + sum_of (running_work o) c.running
    + sum_of (retry_work o) c.retry_queue

abbrev is_some : Option BuildTask → Bool
is_some none = false
is_some (some t) = true

abbrev is_empty : List BuildTask → Bool
is_empty [] = true
is_empty (t ∷ ts) = false

-- The steps of the command itself that can happen; an interruption comes from outside.
abbrev pub enabled : Event → Command → Bool
enabled admitted c = not (is_empty c.pending) && not (is_some c.waiting)
enabled slot_acquired c = is_some c.waiting
enabled wait_ended c = is_some c.waiting && c.cancelled
enabled (spec_built i e put) c = is_some (get_elem? c.running i)
enabled round_ended c =
    is_empty c.pending
    && not (is_some c.waiting)
    && is_empty c.running
    && not (is_empty c.retry_queue)
enabled interrupted c = false

module _ (o : Options) where
  admit_next-work :
      (ts : List BuildTask) (w : Option BuildTask) (c : Command)
      → c.pending ≡ ts
      → c.waiting ≡ w
      → (not (is_empty ts) && not (is_some w)) ≡ true
      → work o (admit_next o ts w c) < work o c
  admit_next-work [] w c e f h = cc
  admit_next-work (t ∷ ts) (some w) c e f h = cc
  admit_next-work (t ∷ ts) none c e f h =
      ground (arith, ap (sum_of (pending_work o)) e, ap (one_of (waiting_work o)) f)

  start_build-work :
      (w : Option BuildTask) (c : Command)
      → c.waiting ≡ w
      → is_some w ≡ true
      → work o (start_build w c) < work o c
  start_build-work none c f h = cc
  start_build-work (some t) c f h =
      ground (arith, ap (one_of (waiting_work o)) f, sum_of-append_one (running_work o) c.running t)

  give_up-work :
      (w : Option BuildTask) (c : Command)
      → c.waiting ≡ w
      → (is_some w && c.cancelled) ≡ true
      → work o (give_up w c) < work o c
  give_up-work none c f h = cc
  give_up-work (some t) c f h = ground (arith, ap (one_of (waiting_work o)) f)

  add_log-work : (l : Option (Text × Text)) (c : Command) → work o (add_log l c) ≡ work o c
  add_log-work none c = refl
  add_log-work (some l) c = refl

  store_entry-work :
      (e : ResultEntry) (put : Option Text) (c : Command) → work o (store_entry e put c) ≡ work o c
  store_entry-work e none c = add_log-work (upsert_result e).0 c
  store_entry-work e (some f) c = add_log-work (upsert_result e).0 c

  fewer_specs :
      (t : BuildTask) (s : BuildSpec) (rest : List BuildSpec)
      → t.job.specs ≡ s ∷ rest
      → running_work o (record t { job = record t.job { specs = rest } }) < running_work o t
  fewer_specs t s rest e = rw e (grind arith)

  one_more :
      (t : BuildTask) (specs : List BuildSpec)
      → t.job.specs ≡ specs
      → ltb t.attempt o.retry ≡ true
      → retry_work o (retry_task t specs) < running_work o t
  one_more t specs e h =
      let next : o.retry - t.attempt ≡ suc (o.retry - suc t.attempt) = ground (arith, h) in
      rw (e, next) (grind arith)

  after_stored-work :
      (t : BuildTask) (s : BuildSpec) (rest : List BuildSpec) (e : ResultEntry) (c : Command)
      → t.job.specs ≡ s ∷ rest
      → work o (after_stored o t rest e c) < work o c + running_work o t
  after_stored-work t s [] e c f = omega arith
  after_stored-work t s (r ∷ rest) e c f = ground (
    arith,
    fewer_specs t s (r ∷ rest) f,
    sum_of-append_one (running_work o) c.running
        (record t { job = record t.job { specs = r ∷ rest } }),
  )

  on_stored-work :
      (t : BuildTask) (s : BuildSpec) (rest : List BuildSpec) (e : ResultEntry) (put : Option Text)
      (c : Command)
      → t.job.specs ≡ s ∷ rest
      → work o (on_stored o t rest e put c) < work o c + running_work o t
  on_stored-work t s rest e none c f = after_stored-work t s rest e c f
  on_stored-work t s rest e (some x) c f = omega arith

  after_build-work :
      (t : BuildTask) (specs : List BuildSpec) (e : ResultEntry) (put : Option Text) (c : Command)
      → t.job.specs ≡ specs
      → work o (after_build o t specs e put c) < work o c + running_work o t
  after_build-work t [] e put c f = omega arith
  after_build-work t (s ∷ rest) e put c f =
      elim (Bool-cases (not e.success && ltb t.attempt o.retry)) [
        | inl y ↦ rw y (
            ground (
              arith,
              one_more t (s ∷ rest) f (ground (arith, y)),
              sum_of-append_one (retry_work o) c.retry_queue (retry_task t (s ∷ rest)),
            ))
        | inr n ↦ rw n (
            omega (
              arith,
              on_stored-work t s rest e put (store_entry e put c) f,
              store_entry-work e put c,
            ))
      ]

  built-work :
      (t : Option BuildTask) (i : ℕ) (e : ResultEntry) (put : Option Text) (c : Command)
      → get_elem? c.running i ≡ t
      → is_some t ≡ true
      → work o (built o t i e put c) < work o c
  built-work none i e put c f h = cc
  built-work (some t) i e put c f h = omega (
    arith,
    after_build-work t t.job.specs e put (record c { running = remove_at i c.running }) refl,
    sum_of-remove_at (running_work o) c.running i t f,
  )

  one_less :
      (ts : List BuildTask) → sum_of (retry_work o) ts ≡ sum_of (pending_work o) ts + length ts
  one_less [] = omega arith
  one_less (t ∷ ts) = omega (arith, one_less ts)

  next_round-work :
      (ts : List BuildTask) (w : Option BuildTask) (rs qs : List BuildTask) (c : Command)
      → c.pending ≡ ts
      → c.waiting ≡ w
      → c.running ≡ rs
      → c.retry_queue ≡ qs
      → (is_empty ts && not (is_some w) && is_empty rs && not (is_empty qs)) ≡ true
      → work o (next_round ts w rs c) < work o c
  next_round-work [] none [] [] c e f g q h = cc
  next_round-work [] none [] (r ∷ qs) c e f g q h =
      let some_left : 0 < length c.retry_queue = rw q (omega arith) in
      ground (arith, ap (sum_of (pending_work o)) e, one_less c.retry_queue, some_left)
  next_round-work [] none (r ∷ rs) qs c e f g q h = cc
  next_round-work [] (some w) rs qs c e f g q h = cc
  next_round-work (t ∷ ts) w rs qs c e f g q h = cc

  pub step-work : (e : Event) (c : Command) → enabled e c ≡ true → work o (step o e c) < work o c
  unfolding step
  step-work admitted c h = admit_next-work c.pending c.waiting c refl refl h
  step-work slot_acquired c h = start_build-work c.waiting c refl h
  step-work wait_ended c h = give_up-work c.waiting c refl h
  step-work (spec_built i e put) c h = built-work (get_elem? c.running i) i e put c refl h
  step-work round_ended c h =
      next_round-work c.pending c.waiting c.running c.retry_queue c refl refl refl refl h
  step-work interrupted c h = cc

-- Every event of a list happens: it is enabled where it comes, or an interruption.
abbrev pub Happens : Options → List Event → Command → Type 0
Happens o [] c = Unit {0}
Happens o (e ∷ es) c = ((enabled e c ≡ true) ⊎ (e ≡ interrupted)) × Happens o es (step o e c)

abbrev is_own : Event → Bool
is_own interrupted = false
is_own _ = true

abbrev pub own_events : List Event → ℕ
own_events [] = 0
own_events (e ∷ es) = if is_own e then suc (own_events es) else own_events es

-- However the goroutines interleave, and whatever interrupts them, a command takes no more steps
-- than `work` counts at its start.
pub run_events-bounded :
    (o : Options) (es : List Event) (c : Command)
    → Happens o es c
    → own_events es + work o (run_events o es c) ≤ work o c
unfolding run_events
run_events-bounded o [] c h = omega arith
run_events-bounded o (e ∷ es) c (inl can, rest) =
    ground (arith, step-work o e c can, run_events-bounded o es (step o e c) rest)
run_events-bounded o (e ∷ es) c (inr out, rest) =
    ground (arith, own out, same out, run_events-bounded o es (step o e c) rest)
  where
    own : e ≡ interrupted → is_own e ≡ false
    own p = rw p

    same : e ≡ interrupted → work o (step o e c) ≡ work o c
    same p = rw p refl
