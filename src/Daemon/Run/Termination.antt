-- ===== src/Daemon/Run/Termination.antt =====
-- internal/builddaemon/tasks.go: runBuildTask returns.
use buildkit_service.Prelude.{
  Bool, ℕ, zero, suc, ◌<◌, ◌≡◌, ◌≢◌, refl, Option, none, some, List, [], ◌∷◌, Text, All, length,
  Bool-cases, Result, ok, err, inl, inr,
}
use buildkit_service.Daemon.Task.{Task, canceled, status_eq}
use buildkit_service.Daemon.Store.{get}
use buildkit_service.Daemon.Lifecycle.{Server}
use buildkit_service.Daemon.Build.{
  BuildStep, is_deterministic_build_error, build_steps_for_image_type,
}
use buildkit_service.Daemon.Pool.{AddrPool}
use buildkit_service.Daemon.Attempt.{Outcome, Run, done, starved, stuck, run_build_step_attempt}
use buildkit_service.Daemon.Attempt.Ending.{
  KnownSlot, KnownAddrs, run_build_step_attempt-Known, run_build_step_attempt-ends,
}
use buildkit_service.Daemon.Run.{
  Env, World, Verdict, passes, cancels, fails, outcome_world, judge, ctx_ended, on_outcome, attempt,
  requeue, wait_retry_interval, retries, attempts, on_verdict, prepare, on_prepared, run_steps,
  on_log, on_snapshot, build_image, run_body, close_after, run_build_task,
}
use buildkit_service.Daemon.Run.Preserves.{attempts-keeps}

module _ (us : List Text) (id : Text) (env : Env) (fuel : ℕ)
    (known : (j : ℕ) → KnownAddrs us (env.at j).resolved) (enough : length us < fuel) where
  Known : World → Type 0
  Known w = All (KnownSlot us) w.pool.slots

  keeps :
      (t : Task) (step : BuildStep) (w : World) (o : Outcome)
      → Known w
      → run_build_step_attempt id t step env.at fuel w.next w.server w.pool ≡ done o
      → Known (outcome_world w o)
  unfolding Known
  keeps t step w o p e =
      run_build_step_attempt-Known us id t step env.at fuel w.next w.server w.pool o known p e

  Fed : (Text → World → Run (World × Verdict)) → Type 0
  Fed more = (e : Text) (w : World) → Known w → more e w ≢ starved

  judge-Fed :
      (ended : Bool) (w : World) (o : Outcome) (more : Text → World → Run (World × Verdict))
      (e : Option Text)
      → Known (outcome_world w o)
      → Fed more
      → judge ended w o more e ≢ starved
  unfolding judge Fed
  judge-Fed ended w o more none p m h = cc
  judge-Fed ended w o more (some e) p m h = elim (Bool-cases ended) [
    | inl c ↦ cc (rw c at h)
    | inr c ↦ elim (Bool-cases (is_deterministic_build_error e)) [
      | inl d ↦ cc (rw (c, d) at h)
      | inr d ↦ m e (outcome_world w o) p (rw (c, d) at h)
    ]
  ]

  attempt-Fed :
      (t : Task) (step : BuildStep) (w : World) (more : Text → World → Run (World × Verdict))
      → Known w
      → Fed more
      → attempt id t step env fuel w more ≢ starved
  unfolding attempt Known
  attempt-Fed t step w more p m h =
      by_run (run_build_step_attempt id t step env.at fuel w.next w.server w.pool) refl h
    where
      by_run :
          (x : Run Outcome)
          → run_build_step_attempt id t step env.at fuel w.next w.server w.pool ≡ x
          → on_outcome t env w more x ≢ starved
      by_run starved e h =
          run_build_step_attempt-ends us id t step env.at fuel w.next w.server w.pool known p enough
            e
      by_run stuck e h = cc
      by_run (done o) e h =
          judge-Fed (ctx_ended t env o) w o more o.error (keeps t step w o p e) m h

  retries-Fed : (t : Task) (step : BuildStep) (left : ℕ) → Fed (retries id t step env fuel left)
  unfolding retries Fed Known
  retries-Fed t step zero e w p h = cc
  retries-Fed t step (suc left) e w p h =
      elim (Bool-cases (wait_retry_interval t.retry_interval (env.passed w.next))) [
        | inl c ↦
            attempt-Fed t step (requeue id env w) (retries id t step env fuel left) p
              (retries-Fed t step left) (rw c at h)
        | inr c ↦ cc (rw c at h)
      ]

  attempts-Fed :
      (t : Task) (step : BuildStep) (w : World) → Known w → attempts id t step env fuel w ≢ starved
  unfolding attempts
  attempts-Fed t step w p h =
      attempt-Fed t step w (retries id t step env fuel t.retry) p (retries-Fed t step t.retry) h

  on_verdict-Fed :
      (rest : World → Run World) (x : Run (World × Verdict))
      → ((r : World × Verdict) → x ≡ done r → rest r.0 ≢ starved)
      → x ≢ starved
      → on_verdict id env rest x ≢ starved
  unfolding on_verdict
  on_verdict-Fed rest starved k n h = n refl
  on_verdict-Fed rest stuck k n h = cc
  on_verdict-Fed rest (done (w, passes)) k n h = k (w, passes) refl h
  on_verdict-Fed rest (done (w, cancels)) k n h = cc
  on_verdict-Fed rest (done (w, fails e)) k n h = cc

  run_steps-Fed :
      (t : Task) (steps : List BuildStep) (w : World)
      → Known w
      → run_steps id t env fuel steps w ≢ starved
  unfolding run_steps Known
  run_steps-Fed t [] w p h = cc
  run_steps-Fed t (step ∷ steps) w p h =
      by_step (λ v q. run_steps-Fed t steps v q) (prepare env t step w.exporter) h
    where
      by_step :
          ((v : World) → Known v → run_steps id t env fuel steps v ≢ starved)
          → (x : Result Text BuildStep)
          → on_prepared id env w
              (λ ready.
                on_verdict id env (run_steps id t env fuel steps) (attempts id t ready env fuel w))
              x
            ≢ starved
      by_step later (err e) h = cc
      by_step later (ok ready) h =
          on_verdict-Fed (run_steps id t env fuel steps) (attempts id t ready env fuel w)
            (λ r e. later r.0 (attempts-keeps Known id env fuel keeps (λ w p. p) t ready w r p e))
            (attempts-Fed t ready w p) h

  run_body-Fed : (w : World) → Known w → run_body id env fuel w ≢ starved
  unfolding run_body
  run_body-Fed w p h = by_snapshot (get id w.server.store) h
    where
      by_log : (t : Task) (x : Option Text) → on_log id t env fuel w x ≢ starved
      by_log t (some e) h = cc
      by_log t none h =
          run_steps-Fed t (build_steps_for_image_type (build_image t) t.image_type) w p h

      by_snapshot : (x : Option Task) → on_snapshot id env fuel w x ≢ starved
      by_snapshot none h = cc
      by_snapshot (some t) h = elim (Bool-cases (status_eq t.status canceled)) [
        | inl c ↦ cc (rw c at h)
        | inr c ↦ by_log t env.log_error (rw c at h)
      ]

close_after-starved :
    (id : Text) (env : Env) (x : Run World) → x ≢ starved → close_after id env x ≢ starved
close_after-starved id env (done w) n h = cc
close_after-starved id env starved n h = n refl
close_after-starved id env stuck n h = cc

-- If the pool and every resolution keep to a list of addresses, then runBuildTask returns once
-- each attempt may make more rounds than the list is long, unless a walk along the ring does not
-- end.
pub run_build_task-ends :
    (us : List Text) (id : Text) (env : Env) (fuel : ℕ) (s : Server) (p : AddrPool)
    → ((j : ℕ) → KnownAddrs us (env.at j).resolved)
    → All (KnownSlot us) p.slots
    → length us < fuel
    → run_build_task id env fuel s p ≢ starved
unfolding run_build_task Known
run_build_task-ends us id env fuel s p known h enough =
    let start : World = record { server = s; pool = p; next = 0; events = []; exporter = [] } in
    close_after-starved id env (run_body id env fuel start)
      (run_body-Fed us id env fuel known enough start h)
