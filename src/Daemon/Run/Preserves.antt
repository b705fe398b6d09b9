-- ===== src/Daemon/Run/Preserves.antt =====
-- internal/builddaemon/tasks.go: what the attempts of a task and its end keep, the task keeps.
use buildkit_service.Prelude.{
  Bool, ℕ, zero, suc, ◌≡◌, refl, sym, subst, ◌⊎◌, inl, inr, true, Option, none, some, List, [], ◌∷◌,
  Text, Bool-cases, Result, ok, err, arith,
}
use buildkit_service.Daemon.Task.{Task, Status, succeeded, failed, canceled, is_terminal, status_eq}
use buildkit_service.Daemon.Store.{get}
use buildkit_service.Daemon.Build.{
  BuildStep, is_deterministic_build_error, build_steps_for_image_type,
}
use buildkit_service.Daemon.Attempt.{Outcome, Run, done, starved, stuck, run_build_step_attempt}
use buildkit_service.Daemon.Run.{
  Env, World, Verdict, passes, cancels, fails, outcome_world, judge, ctx_ended, on_outcome, attempt,
  requeue, wait_retry_interval, retries, attempts, finish_world, on_verdict, prepare, on_prepared,
  run_steps, on_log, on_snapshot, build_image, run_body,
}

done_eq {ℓ} : {A : Type ℓ} {a b : A} → done a ≡ done b → a ≡ b
done_eq q = cc

-- The last statement of a task: finishTask in a world that satisfies `P`, with a terminal status.
pub record Finished (P : World → Type 0) (id : Text) (env : Env) (w : World) : Type 0 where
  pub last : World
  pub kept : P last
  pub status : Status
  pub error : Option Text
  pub terminal : is_terminal status ≡ true
  pub same : w ≡ finish_world id env status error last

-- A task that has nothing to build: it is not in the table, or it is cancelled.
abbrev pub Idle : Text → World → Type 0
Idle id w =
    (get id w.server.store ≡ none)
    ⊎ ((t : Task) × (get id w.server.store ≡ some t) × (t.status ≡ canceled))

module _ (P : World → Type 0) (id : Text) (env : Env) (fuel : ℕ)
    (keeps : (t : Task) (step : BuildStep) (w : World) (o : Outcome)
      → P w
      → run_build_step_attempt id t step env.at fuel w.next w.server w.pool ≡ done o
      → P (outcome_world w o))
    (requeues : (w : World) → P w → P (requeue id env w)) where
  More : (Text → World → Run (World × Verdict)) → Type 0
  More more = (e : Text) (w : World) (r : World × Verdict) → P w → more e w ≡ done r → P r.0

  judge-keeps :
      (ended : Bool) (w : World) (o : Outcome) (more : Text → World → Run (World × Verdict))
      (e : Option Text) (r : World × Verdict)
      → P (outcome_world w o)
      → More more
      → judge ended w o more e ≡ done r
      → P r.0
  unfolding judge More
  judge-keeps ended w o more none r p m h = subst (λ r. P r.0) (done_eq h) p
  judge-keeps ended w o more (some e) r p m h = elim (Bool-cases ended) [
    | inl c ↦ subst (λ r. P r.0) (done_eq (rw c at h)) p
    | inr c ↦ elim (Bool-cases (is_deterministic_build_error e)) [
      | inl d ↦ subst (λ r. P r.0) (done_eq (rw (c, d) at h)) p
      | inr d ↦ m e (outcome_world w o) r p (rw (c, d) at h)
    ]
  ]

  attempt-keeps :
      (t : Task) (step : BuildStep) (w : World) (more : Text → World → Run (World × Verdict))
      (r : World × Verdict)
      → P w
      → More more
      → attempt id t step env fuel w more ≡ done r
      → P r.0
  unfolding attempt
  attempt-keeps t step w more r p m h =
      by_run (run_build_step_attempt id t step env.at fuel w.next w.server w.pool) refl h
    where
      by_run :
          (x : Run Outcome)
          → run_build_step_attempt id t step env.at fuel w.next w.server w.pool ≡ x
          → on_outcome t env w more x ≡ done r
          → P r.0
      by_run starved e h = cc
      by_run stuck e h = cc
      by_run (done o) e h =
          judge-keeps (ctx_ended t env o) w o more o.error r (keeps t step w o p e) m h

  retries-keeps : (t : Task) (step : BuildStep) (left : ℕ) → More (retries id t step env fuel left)
  unfolding retries More
  retries-keeps t step zero e w r p h = subst (λ r. P r.0) (done_eq h) p
  retries-keeps t step (suc left) e w r p h =
      elim (Bool-cases (wait_retry_interval t.retry_interval (env.passed w.next))) [
        | inl c ↦
            attempt-keeps t step (requeue id env w) (retries id t step env fuel left) r
              (requeues w p) (retries-keeps t step left) (rw c at h)
        | inr c ↦ subst (λ r. P r.0) (done_eq (rw c at h)) (requeues w p)
      ]

  pub attempts-keeps :
      (t : Task) (step : BuildStep) (w : World) (r : World × Verdict)
      → P w
      → attempts id t step env fuel w ≡ done r
      → P r.0
  unfolding attempts
  attempts-keeps t step w r p h =
      attempt-keeps t step w (retries id t step env fuel t.retry) r p (retries-keeps t step t.retry)
        h

  finished :
      (w w' : World) (st : Status) (e : Option Text)
      → is_terminal st ≡ true
      → P w
      → done (finish_world id env st e w) ≡ done w'
      → Finished P id env w'
  finished w w' st e final p h = record {
    last = w;
    kept = p;
    status = st;
    error = e;
    terminal = final;
    same = sym (done_eq h);
  }

  on_verdict-Finished :
      (rest : World → Run World) (x : Run (World × Verdict)) (w' : World)
      → ((w : World) → P w → rest w ≡ done w' → Finished P id env w')
      → ((r : World × Verdict) → x ≡ done r → P r.0)
      → on_verdict id env rest x ≡ done w'
      → Finished P id env w'
  unfolding on_verdict
  on_verdict-Finished rest starved w' k p h = cc
  on_verdict-Finished rest stuck w' k p h = cc
  on_verdict-Finished rest (done (w, passes)) w' k p h = k w (p (w, passes) refl) h
  on_verdict-Finished rest (done (w, cancels)) w' k p h =
      finished w w' canceled (some env.ctx_error) refl (p (w, cancels) refl) h
  on_verdict-Finished rest (done (w, fails e)) w' k p h =
      finished w w' failed (some e) refl (p (w, fails e) refl) h

  run_steps-Finished :
      (t : Task) (steps : List BuildStep) (w w' : World)
      → P w
      → run_steps id t env fuel steps w ≡ done w'
      → Finished P id env w'
  unfolding run_steps
  run_steps-Finished t [] w w' p h = finished w w' succeeded none refl p h
  run_steps-Finished t (step ∷ steps) w w' p h =
      by_step (λ v q k. run_steps-Finished t steps v w' q k) (prepare env t step w.exporter) h
    where
      by_step :
          ((v : World) → P v → run_steps id t env fuel steps v ≡ done w' → Finished P id env w')
          → (x : Result Text BuildStep)
          → on_prepared id env w
              (λ ready.
                on_verdict id env (run_steps id t env fuel steps) (attempts id t ready env fuel w))
              x
            ≡ done w'
          → Finished P id env w'
      by_step later (err e) h = finished w w' failed (some e) refl p h
      by_step later (ok ready) h =
          on_verdict-Finished (run_steps id t env fuel steps) (attempts id t ready env fuel w) w'
            later (λ r e. attempts-keeps t ready w r p e) h

  pub run_body-Finished :
      (w w' : World)
      → P w
      → run_body id env fuel w ≡ done w'
      → ((w' ≡ w) × Idle id w) ⊎ Finished P id env w'
  unfolding run_body
  run_body-Finished w w' p h = by_snapshot (get id w.server.store) refl h
    where
      by_log :
          (t : Task) (x : Option Text) → on_log id t env fuel w x ≡ done w' → Finished P id env w'
      by_log t (some e) h = finished w w' failed (some e) refl p h
      by_log t none h =
          run_steps-Finished t (build_steps_for_image_type (build_image t) t.image_type) w w' p h

      by_snapshot :
          (x : Option Task)
          → get id w.server.store ≡ x
          → on_snapshot id env fuel w x ≡ done w'
          → ((w' ≡ w) × Idle id w) ⊎ Finished P id env w'
      by_snapshot none e h = inl (sym (done_eq h), inl e)
      by_snapshot (some t) e h = elim (Bool-cases (status_eq t.status canceled)) [
        | inl c ↦ inl (sym (done_eq (rw c at h)), inr (t, e, ground (arith, c)))
        | inr c ↦ inr (by_log t env.log_error (rw c at h))
      ]
