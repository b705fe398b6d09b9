-- ===== src/Daemon/Run/Verdicts.antt =====
-- internal/builddaemon/tasks.go: what the attempts at a step of a task come to.
use buildkit_service.Prelude.{
  ℕ, zero, suc, ◌≡◌, refl, subst, ◌⊎◌, inl, inr, true, false, Option, none, some, Text, Bool-cases,
}
use buildkit_service.Daemon.Task.{Task}
use buildkit_service.Daemon.Build.{BuildStep, is_deterministic_build_error}
use buildkit_service.Daemon.Attempt.{Outcome, Run, done, starved, stuck, run_build_step_attempt}
use buildkit_service.Daemon.Run.{
  Env, World, Verdict, passes, cancels, fails, outcome_world, judge, ctx_ended, on_outcome, attempt,
  requeue, wait_retry_interval, retries, attempts,
}

done_eq {ℓ} : {A : Type ℓ} {a b : A} → done a ≡ done b → a ≡ b
done_eq q = cc

module _ (id : Text) (env : Env) (fuel : ℕ) (t : Task) where
  -- The world after an attempt at a step that returned this error, or none.
  abbrev pub Attempted : BuildStep → World → Option Text → Type 0
  Attempted step w e =
      (before : World) × (o : Outcome) × (run_build_step_attempt id t step env.at fuel before.next
          before.server before.pool
        ≡ done o)
      × (w ≡ outcome_world before o)
      × (o.error ≡ e)

  -- The world after an attempt that failed when its context had ended.
  abbrev pub EndedIn : BuildStep → World → Type 0
  EndedIn step w =
      (before : World) × (o : Outcome) × (e : Text) × (run_build_step_attempt id t step env.at fuel
          before.next before.server before.pool
        ≡ done o)
      × (w ≡ outcome_world before o)
      × (o.error ≡ some e)
      × (ctx_ended t env o ≡ true)

  -- The world after a wait for a retry that its context ended.
  abbrev pub GaveUp : World → Type 0
  GaveUp w =
      (v : World) × (w ≡ requeue id env v)
      × (wait_retry_interval t.retry_interval (env.passed v.next) ≡ false)

  -- What a step comes to: it passes where its last attempt returned no error, it fails with the
  -- error of its last attempt, and it is cancelled where the context ended.
  abbrev pub Judged : BuildStep → World → Verdict → Type 0
  Judged step w passes = Attempted step w none
  Judged step w (fails e) = Attempted step w (some e)
  Judged step w cancels = EndedIn step w ⊎ GaveUp w

  More : BuildStep → (Text → World → Run (World × Verdict)) → Type 0
  More step more =
      (e : Text) (w : World) (r : World × Verdict)
      → Attempted step w (some e)
      → more e w ≡ done r
      → Judged step r.0 r.1

  transported-Judged :
      (step : BuildStep) (r r' : World × Verdict)
      → r ≡ r'
      → Judged step r.0 r.1
      → Judged step r'.0 r'.1
  transported-Judged step r r' e j = subst (λ x. Judged step x.0 x.1) e j

  judge-Judged :
      (step : BuildStep) (w : World) (o : Outcome) (more : Text → World → Run (World × Verdict))
      (e : Option Text) (r : World × Verdict)
      → run_build_step_attempt id t step env.at fuel w.next w.server w.pool ≡ done o
      → o.error ≡ e
      → More step more
      → judge (ctx_ended t env o) w o more e ≡ done r
      → Judged step r.0 r.1
  unfolding judge More
  judge-Judged step w o more none r a f m h =
      transported-Judged step (outcome_world w o, passes) r (done_eq h) (w, o, a, refl, f)
  judge-Judged step w o more (some e) r a f m h = elim (Bool-cases (ctx_ended t env o)) [
    | inl c ↦
        transported-Judged step (outcome_world w o, cancels) r (done_eq (rw c at h))
          (inl (w, o, e, a, refl, f, c))
    | inr c ↦ elim (Bool-cases (is_deterministic_build_error e)) [
      | inl d ↦
          transported-Judged step (outcome_world w o, fails e) r (done_eq (rw (c, d) at h))
            (w, o, a, refl, f)
      | inr d ↦ m e (outcome_world w o) r (w, o, a, refl, f) (rw (c, d) at h)
    ]
  ]

  attempt-Judged :
      (step : BuildStep) (w : World) (more : Text → World → Run (World × Verdict))
      (r : World × Verdict)
      → More step more
      → attempt id t step env fuel w more ≡ done r
      → Judged step r.0 r.1
  unfolding attempt
  attempt-Judged step w more r m h =
      by_run (run_build_step_attempt id t step env.at fuel w.next w.server w.pool) refl h
    where
      by_run :
          (x : Run Outcome)
          → run_build_step_attempt id t step env.at fuel w.next w.server w.pool ≡ x
          → on_outcome t env w more x ≡ done r
          → Judged step r.0 r.1
      by_run starved e h = cc
      by_run stuck e h = cc
      by_run (done o) e h = judge-Judged step w o more o.error r e refl m h

  retries-Judged : (step : BuildStep) (left : ℕ) → More step (retries id t step env fuel left)
  unfolding retries More
  retries-Judged step zero e w r a h = transported-Judged step (w, fails e) r (done_eq h) a
  retries-Judged step (suc left) e w r a h =
      elim (Bool-cases (wait_retry_interval t.retry_interval (env.passed w.next))) [
        | inl c ↦
            attempt-Judged step (requeue id env w) (retries id t step env fuel left) r
              (retries-Judged step left) (rw c at h)
        | inr c ↦
            transported-Judged step (requeue id env w, cancels) r (done_eq (rw c at h))
              (inr (w, refl, c))
      ]

  pub attempts-Judged :
      (step : BuildStep) (w : World) (r : World × Verdict)
      → attempts id t step env fuel w ≡ done r
      → Judged step r.0 r.1
  unfolding attempts
  attempts-Judged step w r h =
      attempt-Judged step w (retries id t step env fuel t.retry) r (retries-Judged step t.retry) h
