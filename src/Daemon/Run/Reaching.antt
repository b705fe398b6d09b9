-- ===== src/Daemon/Run/Reaching.antt =====
-- internal/builddaemon/tasks.go: runBuildTask changes the table by critical
-- sections only.
use buildkit_service.Prelude.{
  ℕ, ◌≡◌, refl, sym, subst, ◌⊎◌, inl, inr, Text, eq_text, List, [], ◌∷◌, All,
}
use buildkit_service.Daemon.Lifecycle.{Server, close_done, mark_task_queued}
use buildkit_service.Daemon.Steps.{Op, requeues, finishes, closes, step, run, Fair, Spares}
use buildkit_service.Daemon.Pool.{AddrPool}
use buildkit_service.Daemon.Attempt.{Run, done, starved, stuck}
use buildkit_service.Daemon.Attempt.Steps.{
  FairTo, Reaches, Reaches-refl, Reaches-trans, step-Reaches, run-Reaches, FairMoment,
  run_build_step_attempt-Reaches,
}
use buildkit_service.Daemon.Run.{
  Env, World, requeue, finish_world, run_body, close_after, run_build_task,
}
use buildkit_service.Daemon.Run.Preserves.{Finished, Idle, run_body-Finished}

-- The other goroutines take fair steps only, that add no task under the id.
pub record FairEnv (id : Text) (env : Env) : Type 0 where
  pub fair_rounds : (j : ℕ) → FairMoment id (env.at j)
  pub fair_retries : (j : ℕ) → All (FairTo id) (env.before_retry j)
  pub fair_finish : All (FairTo id) env.before_finish
  pub fair_close : All (FairTo id) env.before_close

-- The body and the deferred function, apart.
pub close_after-done :
    (id : Text) (env : Env) (x : Run World) (w : World)
    → close_after id env x ≡ done w
    → (v : World) × (x ≡ done v)
      × (w.server ≡ close_done id (run env.before_close v.server))
      × (w.events ≡ v.events)
close_after-done id env starved w h = cc
close_after-done id env stuck w h = cc
close_after-done id env (done v) w h = (v, refl, cc, cc)

requeue-Reaches :
    (id : Text) (env : Env) (w : World)
    → FairEnv id env
    → Reaches id w.server (requeue id env w).server
unfolding requeue step
requeue-Reaches id env w f =
    let queued : Server = mark_task_queued id (env.retried_at w.next) w.server in
    Reaches-trans w.server queued (run (env.before_retry w.next) queued)
      (step-Reaches (requeues id (env.retried_at w.next)) w.server (tt, tt))
      (run-Reaches (env.before_retry w.next) queued (f.fair_retries w.next))

pub body-Reaches :
    (id : Text) (env : Env) (fuel : ℕ) (s : Server) (w w' : World)
    → FairEnv id env
    → Reaches id s w.server
    → run_body id env fuel w ≡ done w'
    → ((w' ≡ w) × Idle id w) ⊎ Finished (λ v. Reaches id s v.server) id env w'
body-Reaches id env fuel s w w' f r h =
    run_body-Finished (λ v. Reaches id s v.server) id env fuel
      (λ t st w o p e. Reaches-trans s w.server o.server p (
        run_build_step_attempt-Reaches id t st env.at fuel w.next w.server w.pool o f.fair_rounds
          e))
      (λ w p. Reaches-trans s w.server (requeue id env w).server p (requeue-Reaches id env w f)) w
      w' r h

pub before_finish-Reaches :
    (id : Text) (env : Env) (s : Server) (w : World)
    → FairEnv id env
    → (fin : Finished (λ v. Reaches id s v.server) id env w)
    → Reaches id s (run env.before_finish fin.last.server)
before_finish-Reaches id env s w f fin =
    Reaches-trans s fin.last.server (run env.before_finish fin.last.server) fin.kept
      (run-Reaches env.before_finish fin.last.server f.fair_finish)

finish_world-Reaches :
    (id : Text) (env : Env) (s : Server) (w : World)
    → FairEnv id env
    → Finished (λ v. Reaches id s v.server) id env w
    → Reaches id s w.server
unfolding finish_world step
finish_world-Reaches id env s w f fin =
    let others : Server = run env.before_finish fin.last.server in
    subst (λ v. Reaches id s v.server) (sym fin.same)
      (Reaches-trans s others (finish_world id env fin.status fin.error fin.last).server
        (before_finish-Reaches id env s w f fin)
        (step-Reaches (finishes id fin.status fin.terminal fin.last.exporter fin.error env.finished)
          others (tt, tt)))

-- What runBuildTask has done before its deferred function.
pub before_close-Reaches :
    (id : Text) (env : Env) (fuel : ℕ) (w v : World)
    → FairEnv id env
    → run_body id env fuel w ≡ done v
    → Reaches id w.server v.server
before_close-Reaches id env fuel w v f e =
    elim (body-Reaches id env fuel w.server w v f (Reaches-refl w.server) e) [
      | inl idle ↦ subst (λ u. Reaches id w.server u.server) (sym idle.0) (Reaches-refl w.server)
      | inr fin ↦ finish_world-Reaches id env w.server v f fin
    ]

-- Where the other goroutines take fair steps only, that add no task under the id, what runBuildTask
-- does to the server is a run of such steps as well.
pub run_build_task-Reaches :
    (id : Text) (env : Env) (fuel : ℕ) (s : Server) (p : AddrPool) (w : World)
    → FairEnv id env
    → run_build_task id env fuel s p ≡ done w
    → Reaches id s w.server
unfolding run_build_task step
run_build_task-Reaches id env fuel s p w f h =
    let start : World = record { server = s; pool = p; next = 0; events = []; exporter = [] } in
    let (v, e, same, _) = close_after-done id env (run_body id env fuel start) w h in
    let others : Server = run env.before_close v.server in
    subst (Reaches id s) (sym same) (
      Reaches-trans s v.server (close_done id others) (before_close-Reaches id env fuel start v f e)
        (Reaches-trans v.server others (close_done id others)
          (run-Reaches env.before_close v.server f.fair_close)
          (step-Reaches (closes id) others (tt, tt))))

pub forgets-Fair : (id : Text) (os : List Op) → All (FairTo id) os → All Fair os
forgets-Fair id [] f = tt
forgets-Fair id (o ∷ os) f = (f.0.0, forgets-Fair id os f.1)

pub forgets-Spares : (id : Text) (os : List Op) → All (FairTo id) os → All (Spares id) os
forgets-Spares id [] f = tt
forgets-Spares id (o ∷ os) f = (f.0.1, forgets-Spares id os f.1)
