-- ===== src/Daemon/Run/Slots.antt =====
-- internal/builddaemon/tasks.go: the slots that a task takes.
use buildkit_service.Prelude.{ℕ, ◌≡◌, refl, sym, subst, inl, inr, [], Text}
use buildkit_service.Daemon.Lifecycle.{Server}
use buildkit_service.Daemon.Pool.{AddrPool}
use buildkit_service.Daemon.Attempt.{done, run_build_step_attempt}
use buildkit_service.Daemon.Attempt.Slots.{
  IsBalanced, append-IsBalanced, attempt_from-IsBalanced, obey_all,
}
use buildkit_service.Daemon.Run.{Env, World, finish_world, run_body, run_build_task}
use buildkit_service.Daemon.Run.Preserves.{Finished, run_body-Finished}
use buildkit_service.Daemon.Run.Reaching.{close_after-done}

finished_events :
    (id : Text) (env : Env) (v : World)
    → Finished (λ u. IsBalanced u.events) id env v
    → IsBalanced v.events
unfolding finish_world
finished_events id env v fin = subst (λ u. IsBalanced u.events) (sym fin.same) fin.kept

-- Over all its steps and retries, whatever it meets, a task takes a global slot before the slot of
-- a worker, calls the runner only on the worker whose slot it holds, gives both back in the
-- reverse order, and holds none when runBuildTask returns.
pub run_build_task-IsBalanced :
    (id : Text) (env : Env) (fuel : ℕ) (s : Server) (p : AddrPool) (w : World)
    → run_build_task id env fuel s p ≡ done w
    → IsBalanced w.events
unfolding run_build_task obey_all run_build_step_attempt
run_build_task-IsBalanced id env fuel s p w h =
    let start : World = record { server = s; pool = p; next = 0; events = []; exporter = [] } in
    let (v, e, _, same) = close_after-done id env (run_body id env fuel start) w h in
    subst IsBalanced (sym same)
      (elim (run_body-Finished (λ u. IsBalanced u.events) id env fuel
        (λ t st u o b f.
          append-IsBalanced u.events o.events b
            (attempt_from-IsBalanced id t st env.at fuel u.next u.server u.pool [] o f))
        (λ u b. b) start v refl e) [
          | inl idle ↦ subst (λ u. IsBalanced u.events) (sym idle.0) refl
          | inr fin ↦ finished_events id env v fin
        ])
