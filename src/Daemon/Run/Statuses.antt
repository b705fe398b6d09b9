-- ===== src/Daemon/Run/Statuses.antt =====
-- internal/builddaemon/tasks.go: the status with which runBuildTask finishes a task, by what its
-- attempts returned.
use buildkit_service.Prelude.{ℕ, ◌≡◌, ◌⊎◌, Option, none, some, List, [], ◌∷◌, Text, ok, err}
use buildkit_service.Daemon.Task.{Task, Status, succeeded, failed, canceled}
use buildkit_service.Daemon.Lifecycle.{Server}
use buildkit_service.Daemon.Build.{BuildStep, build_steps_for_image_type}
use buildkit_service.Daemon.Pool.{AddrPool}
use buildkit_service.Daemon.Attempt.{Run}
use buildkit_service.Daemon.Run.{
  Env, World, passes, cancels, fails, finish_world, prepare, build_image,
}
use buildkit_service.Daemon.Run.Verdicts.{Judged}

module _ (id : Text) (env : Env) (fuel : ℕ) (t : Task) where
  -- How the steps of a task end, from a world on, with a status and an error in a last world.
  abbrev pub Ends : List BuildStep → World → Status → Option Text → World → Type 0
  Ends [] w st e last = (st ≡ succeeded) × (e ≡ none) × (last ≡ w)
  Ends (step ∷ steps) w st e last =
      ((a : Text) × (prepare env t step w.exporter ≡ err a)
        × (st ≡ failed)
        × (e ≡ some a)
        × (last ≡ w))
      ⊎ ((ready : BuildStep) × (v : World) × (prepare env t step w.exporter ≡ ok ready)
          × ((Judged id env fuel t ready v passes × Ends steps v st e last)
              ⊎ (((a : Text) × Judged id env fuel t ready v (fails a)
                    × (st ≡ failed)
                    × (e ≡ some a)
                    × (last ≡ v))
                  ⊎ (Judged id env fuel t ready v cancels
                      × (st ≡ canceled)
                      × (e ≡ some env.ctx_error)
                      × (last ≡ v)))))

  -- The world in which finishTask has been called with that.
  abbrev pub Finishes : List BuildStep → World → World → Type 0
  Finishes steps w w' =
      (st : Status) × (e : Option Text) × (last : World) × Ends steps w st e last
      × (w' ≡ finish_world id env st e last)

-- What the body of runBuildTask does: nothing, where the task is gone or cancelled; else it finishes
-- the task, with the error of opening the log or as its steps end.
abbrev pub TaskEnds : Text → Env → ℕ → World → World → Option Task → Type 0
TaskEnds id env fuel w w' none = w' ≡ w
TaskEnds id env fuel w w' (some t) =
    ((t.status ≡ canceled) × (w' ≡ w))
    ⊎ (((e : Text) × (env.log_error ≡ some e) × (w' ≡ finish_world id env failed (some e) w))
        ⊎ ((env.log_error ≡ none)
            × Finishes id env fuel t (build_steps_for_image_type (build_image t) t.image_type) w
                w'))

-- The world in which runBuildTask starts.
abbrev pub start_of : Server → AddrPool → World
start_of s p = record { server = s; pool = p; next = 0; events = []; exporter = [] }
