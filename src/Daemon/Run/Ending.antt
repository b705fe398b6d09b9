-- ===== src/Daemon/Run/Ending.antt =====
-- internal/builddaemon/tasks.go: how a task ends.
use buildkit_service.Prelude.{
  ℕ, ◌≡◌, refl, sym, ap, subst, ◌∙◌, inl, inr, true, Option, none, some, Map, Text, text_eq_refl,
  eq_text, lookup, contains, [], Option-cases, arith,
}
use buildkit_service.Daemon.Task.{Task, Status, is_terminal, clone_task_lem}
use buildkit_service.Daemon.Store.{get}
use buildkit_service.Daemon.Lifecycle.{
  Server, finish_task, finish_update, close_done, close_done_update,
}
use buildkit_service.Daemon.Steps.{run}
use buildkit_service.Daemon.Steps.Finality.{run-Later, run-absent}
use buildkit_service.Daemon.Steps.Channels.{HasChannel, run-HasChannel}
use buildkit_service.Daemon.Steps.Cancel.{lookup-finish_task}
use buildkit_service.Daemon.Steps.Frame.{map_first, lookup-update}
use buildkit_service.Daemon.Steps.Soundness.{IsSound, AllSound, run_from-AllSound}
use buildkit_service.Daemon.Pool.{AddrPool}
use buildkit_service.Daemon.Attempt.{done}
use buildkit_service.Daemon.Attempt.Steps.{Reaches, Reaches-refl, run-Reaches}
use buildkit_service.Daemon.Run.{Env, World, finish_world, run_body, run_build_task}
use buildkit_service.Daemon.Run.Preserves.{Finished, Idle}
use buildkit_service.Daemon.Run.Reaching.{
  FairEnv, close_after-done, body-Reaches, before_finish-Reaches, before_close-Reaches,
  run_build_task-Reaches, forgets-Fair, forgets-Spares,
}

lookup-close_done :
    (id : Text) (s : Server)
    → lookup id (close_done id s).store ≡ map_first close_done_update (lookup id s.store)
unfolding close_done
lookup-close_done id s =
    lookup-update id id close_done_update none s.store ∙ rw (text_eq_refl id) refl

-- The table holds nothing under the id, or a task of a terminal status.
abbrev Over : Text → Server → Type 0
Over id s = (t : Task) → lookup id s.store ≡ some t → is_terminal t.status ≡ true

finish_update-terminal :
    (st : Status) (ex : Map Text Text) (e : Option Text) (now : ℕ) (t : Task)
    → is_terminal st ≡ true
    → IsSound t
    → is_terminal (finish_update st ex e now t).0.status ≡ true
unfolding finish_update
finish_update-terminal st ex e now t f v = ground (arith, v.settled)

finish_task-Over :
    (id : Text) (st : Status) (ex : Map Text Text) (e : Option Text) (now : ℕ) (s : Server)
    → is_terminal st ≡ true
    → AllSound s
    → Over id (finish_task id st ex e now s)
finish_task-Over id st ex e now s f v t h =
    by_task (lookup id s.store) refl (sym (lookup-finish_task id st ex e now s) ∙ h)
  where
    some_eq : {a b : Task} → some a ≡ some b → a ≡ b
    some_eq q = cc

    by_task :
        (o : Option Task)
        → lookup id s.store ≡ o
        → map_first (finish_update st ex e now) o ≡ some t
        → is_terminal t.status ≡ true
    by_task none g h = cc
    by_task (some u) g h =
        subst (λ t. is_terminal t.status ≡ true) (some_eq h)
          (finish_update-terminal st ex e now u f (v id u g))

close_done-Over :
    (id : Text) (s : Server)
    → Over id s
    → (t : Task) → lookup id (close_done id s).store ≡ some t
    → (is_terminal t.status ≡ true) × (t.done ≡ none)
unfolding close_done_update
close_done-Over id s over t h = by_task (lookup id s.store) refl (sym (lookup-close_done id s) ∙ h)
  where
    some_eq : {a b : Task} → some a ≡ some b → a ≡ b
    some_eq q = cc

    closed :
        (u : Task)
        → is_terminal u.status ≡ true
        → (is_terminal (close_done_update u).0.status ≡ true)
          × ((close_done_update u).0.done ≡ none)
    closed u k = ground arith

    by_task :
        (o : Option Task)
        → lookup id s.store ≡ o
        → map_first close_done_update o ≡ some t
        → (is_terminal t.status ≡ true) × (t.done ≡ none)
    by_task none g h = cc
    by_task (some u) g h =
        subst (λ t. (is_terminal t.status ≡ true) × (t.done ≡ none)) (some_eq h)
          (closed u (over u g))

Idle-Over : (id : Text) (w : World) → Idle id w → Over id w.server
unfolding get
Idle-Over id w (inl e) t h = ground (arith, e, h)
Idle-Over id w (inr (u, e, c)) t h = ground (arith, e, c, h, clone_task_lem t)

Reaches-AllSound : {id : Text} (s s' : Server) → AllSound s → Reaches id s s' → AllSound s'
Reaches-AllSound s s' v r =
    subst AllSound (sym r.reached) (run_from-AllSound r.ops s (forgets-Fair _ r.ops r.fair) v)

Finished-Over :
    (id : Text) (env : Env) (s : Server) (w : World)
    → FairEnv id env
    → AllSound s
    → Finished (λ v. Reaches id s v.server) id env w
    → Over id w.server
unfolding finish_world
Finished-Over id env s w f v fin =
    let others : Server = run env.before_finish fin.last.server in
    subst (λ u. Over id u.server) (sym fin.same)
      (finish_task-Over id fin.status fin.last.exporter fin.error env.finished others fin.terminal
        (Reaches-AllSound s others v (before_finish-Reaches id env s w f fin)))

-- A terminal status stays.
Reaches-Over : (id : Text) (s s' : Server) → AllSound s → Over id s → Reaches id s s' → Over id s'
Reaches-Over id s s' v over r t h = elim (Option-cases (lookup id s.store)) [
  | inl gone ↦
      absurd
        (not_both (run-absent r.ops id s (forgets-Spares id r.ops r.fair) gone) (found r.reached))
  | inr (u, e) ↦ elim (run-Later r.ops id s u (forgets-Spares id r.ops r.fair) e (v id u e)) [
    | inl gone ↦ absurd (not_both gone (found r.reached))
    | inr (t', e', later) ↦
        let same : t ≡ t' = some_eq (sym (found r.reached) ∙ e') in
        subst (λ x. is_terminal x.status ≡ true) (sym same)
          (ap is_terminal (later.terminal_stays (over u e)) ∙ over u e)
  ]
]
  where
    some_eq : {a b : Task} → some a ≡ some b → a ≡ b
    some_eq q = cc

    not_both : {o : Option Task} → o ≡ none → o ≡ some t → ⊥
    not_both p q = cc

    found : {z : Server} → s' ≡ z → lookup id z.store ≡ some t
    found e = subst (λ z. lookup id z.store ≡ some t) e h

-- What another way of a task to its end leaves of its channel.
Reaches-HasChannel :
    (id : Text) (ch : ℕ) (s s' : Server)
    → HasChannel id ch s
    → Reaches id s s'
    → HasChannel id ch s'
Reaches-HasChannel id ch s s' q r =
    subst (HasChannel id ch) (sym r.reached)
      (run-HasChannel r.ops id ch s (forgets-Spares id r.ops r.fair) q)

channel_closed :
    (id : Text) (ch : ℕ) (s : Server) (t : Task)
    → HasChannel id ch s
    → lookup id s.store ≡ some t
    → t.done ≡ none
    → contains s.closed ch ≡ true
channel_closed id ch s t (inl gone) h d = cc
channel_closed id ch s t (inr (inl c)) h d = c
channel_closed id ch s t (inr (inr (u, e, k))) h d = cc

-- Where a task of a sound table has a channel, and the other goroutines take fair steps only, that
-- add no task under its id: if a task is still under the id when runBuildTask returns, then it has
-- a terminal status and no channel any more, and the channel is closed.
pub run_build_task-Over :
    (id : Text) (env : Env) (fuel : ℕ) (s : Server) (p : AddrPool) (w : World) (t0 t : Task)
    (ch : ℕ)
    → FairEnv id env
    → AllSound s
    → lookup id s.store ≡ some t0
    → t0.done ≡ some ch
    → run_build_task id env fuel s p ≡ done w
    → lookup id w.server.store ≡ some t
    → (is_terminal t.status ≡ true) × (t.done ≡ none) × (contains w.server.closed ch ≡ true)
unfolding run_build_task
run_build_task-Over id env fuel s p w t0 t ch f v h0 d0 h found =
    let start : World = record { server = s; pool = p; next = 0; events = []; exporter = [] } in
    let (u, e, same, _) = close_after-done id env (run_body id env fuel start) w h in
    let others : Server = run env.before_close u.server in
    let body : Over id u.server = elim (body-Reaches id env fuel s start u f (Reaches-refl s) e) [
      | inl idle ↦ subst (λ u. Over id u.server) (sym idle.0) (Idle-Over id start idle.1)
      | inr fin ↦ Finished-Over id env s u f v fin
    ] in
    let sound : AllSound u.server =
      Reaches-AllSound s u.server v (before_close-Reaches id env fuel start u f e) in
    let still : Over id others =
      Reaches-Over id u.server others sound body
        (run-Reaches env.before_close u.server f.fair_close) in
    let (terminal, none_left) =
      close_done-Over id others still t (subst (λ z. lookup id z.store ≡ some t) same found) in
    (
      terminal,
      none_left,
      channel_closed id ch w.server t
          (Reaches-HasChannel id ch s w.server (inr (inr (t0, h0, d0)))
            (run_build_task-Reaches id env fuel s p w f h))
          found none_left,
    )
