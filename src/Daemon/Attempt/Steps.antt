-- ===== src/Daemon/Attempt/Steps.antt =====
-- internal/builddaemon/tasks.go: an attempt changes the table by critical sections only.
use buildkit_service.Prelude.{
  ℕ, zero, suc, ◌+◌, ◌≡◌, refl, sym, ap, subst, ◌∙◌, Bool, true, false, Option, some, List, [], ◌∷◌,
  ◌++◌, Map, Text, All, All-append, inl, inr, Bool-cases, Option-cases, arith,
}
use buildkit_service.Daemon.Task.{Task}
use buildkit_service.Daemon.Lifecycle.{Server, mark_task_queued, assign_worker}
use buildkit_service.Daemon.Steps.{Op, requeues, assigns, step, run, Fair, Spares}
use buildkit_service.Daemon.Build.{BuildStep}
use buildkit_service.Daemon.Pool.{
  AddrSlot, AddrPool, Acquired, gets_slot, interrupted, no_addresses, acquire_addr_slot,
}
use buildkit_service.Daemon.Attempt.{
  Moment, Event, Round, request_for, after_build, fails_over, on_slot, on_acquired, on_global,
  round, Outcome, done, attempt_from, run_build_step_attempt,
}
use buildkit_service.Daemon.Attempt.Rounds.{next_round-done}

-- A fair step, that adds no task under an id.
abbrev pub FairTo : Text → Op → Type 0
FairTo id o = Fair o × Spares id o

-- The second server comes from the first by such steps.
pub record Reaches (id : Text) (s s' : Server) : Type 0 where
  pub ops : List Op
  pub fair : All (FairTo id) ops
  pub reached : s' ≡ run ops s

run-append : (os ps : List Op) (s : Server) → run (os ++ ps) s ≡ run ps (run os s)
unfolding run
run-append [] ps s = refl
run-append (o ∷ os) ps s = run-append os ps (step o s)

pub Reaches-refl : {id : Text} (s : Server) → Reaches id s s
unfolding run
Reaches-refl s = record { ops = []; fair = tt; reached = refl }

pub Reaches-trans : {id : Text} (a b c : Server) → Reaches id a b → Reaches id b c → Reaches id a c
Reaches-trans {id} a b c p q = record {
  ops = p.ops ++ q.ops;
  fair = All-append (FairTo id) p.ops q.ops (p.fair, q.fair);
  reached = q.reached ∙ ap (run q.ops) p.reached ∙ sym (run-append p.ops q.ops a);
}

pub run-Reaches :
    {id : Text} (os : List Op) (s : Server) → All (FairTo id) os → Reaches id s (run os s)
run-Reaches os s f = record { ops = os; fair = f; reached = refl }

pub step-Reaches : {id : Text} (o : Op) (s : Server) → FairTo id o → Reaches id s (step o s)
unfolding run
step-Reaches o s f = record { ops = o ∷ []; fair = (f, tt); reached = refl }

-- The other goroutines take such steps only.
abbrev pub FairMoment : Text → Moment → Type 0
FairMoment id m = All (FairTo id) m.waiting × All (FairTo id) m.building

after_build-server :
    (t : Task) (m : Moment) (s : Server) (p : AddrPool) (x : List Text) (a : AddrSlot)
    (es : List Event) (b : Map Text Text × Option Text)
    → (after_build t m s p x a es b).server ≡ s
unfolding after_build
after_build-server t m s p x a es (ex, e) = elim (Bool-cases (fails_over t m s a e)) [
  | inl c ↦ rw c refl
  | inr c ↦ rw c refl
]

on_slot-Reaches :
    (id : Text) (t : Task) (st : BuildStep) (m : Moment) (p : AddrPool) (x : List Text)
    (a : AddrSlot) (r : Server × Bool)
    → FairMoment id m
    → Reaches id r.0 (on_slot t st m p x a r).server
unfolding on_slot
on_slot-Reaches id t st m p x a (s, true) f =
    subst (Reaches id s)
      (sym (after_build-server t m (run m.building s) p x a _ (m.built (request_for t st a))))
      (run-Reaches m.building s f.1)
on_slot-Reaches id t st m p x a (s, false) f = Reaches-refl s

on_acquired-Reaches :
    (id : Text) (t : Task) (st : BuildStep) (m : Moment) (s : Server) (p : AddrPool) (x : List Text)
    (a : Acquired)
    → FairMoment id m
    → Reaches id s (on_acquired id t st m s p x a).server
unfolding on_acquired step
on_acquired-Reaches id t st m s p x interrupted f = Reaches-refl s
on_acquired-Reaches id t st m s p x no_addresses f = Reaches-refl s
on_acquired-Reaches id t st m s p x (gets_slot a) f =
    let r = assign_worker id a.addr.addr a.addr.node_ip m.started s in
    Reaches-trans s r.0 (on_slot t st m p x a r).server
      (step-Reaches (assigns id a.addr.addr a.addr.node_ip m.started) s (tt, tt))
      (on_slot-Reaches id t st m p x a r f)

on_global-Reaches :
    (id : Text) (t : Task) (st : BuildStep) (m : Moment) (s : Server) (p : AddrPool) (x : List Text)
    (g : Bool) (r : Round)
    → FairMoment id m
    → on_global id t st m s p x g ≡ some r
    → Reaches id s r.server
unfolding on_global
on_global-Reaches id t st m s p x false r f e = subst (Reaches id s) (server_eq e) (Reaches-refl s)
  where
    server_eq : {u v : Round} → some u ≡ some v → u.server ≡ v.server
    server_eq q = cc
on_global-Reaches id t st m s p x true r f e =
    elim (Option-cases (acquire_addr_slot m.held m.waited t.schedule_key x p)) [
      | inl n ↦ cc
      | inr (a, n) ↦
          let same : on_acquired id t st m s p x a ≡ r = ground (arith, e, n) in
          subst (λ r. Reaches id s r.server) same (on_acquired-Reaches id t st m s p x a f)
    ]

round-Reaches :
    (id : Text) (t : Task) (st : BuildStep) (m : Moment) (s : Server) (p : AddrPool) (x : List Text)
    (r : Round)
    → FairMoment id m
    → round id t st m s p x ≡ some r
    → Reaches id s r.server
unfolding round step
round-Reaches id t st m s p x r f e =
    let marked : Server = mark_task_queued id m.requeued_at s in
    Reaches-trans s marked r.server (step-Reaches (requeues id m.requeued_at) s (tt, tt)) (
      Reaches-trans marked (run m.waiting marked) r.server (run-Reaches m.waiting marked f.0)
        (on_global-Reaches id t st m (run m.waiting marked) p x m.global r f e))

attempt_from-Reaches :
    (id : Text) (t : Task) (st : BuildStep) (at : ℕ → Moment) (fuel i : ℕ) (s : Server)
    (p : AddrPool) (x : List Text) (o : Outcome)
    → ((j : ℕ) → FairMoment id (at j))
    → attempt_from id t st at fuel i s p x ≡ done o
    → Reaches id s o.server
unfolding attempt_from
attempt_from-Reaches id t st at zero i s p x o f h = cc
attempt_from-Reaches id t st at (suc fuel) i s p x o f h =
    let (r, e, ends) = next_round-done (round id t st (at i) s p x) (i + 1) _ o h in
    let one = round-Reaches id t st (at i) s p x r (f i) e in
    elim ends [
      | inl last ↦ subst (Reaches id s) (sym last.same_server) one
      | inr more ↦ subst (Reaches id s) (sym more.same_server) (
          Reaches-trans s r.server more.rest.server one (
            attempt_from-Reaches id t st at fuel (i + 1) r.server r.pool r.excluded more.rest f
              more.follows))
    ]

pub run_build_step_attempt-Reaches :
    (id : Text) (t : Task) (st : BuildStep) (at : ℕ → Moment) (fuel i : ℕ) (s : Server)
    (p : AddrPool) (o : Outcome)
    → ((j : ℕ) → FairMoment id (at j))
    → run_build_step_attempt id t st at fuel i s p ≡ done o
    → Reaches id s o.server
unfolding run_build_step_attempt
run_build_step_attempt-Reaches id t st at fuel i s p o f h =
    attempt_from-Reaches id t st at fuel i s p [] o f h
