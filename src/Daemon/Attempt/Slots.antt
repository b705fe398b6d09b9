-- ===== src/Daemon/Attempt/Slots.antt =====
-- internal/builddaemon/tasks.go: the slots that an attempt takes and gives back.
use buildkit_service.Prelude.{
  ℕ, zero, suc, ◌+◌, ◌≡◌, refl, sym, ap, subst, ◌∙◌, Bool, true, false, Option, none, some, List,
  [], ◌∷◌, ◌++◌, Map, Text, text_eq, text_eq_iff, nat_eq, if◌then◌else◌, inl, inr, Option-cases,
  arith,
}
use buildkit_service.Daemon.Task.{Task}
use buildkit_service.Daemon.Lifecycle.{Server, assign_worker}
use buildkit_service.Daemon.Steps.{run}
use buildkit_service.Daemon.Attempt.Rounds.{next_round-done}
use buildkit_service.Daemon.Build.{BuildStep}
use buildkit_service.Daemon.Pool.{
  AddrSlot, AddrPool, Acquired, gets_slot, interrupted, no_addresses, acquire_addr_slot,
}
use buildkit_service.Daemon.Attempt.{
  Moment, BuildRunRequest, Event, acquires_global, releases_global, acquires, releases, builds,
  Round, request_for, after_build, on_slot, on_acquired, on_global, round, Outcome, done,
  attempt_from,
}

-- What a goroutine holds: no slot, a global slot, or that and the slot of a worker.
pub data Hold : Type 0 where
  nothing global : Hold
  worker : AddrSlot → Hold

-- The discipline of the slots: a global slot first, then one of a worker, builds on that worker
-- only, and the slots back in the reverse order. `none` is a breach.
abbrev pub obeys : Event → Hold → Option Hold
obeys acquires_global nothing = some global
obeys (acquires a) global = some (worker a)
obeys (builds req) (worker a) =
    if text_eq req.buildkit_addr a.addr.addr then some (worker a) else none
obeys (releases b) (worker a) = if nat_eq b.sem a.sem then some global else none
obeys releases_global global = some nothing
obeys _ _ = none

unfoldable pub obey_all : List Event → Option Hold → Option Hold
obey_all [] h = h
obey_all (e ∷ es) none = none
obey_all (e ∷ es) (some h) = obey_all es (obeys e h)

-- From no slot to no slot, without a breach.
abbrev pub IsBalanced : List Event → Type 0
IsBalanced es = obey_all es (some nothing) ≡ some nothing

obey_all-none : (es : List Event) → obey_all es none ≡ none
unfolding obey_all
obey_all-none [] = refl
obey_all-none (e ∷ es) = refl

obey_all-append :
    (es fs : List Event) (h : Option Hold) → obey_all (es ++ fs) h ≡ obey_all fs (obey_all es h)
unfolding obey_all
obey_all-append [] fs h = refl
obey_all-append (x ∷ es) fs none = sym (obey_all-none fs)
obey_all-append (x ∷ es) fs (some h) = obey_all-append es fs (obeys x h)

pub append-IsBalanced : (es fs : List Event) → IsBalanced es → IsBalanced fs → IsBalanced (es ++ fs)
append-IsBalanced es fs e f = obey_all-append es fs (some nothing) ∙ ap (obey_all fs) e ∙ f

after_build-IsBalanced :
    (t : Task) (m : Moment) (s : Server) (p : AddrPool) (x : List Text) (a : AddrSlot)
    (es : List Event) (b : Map Text Text × Option Text)
    → IsBalanced es
    → IsBalanced (after_build t m s p x a es b).events
unfolding after_build
after_build-IsBalanced t m s p x a es (ex, e) h = ground arith

served-IsBalanced :
    (a : AddrSlot) (req : BuildRunRequest)
    → req.buildkit_addr ≡ a.addr.addr
    → IsBalanced (acquires_global ∷ acquires a ∷ builds req ∷ releases a ∷ releases_global ∷ [])
unfolding obey_all
served-IsBalanced a req e = ground (arith, text_eq_iff req.buildkit_addr a.addr.addr)

refused-IsBalanced :
    (a : AddrSlot) → IsBalanced (acquires_global ∷ acquires a ∷ releases a ∷ releases_global ∷ [])
unfolding obey_all
refused-IsBalanced a = ground arith

request_for-addr :
    (t : Task) (step : BuildStep) (a : AddrSlot)
    → (request_for t step a).buildkit_addr ≡ a.addr.addr
unfolding request_for
request_for-addr t step a = refl

on_slot-IsBalanced :
    (t : Task) (step : BuildStep) (m : Moment) (p : AddrPool) (x : List Text) (a : AddrSlot)
    (r : Server × Bool)
    → IsBalanced (on_slot t step m p x a r).events
unfolding on_slot
on_slot-IsBalanced t step m p x a (s, true) =
    after_build-IsBalanced t m (run m.building s) p x a _ (m.built (request_for t step a))
      (served-IsBalanced a (request_for t step a) (request_for-addr t step a))
on_slot-IsBalanced t step m p x a (s, false) = refused-IsBalanced a

on_acquired-IsBalanced :
    (id : Text) (t : Task) (step : BuildStep) (m : Moment) (s : Server) (p : AddrPool)
    (x : List Text) (a : Acquired)
    → IsBalanced (on_acquired id t step m s p x a).events
unfolding on_acquired obey_all
on_acquired-IsBalanced id t step m s p x interrupted = refl
on_acquired-IsBalanced id t step m s p x no_addresses = refl
on_acquired-IsBalanced id t step m s p x (gets_slot a) =
    on_slot-IsBalanced t step m p x a (assign_worker id a.addr.addr a.addr.node_ip m.started s)

same_round : {r r' : Round} {x : Option Round} → x ≡ some r → x ≡ some r' → r ≡ r'
same_round p q = cc

on_global-IsBalanced :
    (id : Text) (t : Task) (step : BuildStep) (m : Moment) (s : Server) (p : AddrPool)
    (x : List Text) (g : Bool) (r : Round)
    → on_global id t step m s p x g ≡ some r
    → IsBalanced r.events
unfolding on_global obey_all
on_global-IsBalanced id t step m s p x false r h =
    subst (λ r. IsBalanced r.events) (same_round refl h) refl
on_global-IsBalanced id t step m s p x true r h =
    elim (Option-cases (acquire_addr_slot m.held m.waited t.schedule_key x p)) [
      | inl e ↦ cc
      | inr (a, e) ↦
          let same : on_acquired id t step m s p x a ≡ r = ground (arith, e, h) in
          subst (λ r. IsBalanced r.events) same (on_acquired-IsBalanced id t step m s p x a)
    ]

round-IsBalanced :
    (id : Text) (t : Task) (step : BuildStep) (m : Moment) (s : Server) (p : AddrPool)
    (x : List Text) (r : Round)
    → round id t step m s p x ≡ some r
    → IsBalanced r.events
unfolding round
round-IsBalanced id t step m s p x r h = on_global-IsBalanced id t step m _ p x m.global r h

pub attempt_from-IsBalanced :
    (id : Text) (t : Task) (step : BuildStep) (at : ℕ → Moment) (fuel i : ℕ) (s : Server)
    (p : AddrPool) (x : List Text) (o : Outcome)
    → attempt_from id t step at fuel i s p x ≡ done o
    → IsBalanced o.events
unfolding attempt_from
attempt_from-IsBalanced id t step at zero i s p x o h = cc
attempt_from-IsBalanced id t step at (suc fuel) i s p x o h =
    let (r, e, ends) = next_round-done (round id t step (at i) s p x) (i + 1) _ o h in
    let one = round-IsBalanced id t step (at i) s p x r e in
    elim ends [
      | inl last ↦ subst IsBalanced (sym last.same_events) one
      | inr more ↦ subst IsBalanced (sym more.same_events) (
          append-IsBalanced r.events more.rest.events one (
            attempt_from-IsBalanced id t step at fuel (i + 1) r.server r.pool r.excluded more.rest
              more.follows))
    ]
