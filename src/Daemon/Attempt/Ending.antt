-- ===== src/Daemon/Attempt/Ending.antt =====
-- internal/builddaemon/tasks.go: an attempt ends after as many rounds as there are addresses.
use buildkit_service.Prelude.{
  ℕ, zero, suc, ◌+◌, ◌≤◌, ◌<◌, ◌≡◌, ◌≢◌, ◌⊎◌, refl, sym, subst, Bool, true, false, Option, none,
  some, List, [], ◌∷◌, Text, text_eq_iff, member, All, length, if◌then◌else◌, inl, inr, Map,
  Bool-cases, Option-cases, Result, ok, err, arith,
}
use buildkit_service.Daemon.Task.{Task}
use buildkit_service.Daemon.Lifecycle.{Server, assign_worker}
use buildkit_service.Daemon.Steps.{run}
use buildkit_service.Daemon.Build.{BuildStep}
use buildkit_service.Daemon.Pool.{
  AddrSlot, AddrPool, BuildkitAddr, Acquired, gets_slot, interrupted, no_addresses,
  acquire_addr_slot,
}
use buildkit_service.Daemon.Pool.Replace.{present, replace-All}
use buildkit_service.Daemon.Attempt.{
  Moment, Event, Turn, again, returns, Round, request_for, after_build, fails_over,
  refresh_buildkit_addrs, on_slot, on_acquired, on_global, round, Outcome, Run, done, starved,
  stuck, after_events, by_turn, next_round, attempt_from, run_build_step_attempt,
}
use buildkit_service.Daemon.Attempt.Rounds.{next_round-done}
use buildkit_service.Daemon.Attempt.Failover.{Tries, quits, tries, round-Tries}

-- How many addresses of a list are not excluded.
unfoldable pub untried : List Text → List Text → ℕ
untried x [] = 0
untried x (u ∷ us) = let rest = untried x us in if member u x then rest else suc rest

untried-le : (x : List Text) (a : Text) (us : List Text) → untried (a ∷ x) us ≤ untried x us
unfolding untried member
untried-le x a [] = omega arith
untried-le x a (u ∷ us) = ground (arith, untried-le x a us)

untried-lt :
    (x : List Text) (a : Text) (us : List Text)
    → member a us ≡ true
    → member a x ≡ false
    → untried (a ∷ x) us < untried x us
unfolding untried member
untried-lt x a [] h k = cc
untried-lt x a (u ∷ us) h k =
    ground (arith, untried-lt x a us, untried-le x a us, text_eq_iff u a, text_eq_iff a u)

untried-le-length : (x us : List Text) → untried x us ≤ length us
unfolding untried
untried-le-length x [] = omega arith
untried-le-length x (u ∷ us) = ground (arith, untried-le-length x us)

-- A slot, and what the addresses resolve to, within a list of addresses.
abbrev pub KnownSlot : List Text → AddrSlot → Type 0
KnownSlot us s = member s.addr.addr us ≡ true

abbrev pub KnownAddrs : List Text → Result Text (List (Option BuildkitAddr)) → Type 0
KnownAddrs us (ok addrs) = All (λ a. member a us ≡ true) (present addrs)
KnownAddrs us (err e) = Unit

refresh-Known :
    (us : List Text) (r : Result Text (List (Option BuildkitAddr))) (p : AddrPool)
    → KnownAddrs us r
    → All (KnownSlot us) p.slots
    → All (KnownSlot us) (refresh_buildkit_addrs r p).slots
unfolding refresh_buildkit_addrs
refresh-Known us (ok addrs) p k h = replace-All (λ a. member a us ≡ true) addrs p k
refresh-Known us (err e) p k h = h

-- A round leaves the pool as it was or refreshes it.
abbrev Follows : Moment → AddrPool → Round → Type 0
Follows m p r = (r.pool ≡ p) ⊎ (r.pool ≡ refresh_buildkit_addrs m.resolved p)

after_build-Follows :
    (t : Task) (m : Moment) (s : Server) (p : AddrPool) (x : List Text) (a : AddrSlot)
    (es : List Event) (b : Map Text Text × Option Text)
    → Follows m p (after_build t m s p x a es b)
unfolding after_build
after_build-Follows t m s p x a es (ex, e) = elim (Bool-cases (fails_over t m s a e)) [
  | inl c ↦ rw c (inr refl)
  | inr c ↦ rw c (inl refl)
]

on_slot-Follows :
    (t : Task) (step : BuildStep) (m : Moment) (p : AddrPool) (x : List Text) (a : AddrSlot)
    (r : Server × Bool)
    → Follows m p (on_slot t step m p x a r)
unfolding on_slot
on_slot-Follows t step m p x a (s, true) =
    after_build-Follows t m (run m.building s) p x a _ (m.built (request_for t step a))
on_slot-Follows t step m p x a (s, false) = inl refl

on_acquired-Follows :
    (id : Text) (t : Task) (step : BuildStep) (m : Moment) (s : Server) (p : AddrPool)
    (x : List Text) (a : Acquired)
    → Follows m p (on_acquired id t step m s p x a)
unfolding on_acquired
on_acquired-Follows id t step m s p x interrupted = inl refl
on_acquired-Follows id t step m s p x no_addresses = inl refl
on_acquired-Follows id t step m s p x (gets_slot a) =
    on_slot-Follows t step m p x a (assign_worker id a.addr.addr a.addr.node_ip m.started s)

on_global-Follows :
    (id : Text) (t : Task) (step : BuildStep) (m : Moment) (s : Server) (p : AddrPool)
    (x : List Text) (g : Bool) (r : Round)
    → on_global id t step m s p x g ≡ some r
    → Follows m p r
unfolding on_global
on_global-Follows id t step m s p x false r e = inl (pool_eq e)
  where
    pool_eq : {u v : Round} → some u ≡ some v → v.pool ≡ u.pool
    pool_eq q = cc
on_global-Follows id t step m s p x true r e =
    elim (Option-cases (acquire_addr_slot m.held m.waited t.schedule_key x p)) [
      | inl n ↦ cc
      | inr (a, n) ↦
          let same : on_acquired id t step m s p x a ≡ r = ground (arith, e, n) in
          subst (Follows m p) same (on_acquired-Follows id t step m s p x a)
    ]

round-Follows :
    (id : Text) (t : Task) (step : BuildStep) (m : Moment) (s : Server) (p : AddrPool)
    (x : List Text) (r : Round)
    → round id t step m s p x ≡ some r
    → Follows m p r
unfolding round
round-Follows id t step m s p x r e = on_global-Follows id t step m _ p x m.global r e

Follows-Known :
    (us : List Text) (m : Moment) (p : AddrPool) (r : Round)
    → KnownAddrs us m.resolved
    → All (KnownSlot us) p.slots
    → Follows m p r
    → All (KnownSlot us) r.pool.slots
Follows-Known us m p r k h (inl e) = subst (λ q. All (KnownSlot us) q.slots) (sym e) h
Follows-Known us m p r k h (inr e) =
    subst (λ q. All (KnownSlot us) q.slots) (sym e) (refresh-Known us m.resolved p k h)

Tries-untried :
    (us x : List Text) (r : Round)
    → Tries (KnownSlot us) x r
    → r.turn ≡ again
    → untried r.excluded us < untried x us
Tries-untried us x r (quits e n) g = absurd (n g)
Tries-untried us x r (tries a f e n) g =
    subst (λ y. untried y us < untried x us) (sym (n g)) (untried-lt x a.addr.addr us f.1 f.0)

after_events-starved :
    (es : List Event) (o : Run Outcome) → o ≢ starved → after_events es o ≢ starved
unfolding after_events
after_events-starved es (done o) n h = cc
after_events-starved es starved n h = n refl
after_events-starved es stuck n h = cc

next_round-starved :
    (x : Option Round) (next : ℕ) (k : Round → Run Outcome)
    → ((r : Round) → x ≡ some r → r.turn ≡ again → k r ≢ starved)
    → next_round x next k ≢ starved
unfolding next_round
next_round-starved none next k n h = cc
next_round-starved (some r) next k n h = turn_starved r.turn refl h
  where
    turn_starved : (t : Turn) → r.turn ≡ t → by_turn r next k t ≢ starved
    turn_starved (returns ex e) f h = cc
    turn_starved again f h = after_events-starved r.events (k r) (n r refl f) h

attempt_from-starved :
    (us : List Text) (id : Text) (t : Task) (step : BuildStep) (at : ℕ → Moment) (fuel i : ℕ)
    (s : Server) (p : AddrPool) (x : List Text)
    → ((j : ℕ) → KnownAddrs us (at j).resolved)
    → All (KnownSlot us) p.slots
    → untried x us < fuel
    → attempt_from id t step at fuel i s p x ≢ starved
unfolding attempt_from
attempt_from-starved us id t step at zero i s p x k h lt = λ _. omega arith
attempt_from-starved us id t step at (suc fuel) i s p x k h lt =
    next_round-starved (round id t step (at i) s p x) (i + 1) _ (λ r e g.
      attempt_from-starved us id t step at fuel (i + 1) r.server r.pool r.excluded k
        (Follows-Known us (at i) p r (k i) h (round-Follows id t step (at i) s p x r e))
        (omega (
          arith,
          Tries-untried us x r (round-Tries (KnownSlot us) id t step (at i) s p x r h e) g,
        )))

attempt_from-Known :
    (us : List Text) (id : Text) (t : Task) (step : BuildStep) (at : ℕ → Moment) (fuel i : ℕ)
    (s : Server) (p : AddrPool) (x : List Text) (o : Outcome)
    → ((j : ℕ) → KnownAddrs us (at j).resolved)
    → All (KnownSlot us) p.slots
    → attempt_from id t step at fuel i s p x ≡ done o
    → All (KnownSlot us) o.pool.slots
unfolding attempt_from
attempt_from-Known us id t step at zero i s p x o k h e = cc
attempt_from-Known us id t step at (suc fuel) i s p x o k h e =
    let (r, f, ends) = next_round-done (round id t step (at i) s p x) (i + 1) _ o e in
    let one = Follows-Known us (at i) p r (k i) h (round-Follows id t step (at i) s p x r f) in
    elim ends [
      | inl last ↦ subst (λ q. All (KnownSlot us) q.slots) (sym last.same_pool) one
      | inr more ↦
          subst (λ q. All (KnownSlot us) q.slots) (sym more.same_pool)
            (attempt_from-Known us id t step at fuel (i + 1) r.server r.pool r.excluded more.rest k
              one more.follows)
    ]

pub run_build_step_attempt-Known :
    (us : List Text) (id : Text) (t : Task) (step : BuildStep) (at : ℕ → Moment) (fuel i : ℕ)
    (s : Server) (p : AddrPool) (o : Outcome)
    → ((j : ℕ) → KnownAddrs us (at j).resolved)
    → All (KnownSlot us) p.slots
    → run_build_step_attempt id t step at fuel i s p ≡ done o
    → All (KnownSlot us) o.pool.slots
unfolding run_build_step_attempt
run_build_step_attempt-Known us id t step at fuel i s p o k h e =
    attempt_from-Known us id t step at fuel i s p [] o k h e

-- If the pool and every resolution keep to a list of addresses, then a number of rounds above the
-- length of the list is enough for the loop of runBuildStepAttempt: it returns, unless a walk
-- along the ring does not end.
pub run_build_step_attempt-ends :
    (us : List Text) (id : Text) (t : Task) (step : BuildStep) (at : ℕ → Moment) (fuel i : ℕ)
    (s : Server) (p : AddrPool)
    → ((j : ℕ) → KnownAddrs us (at j).resolved)
    → All (KnownSlot us) p.slots
    → length us < fuel
    → run_build_step_attempt id t step at fuel i s p ≢ starved
unfolding run_build_step_attempt
run_build_step_attempt-ends us id t step at fuel i s p k h lt =
    attempt_from-starved us id t step at fuel i s p [] k h (omega (arith, untried-le-length [] us))
