-- ===== src/Daemon/Attempt/Failover.antt =====
-- internal/builddaemon/tasks.go: the move from one worker to another.
use buildkit_service.Prelude.{
  ℕ, zero, suc, ◌+◌, ◌≡◌, ◌≢◌, refl, sym, ap, subst, ◌∙◌, Bool, true, false, Option, some, List, [],
  ◌∷◌, ◌++◌, Map, Text, member, All, inl, inr, Bool-cases, Option-cases, arith,
}
use buildkit_service.Daemon.Task.{Task}
use buildkit_service.Daemon.Lifecycle.{Server, assign_worker}
use buildkit_service.Daemon.Steps.{run}
use buildkit_service.Daemon.Build.{BuildStep}
use buildkit_service.Daemon.Pool.{
  AddrSlot, AddrPool, Acquired, gets_slot, interrupted, no_addresses, acquire_addr_slot,
}
use buildkit_service.Daemon.Attempt.{
  Moment, Event, acquires_global, releases_global, acquires, releases, builds, again, Round,
  request_for, after_build, fails_over, on_slot, on_acquired, on_global, round, Outcome, done,
  attempt_from, run_build_step_attempt,
}
use buildkit_service.Daemon.Pool.Choice.{Free, acquire_addr_slot-Free}
use buildkit_service.Daemon.Attempt.Rounds.{next_round-done}

-- The addresses on which the runner is called, in order.
unfoldable pub built_addrs : List Event → List Text
built_addrs [] = []
built_addrs (builds req ∷ es) = req.buildkit_addr ∷ built_addrs es
built_addrs (_ ∷ es) = built_addrs es

built_addrs-append :
    (es fs : List Event) → built_addrs (es ++ fs) ≡ built_addrs es ++ built_addrs fs
unfolding built_addrs
built_addrs-append [] fs = refl
built_addrs-append (acquires_global ∷ es) fs = built_addrs-append es fs
built_addrs-append (releases_global ∷ es) fs = built_addrs-append es fs
built_addrs-append (acquires a ∷ es) fs = built_addrs-append es fs
built_addrs-append (releases a ∷ es) fs = built_addrs-append es fs
built_addrs-append (builds req ∷ es) fs =
    ap (λ rest. req.buildkit_addr ∷ rest) (built_addrs-append es fs)

-- None of the texts is excluded, and none occurs twice.
abbrev pub IsFresh : List Text → List Text → Type 0
IsFresh x [] = Unit
IsFresh x (a ∷ rest) = (member a x ≡ false) × IsFresh (a ∷ x) rest

-- What a round tries, with what is known of every slot: it calls no runner and is the last, or it
-- calls one on an address that is not excluded, which is excluded if another round follows.
pub data Tries (Q : AddrSlot → Type 0) (x : List Text) (r : Round) : Type 0 where
  quits : built_addrs r.events ≡ [] → r.turn ≢ again → Tries Q x r
  tries :
      (a : AddrSlot)
      → Free Q x a
      → built_addrs r.events ≡ a.addr.addr ∷ []
      → (r.turn ≡ again → r.excluded ≡ a.addr.addr ∷ x)
      → Tries Q x r

after_build-Tries :
    (Q : AddrSlot → Type 0) (t : Task) (m : Moment) (s : Server) (p : AddrPool) (x : List Text)
    (a : AddrSlot) (es : List Event) (b : Map Text Text × Option Text)
    → Free Q x a
    → built_addrs es ≡ a.addr.addr ∷ []
    → Tries Q x (after_build t m s p x a es b)
unfolding after_build
after_build-Tries Q t m s p x a es (ex, e) f h = elim (Bool-cases (fails_over t m s a e)) [
  | inl c ↦ rw c (tries a f h (λ _. refl))
  | inr c ↦ rw c (tries a f h (λ g. cc))
]

on_slot-Tries :
    (Q : AddrSlot → Type 0) (t : Task) (step : BuildStep) (m : Moment) (p : AddrPool)
    (x : List Text) (a : AddrSlot) (r : Server × Bool)
    → Free Q x a
    → Tries Q x (on_slot t step m p x a r)
unfolding on_slot built_addrs request_for
on_slot-Tries Q t step m p x a (s, true) f =
    after_build-Tries Q t m (run m.building s) p x a _ (m.built (request_for t step a)) f refl
on_slot-Tries Q t step m p x a (s, false) f = quits refl (λ g. cc)

on_acquired-Tries :
    (Q : AddrSlot → Type 0) (id : Text) (t : Task) (step : BuildStep) (m : Moment) (s : Server)
    (p : AddrPool) (x : List Text) (a : Acquired)
    → ((b : AddrSlot) → a ≡ gets_slot b → Free Q x b)
    → Tries Q x (on_acquired id t step m s p x a)
unfolding on_acquired built_addrs
on_acquired-Tries Q id t step m s p x interrupted f = quits refl (λ g. cc)
on_acquired-Tries Q id t step m s p x no_addresses f = quits refl (λ g. cc)
on_acquired-Tries Q id t step m s p x (gets_slot a) f =
    on_slot-Tries Q t step m p x a (assign_worker id a.addr.addr a.addr.node_ip m.started s)
      (f a refl)

same_round : {r r' : Round} → some r ≡ some r' → r ≡ r'
same_round p = cc

on_global-Tries :
    (Q : AddrSlot → Type 0) (id : Text) (t : Task) (step : BuildStep) (m : Moment) (s : Server)
    (p : AddrPool) (x : List Text) (g : Bool) (r : Round)
    → All Q p.slots
    → on_global id t step m s p x g ≡ some r
    → Tries Q x r
unfolding on_global built_addrs
on_global-Tries Q id t step m s p x false r h e =
    subst (Tries Q x) (same_round e) (quits refl (λ g. cc))
on_global-Tries Q id t step m s p x true r h e =
    elim (Option-cases (acquire_addr_slot m.held m.waited t.schedule_key x p)) [
      | inl n ↦ cc
      | inr (a, n) ↦
          let same : on_acquired id t step m s p x a ≡ r = ground (arith, e, n) in
          subst (Tries Q x) same (
            on_acquired-Tries Q id t step m s p x a (λ b f.
              acquire_addr_slot-Free Q m.held m.waited t.schedule_key x p b h (n ∙ ap some f)))
    ]

pub round-Tries :
    (Q : AddrSlot → Type 0) (id : Text) (t : Task) (step : BuildStep) (m : Moment) (s : Server)
    (p : AddrPool) (x : List Text) (r : Round)
    → All Q p.slots
    → round id t step m s p x ≡ some r
    → Tries Q x r
unfolding round
round-Tries Q id t step m s p x r h e = on_global-Tries Q id t step m _ p x m.global r h e

All-Unit : (ss : List AddrSlot) → All (λ _. Unit {0}) ss
All-Unit [] = tt
All-Unit (s ∷ ss) = (tt, All-Unit ss)

attempt_from-IsFresh :
    (id : Text) (t : Task) (step : BuildStep) (at : ℕ → Moment) (fuel i : ℕ) (s : Server)
    (p : AddrPool) (x : List Text) (o : Outcome)
    → attempt_from id t step at fuel i s p x ≡ done o
    → IsFresh x (built_addrs o.events)
unfolding attempt_from
attempt_from-IsFresh id t step at zero i s p x o h = cc
attempt_from-IsFresh id t step at (suc fuel) i s p x o h =
    let (r, e, ends) = next_round-done (round id t step (at i) s p x) (i + 1) _ o h in
    let one = round-Tries (λ _. Unit {0}) id t step (at i) s p x r (All-Unit p.slots) e in
    elim ends [
      | inl last ↦
          subst (λ es. IsFresh x (built_addrs es)) (sym last.same_events) (last_IsFresh x r one)
      | inr more ↦
          subst (λ es. IsFresh x (built_addrs es)) (sym more.same_events)
            (join_IsFresh x r more.rest.events one more.turn (
              attempt_from-IsFresh id t step at fuel (i + 1) r.server r.pool r.excluded more.rest
                more.follows))
    ]
  where
    last_IsFresh :
        (x : List Text) (r : Round) → Tries (λ _. Unit {0}) x r → IsFresh x (built_addrs r.events)
    last_IsFresh x r (quits e n) = subst (IsFresh x) (sym e) tt
    last_IsFresh x r (tries a f e n) = subst (IsFresh x) (sym e) (f.0, tt)

    join_IsFresh :
        (x : List Text) (r : Round) (es : List Event)
        → Tries (λ _. Unit {0}) x r
        → r.turn ≡ again
        → IsFresh r.excluded (built_addrs es)
        → IsFresh x (built_addrs (r.events ++ es))
    join_IsFresh x r es (quits e n) g h = absurd (n g)
    join_IsFresh x r es (tries a f e n) g h =
        let parts : built_addrs (r.events ++ es) ≡ a.addr.addr ∷ built_addrs es =
          built_addrs-append r.events es ∙ ap (λ l. l ++ built_addrs es) e in
        subst (IsFresh x) (sym parts) (f.0, subst (λ y. IsFresh y (built_addrs es)) (n g) h)

-- Within one attempt, whatever the workers answer and the addresses resolve to in between, the
-- runner is called on no address twice.
pub run_build_step_attempt-IsFresh :
    (id : Text) (t : Task) (step : BuildStep) (at : ℕ → Moment) (fuel i : ℕ) (s : Server)
    (p : AddrPool) (o : Outcome)
    → run_build_step_attempt id t step at fuel i s p ≡ done o
    → IsFresh [] (built_addrs o.events)
unfolding run_build_step_attempt
run_build_step_attempt-IsFresh id t step at fuel i s p o h =
    attempt_from-IsFresh id t step at fuel i s p [] o h
