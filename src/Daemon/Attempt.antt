-- ===== src/Daemon/Attempt.antt =====
-- internal/builddaemon/tasks.go: runBuildStepAttempt, which builds one step on one worker after
-- another until one answers.
pub mod Rounds
pub mod Slots
pub mod Failover
pub mod Ending
pub mod Steps
use buildkit_service.Prelude.{
  ℕ, zero, suc, ◌+◌, Bool, true, false, not, ◌&&◌, ◌||◌, Option, none, some, List, [], ◌∷◌, ◌++◌,
  Map, Text, text, text_eq, nat_eq, contains, if◌then◌else◌, Result, ok, err,
}
use buildkit_service.Daemon.Task.{Task}
use buildkit_service.Daemon.Lifecycle.{Server, mark_task_queued, assign_worker, context_canceled}
use buildkit_service.Daemon.Steps.{Op, run}
use buildkit_service.Daemon.Build.{BuildStep, is_retryable_buildkit_addr_error}
use buildkit_service.Daemon.Pool.{
  AddrSlot, AddrPool, BuildkitAddr, Acquired, gets_slot, interrupted, no_addresses,
  acquire_addr_slot, replace,
}

pub record BuildRunRequest : Type 0 where
  pub context_dir : Text
  pub buildkit_addr : Text
  pub image : Text
  pub format : Text
  pub target : Text
  pub no_cache : Bool
  pub build_args : Map Text Text

-- What one round of the loop meets: the clock, whether the global slot was got before the context
-- ended, the builds on each semaphore, what the select gave, the critical sections of the other
-- goroutines while this one waits and while it builds, the answer of the runner (the exporter and
-- the error), what the addresses resolve to afterwards, whether the deadline of the context has
-- passed, and the error of an ended context.
pub record Moment : Type 0 where
  pub requeued_at : ℕ
  pub started : ℕ
  pub global : Bool
  pub held : ℕ → ℕ
  pub waited : Option ℕ
  pub waiting : List Op
  pub building : List Op
  pub built : BuildRunRequest → Map Text Text × Option Text
  pub resolved : Result Text (List (Option BuildkitAddr))
  pub expired : Bool
  pub ctx_error : Text

-- What the round does with slots and with the runner, in order. A global slot is also got and
-- released, without effect, where no global limit is set.
pub data Event : Type 0 where
  acquires_global releases_global : Event
  acquires releases : AddrSlot → Event
  builds : BuildRunRequest → Event

pub data Turn : Type 0 where
  returns : Map Text Text → Option Text → Turn
  again : Turn

pub record Round : Type 0 where
  pub turn : Turn
  pub server : Server
  pub pool : AddrPool
  pub excluded : List Text
  pub events : List Event

unfoldable pub request_for : Task → BuildStep → AddrSlot → BuildRunRequest
unfolding text_eq
request_for t step a =
    let own = text_eq step.context_dir [] in
    record {
      context_dir = if own then t.context_dir else step.context_dir;
      buildkit_addr = a.addr.addr;
      image = step.image;
      format = step.format;
      target = if own then t.target else [];
      no_cache = t.no_cache;
      build_args = if own then t.build_args else [];
    }

-- refreshBuildkitAddrs, given what parseBuildkitAddrs returns.
unfoldable pub refresh_buildkit_addrs :
    Result Text (List (Option BuildkitAddr)) → AddrPool → AddrPool
unfolding replace
refresh_buildkit_addrs (ok addrs) p = replace addrs p
refresh_buildkit_addrs (err e) p = p

abbrev ctx_done : Task → Moment → Server → Bool
ctx_done t m s = contains s.ended t.ctx || m.expired

-- Whether the error of a build sends it to another worker.
unfoldable pub fails_over : Task → Moment → Server → AddrSlot → Option Text → Bool
unfolding contains is_retryable_buildkit_addr_error
fails_over t m s a none = false
fails_over t m s a (some e) = not (ctx_done t m s) && is_retryable_buildkit_addr_error e a.addr.addr

-- What follows the answer of the runner.
unfoldable pub after_build :
    Task
    → Moment
    → Server
    → AddrPool
    → List Text
    → AddrSlot
    → List Event
    → Map Text Text × Option Text
    → Round
unfolding fails_over refresh_buildkit_addrs
after_build t m s p excluded a events (exporter, error) =
    if fails_over t m s a error
    then record {
      turn = again;
      server = s;
      pool = refresh_buildkit_addrs m.resolved p;
      excluded = a.addr.addr ∷ excluded;
      events = events;
    }
    else record {
      turn = returns exporter error;
      server = s;
      pool = p;
      excluded = excluded;
      events = events;
    }

abbrev stops : Text → Server → AddrPool → List Text → List Event → Round
stops e s p excluded events = record {
  turn = returns [] (some e);
  server = s;
  pool = p;
  excluded = excluded;
  events = events;
}

-- The server after the assignment, and whether the task took the worker.
unfoldable pub on_slot :
    Task → BuildStep → Moment → AddrPool → List Text → AddrSlot → Server × Bool → Round
unfolding request_for after_build run
on_slot t step m p excluded a (s, true) =
    let req = request_for t step a in
    after_build t m (run m.building s) p excluded a
      (acquires_global ∷ acquires a ∷ builds req ∷ releases a ∷ releases_global ∷ []) (m.built req)
on_slot t step m p excluded a (s, false) =
    stops context_canceled s p excluded
      (acquires_global ∷ acquires a ∷ releases a ∷ releases_global ∷ [])

abbrev no_addresses_error : Text
no_addresses_error = text "no buildkitd addresses available"

unfoldable pub on_acquired :
    Text → Task → BuildStep → Moment → Server → AddrPool → List Text → Acquired → Round
unfolding on_slot assign_worker
on_acquired id t step m s p excluded interrupted =
    stops m.ctx_error s p excluded (acquires_global ∷ releases_global ∷ [])
on_acquired id t step m s p excluded no_addresses =
    stops no_addresses_error s p excluded (acquires_global ∷ releases_global ∷ [])
on_acquired id t step m s p excluded (gets_slot a) =
    on_slot t step m p excluded a (assign_worker id a.addr.addr a.addr.node_ip m.started s)

-- After acquireGlobalSlot; `none` is a walk along the ring that never ends.
unfoldable pub on_global :
    Text → Task → BuildStep → Moment → Server → AddrPool → List Text → Bool → Option Round
unfolding on_acquired acquire_addr_slot
on_global id t step m s p excluded false = some (stops m.ctx_error s p excluded [])
on_global id t step m s p excluded true =
    elim (acquire_addr_slot m.held m.waited t.schedule_key excluded p) [
      | none ↦ none
      | some acquired ↦ some (on_acquired id t step m s p excluded acquired)
    ]

-- One round of the loop, for the task of an id and its snapshot `t`.
unfoldable pub round :
    Text → Task → BuildStep → Moment → Server → AddrPool → List Text → Option Round
unfolding on_global mark_task_queued run
round id t step m s p excluded =
    on_global id t step m (run m.waiting (mark_task_queued id m.requeued_at s)) p excluded m.global

pub record Outcome : Type 0 where
  pub exporter : Map Text Text
  pub error : Option Text
  pub server : Server
  pub pool : AddrPool
  pub next : ℕ
  pub events : List Event

-- `starved`: the fuel has run out; `stuck`: a walk along the ring does not end.
pub data Run {ℓ} (A : Type ℓ) : Type ℓ where
  done : A → Run A
  starved stuck : Run A

unfoldable pub after_events : List Event → Run Outcome → Run Outcome
after_events es (done o) = done (record o { events = es ++ o.events })
after_events es starved = starved
after_events es stuck = stuck

abbrev pub by_turn : Round → ℕ → (Round → Run Outcome) → Turn → Run Outcome
by_turn r next k (returns exporter error) = done (record {
  exporter = exporter;
  error = error;
  server = r.server;
  pool = r.pool;
  next = next;
  events = r.events;
})
by_turn r next k again = after_events r.events (k r)

unfoldable pub next_round : Option Round → ℕ → (Round → Run Outcome) → Run Outcome
unfolding after_events
next_round none next k = stuck
next_round (some r) next k = by_turn r next k r.turn

-- The loop of runBuildStepAttempt from the moment `i`, on fuel.
unfoldable pub attempt_from :
    Text → Task → BuildStep → (ℕ → Moment) → ℕ → ℕ → Server → AddrPool → List Text → Run Outcome
unfolding round next_round
attempt_from id t step at zero i s p excluded = starved
attempt_from id t step at (suc fuel) i s p excluded =
    next_round (round id t step (at i) s p excluded) (i + 1)
      (λ r. attempt_from id t step at fuel (i + 1) r.server r.pool r.excluded)

unfoldable pub run_build_step_attempt :
    Text → Task → BuildStep → (ℕ → Moment) → ℕ → ℕ → Server → AddrPool → Run Outcome
unfolding attempt_from
run_build_step_attempt id t step at fuel i s p = attempt_from id t step at fuel i s p []
