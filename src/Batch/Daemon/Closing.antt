-- ===== src/Batch/Daemon/Closing.antt =====
-- internal/buildbatch/daemon_handlers.go: the channel `done` of a request.
use buildkit_service.Prelude.{
  ℕ, suc, ◌+◌, ◌≡◌, refl, ap, Bool, true, false, Option, none, some, List, [], ◌∷◌, Text, nat_eq,
  ltb, count_if, inl, inr, Bool-cases, if◌then◌else◌, Result, ok, err, arith,
}
use buildkit_service.Batch.Daemon.{
  is_running, Action, sets_state, cancels_build, closes_done, clears_execution, sets_oneshot,
  removes_images, extracts_images, triggers_shutdown, act, clear_build_execution, Received,
  receive_error, exceeded, received, Validated, archive_error, archive_valid, Request, deferred,
  after_build_command, after_extract, after_reparse, run_build_async, post_oneshot, post_archive,
  post_options, post_body, post_temp, post_plan, System, start_system, new_daemon_server,
  handle_build_post, handle_build_cancel, cancel_current, handle_shutdown, trigger_shutdown,
  act_next, Event, posted, cancel_posted, shutdown_posted, acted, step, run_events,
}

-- How often a plan still closes its channel.
abbrev pub closes : List Action → ℕ
closes [] = 0
closes (closes_done ∷ plan) = suc (closes plan)
closes (cancels_build ∷ plan) = closes plan
closes (clears_execution ∷ plan) = closes plan
closes (removes_images ∷ plan) = closes plan
closes (triggers_shutdown ∷ plan) = closes plan
closes (sets_state st ∷ plan) = closes plan
closes (sets_oneshot ∷ plan) = closes plan
closes (extracts_images ∷ plan) = closes plan

deferred-closes : (oneshot : Bool) → closes (deferred oneshot) ≡ 1
deferred-closes true = refl
deferred-closes false = refl

run_build_async-closes : (oneshot : Bool) (r : Request) → closes (run_build_async oneshot r) ≡ 1
unfolding run_build_async
run_build_async-closes oneshot r = by_reparse r.reparsed
  where
    by_build : (e : Option Text) → closes (after_build_command oneshot e) ≡ 1
    by_build none = deferred-closes oneshot
    by_build (some e) = deferred-closes oneshot

    by_extract : (e : Option Text) → closes (after_extract oneshot r e) ≡ 1
    by_extract none = by_build r.build_error
    by_extract (some e) = deferred-closes oneshot

    by_reparse : (e : Option Text) → closes (after_reparse oneshot r e) ≡ 1
    by_reparse none = by_extract r.extract_error
    by_reparse (some e) = deferred-closes oneshot

post_plan-closes : (r : Request) → closes (post_plan r).1 ≡ 1
unfolding post_plan
post_plan-closes r = by_temp r.temp_error
  where
    by_oneshot : (o : Result Text Bool) → closes (post_oneshot r o).1 ≡ 1
    by_oneshot (err e) = refl
    by_oneshot (ok true) = run_build_async-closes true r
    by_oneshot (ok false) = run_build_async-closes false r

    by_archive : (a : Validated) → closes (post_archive r a).1 ≡ 1
    by_archive (archive_error limit e) = refl
    by_archive archive_valid = by_oneshot r.oneshot

    by_options : (e : Option Text) → closes (post_options r e).1 ≡ 1
    by_options (some e) = refl
    by_options none = by_archive r.archive

    by_body : (b : Received) → closes (post_body r b).1 ≡ 1
    by_body (receive_error e) = refl
    by_body exceeded = refl
    by_body received = by_options r.options_error

    by_temp : (e : Option Text) → closes (post_temp r e).1 ≡ 1
    by_temp (some e) = refl
    by_temp none = by_body r.body

-- How often the channel of a request is closed.
abbrev pub times_closed : ℕ → System → ℕ
times_closed id y = count_if (λ d. nat_eq d id) y.server.closed

-- Each accepted request closes its channel once, or has still to do so.
abbrev pub ClosesOnce : System → ℕ → Type 0
ClosesOnce y id =
    closes (y.plans id) + times_closed id y ≡ (if ltb id y.server.next_id then 1 else 0)

posted-ClosesOnce :
    (r : Request) (y : System)
    → ((j : ℕ) → ClosesOnce y j)
    → (id : ℕ) → ClosesOnce (handle_build_post r y).1 id
unfolding handle_build_post
posted-ClosesOnce r y h id = elim (Bool-cases (is_running y.server.build.status)) [
  | inl e ↦ rw e (h id)
  | inr e ↦ rw e (ground (arith, h id, h y.server.next_id, post_plan-closes r))
]

act-closed :
    (id : ℕ) (a : Action) (plan : List Action) (y : System) (j : ℕ)
    → y.plans id ≡ a ∷ plan
    → ClosesOnce y j
    → ClosesOnce (act_next id (a ∷ plan) y) j
unfolding act clear_build_execution trigger_shutdown
act-closed id closes_done plan y j p h = ground (arith, h, ap closes p)
act-closed id cancels_build plan y j p h = ground (arith, h, ap closes p)
act-closed id clears_execution plan y j p h = ground (arith, h, ap closes p)
act-closed id removes_images plan y j p h = ground (arith, h, ap closes p)
act-closed id triggers_shutdown plan y j p h = ground (arith, h, ap closes p)
act-closed id (sets_state st) plan y j p h = ground (arith, h, ap closes p)
act-closed id sets_oneshot plan y j p h = ground (arith, h, ap closes p)
act-closed id extracts_images plan y j p h = ground (arith, h, ap closes p)

step-ClosesOnce :
    (e : Event) (y : System) → ((j : ℕ) → ClosesOnce y j) → (id : ℕ) → ClosesOnce (step e y) id
unfolding step handle_build_cancel handle_shutdown trigger_shutdown
step-ClosesOnce (posted r) y h id = posted-ClosesOnce r y h id
step-ClosesOnce cancel_posted y h id =
    by_current (is_running y.server.build.status) y.server.build_cancel
  where
    by_current :
        (r : Bool) (c : Option ℕ)
        → ClosesOnce (record y { server = (cancel_current r c y.server).1 }) id
    by_current false c = h id
    by_current true none = h id
    by_current true (some k) = h id
step-ClosesOnce shutdown_posted y h id = h id
step-ClosesOnce (acted k) y h id = by_plan (y.plans k) refl
  where
    by_plan : (plan : List Action) → y.plans k ≡ plan → ClosesOnce (act_next k plan y) id
    by_plan [] p = h id
    by_plan (a ∷ plan) p = act-closed k a plan y id p (h id)

run_events-kept :
    (es : List Event) (y : System)
    → ((j : ℕ) → ClosesOnce y j)
    → (id : ℕ) → ClosesOnce (run_events es y) id
unfolding run_events
run_events-kept [] y h id = h id
run_events-kept (e ∷ es) y h id = run_events-kept es (step e y) (step-ClosesOnce e y h) id

-- However requests interleave, the channel of an accepted request is closed exactly once when the
-- request has nothing left to do, and never twice: its closings so far and those that its plan
-- still has are one together. No other channel is closed.
pub run_events-ClosesOnce : (es : List Event) (id : ℕ) → ClosesOnce (run_events es start_system) id
unfolding start_system new_daemon_server
run_events-ClosesOnce es id = run_events-kept es start_system (λ j. ground arith) id
