-- ===== src/Batch/Daemon/Plans.antt =====
-- internal/buildbatch/daemon_handlers.go: the shape of a request's plan, on every branch of
-- handleBuildPost and runBuildAsync.
use buildkit_service.Prelude.{
  ◌≡◌, refl, Bool, true, false, Option, none, some, List, [], ◌∷◌, Text, Result, ok, err,
}
use buildkit_service.Batch.Daemon.{
  is_running, Action, sets_state, cancels_build, closes_done, clears_execution, sets_oneshot,
  removes_images, extracts_images, triggers_shutdown, Received, receive_error, exceeded, received,
  Validated, archive_error, archive_valid, Request, deferred, after_build_command, after_extract,
  after_reparse, run_build_async, post_oneshot, post_archive, post_options, post_body, post_temp,
  post_plan,
}

-- A plan whose request has its final state behind it.
abbrev pub Late : List Action → Type 0
Late [] = Unit {0}
Late (cancels_build ∷ plan) = Late plan
Late (closes_done ∷ plan) = Late plan
Late (clears_execution ∷ plan) = Late plan
Late (removes_images ∷ plan) = Late plan
Late (triggers_shutdown ∷ plan) = Late plan
Late (sets_state st ∷ plan) = ⊥
Late (sets_oneshot ∷ plan) = ⊥
Late (extracts_images ∷ plan) = ⊥

-- A plan that is on its way to one final state.
abbrev pub Early : List Action → Type 0
Early [] = ⊥
Early (sets_state st ∷ plan) = (is_running st.status ≡ false) × Late plan
Early (sets_oneshot ∷ plan) = Early plan
Early (removes_images ∷ plan) = Early plan
Early (extracts_images ∷ plan) = Early plan
Early (cancels_build ∷ plan) = ⊥
Early (closes_done ∷ plan) = ⊥
Early (clears_execution ∷ plan) = ⊥
Early (triggers_shutdown ∷ plan) = ⊥

deferred-Late : (oneshot : Bool) → Late (deferred oneshot)
deferred-Late true = tt
deferred-Late false = tt

run_build_async-Early : (oneshot : Bool) (r : Request) → Early (run_build_async oneshot r)
unfolding run_build_async
run_build_async-Early oneshot r = by_reparse r.reparsed
  where
    by_build : (e : Option Text) → Early (after_build_command oneshot e)
    by_build none = (refl, deferred-Late oneshot)
    by_build (some e) = (refl, deferred-Late oneshot)

    by_extract : (e : Option Text) → Early (after_extract oneshot r e)
    by_extract none = by_build r.build_error
    by_extract (some e) = (refl, deferred-Late oneshot)

    by_reparse : (e : Option Text) → Early (after_reparse oneshot r e)
    by_reparse none = by_extract r.extract_error
    by_reparse (some e) = (refl, deferred-Late oneshot)

-- On every branch of handleBuildPost and of runBuildAsync.
pub post_plan-Early : (r : Request) → Early (post_plan r).1
unfolding post_plan
post_plan-Early r = by_temp r.temp_error
  where
    by_oneshot : (o : Result Text Bool) → Early (post_oneshot r o).1
    by_oneshot (err e) = (refl, tt)
    by_oneshot (ok true) = run_build_async-Early true r
    by_oneshot (ok false) = run_build_async-Early false r

    by_archive : (a : Validated) → Early (post_archive r a).1
    by_archive (archive_error limit e) = (refl, tt)
    by_archive archive_valid = by_oneshot r.oneshot

    by_options : (e : Option Text) → Early (post_options r e).1
    by_options (some e) = (refl, tt)
    by_options none = by_archive r.archive

    by_body : (b : Received) → Early (post_body r b).1
    by_body (receive_error e) = (refl, tt)
    by_body exceeded = (refl, tt)
    by_body received = by_options r.options_error

    by_temp : (e : Option Text) → Early (post_temp r e).1
    by_temp (some e) = (refl, tt)
    by_temp none = by_body r.body
