-- ===== src/Batch/Daemon/Images.antt =====
-- internal/buildbatch/daemon_handlers.go: the directory of images, which all requests share.
use buildkit_service.Prelude.{◌≡◌, refl, false, none, List, [], ◌∷◌, inl, inr, Option-cases, ok}
use buildkit_service.Batch.Daemon.{
  running, removes_images, extracts_images, act, set_build_state, received, archive_valid, Request,
  after_build_command, run_build_async, post_plan, start_system, new_daemon_server,
  handle_build_post, Event, posted, acted, step, run_events,
}

-- A request that meets no error up to its build, and is not a oneshot.
pub record GetsBuilt (r : Request) : Type 0 where
  pub no_temp_error : r.temp_error ≡ none
  pub whole_body : r.body ≡ received
  pub good_options : r.options_error ≡ none
  pub good_archive : r.archive ≡ archive_valid
  pub not_oneshot : r.oneshot ≡ ok false
  pub good_again : r.reparsed ≡ none
  pub good_extract : r.extract_error ≡ none

plan-GetsBuilt :
    (r : Request)
    → GetsBuilt r
    → post_plan r
      ≡ (202, removes_images ∷ extracts_images ∷ after_build_command false r.build_error)
unfolding post_plan run_build_async
plan-GetsBuilt r b =
    rw
      (
        b.no_temp_error, b.whole_body, b.good_options, b.good_archive, b.not_oneshot, b.good_again,
        b.good_extract,
      )
      refl

-- The first request sets its final state; a second one is accepted and extracts its images; then
-- the deferred removal of the first runs.
abbrev pub overlap : Request → Request → List Event
overlap a b = posted a ∷ acted 0 ∷ acted 0 ∷ acted 0 ∷ posted b ∷ acted 1 ∷ acted 1 ∷ acted 0 ∷ []

-- Of any two requests that meet no error up to their build and are not oneshots, the second can lose
-- its images: between the final state of the first and its deferred removal the second is accepted
-- and extracts its images; then it runs, has only its build before it, and the directory is empty.
pub images-lost :
    (a b : Request)
    → GetsBuilt a
    → GetsBuilt b
    → ((run_events (overlap a b) start_system).server.build.status ≡ running)
      × ((run_events (overlap a b) start_system).plans 1 ≡ after_build_command false b.build_error)
      × ((run_events (overlap a b) start_system).server.image_dir ≡ none)
unfolding run_events step start_system handle_build_post act set_build_state new_daemon_server
images-lost a b p q = elim (Option-cases a.build_error) [
  | inl e ↦ rw (plan-GetsBuilt a p, e, plan-GetsBuilt b q) (refl, refl, refl)
  | inr (t, e) ↦ rw (plan-GetsBuilt a p, e, plan-GetsBuilt b q) (refl, refl, refl)
]
