-- ===== src/Tests/Daemons.antt =====
-- The daemon of the batch: internal/buildbatch/daemon_handlers.go.
use buildkit_service.Prelude.{◌≡◌, refl, true, false, none, List, [], ◌∷◌, text, ok}
use buildkit_service.Batch.Daemon.{
  running, Request, received, archive_valid, archive_error, after_build_command, post_plan,
  start_system, Event, posted, cancel_posted, acted, run_events,
}
use buildkit_service.Batch.Daemon.Exclusion.{IsExclusive, run_events-IsExclusive}
use buildkit_service.Batch.Daemon.Closing.{ClosesOnce, run_events-ClosesOnce}
use buildkit_service.Batch.Daemon.Images.{GetsBuilt, overlap, images-lost}

abbrev request : Request
request = record {
  temp_error = none;
  body = received;
  options_error = none;
  archive = archive_valid;
  oneshot = ok false;
  reparsed = none;
  extract_error = none;
  build_error = none;
}

-- An archive over the limit.
too_large : (post_plan (record request { archive = archive_error true (text "limit") })).0 ≡ 413
unfolding post_plan
too_large = refl

abbrev twice : List Event
twice = posted request ∷ posted request ∷ cancel_posted ∷ acted 0 ∷ []

run_events-IsExclusive_example : IsExclusive (run_events twice start_system)
run_events-IsExclusive_example = run_events-IsExclusive twice

run_events-ClosesOnce_example : ClosesOnce (run_events twice start_system) 0
run_events-ClosesOnce_example = run_events-ClosesOnce twice 0

gets_built : GetsBuilt request
gets_built = record {
  no_temp_error = refl;
  whole_body = refl;
  good_options = refl;
  good_archive = refl;
  not_oneshot = refl;
  good_again = refl;
  good_extract = refl;
}

images-lost_example :
    ((run_events (overlap request request) start_system).server.build.status ≡ running)
    × ((run_events (overlap request request) start_system).plans 1 ≡ after_build_command false none)
    × ((run_events (overlap request request) start_system).server.image_dir ≡ none)
images-lost_example = images-lost request request gets_built gets_built
