-- ===== src/Tests/Requests.antt =====
-- Admitting a build: internal/builddaemon/build_request.go.
use buildkit_service.Prelude.{
  ◌+◌, ◌≤◌, ◌<◌, ◌≡◌, refl, true, some, [], ◌∷◌, text, eq_text, text_eq, lookup, insert, ok, pos,
  negsuc,
}
use buildkit_service.Daemon.Store.{len}
use buildkit_service.Daemon.Queue.{push}
use buildkit_service.Daemon.Scheduler.{ModeScheduler, enqueue, scheduler_closed}
use buildkit_service.Daemon.Steps.{new_server}
use buildkit_service.Daemon.Request.{
  Limits, limit_or_default, default_max_request_bytes, default_max_extracted_bytes, work_dir_limit,
  admit_request, admit_extraction, register_task, query_bool, parse_build_args,
}
use buildkit_service.Daemon.Request.Admission.{admitted-budget}
use buildkit_service.Tests.Tasks.{new_task}

abbrev limits : Limits
limits = record {
  max_retained_tasks = pos 2;
  max_work_dir_bytes = pos 1000;
  max_request_bytes = pos 400;
  max_extracted_bytes = negsuc 0;
}

admitted : admit_request limits 0 700 ≡ ok 300
unfolding admit_request
admitted = refl

extracting : admit_extraction limits 700 120 ≡ ok 180
unfolding admit_extraction
extracting = refl

admitted_empty : admit_request limits (len new_server.store) 700 ≡ ok 300
unfolding admit_request len new_server
admitted_empty = refl

admitted-budget_example :
    (0 < 2)
    × (0 < 300)
    × (700 + 300 ≤ work_dir_limit limits)
    × (300 ≤ limit_or_default (pos 400) default_max_request_bytes)
    × (0 < 180)
    × (700 + 120 + 180 ≤ work_dir_limit limits)
    × (180 ≤ limit_or_default (negsuc 0) default_max_extracted_bytes)
admitted-budget_example = admitted-budget limits 0 700 300 120 180 admitted extracting

abbrev closed_modes : ModeScheduler
closed_modes = record {
  queues = (text "default_mode", record { ids = []; closed = true }) ∷ [];
  workers = [];
  once = true;
}

refused : (register_task new_task 9 new_server (some closed_modes)).0 ≡ some scheduler_closed
unfolding register_task enqueue push lookup text_eq
refused = refl

arguments :
    parse_build_args
      ((text "build_arg.A", text "1" ∷ [])
        ∷ (text "image", text "r/a" ∷ [])
        ∷ (text "build_arg: B ", text "2" ∷ text "3" ∷ [])
        ∷ [])
      []
    ≡ (text "A", text "1") ∷ (text "B", text "2") ∷ []
unfolding parse_build_args insert
arguments = refl

yes : query_bool (text " YES ") ≡ true
unfolding query_bool
yes = refl
