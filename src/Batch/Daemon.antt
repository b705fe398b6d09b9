-- ===== src/Batch/Daemon.antt =====
-- internal/buildbatch/daemon.go and daemon_handlers.go: the HTTP daemon that runs one batch at a
-- time. A request that is accepted becomes a plan, the actions on shared state that its handler
-- and runBuildAsync take in their order; the plans of several requests interleave.
pub mod Plans
pub mod Exclusion
pub mod Closing
pub mod Images
use buildkit_service.Prelude.{
  ℕ, zero, suc, ◌≡◌, Bool, true, false, not, ◌&&◌, Option, none, some, List, [], ◌∷◌, ◌++◌, Text,
  text, text_eq, nat_eq, contains, if◌then◌else◌, Result, ok, err,
}

pub data Status : Type 0 where
  idle running completed failed shutting_down rejected : Status

pub record DaemonState : Type 0 where
  pub status : Status
  pub error : Text

abbrev pub is_running : Status → Bool
is_running running = true
is_running _ = false

-- A context and a channel `done` are named by the number of the request that made them.
-- `cancelled` are the contexts that were cancelled, `closed` the channels in the order of their
-- closing, `image_dir` whose images the directory daemonImageDir holds.
pub record DaemonServer : Type 0 where
  pub build : DaemonState
  pub build_cancel : Option ℕ
  pub build_done : Option ℕ
  pub oneshot : Bool
  pub shutdown_closed : Bool
  pub next_id : ℕ
  pub cancelled : List ℕ
  pub closed : List ℕ
  pub image_dir : Option ℕ

unfoldable pub new_daemon_server : DaemonServer
new_daemon_server = record {
  build = record { status = idle; error = [] };
  build_cancel = none;
  build_done = none;
  oneshot = false;
  shutdown_closed = false;
  next_id = 0;
  cancelled = [];
  closed = [];
  image_dir = none;
}

unfoldable pub trigger_shutdown : DaemonServer → DaemonServer
trigger_shutdown s = record s { shutdown_closed = true }

unfoldable pub set_build_state : DaemonState → DaemonServer → DaemonServer
set_build_state st s = record s { build = st }

abbrev pub same_done : ℕ → Option ℕ → Bool
same_done id none = false
same_done id (some d) = nat_eq d id

unfoldable pub clear_build_execution : ℕ → DaemonServer → DaemonServer
clear_build_execution id s =
    if same_done id s.build_done then record s { build_done = none; build_cancel = none } else s

-- An action of one request.
pub data Action : Type 0 where
  sets_state : DaemonState → Action
  cancels_build : Action
  closes_done : Action
  clears_execution : Action
  sets_oneshot : Action
  removes_images : Action
  extracts_images : Action
  triggers_shutdown : Action

unfoldable pub act : ℕ → Action → DaemonServer → DaemonServer
unfolding set_build_state clear_build_execution trigger_shutdown
act id (sets_state st) s = set_build_state st s
act id cancels_build s = record s { cancelled = id ∷ s.cancelled }
act id closes_done s = record s { closed = id ∷ s.closed }
act id clears_execution s = clear_build_execution id s
act id sets_oneshot s = record s { oneshot = true }
act id removes_images s = record s { image_dir = none }
act id extracts_images s = record s { image_dir = some id }
act id triggers_shutdown s = trigger_shutdown s

-- What receiving the body gives.
pub data Received : Type 0 where
  receive_error : Text → Received
  exceeded : Received
  received : Received

-- The answer of validateBuildArchive: an error, with whether it is errDaemonArchiveLimit.
pub data Validated : Type 0 where
  archive_error : Bool → Text → Validated
  archive_valid : Validated

-- What a request meets on its way; `none` is a nil error. `reparsed` is the second
-- buildOptionsFromQuery, in runBuildAsync.
pub record Request : Type 0 where
  pub temp_error : Option Text
  pub body : Received
  pub options_error : Option Text
  pub archive : Validated
  pub oneshot : Result Text Bool
  pub reparsed : Option Text
  pub extract_error : Option Text
  pub build_error : Option Text

abbrev pub failed_with : Text → DaemonState
failed_with e = record { status = failed; error = e }

-- The end of a request that is not built.
abbrev pub post_failure : Text → List Action
post_failure e = sets_state (failed_with e) ∷ cancels_build ∷ closes_done ∷ clears_execution ∷ []

-- The deferred calls of runBuildAsync, last first.
abbrev pub deferred : Bool → List Action
deferred oneshot =
    removes_images
    ∷ clears_execution
    ∷ closes_done
    ∷ (if oneshot then triggers_shutdown ∷ [] else [])

abbrev pub after_build_command : Bool → Option Text → List Action
after_build_command oneshot (some e) = sets_state (failed_with e) ∷ deferred oneshot
after_build_command oneshot none =
    sets_state (record { status = completed; error = [] }) ∷ deferred oneshot

-- A failed extraction may leave a part of the images.
abbrev pub after_extract : Bool → Request → Option Text → List Action
after_extract oneshot r (some e) =
    sets_state (failed_with (text "extract zip: " ++ e)) ∷ deferred oneshot
after_extract oneshot r none = after_build_command oneshot r.build_error

abbrev pub after_reparse : Bool → Request → Option Text → List Action
after_reparse oneshot r (some e) = sets_state (failed_with e) ∷ deferred oneshot
after_reparse oneshot r none =
    removes_images ∷ extracts_images ∷ after_extract oneshot r r.extract_error

unfoldable pub run_build_async : Bool → Request → List Action
run_build_async oneshot r = after_reparse oneshot r r.reparsed

-- The rest of handleBuildPost from each of its checks on: its answer, and the plan.
abbrev pub post_oneshot : Request → Result Text Bool → ℕ × List Action
unfolding run_build_async
post_oneshot r (err e) = (400, post_failure e)
post_oneshot r (ok true) = (202, sets_oneshot ∷ run_build_async true r)
post_oneshot r (ok false) = (202, run_build_async false r)

abbrev pub post_archive : Request → Validated → ℕ × List Action
unfolding run_build_async
post_archive r (archive_error limit e) = (if limit then 413 else 400, post_failure e)
post_archive r archive_valid = post_oneshot r r.oneshot

abbrev pub post_options : Request → Option Text → ℕ × List Action
unfolding run_build_async
post_options r (some e) = (400, post_failure e)
post_options r none = post_archive r r.archive

abbrev pub post_body : Request → Received → ℕ × List Action
unfolding run_build_async
post_body r (receive_error e) = (500, post_failure (text "receive zip: " ++ e))
post_body r exceeded = (413, post_failure (text "compressed upload exceeds 512 MiB"))
post_body r received = post_options r r.options_error

abbrev pub post_temp : Request → Option Text → ℕ × List Action
unfolding run_build_async
post_temp r (some e) = (500, post_failure e)
post_temp r none = post_body r r.body

unfoldable pub post_plan : Request → ℕ × List Action
unfolding run_build_async
post_plan r = post_temp r r.temp_error

-- The plans by the number of their request.
pub record System : Type 0 where
  pub server : DaemonServer
  pub plans : ℕ → List Action

unfoldable pub start_system : System
unfolding new_daemon_server
start_system = record { server = new_daemon_server; plans = λ id. [] }

abbrev pub with_plan : (ℕ → List Action) → ℕ → List Action → ℕ → List Action
with_plan plans id plan j = if nat_eq id j then plan else plans j

-- The first critical section of handleBuildPost, for a request that is not rejected.
abbrev pub claim : DaemonServer → DaemonServer
claim s = record s {
  build = record { status = running; error = [] };
  build_cancel = some s.next_id;
  build_done = some s.next_id;
  next_id = suc s.next_id;
}

-- handleBuildPost: its answer, and the system with its plan.
unfoldable pub handle_build_post : Request → System → ℕ × System
unfolding post_plan
handle_build_post r y = if is_running y.server.build.status then (409, y) else (
  (post_plan r).0,
  record { server = claim y.server; plans = with_plan y.plans y.server.next_id (post_plan r).1 },
)

-- handleBuildCancel
abbrev pub cancel_current : Bool → Option ℕ → DaemonServer → ℕ × DaemonServer
cancel_current false id s = (200, s)
cancel_current true none s = (200, s)
cancel_current true (some id) s = (202, record s { cancelled = id ∷ s.cancelled })

unfoldable pub handle_build_cancel : DaemonServer → ℕ × DaemonServer
handle_build_cancel s = cancel_current (is_running s.build.status) s.build_cancel s

unfoldable pub handle_shutdown : DaemonServer → ℕ × DaemonServer
unfolding trigger_shutdown
handle_shutdown s = (202, trigger_shutdown s)

-- The next action of a plan.
abbrev pub act_next : ℕ → List Action → System → System
act_next id [] y = y
act_next id (a ∷ plan) y = record { server = act id a y.server; plans = with_plan y.plans id plan }

pub data Event : Type 0 where
  posted : Request → Event
  cancel_posted : Event
  shutdown_posted : Event
  acted : ℕ → Event

unfoldable pub step : Event → System → System
unfolding handle_build_post handle_build_cancel handle_shutdown act
step (posted r) y = (handle_build_post r y).1
step cancel_posted y = record y { server = (handle_build_cancel y.server).1 }
step shutdown_posted y = record y { server = (handle_shutdown y.server).1 }
step (acted id) y = act_next id (y.plans id) y

unfoldable pub run_events : List Event → System → System
unfolding step
run_events [] y = y
run_events (e ∷ es) y = run_events es (step e y)

-- What gracefulShutdown waits for: the channel of the current build, if there is one.
unfoldable pub awaits : DaemonServer → Option ℕ
awaits s = s.build_done

abbrev is_failed : Status → Bool
is_failed failed = true
is_failed _ = false

unfoldable pub completion_error : DaemonServer → Option Text
completion_error s =
    if s.oneshot && is_failed s.build.status
    then some (text "oneshot build failed: " ++ s.build.error)
    else none
