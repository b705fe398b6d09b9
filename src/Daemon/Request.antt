-- ===== src/Daemon/Request.antt =====
-- internal/builddaemon/build_request.go: the parsers of a build request and the limits under which
-- handleCreateBuild admits it.
pub mod Admission
use buildkit_service.Prelude.{
  ℕ, ◌-◌, Bool, true, false, ◌||◌, Option, none, some, List, [], ◌∷◌, ◌++◌, Map, Text, text,
  eq_text, text_eq, insert, trim_space, starts_with, trim_prefix, to_lower, member, ltb, leb,
  nat_eq, if◌then◌else◌, Result, ok, err, ◌>>=◌, ℤ, pos, negsuc,
}
use buildkit_service.Daemon.Task.{Task, canceled}
use buildkit_service.Daemon.Lifecycle.{
  Server, add_task, finish_task, cleanup_task, context_canceled, end_context,
}
use buildkit_service.Daemon.Scheduler.{ModeScheduler, SchedulerError, enqueue}

unfoldable pub first_non_empty : List Text → Text
unfolding text_eq trim_space
first_non_empty [] = []
first_non_empty (v ∷ vs) =
    let rest = first_non_empty vs in if text_eq (trim_space v) [] then rest else v

abbrev pub true_words : List Text
true_words = text "1" ∷ text "t" ∷ text "true" ∷ text "y" ∷ text "yes" ∷ text "on" ∷ []

unfoldable pub query_bool : Text → Bool
unfolding to_lower trim_space member
query_bool raw = member (to_lower (trim_space raw)) true_words

-- strconv.Atoi is the argument `atoi`; `none` is its error.
abbrev pub positive : Option ℤ → Result Text ℕ
positive (some (pos n)) =
    if ltb 0 n then ok n else err (text "timeout_seconds must be a positive integer")
positive _ = err (text "timeout_seconds must be a positive integer")

unfoldable pub parse_optional_positive_int : (Text → Option ℤ) → Text → Result Text ℕ
unfolding text_eq trim_space
parse_optional_positive_int atoi raw =
    if text_eq (trim_space raw) [] then ok 0 else positive (atoi (trim_space raw))

abbrev pub non_negative : Text → Option ℤ → Result Text ℕ
non_negative name (some (pos n)) = ok n
non_negative name _ = err (name ++ text " must be a non-negative integer")

unfoldable pub parse_optional_non_negative_int : (Text → Option ℤ) → Text → Text → ℕ → Result Text ℕ
unfolding text_eq trim_space
parse_optional_non_negative_int atoi raw name def =
    if text_eq (trim_space raw) [] then ok def else non_negative name (atoi (trim_space raw))

-- The name of a form key that is a build argument; blank if it is none.
unfoldable pub build_arg_name : Text → Text
unfolding starts_with trim_prefix trim_space
build_arg_name key =
    if starts_with (text "build_arg.") key
    then trim_space (trim_prefix (text "build_arg.") key)
    else if starts_with (text "build_arg:") key
    then trim_space (trim_prefix (text "build_arg:") key)
    else []

abbrev pub add_arg : Text → List Text → Map Text Text → Map Text Text
add_arg name [] args = args
add_arg name (v ∷ vs) args = if text_eq name [] then args else insert name v args

-- The form is a map, whose order the language leaves open; no form and no argument give nil.
unfoldable pub parse_build_args : Map Text (List Text) → Map Text Text → Map Text Text
unfolding build_arg_name text_eq insert
parse_build_args [] args = args
parse_build_args ((key, values) ∷ form) args =
    parse_build_args form (add_arg (build_arg_name key) values args)

-- A limit that is not positive stands for its default.
abbrev pub limit_or_default : ℤ → ℕ → ℕ
limit_or_default (pos n) def = if ltb 0 n then n else def
limit_or_default (negsuc n) def = def

pub record Limits : Type 0 where
  pub max_retained_tasks : ℤ
  pub max_work_dir_bytes : ℤ
  pub max_request_bytes : ℤ
  pub max_extracted_bytes : ℤ

abbrev pub default_max_retained_tasks : ℕ
default_max_retained_tasks = 100

abbrev pub default_max_work_dir_bytes : ℕ
default_max_work_dir_bytes = 8_589_934_592

abbrev pub default_max_request_bytes : ℕ
default_max_request_bytes = 536_870_912

abbrev pub default_max_extracted_bytes : ℕ
default_max_extracted_bytes = 4_294_967_296

abbrev pub retained_limit : Limits → ℕ
retained_limit l = limit_or_default l.max_retained_tasks default_max_retained_tasks

abbrev pub work_dir_limit : Limits → ℕ
work_dir_limit l = limit_or_default l.max_work_dir_bytes default_max_work_dir_bytes

abbrev pub smaller_limit : ℕ → ℕ → ℕ
smaller_limit remaining limit = if ltb remaining limit then remaining else limit

-- The status codes of a refusal.
pub data Refusal : Type 0 where
  too_many_requests insufficient_storage : Refusal

-- handleCreateBuild up to the body of the request: how many bytes it may have, given the tasks that
-- the table retains and the bytes of the work directory. A difference that is not positive is 0.
unfoldable pub admit_request : Limits → ℕ → ℕ → Result Refusal ℕ
admit_request l tasks work_dir_bytes =
    let remaining = work_dir_limit l - work_dir_bytes in
    if leb (retained_limit l) tasks
    then err too_many_requests
    else if nat_eq remaining 0
    then err insufficient_storage
    else ok
        (smaller_limit remaining (limit_or_default l.max_request_bytes default_max_request_bytes))

-- After the upload: how many bytes the archive may extract to, given those of the upload.
unfoldable pub admit_extraction : Limits → ℕ → ℕ → Result Refusal ℕ
admit_extraction l work_dir_bytes zip_bytes =
    let remaining = work_dir_limit l - work_dir_bytes - zip_bytes in
    if nat_eq remaining 0
    then err insufficient_storage
    else ok (
        smaller_limit remaining
          (limit_or_default l.max_extracted_bytes default_max_extracted_bytes))

-- Where the task goes once it is in the table: to a goroutine of its own without a scheduler, else
-- to the queue of its mode, and if that refuses it, it is cancelled, finished, its channel closed
-- and the task removed. The first part is the refusal.
abbrev pub take_back : Task → ℕ → Server → Server
take_back t now s =
    (cleanup_task t.id (
      let f =
        finish_task t.id canceled [] (some context_canceled) now
          (record s { ended = t.ctx ∷ s.ended }) in
      record f { closed = end_context t.done f.closed })).0

abbrev pub on_enqueued :
    Task
    → ℕ
    → Server
    → ModeScheduler
    → Result SchedulerError ModeScheduler
    → Option SchedulerError × Server × Option ModeScheduler
on_enqueued t now s m (ok m') = (none, s, some m')
on_enqueued t now s m (err e) = (some e, take_back t now s, some m)

unfoldable pub register_task :
    Task → ℕ → Server → Option ModeScheduler → Option SchedulerError × Server × Option ModeScheduler
unfolding add_task enqueue finish_task cleanup_task
register_task t now s none = (none, add_task t s, none)
register_task t now s (some m) = on_enqueued t now (add_task t s) m (enqueue t.mode t.id (some m))
