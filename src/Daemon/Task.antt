-- ===== src/Daemon/Task.antt =====
-- internal/builddaemon/tasks.go: a build task, its status, its copy and its view.
use buildkit_service.Prelude.{
  ℕ, ◌/◌, ◌≡◌, refl, ap, Bool, true, false, ◌||◌, Option, List, [], ◌∷◌, Map, Text,
}

pub data Status : Type 0 where
  queued running succeeded failed canceled : Status

abbrev pub status_eq : Status → Status → Bool
status_eq queued queued = true
status_eq running running = true
status_eq succeeded succeeded = true
status_eq failed failed = true
status_eq canceled canceled = true
status_eq _ _ = false

-- Times are nanoseconds. `none` stands for a nil pointer, and in `queued_at` for the zero time.
-- A context and a `done` channel are shared by the copies of a task, so a task holds a name of
-- each, and the server holds their state. Spans are left out.
pub record Task : Type 0 where
  pub trace_id : Text
  pub queued_at : Option ℕ
  pub observed : Bool
  pub id : Text
  pub status : Status
  pub image : Text
  pub mode : Text
  pub routed_target : Text
  pub image_type : Text
  pub target : Text
  pub buildkit_addr : Text
  pub node_ip : Text
  pub created_at : ℕ
  pub started_at : Option ℕ
  pub finished_at : Option ℕ
  pub error : Text
  pub log_path : Text
  pub work_dir : Text
  pub exporter_response : Map Text Text
  pub context_dir : Text
  pub schedule_key : Text
  pub routing_digest : Text
  pub no_cache : Bool
  pub retry : ℕ
  pub retry_interval : ℕ
  pub build_args : Map Text Text
  pub ctx : ℕ
  pub done : Option ℕ

-- buildTaskView, what a client reads.
pub record TaskView : Type 0 where
  pub trace_id : Text
  pub id : Text
  pub status : Status
  pub image : Text
  pub mode : Text
  pub routed_target : Text
  pub image_type : Text
  pub target : Text
  pub buildkit_addr : Text
  pub node_ip : Text
  pub retry : ℕ
  pub retry_interval_seconds : ℕ
  pub created_at : ℕ
  pub started_at : Option ℕ
  pub finished_at : Option ℕ
  pub error : Text

-- A nil map and an empty map are both [].
unfoldable pub clone_string_map : Map Text Text → Map Text Text
clone_string_map [] = []
clone_string_map ((k, v) ∷ m) = (k, v) ∷ clone_string_map m

unfoldable pub clone_task : Task → Task
clone_task t = record t {
  build_args = clone_string_map t.build_args;
  exporter_response = clone_string_map t.exporter_response;
}

pub clone_string_map_lem : (m : Map Text Text) → clone_string_map m ≡ m
unfolding clone_string_map
clone_string_map_lem [] = refl
clone_string_map_lem ((k, v) ∷ m) = ap (λ r. (k, v) ∷ r) (clone_string_map_lem m)

pub clone_task_lem : (t : Task) → clone_task t ≡ t
unfolding clone_task
clone_task_lem t = λ i. record t {
  build_args = clone_string_map_lem t.build_args i;
  exporter_response = clone_string_map_lem t.exporter_response i;
}

unfoldable pub view_task : Task → TaskView
view_task t = record {
  trace_id = t.trace_id;
  id = t.id;
  status = t.status;
  image = t.image;
  mode = t.mode;
  routed_target = t.routed_target;
  image_type = t.image_type;
  target = t.target;
  buildkit_addr = t.buildkit_addr;
  node_ip = t.node_ip;
  retry = t.retry;
  retry_interval_seconds = t.retry_interval / 1_000_000_000;
  created_at = t.created_at;
  started_at = t.started_at;
  finished_at = t.finished_at;
  error = t.error;
}

unfoldable pub view_tasks : List Task → List TaskView
view_tasks [] = []
view_tasks (t ∷ ts) = view_task t ∷ view_tasks ts

-- The two statuses in which a task may still run.
abbrev pub is_live : Status → Bool
is_live s = status_eq s queued || status_eq s running

abbrev pub is_terminal : Status → Bool
is_terminal succeeded = true
is_terminal failed = true
is_terminal canceled = true
is_terminal _ = false
