-- ===== src/Daemon/Request/Admission.antt =====
-- internal/builddaemon/build_request.go: the limits hold, and a refused build leaves no task.
use buildkit_service.Prelude.{
  ℕ, suc, ◌+◌, ◌≤◌, ◌<◌, ◌≡◌, Option, none, some, [], ◌∷◌, Text, eq_text, lookup, insert, length,
  ok, arith,
}
use buildkit_service.Daemon.Task.{Task}
use buildkit_service.Daemon.Store.{Store, add, len}
use buildkit_service.Daemon.Lifecycle.{Server, add_task}
use buildkit_service.Daemon.Scheduler.{ModeScheduler, SchedulerError}
use buildkit_service.Daemon.Request.{
  Limits, limit_or_default, default_max_request_bytes, default_max_extracted_bytes, retained_limit,
  work_dir_limit, admit_request, admit_extraction,
}

length-insert_le : (k : Text) (t : Task) (s : Store) → length (insert k t s) ≤ suc (length s)
unfolding insert
length-insert_le k t [] = omega arith
length-insert_le k t ((j, u) ∷ s) = ground (arith, length-insert_le k t s)

-- A request is admitted only while the table is below its limit, so that with the new task it is
-- within the limit.
pub admit_request-len :
    (l : Limits) (t : Task) (s : Server) (work_dir_bytes max : ℕ)
    → admit_request l (len s.store) work_dir_bytes ≡ ok max
    → len (add_task t s).store ≤ retained_limit l
unfolding admit_request len add_task add
admit_request-len l t s w max h = ground (arith, h, length-insert_le t.id t s.store)

-- A request is admitted only below the limit on tasks, and gets bytes for its upload: some, no more
-- than the limit on requests, and with the bytes that are in use no more than the limit on the work
-- directory; the extraction of its archive gets the same of its own limit and of what the archive
-- leaves.
pub admitted-budget :
    (l : Limits) (tasks work_dir_bytes max zip_bytes max_extracted : ℕ)
    → admit_request l tasks work_dir_bytes ≡ ok max
    → admit_extraction l work_dir_bytes zip_bytes ≡ ok max_extracted
    → (tasks < retained_limit l)
      × (0 < max)
      × (work_dir_bytes + max ≤ work_dir_limit l)
      × (max ≤ limit_or_default l.max_request_bytes default_max_request_bytes)
      × (0 < max_extracted)
      × (work_dir_bytes + zip_bytes + max_extracted ≤ work_dir_limit l)
      × (max_extracted ≤ limit_or_default l.max_extracted_bytes default_max_extracted_bytes)
unfolding admit_request admit_extraction
admitted-budget l tasks w max zip max' h k = (
  ground (arith, h),
  ground (arith, h),
  ground (arith, h),
  ground (arith, h),
  ground (arith, k),
  ground (arith, k),
  ground (arith, k),
)

-- What a registration leaves: the task in the table, or neither it nor a change of the queues.
abbrev pub Registered :
    Task → Option ModeScheduler → Option SchedulerError × Server × Option ModeScheduler → Type 0
Registered t m (none, s, m') = lookup t.id s.store ≡ some t
Registered t m (some e, s, m') = (lookup t.id s.store ≡ none) × (m' ≡ m)
