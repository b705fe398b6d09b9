-- ===== src/Daemon/Store.antt =====
-- internal/builddaemon/tasks.go: taskStore, the map of retained tasks behind its mutex. Each
-- method is one atomic step.
pub mod Expiry
use buildkit_service.Prelude.{
  ℕ, ◌+◌, ◌≤◌, Bool, true, false, not, ◌&&◌, Option, none, some, List, [], ◌∷◌, Map, Text, ltb, leb,
  length, count_values, if◌then◌else◌, lookup, insert, erase, sort_by, text_eq, ◌==◌, eq_text,
}
use buildkit_service.Daemon.Task.{Task, Status, status_eq, clone_task}

abbrev pub Store : Type 0
Store = Map Text Task

pub new_task_store : Store
new_task_store = []

unfoldable pub add : Task → Store → Store
add t s = insert t.id t s

unfoldable pub len : Store → ℕ
len s = length s

abbrev copy_of : Option Task → Option Task
copy_of none = none
copy_of (some t) = some (clone_task t)

unfoldable pub get : Text → Store → Option Task
unfolding lookup text_eq clone_task
get id s = copy_of (lookup id s)

unfoldable pub count_by_status : Status → Store → ℕ
count_by_status st = count_values λ t. status_eq t.status st

unfoldable pub count_by_mode_and_status : Text → Status → Store → ℕ
unfolding text_eq
count_by_mode_and_status m st = count_values λ t. text_eq t.mode m && status_eq t.status st

copies : Store → List Task
copies [] = []
copies ((id, t) ∷ s) = clone_task t ∷ copies s

unfoldable pub list : Store → List Task
unfolding copies sort_by clone_task
list s = sort_by (λ a b. ltb a.created_at b.created_at) (copies s)

-- `fn` is the closure: it returns the task that it leaves and what it assigns to the variables of
-- its caller, which hold `r` where it does not run.
unfoldable pub update {ℓ} :
    {R : Type ℓ} → Text → (Task → Task × R) → R → Store → Store × Option Task × R
update id fn r s = elim (lookup id s) [
  | none ↦ (s, none, r)
  | some t ↦ let (t', r') = fn t in (insert id t' s, some (clone_task t'), r')
]

unfoldable pub delete : Text → Store → Store × Option Task
delete id s = elim (lookup id s) [ none ↦ (s, none) | some t ↦ (erase id s, some (clone_task t)) ]

-- now.Before(finished.Add(keepTTL)) fails for a task that is finished.
unfoldable pub is_expired : ℕ → ℕ → Task → Bool
is_expired now keep_ttl t = elim t.finished_at [
  | none ↦ false
  | some finished ↦ not (ltb now (finished + keep_ttl))
]

-- The loop over the entries of the map.
unfoldable pub delete_expired_loop : ℕ → ℕ → Store → Store → Store × List Task
delete_expired_loop now keep_ttl [] s = (s, [])
delete_expired_loop now keep_ttl ((id, t) ∷ es) s =
    let old = is_expired now keep_ttl t in
    let (s', expired) = delete_expired_loop now keep_ttl es (if old then erase id s else s) in
    (s', if old then clone_task t ∷ expired else expired)

unfoldable pub delete_expired : ℕ → ℕ → Store → Store × List Task
unfolding delete_expired_loop is_expired
delete_expired now keep_ttl s = delete_expired_loop now keep_ttl s s
