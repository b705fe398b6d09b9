-- ===== src/Batch/Counters.antt =====
-- internal/buildbatch/results.go: buildOutcomeCounters and the order in which a result is stored
-- and counted.
pub mod Tally
use buildkit_service.Prelude.{
  ℕ, ◌+◌, ◌-◌, Bool, true, false, not, ◌&&◌, Option, none, some, List, [], ◌∷◌, Map, Text, eq_text,
  text_eq, lookup, insert, ltb, if◌then◌else◌, Result, ok, err,
}

pub data BuildOutcomeState : Type 0 where
  outcome_unknown outcome_failed outcome_succeeded : BuildOutcomeState

abbrev pub state_eq : BuildOutcomeState → BuildOutcomeState → Bool
state_eq outcome_unknown outcome_unknown = true
state_eq outcome_failed outcome_failed = true
state_eq outcome_succeeded outcome_succeeded = true
state_eq _ _ = false

-- The counts are ints in the source. A count goes down only where a target has the state that it
-- counts, so none passes below 0.
pub record BuildOutcomeCounters : Type 0 where
  pub total : ℕ
  pub succeeded : ℕ
  pub failed : ℕ
  pub states : Map Text BuildOutcomeState

abbrev pub count_up : BuildOutcomeState → BuildOutcomeCounters → BuildOutcomeCounters
count_up outcome_succeeded c = record c { succeeded = c.succeeded + 1 }
count_up outcome_failed c = record c { failed = c.failed + 1 }
count_up outcome_unknown c = c

abbrev pub count_down : BuildOutcomeState → BuildOutcomeCounters → BuildOutcomeCounters
count_down outcome_succeeded c = record c { succeeded = c.succeeded - 1 }
count_down outcome_failed c = record c { failed = c.failed - 1 }
count_down outcome_unknown c = c

unfoldable pub count_states :
    Map Text BuildOutcomeState → BuildOutcomeCounters → BuildOutcomeCounters
unfolding insert text_eq
count_states [] c = c
count_states ((target, state) ∷ rest) c =
    count_states rest (count_up state (record c { states = insert target state c.states }))

unfoldable pub new_build_outcome_counters : ℕ → Map Text BuildOutcomeState → BuildOutcomeCounters
unfolding count_states
new_build_outcome_counters total states =
    count_states states (record { total = total; succeeded = 0; failed = 0; states = [] })

-- A target that the map lacks reads as unknown.
abbrev pub or_unknown : Option BuildOutcomeState → BuildOutcomeState
or_unknown none = outcome_unknown
or_unknown (some s) = s

abbrev pub set_state : Text → BuildOutcomeState → BuildOutcomeCounters → BuildOutcomeCounters
set_state target state c = record c { states = insert target state c.states }

unfoldable pub apply_existing :
    Text → BuildOutcomeState → BuildOutcomeCounters → BuildOutcomeCounters
unfolding lookup text_eq insert
apply_existing target state c =
    let previous = or_unknown (lookup target c.states) in
    if state_eq previous state
    then c
    else set_state target state (count_up state (count_down previous c))

abbrev pub outcome_of_success : Bool → BuildOutcomeState
outcome_of_success true = outcome_succeeded
outcome_of_success false = outcome_failed

unfoldable pub apply : Text → Bool → BuildOutcomeCounters → BuildOutcomeCounters
unfolding lookup text_eq insert
apply target success c =
    let previous = or_unknown (lookup target c.states) in
    let next = outcome_of_success success in
    if not (state_eq previous next)
    then set_state target next (count_up next (count_down previous c))
    else c

unfoldable pub decrement_total : BuildOutcomeCounters → BuildOutcomeCounters
decrement_total c = if ltb 0 c.total then record c { total = c.total - 1 } else c

-- What the methods return: succeeded, total, failed.
unfoldable pub snapshot_counts : BuildOutcomeCounters → ℕ × ℕ × ℕ
snapshot_counts c = (c.succeeded, c.total, c.failed)

pub record ResultEntry : Type 0 where
  pub started_at : Text
  pub finished_at : Text
  pub elapsed : Text
  pub target : Text
  pub node_ip : Text
  pub success : Bool
  pub logs : Text
  pub reason : Text

-- UpsertResult: the failure log that it appends, whose error is only printed, and the entry that it
-- then puts into the database.
unfoldable pub upsert_result : ResultEntry → Option (Text × Text) × ResultEntry
unfolding text_eq
upsert_result e =
    if not e.success && not (text_eq e.logs [])
    then (some (e.target, e.logs), record e { logs = [] })
    else (none, e)

-- persistBuildResult; `put` is the answer of the database.
unfoldable pub persist_build_result :
    (ResultEntry → Option Text)
    → ResultEntry
    → BuildOutcomeCounters
    → Result Text BuildOutcomeCounters
unfolding upsert_result apply
persist_build_result put e c = elim (put (upsert_result e).1) [
  | none ↦ ok (apply e.target e.success c)
  | some error ↦ err error
]
