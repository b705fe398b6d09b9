-- ===== src/Batch/Counters/Tally.antt =====
-- internal/buildbatch/results.go: the counts are those of the states.
use buildkit_service.Prelude.{
  ℕ, ◌+◌, ◌≡◌, refl, sym, subst, Bool, false, Option, none, some, List, [], ◌∷◌, Map, Text, eq_text,
  text_eq, text_eq_iff, lookup, insert, lookup-insert, Unique, count_values, count_values-insert,
  count_values-insert_new, if◌then◌else◌, inl, inr, Bool-cases, arith, bit,
}
use buildkit_service.Batch.Counters.{
  BuildOutcomeState, outcome_unknown, outcome_failed, outcome_succeeded, state_eq,
  BuildOutcomeCounters, count_up, count_down, count_states, new_build_outcome_counters, or_unknown,
  set_state, apply_existing, outcome_of_success, apply, decrement_total,
}

abbrev is_succeeded : BuildOutcomeState → Bool
is_succeeded s = state_eq s outcome_succeeded

abbrev is_failed : BuildOutcomeState → Bool
is_failed s = state_eq s outcome_failed

-- The counts are the numbers of targets in each state.
pub record IsTally (c : BuildOutcomeCounters) : Type 0 where
  pub succeeded : c.succeeded ≡ count_values is_succeeded c.states
  pub failed : c.failed ≡ count_values is_failed c.states

-- A target that changes its state moves the counts by what its old and its new state count for.
moved :
    (s w : BuildOutcomeState) (c : BuildOutcomeCounters) (m : Map Text BuildOutcomeState)
    → IsTally c
    → state_eq w s ≡ false
    → count_values is_succeeded m + bit (is_succeeded w)
      ≡ count_values is_succeeded c.states + bit (is_succeeded s)
    → count_values is_failed m + bit (is_failed w)
      ≡ count_values is_failed c.states + bit (is_failed s)
    → IsTally (record (count_up s (count_down w c)) { states = m })
moved s w c m v ne p q = record {
  succeeded = ground (arith, v.succeeded, p);
  failed = ground (arith, v.failed, q);
}

same_states :
    (s w : BuildOutcomeState) (c : BuildOutcomeCounters)
    → (count_up s (count_down w c)).states ≡ c.states
same_states s w c = ground arith

move :
    (target : Text) (next : BuildOutcomeState) (c : BuildOutcomeCounters)
    (o : Option BuildOutcomeState)
    → lookup target c.states ≡ o
    → IsTally c
    → state_eq (or_unknown o) next ≡ false
    → IsTally (set_state target next (count_up next (count_down (or_unknown o) c)))
move target next c none e v ne = ground (
  arith,
  moved next outcome_unknown c (insert target next c.states) v ne,
  count_values-insert_new is_succeeded target next c.states e,
  count_values-insert_new is_failed target next c.states e,
)
move target next c (some w) e v ne =
    subst (λ m. IsTally (record (count_up next (count_down w c)) { states = insert target next m }))
      (sym (same_states next w c))
      (moved next w c (insert target next c.states) v ne
        (count_values-insert is_succeeded target next w c.states e)
        (count_values-insert is_failed target next w c.states e))

apply_existing-IsTally :
    (target : Text) (state : BuildOutcomeState) (c : BuildOutcomeCounters)
    → IsTally c
    → IsTally (apply_existing target state c)
unfolding apply_existing
apply_existing-IsTally target state c v =
    elim (Bool-cases (state_eq (or_unknown (lookup target c.states)) state)) [
      | inl e ↦ rw e v
      | inr e ↦ rw e (move target state c (lookup target c.states) refl v e)
    ]

apply-IsTally :
    (target : Text) (success : Bool) (c : BuildOutcomeCounters)
    → IsTally c
    → IsTally (apply target success c)
unfolding apply
apply-IsTally target success c v =
    elim (Bool-cases
      (state_eq (or_unknown (lookup target c.states)) (outcome_of_success success))) [
        | inl e ↦ rw e v
        | inr e ↦
            rw e (move target (outcome_of_success success) c (lookup target c.states) refl v e)
      ]

decrement_total-IsTally : (c : BuildOutcomeCounters) → IsTally c → IsTally (decrement_total c)
unfolding decrement_total
decrement_total-IsTally c v = ground (arith, v.succeeded, v.failed)

-- No key of the one map is in the other.
abbrev Apart : Map Text BuildOutcomeState → Map Text BuildOutcomeState → Type 0
Apart [] m = Unit
Apart ((k, s) ∷ rest) m = (lookup k m ≡ none) × Apart rest m

insert-Apart :
    (rest m : Map Text BuildOutcomeState) (k : Text) (s : BuildOutcomeState)
    → lookup k rest ≡ none
    → Apart rest m
    → Apart rest (insert k s m)
unfolding lookup
insert-Apart [] m k s h a = tt
insert-Apart ((j, t) ∷ rest) m k s h a =
    ground (arith, insert-Apart rest m k s, lookup-insert k j s m, text_eq_iff k j, text_eq_iff j k)

up_states : (s : BuildOutcomeState) (c : BuildOutcomeCounters) → (count_up s c).states ≡ c.states
up_states s c = ground arith

added :
    (s : BuildOutcomeState) (c : BuildOutcomeCounters) (m : Map Text BuildOutcomeState)
    → IsTally c
    → count_values is_succeeded m ≡ count_values is_succeeded c.states + bit (is_succeeded s)
    → count_values is_failed m ≡ count_values is_failed c.states + bit (is_failed s)
    → IsTally (count_up s (record c { states = m }))
added s c m v p q = ground (arith, v.succeeded, v.failed, p, q)

count_states-IsTally :
    (states : Map Text BuildOutcomeState) (c : BuildOutcomeCounters)
    → Unique states
    → Apart states c.states
    → IsTally c
    → IsTally (count_states states c)
unfolding count_states
count_states-IsTally [] c u a v = v
count_states-IsTally ((k, s) ∷ rest) c u a v =
    count_states-IsTally rest (count_up s (record c { states = insert k s c.states })) u.1
      (subst (Apart rest) (sym (up_states s (record c { states = insert k s c.states })))
        (insert-Apart rest c.states k s u.0 a.1))
      (added s c (insert k s c.states) v (count_values-insert_new is_succeeded k s c.states a.0)
        (count_values-insert_new is_failed k s c.states a.0))

unnoted : (rest : Map Text BuildOutcomeState) → Apart rest []
unfolding lookup
unnoted [] = tt
unnoted ((k, s) ∷ rest) = (refl, unnoted rest)

-- What the batch does to the counters.
pub data Change : Type 0 where
  applies : Text → Bool → Change
  restores : Text → BuildOutcomeState → Change
  shrinks : Change

unfoldable pub change : Change → BuildOutcomeCounters → BuildOutcomeCounters
change (applies target success) c = apply target success c
change (restores target state) c = apply_existing target state c
change shrinks c = decrement_total c

unfoldable pub change_all : List Change → BuildOutcomeCounters → BuildOutcomeCounters
change_all [] c = c
change_all (x ∷ xs) c = change_all xs (change x c)

change-IsTally : (x : Change) (c : BuildOutcomeCounters) → IsTally c → IsTally (change x c)
unfolding change
change-IsTally (applies target success) c v = apply-IsTally target success c v
change-IsTally (restores target state) c v = apply_existing-IsTally target state c v
change-IsTally shrinks c v = decrement_total-IsTally c v

changes_from : (xs : List Change) (c : BuildOutcomeCounters) → IsTally c → IsTally (change_all xs c)
unfolding change_all
changes_from [] c v = v
changes_from (x ∷ xs) c v = changes_from xs (change x c) (change-IsTally x c v)

-- Counters made of the states of a map with one state to a target, and changed by any sequence of
-- apply, applyExisting and decrementTotal, count exactly the targets in each state.
pub change_all-IsTally :
    (xs : List Change) (total : ℕ) (states : Map Text BuildOutcomeState)
    → Unique states
    → IsTally (change_all xs (new_build_outcome_counters total states))
unfolding new_build_outcome_counters
change_all-IsTally xs total states u =
    changes_from xs (new_build_outcome_counters total states) (
      count_states-IsTally states _ u (unnoted states) (record { succeeded = refl; failed = refl }))

-- The state of a target after its result is applied is that of the result, and the other targets
-- keep theirs.
pub lookup-apply :
    (target other : Text) (success : Bool) (c : BuildOutcomeCounters)
    → lookup other (apply target success c).states
      ≡ (if text_eq target other then some (outcome_of_success success) else lookup other c.states)
unfolding apply
lookup-apply target other success c = by_state (lookup target c.states) success refl
  where
    by_state :
        (o : Option BuildOutcomeState) (b : Bool)
        → lookup target c.states ≡ o
        → lookup other (apply target b c).states
          ≡ (if text_eq target other then some (outcome_of_success b) else lookup other c.states)
    by_state o b e = ground (
      arith,
      e,
      text_eq_iff target other,
      lookup-insert target other outcome_failed c.states,
      lookup-insert target other outcome_succeeded c.states,
    )
