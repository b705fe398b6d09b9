-- ===== src/Batch/Specs/Group.antt =====
-- internal/buildbatch/build_specs.go: the jobs that groupBuildSpecs makes.
use buildkit_service.Prelude.{
  ◌≡◌, refl, sym, ap, subst, ◌∙◌, Bool, true, false, Option, none, some, List, [], ◌∷◌, ◌++◌, Map,
  Text, eq_text, text_eq, text_eq_iff, text_ltb, lookup, insert, lookup-insert, keys, sort_by,
  sort_by-perm, insert_by, IsSorted, sort_by-IsSorted, text_ltb_asymm, text_le_trans, member,
  All-mono, lookup-insert_self, ◌||◌, keep, append_nil, All, if◌then◌else◌, Bool-cases, inl, inr,
  arith,
}
use mathlib.Core.List.{append_assoc, Perm}
use buildkit_service.Batch.Specs.{
  BuildSpec, BuildJob, spec_key, spec_before, or_no_specs, group_into, jobs_for, group_build_specs,
}

-- Whether a spec belongs to a key.
abbrev pub has_key : Text → BuildSpec → Bool
has_key k spec = text_eq (spec_key spec) k

lookup-group_into :
    (k : Text) (specs : List BuildSpec) (m : Map Text (List BuildSpec))
    → or_no_specs (lookup k (group_into specs m))
      ≡ or_no_specs (lookup k m) ++ keep (has_key k) specs
unfolding group_into
lookup-group_into k [] m = sym (append_nil (or_no_specs (lookup k m)))
lookup-group_into k (spec ∷ specs) m =
    let own = spec_key spec in
    let more = or_no_specs (lookup own m) ++ spec ∷ [] in
    let rest = lookup-group_into k specs (insert own more m) in
    let found = lookup-insert own k more m in
    elim (Bool-cases (text_eq own k)) [
      | inl e ↦
          let same = (text_eq_iff own k).0 e in
          let kept = keep (has_key k) specs in
          let stored : lookup k (insert own more m) ≡ some more = ground (arith, found, e) in
          rest
          ∙ ap (λ o. or_no_specs o ++ kept) stored
          ∙ ap (λ q. (or_no_specs (lookup q m) ++ spec ∷ []) ++ kept) same
          ∙ append_assoc (or_no_specs (lookup k m)) (spec ∷ []) kept
          ∙ ap (λ b. or_no_specs (lookup k m) ++ (if b then spec ∷ kept else kept)) (sym e)
      | inr e ↦ rest ∙ ground (arith, found, e)
    ]

-- The keys of a list of jobs.
abbrev pub job_keys : List BuildJob → List Text
job_keys [] = []
job_keys (job ∷ jobs) = job.key ∷ job_keys jobs

job_keys-jobs_for : (m : Map Text (List BuildSpec)) (ks : List Text) → job_keys (jobs_for m ks) ≡ ks
unfolding jobs_for
job_keys-jobs_for m [] = refl
job_keys-jobs_for m (k ∷ ks) = ap (λ r. k ∷ r) (job_keys-jobs_for m ks)

abbrev is_some : Option (List BuildSpec) → Bool
is_some none = false
is_some (some l) = true

member-keys : (k : Text) (m : Map Text (List BuildSpec)) → member k (keys m) ≡ is_some (lookup k m)
unfolding member lookup
member-keys k [] = refl
member-keys k ((j, l) ∷ m) = ground (arith, member-keys k m)

member-insert_by :
    (k x : Text) (xs : List Text)
    → member k (insert_by text_ltb x xs) ≡ (text_eq x k || member k xs)
unfolding member insert_by
member-insert_by k x [] = refl
member-insert_by k x (y ∷ ys) = ground (arith, member-insert_by k x ys)

member-sort_by : (k : Text) (xs : List Text) → member k (sort_by text_ltb xs) ≡ member k xs
unfolding member sort_by
member-sort_by k [] = refl
member-sort_by k (x ∷ xs) =
    ground (arith, member-insert_by k x (sort_by text_ltb xs), member-sort_by k xs)

stays_stored :
    (k : Text) (specs : List BuildSpec) (m : Map Text (List BuildSpec))
    → is_some (lookup k m) ≡ true
    → is_some (lookup k (group_into specs m)) ≡ true
unfolding group_into
stays_stored k [] m h = h
stays_stored k (spec ∷ specs) m h =
    let more = or_no_specs (lookup (spec_key spec) m) ++ spec ∷ [] in
    stays_stored k specs (insert (spec_key spec) more m)
      (ground (arith, h, lookup-insert (spec_key spec) k more m))

each_stored :
    (specs : List BuildSpec) (m : Map Text (List BuildSpec))
    → All (λ spec. is_some (lookup (spec_key spec) (group_into specs m)) ≡ true) specs
unfolding group_into
each_stored [] m = tt
each_stored (spec ∷ specs) m =
    let more = or_no_specs (lookup (spec_key spec) m) ++ spec ∷ [] in
    (
      stays_stored (spec_key spec) specs (insert (spec_key spec) more m)
          (ap is_some (lookup-insert_self (spec_key spec) more m)),
      each_stored specs (insert (spec_key spec) more m),
    )

-- A job whose specs are those of its key.
abbrev pub HasItsSpecs : List BuildSpec → BuildJob → Type 0
HasItsSpecs specs job = Perm job.specs (keep (has_key job.key) specs)

jobs_for-HasItsSpecs :
    (specs : List BuildSpec) (ks : List Text)
    → All (HasItsSpecs specs) (jobs_for (group_into specs []) ks)
unfolding jobs_for
jobs_for-HasItsSpecs specs [] = tt
jobs_for-HasItsSpecs specs (k ∷ ks) = (
  subst (Perm (sort_by spec_before (or_no_specs (lookup k (group_into specs [])))))
      (lookup-group_into k specs [])
      (sort_by-perm spec_before (or_no_specs (lookup k (group_into specs [])))),
  jobs_for-HasItsSpecs specs ks,
)

-- Each job that groupBuildSpecs makes has exactly the specs whose target, without the Nydus suffix,
-- is its key, in some order; the key of every spec is that of a job; and the keys are sorted.
pub group_build_specs_lem :
    (specs : List BuildSpec)
    → All (HasItsSpecs specs) (group_build_specs specs)
      × All (λ spec. member (spec_key spec) (job_keys (group_build_specs specs)) ≡ true) specs
      × IsSorted text_ltb (job_keys (group_build_specs specs))
unfolding group_build_specs
group_build_specs_lem specs =
    let m = group_into specs [] in
    let sorted = sort_by text_ltb (keys m) in
    let listed = job_keys-jobs_for m sorted in
    (
      jobs_for-HasItsSpecs specs sorted,
      All-mono _ _
          (λ spec h.
            ap (member (spec_key spec)) listed
            ∙ member-sort_by (spec_key spec) (keys m)
            ∙ member-keys (spec_key spec) m
            ∙ h)
          specs (each_stored specs []),
      subst (IsSorted text_ltb) (sym listed)
          (sort_by-IsSorted text_ltb text_ltb_asymm text_le_trans (keys m)),
    )
