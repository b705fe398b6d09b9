-- ===== src/Batch/Preparation/Accounts.antt =====
-- internal/buildbatch/build_command_streaming.go: what becomes of every image directory.
use buildkit_service.Prelude.{
  ℕ, suc, ◌+◌, ◌≤◌, ◌<◌, ◌≡◌, refl, ap, ◌∙◌, Bool, true, false, not, Option, none, some, List, [],
  ◌∷◌, ◌++◌, Map, Text, text, text_eq, eq_text, text_eq_refl, lookup, insert, keys, sort_by, length,
  length-append, length-take, take, ltb, All, Bool-cases, inl, inr, if◌then◌else◌, Result, ok, err,
  ◌>>=◌, arith, text_ltb,
}
use buildkit_service.Batch.Counters.{
  BuildOutcomeCounters, BuildOutcomeState, apply_existing, decrement_total, count_up, count_down,
  or_unknown, state_eq, outcome_succeeded, outcome_failed, outcome_unknown,
}
use buildkit_service.Batch.Specs.{
  BuildSpec, BuildJob, Reader, Filtered, Scan, normalize_target_for_mode, spec_key, group_into,
  job_for, jobs_for, group_build_specs, scan_specs, first_scan, keep_job, filter_loop,
  filter_build_jobs,
}
use buildkit_service.Batch.Preparation.{
  ImageDir, Prepared, fails, specs_for, spec_for, is_filtered_out, apply_outcomes, send_jobs,
  after_filter, of_specs, of_files, prepare_one,
}

-- Specs of one key make one job.
abbrev HasKey : Text → BuildSpec → Type 0
HasKey key spec = spec_key spec ≡ key

group_into_one :
    (key : Text) (specs before : List BuildSpec)
    → All (HasKey key) specs
    → keys (group_into specs ((key, before) ∷ [])) ≡ key ∷ []
unfolding group_into lookup insert
group_into_one key [] before h = refl
group_into_one key (spec ∷ specs) before (e, h) =
    rw (e, text_eq_refl key) (group_into_one key specs (before ++ spec ∷ []) h)

group_build_specs_one :
    (key : Text) (spec : BuildSpec) (specs : List BuildSpec)
    → All (HasKey key) (spec ∷ specs)
    → (job : BuildJob) × (group_build_specs (spec ∷ specs) ≡ job ∷ [])
unfolding group_build_specs group_into lookup insert jobs_for sort_by
group_build_specs_one key spec specs (e, h) =
    let m = group_into specs ((spec_key spec, spec ∷ []) ∷ []) in
    let one : keys m ≡ key ∷ [] = rw e (group_into_one key specs (spec ∷ []) h) in
    (job_for m key, ap (λ ks. jobs_for m (sort_by text_ltb ks)) one)

-- A job is filtered to a job or to one that is skipped.
abbrev IsOne : Result Text Filtered → Type 0
IsOne (err e) = Unit {0}
IsOne (ok f) = length f.jobs + (f.skipped_succeeded + f.skipped_failed) ≡ 1

filter_build_jobs-IsOne :
    (job : BuildJob) (results : Reader) (skip_fail : Bool)
    → IsOne (filter_build_jobs (job ∷ []) results skip_fail)
unfolding filter_build_jobs filter_loop
filter_build_jobs-IsOne job results skip_fail =
    by_scan (scan_specs results skip_fail job.specs (first_scan job))
  where
    start : Filtered
    start = record { jobs = []; outcomes = []; skipped_succeeded = 0; skipped_failed = 0 }

    by_scan :
        (r : Result Text Scan)
        → IsOne (r >>= λ s. filter_loop results skip_fail [] (keep_job skip_fail job start s))
    by_scan (err e) = tt
    by_scan (ok s) = ground arith

-- The forms of a target in the modes of a command have one key. A target with the Nydus suffix
-- twice has two keys in both modes together.
abbrev pub HasOneKey : List Bool → ImageDir → Type 0
HasOneKey modes d = (key : Text) × All (λ oci. spec_key (spec_for d oci) ≡ key) modes

specs_for-HasKey :
    (filters : List Text) (d : ImageDir) (key : Text) (modes : List Bool)
    → All (λ oci. spec_key (spec_for d oci) ≡ key) modes
    → All (HasKey key) (specs_for filters d modes)
unfolding specs_for
specs_for-HasKey filters d key [] h = tt
specs_for-HasKey filters d key (oci ∷ modes) (e, h) =
    elim (Bool-cases (is_filtered_out filters (normalize_target_for_mode d.target oci))) [
      | inl out ↦ rw out (specs_for-HasKey filters d key modes h)
      | inr kept ↦ rw kept (e, specs_for-HasKey filters d key modes h)
    ]

-- Outcomes leave the total.
total-count_up : (s : BuildOutcomeState) (c : BuildOutcomeCounters) → (count_up s c).total ≡ c.total
total-count_up outcome_unknown c = refl
total-count_up outcome_failed c = refl
total-count_up outcome_succeeded c = refl

total-count_down :
    (s : BuildOutcomeState) (c : BuildOutcomeCounters) → (count_down s c).total ≡ c.total
total-count_down outcome_unknown c = refl
total-count_down outcome_failed c = refl
total-count_down outcome_succeeded c = refl

total-apply_existing :
    (target : Text) (state : BuildOutcomeState) (c : BuildOutcomeCounters)
    → (apply_existing target state c).total ≡ c.total
unfolding apply_existing
total-apply_existing target state c = by_test (state_eq (or_unknown (lookup target c.states)) state)
  where
    moved : BuildOutcomeCounters
    moved = count_up state (count_down (or_unknown (lookup target c.states)) c)

    by_test :
        (b : Bool)
        → (if b then c else record moved { states = insert target state moved.states }).total
          ≡ c.total
    by_test true = refl
    by_test false =
        total-count_up state (count_down (or_unknown (lookup target c.states)) c)
        ∙ total-count_down (or_unknown (lookup target c.states)) c

total-apply_outcomes :
    (outcomes : Map Text BuildOutcomeState) (c : BuildOutcomeCounters)
    → (apply_outcomes outcomes c).total ≡ c.total
unfolding apply_outcomes
total-apply_outcomes [] c = refl
total-apply_outcomes ((target, state) ∷ outcomes) c =
    total-apply_outcomes outcomes (apply_existing target state c)
    ∙ total-apply_existing target state c

-- After some entries of a directory with `total`.
pub record Accounted (total processed : ℕ) (p : Prepared) : Type 0 where
  pub at_most : length p.sent + (p.excluded + p.skipped) ≤ processed
  pub whole : p.error ≡ none → length p.sent + (p.excluded + p.skipped) ≡ processed
  pub counted : p.counters.total + p.excluded ≡ total

module _ (total n : ℕ) (more : suc n ≤ total) where
  fails-Accounted :
      (e : Text) (p : Prepared) → Accounted total n p → Accounted total (suc n) (fails e p)
  fails-Accounted e p v = record {
    at_most = omega (arith, v.at_most);
    whole = λ h. cc h;
    counted = v.counted;
  }

  send_jobs-Accounted :
      (o : Option ℕ) (jobs : List BuildJob) (p : Prepared)
      → length p.sent + (p.excluded + p.skipped) + length jobs ≡ suc n
      → p.counters.total + p.excluded ≡ total
      → Accounted total (suc n) (send_jobs o jobs p)
  send_jobs-Accounted none jobs p e c = record {
    at_most = omega (arith, e, length-append {0} p.sent jobs);
    whole = λ h. omega (arith, e, length-append {0} p.sent jobs);
    counted = c;
  }
  send_jobs-Accounted (some k) jobs p e c = by_test (ltb k (length jobs))
    where
      by_test :
          (b : Bool)
          → Accounted total (suc n) (
              if b
              then record p { sent = p.sent ++ take k jobs; error = some (text "context canceled") }
              else record p { sent = p.sent ++ jobs })
      by_test true = record {
        at_most = omega (arith, e, length-append {0} p.sent (take k jobs), length-take {0} k jobs);
        whole = λ h. cc h;
        counted = c;
      }
      by_test false = record {
        at_most = omega (arith, e, length-append {0} p.sent jobs);
        whole = λ h. omega (arith, e, length-append {0} p.sent jobs);
        counted = c;
      }

  after_filter-Accounted :
      (d : ImageDir) (r : Result Text Filtered) (p : Prepared)
      → IsOne r
      → p.error ≡ none
      → Accounted total n p
      → Accounted total (suc n) (after_filter d r p)
  after_filter-Accounted d (err e) p one goes v = fails-Accounted e p v
  after_filter-Accounted d (ok f) p one goes v =
      send_jobs-Accounted d.ends_after f.jobs
        (record p {
          counters = apply_outcomes f.outcomes p.counters;
          skipped = p.skipped + (f.skipped_succeeded + f.skipped_failed);
        })
        (omega (arith, one, v.whole goes))
        (omega (arith, total-apply_outcomes f.outcomes p.counters, v.counted))

  of_specs-Accounted :
      (results : Reader) (skip_fail : Bool) (d : ImageDir) (key : Text) (specs : List BuildSpec)
      (p : Prepared)
      → All (HasKey key) specs
      → p.error ≡ none
      → Accounted total n p
      → Accounted total (suc n) (of_specs results skip_fail d specs p)
  unfolding decrement_total
  of_specs-Accounted results skip_fail d key [] p h goes v =
      let positive : 0 < p.counters.total = omega (arith, v.counted, v.at_most, more) in
      record {
        at_most = omega (arith, v.at_most);
        whole = λ e. omega (arith, v.whole goes);
        counted = ground (arith, positive, v.counted);
      }
  of_specs-Accounted results skip_fail d key (spec ∷ specs) p h goes v =
      let (job, e) = group_build_specs_one key spec specs h in
      rw e (
        after_filter-Accounted d (filter_build_jobs (job ∷ []) results skip_fail) p
          (filter_build_jobs-IsOne job results skip_fail) goes v)

  pub prepare_one-Accounted :
      (filters : List Text) (modes : List Bool) (results : Reader) (skip_fail : Bool) (d : ImageDir)
      (p : Prepared)
      → HasOneKey modes d
      → p.error ≡ none
      → Accounted total n p
      → Accounted total (suc n) (prepare_one filters modes results skip_fail d p)
  unfolding prepare_one
  prepare_one-Accounted filters modes results skip_fail d p (key, h) goes v =
      by_tests d.context_ended (not d.is_dir)
    where
      by_target :
          (b : Bool)
          → Accounted total (suc n) (
              if b
              then fails (text "empty target in metadata.json") p
              else of_specs results skip_fail d (specs_for filters d modes) p)
      by_target true = fails-Accounted (text "empty target in metadata.json") p v
      by_target false =
          of_specs-Accounted results skip_fail d key (specs_for filters d modes) p
            (specs_for-HasKey filters d key modes h) goes v

      by_files :
          (o : Option Text)
          → Accounted total (suc n) (of_files filters modes results skip_fail d o p)
      by_files (some e) = fails-Accounted e p v
      by_files none = by_target (text_eq d.target [])

      by_tests :
          (ended not_dir : Bool)
          → Accounted total (suc n) (
              if ended
              then fails (text "context canceled") p
              else if not_dir
              then fails (text "image-dirs must contain only directories") p
              else of_files filters modes results skip_fail d d.failure p)
      by_tests true not_dir = fails-Accounted (text "context canceled") p v
      by_tests false true = fails-Accounted (text "image-dirs must contain only directories") p v
      by_tests false false = by_files d.failure
