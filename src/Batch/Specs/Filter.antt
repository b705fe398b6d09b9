-- ===== src/Batch/Specs/Filter.antt =====
-- internal/buildbatch/build_specs.go: filterBuildJobs against the definition of what is to be built.
use buildkit_service.Prelude.{
  ◌+◌, ◌≡◌, refl, sym, ap, ◌∙◌, Bool, true, false, not, ◌&&◌, ◌||◌, Option, none, some, List, [],
  ◌∷◌, ◌++◌, Text, ltb, length, keep, count_if, append_nil, if◌then◌else◌, ok, Bool-cases, inl, inr,
  arith,
}
use mathlib.Core.List.{append_assoc}
use buildkit_service.Batch.Counters.{ResultEntry}
use buildkit_service.Batch.Specs.{
  BuildSpec, BuildJob, Reader, Scan, scan_spec, scan_specs, Filtered, keep_job, first_scan,
  filter_loop, filter_build_jobs,
}

-- The stored result of a target, by a store that does not fail.
abbrev has_succeeded : Option ResultEntry → Bool
has_succeeded none = false
has_succeeded (some e) = e.success

abbrev has_failed : Option ResultEntry → Bool
has_failed none = false
has_failed (some e) = not e.success

-- A spec is to be built if it has no result, or a failed one and failures are not skipped.
abbrev pub to_build : (Text → Option ResultEntry) → Bool → BuildSpec → Bool
to_build found skip_fail spec =
    not (has_succeeded (found spec.target)) && not (has_failed (found spec.target) && skip_fail)

abbrev pub all_succeed : (Text → Option ResultEntry) → List BuildSpec → Bool
all_succeed found [] = true
all_succeed found (spec ∷ specs) = has_succeeded (found spec.target) && all_succeed found specs

abbrev pub some_fails : (Text → Option ResultEntry) → List BuildSpec → Bool
some_fails found [] = false
some_fails found (spec ∷ specs) = has_failed (found spec.target) || some_fails found specs

scanned_pending :
    (skip_fail : Bool) (spec : BuildSpec) (s : Scan) (o : Option ResultEntry)
    (rest : List BuildSpec)
    → (scan_spec skip_fail spec s o).pending ++ rest
      ≡ s.pending
        ++ (if not (has_succeeded o) && not (has_failed o && skip_fail) then spec ∷ rest else rest)
scanned_pending skip_fail spec s none rest = append_assoc s.pending (spec ∷ []) rest
scanned_pending skip_fail spec s (some e) rest =
    ground (arith, append_assoc s.pending (spec ∷ []) rest)

scanned_all :
    (skip_fail : Bool) (spec : BuildSpec) (s : Scan) (o : Option ResultEntry) (b : Bool)
    → ((scan_spec skip_fail spec s o).all_succeeded && b)
      ≡ (s.all_succeeded && (has_succeeded o && b))
scanned_all skip_fail spec s none b = ground arith
scanned_all skip_fail spec s (some e) b = ground arith

scanned_any :
    (skip_fail : Bool) (spec : BuildSpec) (s : Scan) (o : Option ResultEntry) (b : Bool)
    → ((scan_spec skip_fail spec s o).any_failed || b) ≡ (s.any_failed || (has_failed o || b))
scanned_any skip_fail spec s none b = ground arith
scanned_any skip_fail spec s (some e) b = ground arith

scan_specs_lem :
    (get : Reader) (found : Text → Option ResultEntry) (skip_fail : Bool) (specs : List BuildSpec)
    (s : Scan)
    → ((t : Text) → get t ≡ ok (found t))
    → scan_specs get skip_fail specs s
      ≡ ok (record {
        pending = s.pending ++ keep (to_build found skip_fail) specs;
        all_succeeded = s.all_succeeded && all_succeed found specs;
        any_failed = s.any_failed || some_fails found specs;
      })
unfolding scan_specs
scan_specs_lem get found skip_fail [] s g = ground (arith, append_nil s.pending)
scan_specs_lem get found skip_fail (spec ∷ specs) s g = rw (g spec.target) (
    scan_specs_lem get found skip_fail specs (scan_spec skip_fail spec s (found spec.target)) g
    ∙ (λ i. ok (record {
      pending =
          scanned_pending skip_fail spec s (found spec.target)
            (keep (to_build found skip_fail) specs) i;
      all_succeeded = scanned_all skip_fail spec s (found spec.target) (all_succeed found specs) i;
      any_failed = scanned_any skip_fail spec s (found spec.target) (some_fails found specs) i;
    })))

-- A job is done if it has specs and all of them succeeded; it is given up if failures are skipped
-- and one of its specs failed.
abbrev pub is_done : (Text → Option ResultEntry) → BuildJob → Bool
is_done found job = ltb 0 (length job.specs) && all_succeed found job.specs

abbrev pub is_given_up : (Text → Option ResultEntry) → Bool → BuildJob → Bool
is_given_up found skip_fail job =
    not (is_done found job) && (some_fails found job.specs && skip_fail)

abbrev pub is_open : (Text → Option ResultEntry) → Bool → BuildJob → Bool
is_open found skip_fail job =
    not (is_done found job) && not (some_fails found job.specs && skip_fail)

-- The jobs that are left, with the specs that are to be built.
abbrev pub open_jobs : (Text → Option ResultEntry) → Bool → List BuildJob → List BuildJob
open_jobs found skip_fail [] = []
open_jobs found skip_fail (job ∷ jobs) =
    let rest = open_jobs found skip_fail jobs in
    if is_open found skip_fail job
    then record job { specs = keep (to_build found skip_fail) job.specs } ∷ rest
    else rest

-- What the filter adds to what it has.
record Adds (found : Text → Option ResultEntry) (skip_fail : Bool) (jobs : List BuildJob)
    (f r : Filtered) : Type 0 where
  open_left : r.jobs ≡ f.jobs ++ open_jobs found skip_fail jobs
  done : r.skipped_succeeded ≡ f.skipped_succeeded + count_if (is_done found) jobs
  given_up : r.skipped_failed ≡ f.skipped_failed + count_if (is_given_up found skip_fail) jobs

keep_job-Adds :
    (found : Text → Option ResultEntry) (skip_fail : Bool) (job : BuildJob) (jobs : List BuildJob)
    (f r : Filtered) (s : Scan)
    → s.pending ≡ keep (to_build found skip_fail) job.specs
    → s.all_succeeded ≡ is_done found job
    → s.any_failed ≡ some_fails found job.specs
    → Adds found skip_fail jobs (keep_job skip_fail job f s) r
    → Adds found skip_fail (job ∷ jobs) f r
keep_job-Adds found skip_fail job jobs f r s p a b v = elim (Bool-cases (is_done found job)) [
  | inl d ↦ record {
    open_left = ground (arith, a, d, v.open_left);
    done = ground (arith, a, d, v.done);
    given_up = ground (arith, a, d, v.given_up);
  }
  | inr d ↦ elim (Bool-cases (some_fails found job.specs && skip_fail)) [
    | inl g ↦ record {
      open_left = ground (arith, a, d, b, g, v.open_left);
      done = ground (arith, a, d, b, g, v.done);
      given_up = ground (arith, a, d, b, g, v.given_up);
    }
    | inr g ↦
        let built : BuildJob = record job { specs = keep (to_build found skip_fail) job.specs } in
        let same : (record job { specs = s.pending }) ≡ built =
          ap (λ l. record job { specs = l }) p in
        record {
          open_left = ground (
            arith,
            a,
            d,
            b,
            g,
            v.open_left,
            same,
            append_assoc f.jobs (built ∷ []) (open_jobs found skip_fail jobs),
          );
          done = ground (arith, a, d, b, g, v.done);
          given_up = ground (arith, a, d, b, g, v.given_up);
        }
  ]
]

filter_loop-Adds :
    (get : Reader) (found : Text → Option ResultEntry) (skip_fail : Bool) (jobs : List BuildJob)
    (f : Filtered)
    → ((t : Text) → get t ≡ ok (found t))
    → (r : Filtered) × (filter_loop get skip_fail jobs f ≡ ok r) × Adds found skip_fail jobs f r
unfolding filter_loop
filter_loop-Adds get found skip_fail [] f g = (
  f,
  refl,
  record { open_left = sym (append_nil f.jobs); done = omega arith; given_up = omega arith },
)
filter_loop-Adds get found skip_fail (job ∷ jobs) f g =
    let s : Scan = record {
      pending = keep (to_build found skip_fail) job.specs;
      all_succeeded = is_done found job;
      any_failed = some_fails found job.specs;
    } in
    let (r, e, v) = filter_loop-Adds get found skip_fail jobs (keep_job skip_fail job f s) g in
    (
      r,
      rw (scan_specs_lem get found skip_fail job.specs (first_scan job) g) e,
      keep_job-Adds found skip_fail job jobs f r s refl refl refl v,
    )

-- With a store that does not fail, filterBuildJobs leaves the jobs that are neither done nor given
-- up, in order and with the specs that are to be built, and it counts the done and the given up.
pub filter_build_jobs_lem :
    (jobs : List BuildJob) (get : Reader) (found : Text → Option ResultEntry) (skip_fail : Bool)
    → ((t : Text) → get t ≡ ok (found t))
    → (r : Filtered) × (filter_build_jobs jobs get skip_fail ≡ ok r)
      × (r.jobs ≡ open_jobs found skip_fail jobs)
      × (r.skipped_succeeded ≡ count_if (is_done found) jobs)
      × (r.skipped_failed ≡ count_if (is_given_up found skip_fail) jobs)
unfolding filter_build_jobs
filter_build_jobs_lem jobs get found skip_fail g =
    let (r, e, v) =
      filter_loop-Adds get found skip_fail jobs
        (record { jobs = []; outcomes = []; skipped_succeeded = 0; skipped_failed = 0 }) g in
    (r, e, v.open_left, omega (arith, v.done), omega (arith, v.given_up))
