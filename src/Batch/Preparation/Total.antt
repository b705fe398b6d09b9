-- ===== src/Batch/Preparation/Total.antt =====
-- internal/buildbatch/build_command_streaming.go: the jobs of all image directories together.
use buildkit_service.Prelude.{
  ℕ, suc, ◌+◌, ◌≤◌, ◌≡◌, refl, Bool, Option, none, some, List, [], ◌∷◌, Text, length, All, arith,
}
use buildkit_service.Batch.Counters.{new_build_outcome_counters, count_states}
use buildkit_service.Batch.Specs.{Reader}
use buildkit_service.Batch.Preparation.{
  ImageDir, Prepared, prepare_one, unless_failed, prepare_all, stream_prepared_build_jobs,
  target_filters,
}
use buildkit_service.Batch.Preparation.Accounts.{HasOneKey, Accounted, prepare_one-Accounted}

prepare_all-Accounted :
    (filters : List Text) (modes : List Bool) (results : Reader) (skip_fail : Bool)
    (dirs : List ImageDir) (total n : ℕ) (p : Prepared)
    → n + length dirs ≡ total
    → All (HasOneKey modes) dirs
    → Accounted total n p
    → Accounted total total (prepare_all filters modes results skip_fail dirs p)
unfolding prepare_all
prepare_all-Accounted filters modes results skip_fail [] total n p e h v = record {
  at_most = omega (arith, v.at_most, e);
  whole = λ k. omega (arith, v.whole k, e);
  counted = v.counted;
}
prepare_all-Accounted filters modes results skip_fail (d ∷ dirs) total n p e (one, h) v =
    by_error
      (λ w.
        prepare_all-Accounted filters modes results skip_fail dirs total (suc n) next
          (omega (arith, e)) h w)
      p.error refl
  where
    next : Prepared
    next = prepare_one filters modes results skip_fail d p

    by_error :
        (Accounted total (suc n) next
          → Accounted total total (prepare_all filters modes results skip_fail dirs next))
        → (o : Option Text) → p.error ≡ o
        → Accounted total total
            (unless_failed o p (prepare_all filters modes results skip_fail dirs next))
    by_error later (some x) f = record {
      at_most = omega (arith, v.at_most, e);
      whole = λ k. cc (f, k);
      counted = v.counted;
    }
    by_error later none f = later (
        prepare_one-Accounted total n (omega (arith, e)) filters modes results skip_fail d p one f
          v)

-- Where the forms of every target in the modes of the command have one key: no more jobs are sent
-- than there are directories, so that the retry queue can hold them; and where the preparation
-- returns no error, the total that progress shows counts exactly the directories that were sent or
-- skipped by a stored result.
pub stream_prepared_build_jobs-total :
    (target : Text) (modes : List Bool) (results : Reader) (skip_fail : Bool) (dirs : List ImageDir)
    → All (HasOneKey modes) dirs
    → (length (stream_prepared_build_jobs target modes results skip_fail dirs).sent ≤ length dirs)
      × ((stream_prepared_build_jobs target modes results skip_fail dirs).error ≡ none
          → (stream_prepared_build_jobs target modes results skip_fail dirs).counters.total
            ≡ length (stream_prepared_build_jobs target modes results skip_fail dirs).sent
              + (stream_prepared_build_jobs target modes results skip_fail dirs).skipped)
unfolding stream_prepared_build_jobs new_build_outcome_counters count_states
stream_prepared_build_jobs-total target modes results skip_fail dirs h =
    let v =
      prepare_all-Accounted (target_filters target modes) modes results skip_fail dirs (length dirs)
        0
        (record {
          sent = [];
          counters = new_build_outcome_counters (length dirs) [];
          error = none;
          excluded = 0;
          skipped = 0;
        })
        (omega arith) h
        (record { at_most = omega arith; whole = λ k. omega arith; counted = omega arith }) in
    (omega (arith, v.at_most), λ k. omega (arith, v.whole k, v.counted))
