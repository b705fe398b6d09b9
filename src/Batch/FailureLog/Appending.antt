-- ===== src/Batch/FailureLog/Appending.antt =====
-- internal/buildbatch/failure_log_store.go: exactly what AppendFailure leaves in the file.
use buildkit_service.Prelude.{
  ℕ, ◌≤◌, ◌≡◌, ◌⊎◌, true, false, ◌||◌, Option, none, some, [], ◌∷◌, ◌++◌, Text, text_eq, trim_space,
  utf8_all, length, take, Result, ok, err,
}
use buildkit_service.Batch.FailureLog.{Bytes, Encoder, line_fits, truncated_failure_log_suffix}
use buildkit_service.Batch.FailureLog.Trimming.{IsTrimmed}

-- The logs of an entry as they are written: all of them where its line fits the limit, else cut,
-- with the suffix that says so.
abbrev pub IsCut : Encoder → Bytes → Bytes → Bytes → Type 0
IsCut enc target logs written =
    ((line_fits enc target logs ≡ true) × (written ≡ logs))
    ⊎ ((line_fits enc target logs ≡ false)
        × ((n : ℕ) × (written ≡ take n logs ++ truncated_failure_log_suffix)))

-- The line of an entry, which fits the limit.
abbrev pub IsLine : Encoder → Bytes → Bytes → Bytes → Type 0
IsLine enc target logs line =
    (written : Bytes) × (line ≡ enc.encode target written ++ 10 ∷ [])
    × (length line ≤ enc.limit)
    × IsCut enc target logs written

-- What a truncation returns.
abbrev Cuts : Bytes → Option (Result Text Bytes) → Type 0
Cuts logs none = Unit {0}
Cuts logs (some (err e)) = Unit {0}
Cuts logs (some (ok written)) = (n : ℕ) × (written ≡ take n logs ++ truncated_failure_log_suffix)

-- What AppendFailure leaves: the file as it was, where there is nothing to record; an error, only
-- where the whole line does not fit the limit; else the file with the line of the entry, trimmed.
abbrev pub Recorded : Encoder → Text → Bytes → Bytes → Option (Result Text Bytes) → Type 0
Recorded enc target logs file none = ⊥
Recorded enc target logs file (some (err e)) = line_fits enc (utf8_all target) logs ≡ false
Recorded enc target logs file (some (ok file')) =
    (((text_eq (trim_space target) [] || text_eq logs []) ≡ true) × (file' ≡ file))
    ⊎ ((line : Bytes) × IsLine enc (utf8_all target) logs line
        × IsTrimmed enc.limit (file ++ line) file')
