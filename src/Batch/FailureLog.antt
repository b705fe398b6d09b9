-- ===== src/Batch/FailureLog.antt =====
-- internal/buildbatch/failure_log_store.go: the failure log, a file of lines that is kept below a
-- size. Its strings are lists of bytes, which the file counts and cuts.
pub mod Bisection
pub mod Size
pub mod Lines
pub mod Trimming
pub mod Appending
use buildkit_service.Prelude.{
  ℕ, zero, suc, ◌+◌, ◌-◌, ◌/◌, Bool, true, false, not, ◌||◌, Option, none, some, List, [], ◌∷◌,
  ◌++◌, Text, text, text_eq, trim_space, utf8_all, length, take, drop, ltb, leb, nat_eq,
  if◌then◌else◌, Result, ok, err, ◌>>=◌,
}

abbrev pub Bytes : Type 0
Bytes = List ℕ

abbrev pub max_failure_log_file_size : ℕ
max_failure_log_file_size = 1_073_741_824

abbrev pub truncated_failure_log_suffix : Bytes
truncated_failure_log_suffix = text "\n...[truncated to fit logs file limit]\n"

-- The package encoding/json: the line of a failed entry by its target and logs, without the line
-- feed. The encoder does not fail on such an entry. `limit` is maxFailureLogFileSize.
pub record Encoder : Type 0 where
  pub encode : Bytes → Bytes → Bytes
  pub limit : ℕ

abbrev pub line_fits : Encoder → Bytes → Bytes → Bool
line_fits enc target logs = leb (length (enc.encode target logs) + 1) enc.limit

-- logs[:mid] + truncatedFailureLogSuffix
abbrev pub candidate : Bytes → ℕ → Bytes
candidate logs mid = take mid logs ++ truncated_failure_log_suffix

-- The loop of truncateFailureLogPayload on fuel; `none` when it runs out. `above` is high + 1, so
-- that an interval that is empty at 0 is one as well.
unfoldable pub bisect : (ℕ → Bool) → ℕ → ℕ → ℕ → Option ℕ → Option (Option ℕ)
bisect fits zero low above best = if ltb low above then none else some best
bisect fits (suc fuel) low above best =
    let mid : ℕ = low + (above - 1 - low) / 2 in
    let right = bisect fits fuel (mid + 1) above (some mid) in
    let left = bisect fits fuel low mid best in
    if ltb low above then if fits mid then right else left else some best

abbrev pub metadata_error : Text
metadata_error = text "failure log metadata exceeds maximum file size"

abbrev pub line_error : Text
line_error = text "failure log exceeds maximum file size"

-- After the loop.
abbrev pub best_or_suffix : Encoder → Bytes → Bytes → Option ℕ → Result Text Bytes
best_or_suffix enc target logs (some mid) = ok (candidate logs mid)
best_or_suffix enc target logs none =
    if line_fits enc target truncated_failure_log_suffix
    then ok truncated_failure_log_suffix
    else err metadata_error

abbrev pub on_bisected : Encoder → Bytes → Bytes → Option (Option ℕ) → Option (Result Text Bytes)
on_bisected enc target logs none = none
on_bisected enc target logs (some best) = some (best_or_suffix enc target logs best)

-- The fuel is above the length of the interval.
unfoldable pub truncate_failure_log_payload : Encoder → Bytes → Bytes → Option (Result Text Bytes)
unfolding bisect
truncate_failure_log_payload enc target logs = on_bisected enc target logs (
    bisect (λ mid. line_fits enc target (candidate logs mid)) (length logs + 2) 0 (length logs + 1)
      none)

abbrev pub on_truncated : Encoder → Bytes → Option (Result Text Bytes) → Option (Result Text Bytes)
on_truncated enc target none = none
on_truncated enc target (some (err e)) = some (err e)
on_truncated enc target (some (ok logs)) =
    if line_fits enc target logs
    then some (ok (enc.encode target logs ++ 10 ∷ []))
    else some (err line_error)

unfoldable pub marshal_failure_log_line : Encoder → Bytes → Bytes → Option (Result Text Bytes)
unfolding truncate_failure_log_payload
marshal_failure_log_line enc target logs =
    if line_fits enc target logs
    then some (ok (enc.encode target logs ++ 10 ∷ []))
    else on_truncated enc target (truncate_failure_log_payload enc target logs)

-- A line that starts with a byte, by what follows the byte.
abbrev pub line_from : ℕ → Option ℕ → Option ℕ
line_from b none = if nat_eq b 10 then some 1 else none
line_from b (some n) = if nat_eq b 10 then some 1 else some (suc n)

-- ReadBytes('\n'): how many bytes it reads up to the line feed, `none` at the end of the file.
unfoldable pub read_line : Bytes → Option ℕ
read_line [] = none
read_line (b ∷ bs) = line_from b (read_line bs)

abbrev pub offset_of : ℕ → ℕ → Option ℕ → ℕ
offset_of trim size none = size
offset_of trim size (some n) = trim + n

unfoldable pub find_failure_log_keep_offset : Bytes → ℕ → ℕ
unfolding read_line
find_failure_log_keep_offset file trim =
    if nat_eq trim 0 then 0 else offset_of trim (length file) (read_line (drop trim file))

unfoldable pub trim_failure_log_file : ℕ → Bytes → Bytes
unfolding find_failure_log_keep_offset
trim_failure_log_file limit file =
    if leb (length file) limit
    then file
    else drop (find_failure_log_keep_offset file (length file - limit)) file

abbrev pub on_line : ℕ → Bytes → Option (Result Text Bytes) → Option (Result Text Bytes)
on_line limit file none = none
on_line limit file (some (err e)) = some (err e)
on_line limit file (some (ok line)) = some (ok (trim_failure_log_file limit (file ++ line)))

-- AppendFailure of a store with a path, where no call of the file system fails: the file after it.
unfoldable pub append_failure : Encoder → Text → Bytes → Bytes → Option (Result Text Bytes)
unfolding marshal_failure_log_line trim_failure_log_file text_eq trim_space utf8_all
append_failure enc target logs file =
    if text_eq (trim_space target) [] || text_eq logs []
    then some (ok file)
    else on_line enc.limit file (marshal_failure_log_line enc (utf8_all target) logs)
