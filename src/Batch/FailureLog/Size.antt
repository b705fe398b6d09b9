-- ===== src/Batch/FailureLog/Size.antt =====
-- internal/buildbatch/failure_log_store.go: the size and the lines of the file.
use buildkit_service.Prelude.{
  ℕ, zero, suc, ◌+◌, ◌-◌, ◌≤◌, ◌≡◌, ◌≢◌, refl, sym, ap, subst, Bool, true, false, ◌||◌, Option,
  none, some, [], ◌∷◌, ◌++◌, Text, text_eq, trim_space, utf8_all, length, drop, length-drop, leb,
  nat_eq, if◌then◌else◌, inl, inr, Bool-cases, Option-cases, Result, ok, err, arith,
}
use buildkit_service.Batch.FailureLog.{
  Bytes, Encoder, line_fits, candidate, best_or_suffix, on_bisected, truncate_failure_log_payload,
  on_truncated, line_error, marshal_failure_log_line, read_line, find_failure_log_keep_offset,
  trim_failure_log_file, on_line, append_failure,
}
use buildkit_service.Batch.FailureLog.Bisection.{IsMonotone, IsBest, bisect-total, bisect_lem}

-- A file of whole lines: it is empty or ends in a line feed.
unfoldable pub is_whole : Bytes → Bool
is_whole [] = true
is_whole (b ∷ []) = nat_eq b 10
is_whole (b ∷ c ∷ bs) = is_whole (c ∷ bs)

pub append_line-is_whole : (file line : Bytes) → is_whole (file ++ (line ++ 10 ∷ [])) ≡ true
unfolding is_whole
append_line-is_whole [] [] = refl
append_line-is_whole [] (b ∷ []) = refl
append_line-is_whole [] (b ∷ c ∷ line) = append_line-is_whole [] (c ∷ line)
append_line-is_whole (b ∷ []) [] = refl
append_line-is_whole (b ∷ []) (c ∷ line) = append_line-is_whole [] (c ∷ line)
append_line-is_whole (b ∷ c ∷ file) line = append_line-is_whole (c ∷ file) line

pub drop-is_whole : (n : ℕ) (file : Bytes) → is_whole file ≡ true → is_whole (drop n file) ≡ true
unfolding is_whole
drop-is_whole zero file h = h
drop-is_whole (suc n) [] h = refl
drop-is_whole (suc zero) (b ∷ []) h = refl
drop-is_whole (suc (suc n)) (b ∷ []) h = refl
drop-is_whole (suc n) (b ∷ c ∷ file) h = drop-is_whole n (c ∷ file) h

pub drop-length : (file : Bytes) → drop (length file) file ≡ []
drop-length [] = refl
drop-length (b ∷ file) = drop-length file

trim-length : (limit : ℕ) (file : Bytes) → length (trim_failure_log_file limit file) ≤ limit
unfolding trim_failure_log_file find_failure_log_keep_offset
trim-length limit file = elim (Bool-cases (leb (length file) limit)) [
  | inl e ↦ rw e (ground (arith, e))
  | inr e ↦ rw e (omega (arith, cut e))
]
  where
    cut :
        leb (length file) limit ≡ false
        → length (drop (find_failure_log_keep_offset file (length file - limit)) file) ≤ limit
    cut e = elim (Option-cases (read_line (drop (length file - limit) file))) [
      | inl n ↦ ground (arith, e, n, length-drop (length file) file)
      | inr (k, n) ↦ ground (arith, e, n, length-drop (length file - limit + k) file)
    ]

trim-is_whole :
    (limit : ℕ) (file : Bytes)
    → is_whole file ≡ true
    → is_whole (trim_failure_log_file limit file) ≡ true
unfolding trim_failure_log_file
trim-is_whole limit file w = elim (Bool-cases (leb (length file) limit)) [
  | inl e ↦ rw e w
  | inr e ↦ rw e (drop-is_whole (find_failure_log_keep_offset file (length file - limit)) file w)
]

pub truncate-total :
    (enc : Encoder) (target logs : Bytes) → truncate_failure_log_payload enc target logs ≢ none
unfolding truncate_failure_log_payload
truncate-total enc target logs h =
    bisect-total (λ mid. line_fits enc target (candidate logs mid)) (length logs + 2) 0
      (length logs + 1) none (omega arith) (none_of _ h)
  where
    none_of : (x : Option (Option ℕ)) → on_bisected enc target logs x ≡ none → x ≡ none
    none_of none e = refl
    none_of (some b) e = cc

-- A line is the encoded entry and a line feed, and it fits the limit.
abbrev IsLine : Encoder → Bytes → Bytes → Type 0
IsLine enc target line =
    (logs : Bytes) × (line ≡ enc.encode target logs ++ 10 ∷ []) × (line_fits enc target logs ≡ true)

marshal-IsLine :
    (enc : Encoder) (target logs line : Bytes)
    → marshal_failure_log_line enc target logs ≡ some (ok line)
    → IsLine enc target line
unfolding marshal_failure_log_line
marshal-IsLine enc target logs line h = elim (Bool-cases (line_fits enc target logs)) [
  | inl e ↦ (logs, line_of (rw e at h), e)
  | inr e ↦ truncated (truncate_failure_log_payload enc target logs) (rw e at h)
]
  where
    line_of :
        {a b : Bytes} → ◌≡◌ {A = Option (Result Text Bytes)} (some (ok a)) (some (ok b)) → b ≡ a
    line_of p = cc

    truncated :
        (x : Option (Result Text Bytes))
        → on_truncated enc target x ≡ some (ok line)
        → IsLine enc target line
    truncated none p = cc
    truncated (some (err e)) p = cc
    truncated (some (ok l)) p = elim (Bool-cases (line_fits enc target l)) [
      | inl f ↦ (l, line_of (rw f at p), f)
      | inr f ↦ cc (rw f at p)
    ]

-- Whatever is appended to a file of whole lines within the limit, the file stays one: an entry that
-- is too long is cut, and old lines go when the file grows too long.
pub append_failure-keeps :
    (enc : Encoder) (target : Text) (logs file file' : Bytes)
    → length file ≤ enc.limit
    → is_whole file ≡ true
    → append_failure enc target logs file ≡ some (ok file')
    → (length file' ≤ enc.limit) × (is_whole file' ≡ true)
unfolding append_failure
append_failure-keeps enc target logs file file' small whole h =
    elim (Bool-cases (text_eq (trim_space target) [] || text_eq logs [])) [
      | inl e ↦
          subst (λ f. (length f ≤ enc.limit) × (is_whole f ≡ true)) (file_of (rw e at h))
            (small, whole)
      | inr e ↦ with_line (marshal_failure_log_line enc (utf8_all target) logs) refl (rw e at h)
    ]
  where
    file_of :
        {a b : Bytes} → ◌≡◌ {A = Option (Result Text Bytes)} (some (ok a)) (some (ok b)) → a ≡ b
    file_of p = cc

    with_line :
        (x : Option (Result Text Bytes))
        → marshal_failure_log_line enc (utf8_all target) logs ≡ x
        → on_line enc.limit file x ≡ some (ok file')
        → (length file' ≤ enc.limit) × (is_whole file' ≡ true)
    with_line none e p = cc
    with_line (some (err x)) e p = cc
    with_line (some (ok line)) e p =
        let (l, same, _) = marshal-IsLine enc (utf8_all target) logs line e in
        subst (λ f. (length f ≤ enc.limit) × (is_whole f ≡ true)) (file_of p)
          (
            trim-length enc.limit (file ++ line),
            trim-is_whole enc.limit (file ++ line) (
                subst (λ k. is_whole (file ++ k) ≡ true) (sym same)
                  (append_line-is_whole file (enc.encode (utf8_all target) l))),
          )

pub append_failure-total :
    (enc : Encoder) (target : Text) (logs file : Bytes) → append_failure enc target logs file ≢ none
unfolding append_failure marshal_failure_log_line
append_failure-total enc target logs file h =
    elim (Bool-cases (text_eq (trim_space target) [] || text_eq logs [])) [
      | inl e ↦ cc (rw e at h)
      | inr e ↦ elim (Bool-cases (line_fits enc (utf8_all target) logs)) [
        | inl f ↦ cc (rw (e, f) at h)
        | inr f ↦
            cut (truncate_failure_log_payload enc (utf8_all target) logs)
              (truncate-total enc (utf8_all target) logs) (rw (e, f) at h)
      ]
    ]
  where
    marked :
        (b : Bool) (l : Bytes)
        → on_line enc.limit file (if b then some (ok l) else some (err (line_error))) ≢ none
    marked true l p = cc
    marked false l p = cc

    cut :
        (x : Option (Result Text Bytes))
        → x ≢ none
        → on_line enc.limit file (on_truncated enc (utf8_all target) x) ≢ none
    cut none n p = n refl
    cut (some (err e)) n p = cc
    cut (some (ok l)) n p =
        marked (line_fits enc (utf8_all target) l) (enc.encode (utf8_all target) l ++ 10 ∷ []) p

-- If the encoder makes a longer log no shorter, then a log that is too long is cut to the greatest
-- length that fits with the suffix, if one does.
pub truncate-longest :
    (enc : Encoder) (target logs : Bytes)
    → IsMonotone (length logs + 1) (λ mid. line_fits enc target (candidate logs mid))
    → (best : Option ℕ) × IsBest
        (length logs + 1)
        (λ mid. line_fits enc target (candidate logs mid))
        best
      × (truncate_failure_log_payload enc target logs ≡ some (best_or_suffix enc target logs best))
unfolding truncate_failure_log_payload
truncate-longest enc target logs m =
    let (r, e, b) =
      bisect_lem (λ mid. line_fits enc target (candidate logs mid)) (length logs + 2)
        (length logs + 1) m (omega arith) in
    (r, b, ap (on_bisected enc target logs) e)
