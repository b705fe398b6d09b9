-- ===== src/Batch/Queries.antt =====
-- internal/buildbatch/daemon_options.go: the values of a query. strconv.Atoi, time.ParseDuration and
-- package net are parameters; a duration is in nanoseconds; a query is a map to the values of a key.
use buildkit_service.Prelude.{
  ℕ, Bool, true, false, not, Option, none, some, List, [], ◌∷◌, ◌++◌, Map, Text, text, eq_text,
  text_eq, trim_space, to_lower, member, lookup, length, leb, ltb, if◌then◌else◌, Result, ok, err,
  ◌>>=◌, ℤ, pos, negsuc,
}
use buildkit_service.Daemon.Addresses.{Net}

abbrev pub Query : Type 0
Query = Map Text (List Text)

pub record Libraries : Type 0 where
  pub net : Net
  pub atoi : Text → Option ℤ
  pub parse_duration : Text → Option ℤ

-- The loop over the query: an unknown key, or one but `var` that has more than one value.
unfoldable pub validate_query_keys : List Text → Query → Result Text (Unit {0})
unfolding member text_eq
validate_query_keys allowed [] = ok tt
validate_query_keys allowed ((key, values) ∷ q) =
    let rest = validate_query_keys allowed q in
    if not (member key allowed)
    then err (text "unsupported query parameter " ++ key)
    else if text_eq key (text "var")
    then rest
    else if ltb 1 (length values)
    then err (text "query parameter must be specified at most once: " ++ key)
    else rest

abbrev pub single_value : Text → Option (List Text) → Result Text (Option Text)
single_value key none = ok none
single_value key (some []) = ok none
single_value key (some (v ∷ [])) = ok (some v)
single_value key (some (v ∷ w ∷ values)) =
    err (text "query parameter must be specified at most once: " ++ key)

unfoldable pub query_value : Query → Text → Result Text (Option Text)
unfolding lookup text_eq
query_value q key = single_value key (lookup key q)

abbrev pub bool_of : Bool → Option Text → Result Text Bool
bool_of def none = ok def
bool_of def (some v) =
    let word = to_lower (trim_space v) in
    if member word ([] ∷ text "1" ∷ text "true" ∷ text "yes" ∷ [])
    then ok true
    else if member word (text "0" ∷ text "false" ∷ text "no" ∷ [])
    then ok false
    else err (text "query parameter must be a boolean")

unfoldable pub query_bool_strict : Query → Text → Bool → Result Text Bool
unfolding query_value to_lower trim_space member
query_bool_strict q key def = query_value q key >>= bool_of def

-- An integer of at least a minimum that is not negative.
abbrev pub is_at_least : ℕ → ℤ → Bool
is_at_least min (pos n) = leb min n
is_at_least min (negsuc n) = false

abbrev pub within : ℕ → Option ℤ → Result Text ℤ
within min none = err (text "query parameter must be a number")
within min (some n) =
    if not (is_at_least min n) then err (text "query parameter is too small") else ok n

abbrev pub number_of : (Text → Option ℤ) → ℤ → ℕ → Option Text → Result Text ℤ
number_of parse def min none = ok def
number_of parse def min (some v) =
    if text_eq (trim_space v) [] then ok def else within min (parse v)

-- queryIntStrict with strconv.Atoi, and queryDurationStrict with time.ParseDuration.
unfoldable pub query_number_strict : (Text → Option ℤ) → Query → Text → ℤ → ℕ → Result Text ℤ
unfolding query_value trim_space text_eq
query_number_strict parse q key def min = query_value q key >>= number_of parse def min
