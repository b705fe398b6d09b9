-- ===== src/Batch/Options/Validity.antt =====
-- internal/buildbatch/daemon_options.go: what the options of an accepted query are.
use buildkit_service.Prelude.{
  cut, ℕ, ◌≤◌, ◌≡◌, refl, Bool, true, false, not, Option, none, some, List, [], ◌∷◌, ◌++◌, Map,
  Text, text, eq_text, text_eq, text_eq_iff, trim_space, starts_with, member, length, ltb, lookup,
  insert, All, Bool-cases, inl, inr, ◌⊎◌, if◌then◌else◌, Result, ok, err, ◌>>=◌, arith, ℤ, pos,
  pos_part,
}
use buildkit_service.Batch.Scheduler.{BuildkitAddr}
use buildkit_service.Batch.Options.{
  Options, build_keys, variable_prefix, variable_of, add_variables, parse_build_variables,
  with_cooldowns, parse_addrs, value_or, values_of, flags_from_query, without_flags,
  build_options_from_query, default_oom_cooldown,
}
use buildkit_service.Batch.Queries.{
  Query, Libraries, validate_query_keys, query_value, is_at_least, within, number_of,
  query_number_strict, query_bool_strict,
}

-- A result is an error or has a property.
abbrev pub Holds {ℓ} : {A : Type ℓ} → (A → Type 0) → Result Text A → Type 0
Holds P (ok a) = P a
Holds P (err e) = Unit {0}

bind-Holds {ℓ κ} :
    {A : Type ℓ} {B : Type κ} (P : A → Type 0) (Q : B → Type 0) (r : Result Text A)
    (f : A → Result Text B)
    → Holds P r
    → ((a : A) → P a → Holds Q (f a))
    → Holds Q (r >>= f)
bind-Holds P Q (ok a) f h k = k a h
bind-Holds P Q (err e) f h k = tt

-- Of a value about which nothing is needed.
after-Holds {ℓ κ} :
    {A : Type ℓ} {B : Type κ} (Q : B → Type 0) (r : Result Text A) (f : A → Result Text B)
    → ((a : A) → Holds Q (f a))
    → Holds Q (r >>= f)
after-Holds Q (ok a) f k = k a
after-Holds Q (err e) f k = tt

mono-Holds {ℓ} :
    {A : Type ℓ} (P Q : A → Type 0) (r : Result Text A)
    → Holds P r
    → ((a : A) → P a → Q a)
    → Holds Q r
mono-Holds P Q (ok a) h k = k a h
mono-Holds P Q (err e) h k = tt

-- Every key is known, and has one value at most unless it is `var`.
abbrev pub IsAllowed : List Text → Text × List Text → Type 0
IsAllowed allowed entry =
    (member entry.0 allowed ≡ true) × ((entry.0 ≡ text "var") ⊎ (length entry.1 ≤ 1))

validate_query_keys-Holds :
    (allowed : List Text) (q : Query)
    → Holds (λ _. All (IsAllowed allowed) q) (validate_query_keys allowed q)
unfolding validate_query_keys
validate_query_keys-Holds allowed [] = tt
validate_query_keys-Holds allowed ((key, values) ∷ q) =
    by_tests (member key allowed) refl (text_eq key (text "var")) refl (ltb 1 (length values)) refl
      (validate_query_keys allowed q) (validate_query_keys-Holds allowed q)
  where
    by_tests :
        (known : Bool)
        → member key allowed ≡ known
        → (var : Bool) → text_eq key (text "var") ≡ var
        → (many : Bool) → ltb 1 (length values) ≡ many
        → (rest : Result Text (Unit {0})) → Holds (λ _. All (IsAllowed allowed) q) rest
        → Holds
            (λ _. All (IsAllowed allowed) ((key, values) ∷ q))
            (if not known
              then err (text "unsupported query parameter " ++ key)
              else if var
              then rest
              else if many
              then err (text "query parameter must be specified at most once: " ++ key)
              else rest)
    by_tests false e var f many g rest h = tt
    by_tests true e var f many g (err x) h = ground arith
    by_tests true e true f many g (ok u) h = ((e, inl ((text_eq_iff key (text "var")).0 f)), h)
    by_tests true e false f true g (ok u) h = tt
    by_tests true e false f false g (ok u) h = ((e, inr (ground (arith, g))), h)

abbrev AtLeast : ℕ → ℤ → Type 0
AtLeast min n = is_at_least min n ≡ true

number_of-Holds :
    (parse : Text → Option ℤ) (def : ℤ) (min : ℕ) (o : Option Text)
    → AtLeast min def
    → Holds (AtLeast min) (number_of parse def min o)
number_of-Holds parse def min none d = d
number_of-Holds parse def min (some v) d = by_blank (text_eq (trim_space v) [])
  where
    by_minimum :
        (n : ℤ) (b : Bool)
        → is_at_least min n ≡ b
        → Holds (AtLeast min) (if not b then err (text "query parameter is too small") else ok n)
    by_minimum n true e = e
    by_minimum n false e = tt

    by_parse : (p : Option ℤ) → Holds (AtLeast min) (within min p)
    by_parse none = tt
    by_parse (some n) = by_minimum n (is_at_least min n) refl

    by_blank : (b : Bool) → Holds (AtLeast min) (if b then ok def else within min (parse v))
    by_blank true = d
    by_blank false = by_parse (parse v)

query_number_strict-Holds :
    (parse : Text → Option ℤ) (q : Query) (key : Text) (def : ℤ) (min : ℕ)
    → AtLeast min def
    → Holds (AtLeast min) (query_number_strict parse q key def min)
unfolding query_number_strict
query_number_strict-Holds parse q key def min d =
    after-Holds (AtLeast min) (query_value q key) (number_of parse def min)
      (λ o. number_of-Holds parse def min o d)

-- Every variable has a key of the prefix.
abbrev pub IsVariable : Text × Text → Type 0
IsVariable v = starts_with variable_prefix v.0 ≡ true

variable_of-Holds : (item : Text) (o : Option (Text × Text)) → Holds IsVariable (variable_of item o)
variable_of-Holds item none = tt
variable_of-Holds item (some (key, value)) =
    by_tests (text_eq (trim_space key) []) (starts_with variable_prefix (trim_space key)) refl
  where
    by_tests :
        (empty starts : Bool)
        → starts_with variable_prefix (trim_space key) ≡ starts
        → Holds IsVariable (
            if empty
            then err (text "invalid --var, key must not be empty: " ++ item)
            else if not starts
            then err (text "invalid --var, key must start with BUILDCTL_BATCH_: " ++ item)
            else ok (trim_space key, value))
    by_tests true starts e = tt
    by_tests false true e = e
    by_tests false false e = tt

insert-All :
    (key value : Text) (m : Map Text Text)
    → IsVariable (key, value)
    → All IsVariable m
    → All IsVariable (insert key value m)
unfolding insert
insert-All key value [] v h = (v, tt)
insert-All key value ((at, old) ∷ m) v h = elim (Bool-cases (text_eq at key)) [
  | inl e ↦ rw e (h.0, h.1)
  | inr e ↦ rw e (h.0, insert-All key value m v h.1)
]

add_variables-Holds :
    (items : List Text) (vars : Map Text Text)
    → All IsVariable vars
    → Holds (All IsVariable) (add_variables items vars)
unfolding add_variables
add_variables-Holds [] vars h = h
add_variables-Holds (item ∷ items) vars h =
    bind-Holds IsVariable (All IsVariable) (variable_of item (cut 61 item))
      (λ found. add_variables items (insert found.0 found.1 vars))
      (variable_of-Holds item (cut 61 item))
      (λ found v.
        add_variables-Holds items (insert found.0 found.1 vars)
          (insert-All found.0 found.1 vars v h))

parse_build_variables-Holds :
    (items : List Text) → Holds (All IsVariable) (parse_build_variables items)
unfolding parse_build_variables
parse_build_variables-Holds items = add_variables-Holds items [] tt

abbrev pub HasCooldown : ℤ → BuildkitAddr → Type 0
HasCooldown cooldown a = a.cooldown ≡ pos_part cooldown

with_cooldowns-All :
    (cooldown : ℤ) (addrs : List BuildkitAddr)
    → All (HasCooldown cooldown) (with_cooldowns cooldown addrs)
unfolding with_cooldowns
with_cooldowns-All cooldown [] = tt
with_cooldowns-All cooldown (a ∷ addrs) = (refl, with_cooldowns-All cooldown addrs)

-- The numbers of some options are in range, and every address has their cooldown.
abbrev pub InRange : Options → Type 0
InRange o =
    AtLeast 1 o.concurrency
    × AtLeast 0 o.timeout
    × AtLeast 0 o.retry
    × AtLeast 0 o.oom_cooldown
    × All (HasCooldown o.oom_cooldown) o.addrs

abbrev pub IsValid : Query → Options → Type 0
IsValid q o = All (IsAllowed build_keys) q × InRange o × All IsVariable o.vars

flags_from_query-Holds :
    (lib : Libraries) (q : Query) (o : Options)
    → InRange o
    → Holds (λ p. InRange p × All IsVariable p.vars) (flags_from_query lib q o)
flags_from_query-Holds lib q o v =
    let Q : Options → Type 0 = λ p. InRange p × All IsVariable p.vars in
    after-Holds Q (query_bool_strict q (text "fail-fast") false) _ λ failfast.
      after-Holds Q (query_bool_strict q (text "oci") false) _ λ oci.
        after-Holds Q (query_bool_strict q (text "both-formats") false) _ λ both_formats.
          after-Holds Q (query_bool_strict q (text "verbose") false) _ λ verbose.
            after-Holds Q (query_bool_strict q (text "skip-fail") false) _ λ skip_fail.
              after-Holds Q (query_value q (text "target")) _ λ target.
                bind-Holds (All IsVariable) Q
                  (parse_build_variables (values_of (lookup (text "var") q))) _
                  (parse_build_variables-Holds _) λ vars w. (v, w)

-- The options of an accepted query: its keys are those of the endpoint, each but `var` with one
-- value at most; the concurrency is at least 1; timeout, retries and cooldown are not negative; the
-- addresses all have the cooldown; and every variable has the prefix of the batch.
pub build_options_from_query-Holds :
    (lib : Libraries) (q : Query) (default_addrs result_db logs_file : Text)
    → Holds (IsValid q) (build_options_from_query lib q default_addrs result_db logs_file)
unfolding build_options_from_query
build_options_from_query-Holds lib q default_addrs result_db logs_file =
    bind-Holds (λ _. All (IsAllowed build_keys) q) (IsValid q) (validate_query_keys build_keys q) _
      (validate_query_keys-Holds build_keys q)
      λ _ allowed. after-Holds (IsValid q) (query_value q (text "addrs")) _ λ addrs_value.
        after-Holds (IsValid q) (parse_addrs lib.net (value_or default_addrs addrs_value)) _
          λ addrs.
            bind-Holds (AtLeast 1) (IsValid q)
              (query_number_strict lib.atoi q (text "concurrency") (pos 1) 1) _
              (query_number_strict-Holds lib.atoi q (text "concurrency") (pos 1) 1 refl)
              λ concurrency c.
                bind-Holds (AtLeast 0) (IsValid q)
                  (query_number_strict lib.atoi q (text "timeout") (pos 300) 0) _
                  (query_number_strict-Holds lib.atoi q (text "timeout") (pos 300) 0 refl)
                  λ timeout t.
                    bind-Holds (AtLeast 0) (IsValid q)
                      (query_number_strict lib.atoi q (text "retry") (pos 0) 0) _
                      (query_number_strict-Holds lib.atoi q (text "retry") (pos 0) 0 refl)
                      λ retry r.
                        bind-Holds (AtLeast 0) (IsValid q)
                          (query_number_strict lib.parse_duration q (text "oom-cooldown")
                            default_oom_cooldown 0)
                          _
                          (query_number_strict-Holds lib.parse_duration q (text "oom-cooldown")
                            default_oom_cooldown 0 refl)
                          λ oom o.
                            let before =
                              without_flags (with_cooldowns oom addrs)
                                (value_or default_addrs addrs_value) concurrency timeout retry oom
                                result_db logs_file in
                            mono-Holds (λ p. InRange p × All IsVariable p.vars) (IsValid q)
                              (flags_from_query lib q before)
                              (flags_from_query-Holds lib q before
                                (c, t, r, o, with_cooldowns-All oom addrs))
                              (λ p v. (allowed, v.0, v.1))
