-- ===== src/Daemon/Modes/Validity.antt =====
-- What an accepted configuration guarantees.
use buildkit_service.Prelude.{
  ℕ, ◌+◌, ◌^◌, ◌≤◌, ◌<◌, ◌≡◌, Bool, true, false, some, [], ◌∷◌, Map, Text, eq_text, trim_space,
  text_eq_refl, subst, lookup, Result, ◌>>◌, guard, ok, ℤ, pos, pos_part, Bool-cases, Option-cases,
  Result-cases, inl, inr, arith,
}
use buildkit_service.Daemon.Modes.{
  BuildModes, ModeConfig, Decoded, refused, decoded, valid_build_mode_name, add_int, check_configs,
  modes_of, parse_build_modes, resolve, only_default, or_default, modes_from, is_blank,
}

-- The true sum, without wrap-around.
abbrev pub total_concurrency : Map Text ModeConfig → ℕ
total_concurrency [] = 0
total_concurrency ((name, cfg) ∷ m) = pos_part cfg.concurrency + total_concurrency m

abbrev pub AllValid : Map Text ModeConfig → Type 0
AllValid [] = Unit
AllValid ((name, cfg) ∷ m) =
    (valid_build_mode_name name ≡ true) × (0 < pos_part cfg.concurrency) × AllValid m

check_configs_sound :
    (m : Map Text ModeConfig) (t : ℕ) (r : ℕ) → check_configs m t ≡ ok r → AllValid m
unfolding check_configs
check_configs_sound [] t r h = tt
check_configs_sound ((name, cfg) ∷ m) t r h =
    ground (arith, check_configs_sound m (add_int t cfg.concurrency) r)

check_configs_total :
    (m : Map Text ModeConfig) (t : ℕ) (r : ℕ)
    → check_configs m t ≡ ok r
    → t + total_concurrency m < 2 ^ 63
    → r ≡ t + total_concurrency m
unfolding check_configs
check_configs_total [] t r h b = ground arith
check_configs_total ((name, cfg) ∷ m) t r h b =
    ground (arith, check_configs_total m (add_int t cfg.concurrency) r)

-- What the rest of the daemon takes for granted of its modes.
pub record IsUsable (max_concurrency : ℤ) (m : BuildModes) : Type 0 where
  pub default_defined : (cfg : ModeConfig) × (lookup m.default_mode m.configs ≡ some cfg)
  pub valid : m.explicit ≡ true → AllValid m.configs
  pub within :
      m.explicit ≡ true
      → 0 < pos_part max_concurrency
      → total_concurrency m.configs < 2 ^ 63
      → total_concurrency m.configs ≤ pos_part max_concurrency

modes_of-IsUsable :
    (default_mode : Text) (max_concurrency : ℤ) (d : Decoded) (m : BuildModes)
    → modes_of default_mode max_concurrency d ≡ ok m
    → IsUsable max_concurrency m
unfolding modes_of
modes_of-IsUsable default_mode max_concurrency refused m h = cc
modes_of-IsUsable default_mode max_concurrency (decoded configs trailing) m h =
    elim (Result-cases (check_configs configs 0)) [
      | inr (e, c) ↦ ground (arith, c)
      | inl (r, c) ↦ elim (Option-cases (lookup default_mode configs)) [
        | inl gone ↦ ground (arith, c, gone)
        | inr (cfg, found) ↦ record {
          default_defined = (cfg, ground (arith, c, found));
          valid = λ _.
              let same : configs ≡ m.configs = ground (arith, c, found) in
              subst AllValid same (check_configs_sound configs 0 r c);
          within = λ _ limited small. ground (arith, c, found, check_configs_total configs 0 r c);
        }
      ]
    ]

only_default-IsUsable :
    (default_mode : Text) (max_concurrency : ℤ)
    → IsUsable max_concurrency (only_default default_mode)
unfolding lookup
only_default-IsUsable default_mode max_concurrency = record {
  default_defined =
      (record { concurrency = pos 0; routing_enabled = false }, rw (text_eq_refl default_mode));
  valid = λ e. cc;
  within = λ e. cc;
}

ok_eq {ℓ κ} : {E : Type ℓ} {A : Type κ} {a b : A} → ◌≡◌ {A = Result E A} (ok a) (ok b) → a ≡ b
ok_eq h = cc

guarded {ℓ κ} :
    {E : Type ℓ} {A : Type κ} (b : Bool) (e : E) (r : Result E A) {a : A}
    → (guard b e >> r) ≡ ok a
    → r ≡ ok a
guarded true e r h = h
guarded false e r h = cc

modes_from-IsUsable :
    (decode : Text → Decoded) (raw default_mode : Text) (max_concurrency : ℤ) (m : BuildModes)
    → modes_from decode raw default_mode max_concurrency ≡ ok m
    → IsUsable max_concurrency m
unfolding modes_from
modes_from-IsUsable decode raw default_mode max_concurrency m h = elim (Bool-cases (is_blank raw)) [
  | inl e ↦
      let same : only_default default_mode ≡ m = ok_eq (rw e at h) in
      subst (IsUsable max_concurrency) same (only_default-IsUsable default_mode max_concurrency)
  | inr e ↦ modes_of-IsUsable default_mode max_concurrency (decode raw) m (rw e at h)
]

-- A configuration that parseBuildModes accepts defines its default mode. If modes are given in it,
-- each has a valid name and a positive concurrency; and if the maximum is positive and the sum of
-- the concurrencies is below 2^63, the sum is at most the maximum.
pub parse_build_modes-IsUsable :
    (decode : Text → Decoded) (raw default_raw : Text) (max_concurrency : ℤ) (m : BuildModes)
    → parse_build_modes decode raw default_raw max_concurrency ≡ ok m
    → IsUsable max_concurrency m
unfolding parse_build_modes
parse_build_modes-IsUsable decode raw default_raw max_concurrency m h =
    modes_from-IsUsable decode raw (or_default (trim_space default_raw)) max_concurrency m
      (guarded (valid_build_mode_name (or_default (trim_space default_raw))) _ _ h)

-- Of an accepted configuration, a request that names no mode gets the default mode.
pub resolve-parse_build_modes :
    (decode : Text → Decoded) (raw default_raw request : Text) (max_concurrency : ℤ)
    (m : BuildModes)
    → parse_build_modes decode raw default_raw max_concurrency ≡ ok m
    → trim_space request ≡ []
    → (cfg : ModeConfig) × (resolve (some m) request ≡ some (m.default_mode, cfg))
unfolding resolve
resolve-parse_build_modes decode raw default_raw request max_concurrency m h blank =
    let (cfg, found) =
      (parse_build_modes-IsUsable decode raw default_raw max_concurrency m h).default_defined in
    (cfg, rw blank (ground (arith, found)))
