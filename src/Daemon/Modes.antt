-- ===== src/Daemon/Modes.antt =====
-- internal/builddaemon/mode_scheduler.go: the build modes of the configuration.
pub mod Validity
use buildkit_service.Prelude.{
  ℕ, ◌+◌, ◌%◌, ◌^◌, Bool, true, false, not, ◌&&◌, ◌||◌, Option, none, some, List, [], ◌∷◌, ◌≡◌, Map,
  Text, text, eq_text, trim_space, lookup, keys, sort_by, text_ltb, length, ltb, leb, nat_eq,
  if◌then◌else◌, Result, ok, err, guard, ◌>>=◌, ◌>>◌, ℤ, pos, negsuc, pos_part,
}

abbrev pub default_build_mode : Text
default_build_mode = text "default_mode"

-- Concurrency is a Go int, as the decoder leaves it.
pub record ModeConfig : Type 0 where
  pub concurrency : ℤ
  pub routing_enabled : Bool

pub record BuildModes : Type 0 where
  pub default_mode : Text
  pub configs : Map Text ModeConfig
  pub explicit : Bool

pub data ModesError : Type 0 where
  bad_default_name no_modes undefined_default malformed trailing_data : ModesError
  bad_name bad_concurrency : Text → ModesError
  over_limit : ℕ → ModesError

-- What json.Decoder makes of the text: a refusal, or the configurations and whether more data
-- follows.
pub data Decoded : Type 0 where
  refused : Decoded
  decoded : Map Text ModeConfig → Bool → Decoded

is_name_char : ℕ → Bool
is_name_char c =
    (leb 97 c && leb c 122)
    || (leb 65 c && leb c 90)
    || (leb 48 c && leb c 57)
    || nat_eq c 95
    || nat_eq c 45

unfoldable pub all_name_chars : Text → Bool
unfolding is_name_char
all_name_chars [] = true
all_name_chars (c ∷ s) = is_name_char c && all_name_chars s

unfoldable pub valid_build_mode_name : Text → Bool
unfolding all_name_chars
valid_build_mode_name [] = false
valid_build_mode_name (c ∷ s) = all_name_chars (c ∷ s)

abbrev pub is_positive : ℤ → Bool
is_positive n = ltb 0 (pos_part n)

-- Additions of a Go int wrap around at 64 bits; the sums are kept as the bit pattern.
abbrev pub add_int : ℕ → ℤ → ℕ
add_int total n = (total + pos_part n) % 2 ^ 64

-- The loop over the configurations, which are checked one by one and summed up.
unfoldable pub check_configs : Map Text ModeConfig → ℕ → Result ModesError ℕ
unfolding valid_build_mode_name
check_configs [] total = ok total
check_configs ((name, cfg) ∷ m) total = do
  guard (valid_build_mode_name name) (bad_name name)
  guard (is_positive cfg.concurrency) (bad_concurrency name)
  check_configs m (add_int total cfg.concurrency)

abbrev is_defined : Option ModeConfig → Bool
is_defined none = false
is_defined (some c) = true

-- total > maxConcurrency as signed integers, for a positive maximum.
abbrev pub exceeds : ℕ → ℕ → Bool
exceeds total limit = ltb total (2 ^ 63) && ltb limit total

-- What parseBuildModes does with what was decoded.
unfoldable pub modes_of : Text → ℤ → Decoded → Result ModesError BuildModes
unfolding check_configs lookup
modes_of default_mode max_concurrency refused = err malformed
modes_of default_mode max_concurrency (decoded configs trailing) = do
  guard (not trailing) trailing_data
  guard (not (nat_eq (length configs) 0)) no_modes
  total ← check_configs configs 0
  guard (is_defined (lookup default_mode configs)) undefined_default
  guard (not (is_positive max_concurrency && exceeds total (pos_part max_concurrency)))
      (over_limit total)
  ok (record { default_mode = default_mode; configs = configs; explicit = true })

abbrev pub is_blank : Text → Bool
is_blank s = nat_eq (length (trim_space s)) 0

abbrev pub or_default : Text → Text
or_default s = if nat_eq (length s) 0 then default_build_mode else s

-- The modes where none are configured.
abbrev pub only_default : Text → BuildModes
only_default default_mode = record {
  default_mode = default_mode;
  configs = (default_mode, record { concurrency = pos 0; routing_enabled = false }) ∷ [];
  explicit = false;
}

-- `decode` is encoding/json with unknown fields disallowed.
unfoldable pub modes_from : (Text → Decoded) → Text → Text → ℤ → Result ModesError BuildModes
modes_from decode raw default_mode max_concurrency =
    if is_blank raw
    then ok (only_default default_mode)
    else modes_of default_mode max_concurrency (decode raw)

unfoldable pub parse_build_modes : (Text → Decoded) → Text → Text → ℤ → Result ModesError BuildModes
parse_build_modes decode raw default_raw max_concurrency = do
  let default_mode = or_default (trim_space default_raw)
  guard (valid_build_mode_name default_mode) bad_default_name
  modes_from decode raw default_mode max_concurrency

-- `none` is an error: the modes are nil, or the name is unknown.
find_mode : Text → Option ModeConfig → Option (Text × ModeConfig)
find_mode name none = none
find_mode name (some cfg) = some (name, cfg)

unfoldable pub resolve : Option BuildModes → Text → Option (Text × ModeConfig)
unfolding find_mode
resolve none raw = none
resolve (some m) raw =
    let name : Text =
      (let t = trim_space raw in if nat_eq (length t) 0 then m.default_mode else t) in
    find_mode name (lookup name m.configs)

unfoldable pub names : Option BuildModes → List Text
unfolding sort_by text_ltb
names none = []
names (some m) = sort_by text_ltb (keys m.configs)

any_routing : Map Text ModeConfig → Bool
any_routing [] = false
any_routing ((name, cfg) ∷ m) = cfg.routing_enabled || any_routing m

unfoldable pub routing_required : Option BuildModes → Bool
unfolding any_routing
routing_required none = false
routing_required (some m) = any_routing m.configs
