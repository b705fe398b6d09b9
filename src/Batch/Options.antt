-- ===== src/Batch/Options.antt =====
-- internal/buildbatch/daemon_options.go, config.go, build_variables.go: the options of a command,
-- from a configuration or from the query of a request.
pub mod Validity
pub mod Agreement
use buildkit_service.Prelude.{
  cut, ℕ, ◌*◌, ◌^◌, Bool, true, false, not, ◌&&◌, Option, none, some, List, [], ◌∷◌, ◌++◌, Map,
  Text, text, eq_text, text_eq, trim_space, to_lower, starts_with, split, member, lookup, insert,
  sort_by, map, length, leb, ltb, if◌then◌else◌, Result, ok, err, ◌>>=◌, ◌>>◌, ℤ, pos, negsuc,
  pos_part,
}
use buildkit_service.Daemon.Addresses.{Net, addrs_of_parts, sorted_addrs}
use buildkit_service.Batch.Scheduler.{BuildkitAddr}
use buildkit_service.Batch.Queries.{
  Query, Libraries, validate_query_keys, single_value, query_value, bool_of, query_bool_strict,
  is_at_least, within, number_of, query_number_strict,
}

abbrev pub variable_prefix : Text
variable_prefix = text "BUILDCTL_BATCH_"

abbrev pub variable_of : Text → Option (Text × Text) → Result Text (Text × Text)
variable_of item none = err (text "invalid --var, expected KEY=value: " ++ item)
variable_of item (some (key, value)) =
    if text_eq (trim_space key) []
    then err (text "invalid --var, key must not be empty: " ++ item)
    else if not (starts_with variable_prefix (trim_space key))
    then err (text "invalid --var, key must start with BUILDCTL_BATCH_: " ++ item)
    else ok (trim_space key, value)

-- The loop of parseBuildVariables; no items give the nil map, which is empty.
unfoldable pub add_variables : List Text → Map Text Text → Result Text (Map Text Text)
unfolding cut trim_space text_eq starts_with insert
add_variables [] vars = ok vars
add_variables (item ∷ items) vars =
    variable_of item (cut 61 item) >>= λ found. add_variables items (insert found.0 found.1 vars)

unfoldable pub parse_build_variables : List Text → Result Text (Map Text Text)
unfolding add_variables
parse_build_variables items = add_variables items []

-- parseBuildkitAddrs of the batch has the code of the daemon's but for the error of a blank list; a
-- new address has no cooldown.
abbrev pub addr_with : ℕ → Text → Text → Text → BuildkitAddr
addr_with cooldown original addr node_ip = record {
  original = original;
  addr = addr;
  node_ip = node_ip;
  cooldown = cooldown;
  cooldown_until = 0;
}

unfoldable pub parse_addrs : Net → Text → Result Text (List BuildkitAddr)
unfolding trim_space text_eq split addrs_of_parts sort_by
parse_addrs net raw =
    if text_eq (trim_space raw) []
    then err (text "--addrs is required")
    else (sorted_addrs (addrs_of_parts net (split 44 raw)) >>= λ addrs.
        ok (map (λ a. addr_with 0 a.original a.addr a.node_ip) addrs))

-- `options`, without the fields of other commands.
pub record Options : Type 0 where
  pub addrs : List BuildkitAddr
  pub addrs_raw : Text
  pub concurrency : ℤ
  pub failfast : Bool
  pub oci : Bool
  pub both_formats : Bool
  pub oom_cooldown : ℤ
  pub result_path : Text
  pub logs_path : Text
  pub vars : Map Text Text
  pub timeout : ℤ
  pub retry : ℤ
  pub verbose : Bool
  pub target : Text
  pub skip_fail : Bool

-- defaultBuildkitOOMCooldown, and the loop that sets the cooldown of every address. A negative
-- cooldown ends before it starts, as zero does.
abbrev pub default_oom_cooldown : ℤ
default_oom_cooldown = pos (120 * 10 ^ 9)

unfoldable pub with_cooldowns : ℤ → List BuildkitAddr → List BuildkitAddr
with_cooldowns cooldown [] = []
with_cooldowns cooldown (a ∷ addrs) =
    record a { cooldown = pos_part cooldown } ∷ with_cooldowns cooldown addrs

abbrev pub build_keys : List Text
build_keys =
    text "addrs"
    ∷ text "concurrency"
    ∷ text "fail-fast"
    ∷ text "oci"
    ∷ text "both-formats"
    ∷ text "oom-cooldown"
    ∷ text "timeout"
    ∷ text "retry"
    ∷ text "verbose"
    ∷ text "target"
    ∷ text "skip-fail"
    ∷ text "var"
    ∷ text "oneshot"
    ∷ []

abbrev pub value_or : Text → Option Text → Text
value_or def none = def
value_or def (some v) = if text_eq (trim_space v) [] then def else v

abbrev pub trimmed_or_empty : Option Text → Text
trimmed_or_empty none = []
trimmed_or_empty (some v) = trim_space v

abbrev pub values_of : Option (List Text) → List Text
values_of none = []
values_of (some values) = values

-- The flags and the target, which the options are made of.
abbrev pub flags_from_query : Libraries → Query → Options → Result Text Options
flags_from_query lib q o = query_bool_strict q (text "fail-fast") false >>= λ failfast.
    query_bool_strict q (text "oci") false >>= λ oci.
    query_bool_strict q (text "both-formats") false >>= λ both_formats.
    query_bool_strict q (text "verbose") false >>= λ verbose.
    query_bool_strict q (text "skip-fail") false >>= λ skip_fail.
    query_value q (text "target") >>= λ target.
    parse_build_variables (values_of (lookup (text "var") q)) >>= λ vars. ok (record o {
      failfast = failfast;
      oci = oci;
      both_formats = both_formats;
      verbose = verbose;
      skip_fail = skip_fail;
      target = trimmed_or_empty target;
      vars = vars;
    })

-- The options before the flags, the target and the variables.
abbrev pub without_flags : List BuildkitAddr → Text → ℤ → ℤ → ℤ → ℤ → Text → Text → Options
without_flags addrs addrs_raw concurrency timeout retry oom_cooldown result_db logs_file = record {
  addrs = addrs;
  addrs_raw = addrs_raw;
  concurrency = concurrency;
  failfast = false;
  oci = false;
  both_formats = false;
  oom_cooldown = oom_cooldown;
  result_path = result_db;
  logs_path = logs_file;
  vars = [];
  timeout = timeout;
  retry = retry;
  verbose = false;
  target = [];
  skip_fail = false;
}

unfoldable pub build_options_from_query :
    Libraries → Query → Text → Text → Text → Result Text Options
unfolding validate_query_keys query_value parse_addrs query_number_strict query_bool_strict
    parse_build_variables with_cooldowns trim_space text_eq lookup
build_options_from_query lib q default_addrs result_db logs_file =
    validate_query_keys build_keys q
    >> (query_value q (text "addrs") >>= λ addrs_value.
        parse_addrs lib.net (value_or default_addrs addrs_value) >>= λ addrs.
        query_number_strict lib.atoi q (text "concurrency") (pos 1) 1 >>= λ concurrency.
        query_number_strict lib.atoi q (text "timeout") (pos 300) 0 >>= λ timeout.
        query_number_strict lib.atoi q (text "retry") (pos 0) 0 >>= λ retry.
        query_number_strict lib.parse_duration q (text "oom-cooldown") default_oom_cooldown 0
        >>= λ oom_cooldown. flags_from_query lib q (
            without_flags (with_cooldowns oom_cooldown addrs) (value_or default_addrs addrs_value)
              concurrency timeout retry oom_cooldown result_db logs_file))

pub record Config : Type 0 where
  pub addrs : Text
  pub variables : List Text
  pub concurrency : ℤ
  pub fail_fast : Bool
  pub oci : Bool
  pub both_formats : Bool
  pub oom_cooldown : ℤ
  pub result_path : Text
  pub logs_path : Text
  pub timeout : ℤ
  pub retry : ℤ
  pub verbose : Bool
  pub target : Text
  pub skip_fail : Bool

-- DefaultConfig: the fields that it leaves out are zero.
abbrev pub default_config : Config
default_config = record {
  addrs = [];
  variables = [];
  concurrency = pos 1;
  fail_fast = false;
  oci = false;
  both_formats = false;
  oom_cooldown = default_oom_cooldown;
  result_path = text "result.lmdb";
  logs_path = text "logs.jsonl";
  timeout = pos 300;
  retry = pos 0;
  verbose = false;
  target = [];
  skip_fail = false;
}

-- Run: the options that it gives to runBuildCommand.
unfoldable pub run_options : Libraries → Config → Result Text Options
unfolding parse_addrs parse_build_variables with_cooldowns
run_options lib cfg = parse_addrs lib.net cfg.addrs >>= λ addrs.
    parse_build_variables cfg.variables >>= λ vars. ok (record {
      addrs = with_cooldowns cfg.oom_cooldown addrs;
      addrs_raw = cfg.addrs;
      concurrency = cfg.concurrency;
      failfast = cfg.fail_fast;
      oci = cfg.oci;
      both_formats = cfg.both_formats;
      oom_cooldown = cfg.oom_cooldown;
      result_path = cfg.result_path;
      logs_path = cfg.logs_path;
      vars = vars;
      timeout = cfg.timeout;
      retry = cfg.retry;
      verbose = cfg.verbose;
      target = cfg.target;
      skip_fail = cfg.skip_fail;
    })
