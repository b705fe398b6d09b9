-- ===== src/Daemon/HostRules.antt =====
-- internal/builddaemon/registry.go: the rules that list the hosts of each registry.
use buildkit_service.Prelude.{
  ◌||◌, Option, none, some, List, [], ◌∷◌, Map, Text, text, eq_text, text_eq, trim_space,
  trim_suffix, to_lower, cut, split, member, insert, if◌then◌else◌,
}

unfoldable pub normalize_registry_host : Text → Text
unfolding to_lower trim_suffix trim_space
normalize_registry_host host = to_lower (trim_suffix (text ".") (trim_space host))

abbrev pub HostRules : Type 0
HostRules = Map Text (List Text)

unfoldable pub hosts_of : List Text → List Text
unfolding normalize_registry_host text_eq member
hosts_of [] = []
hosts_of (raw ∷ rest) =
    let host = normalize_registry_host raw in
    let hosts = hosts_of rest in
    if text_eq host [] || member host hosts then hosts else host ∷ hosts

-- The rule of an item, where it makes one.
abbrev pub rule_with : Text → List Text → Option (Text × List Text)
rule_with registry [] = none
rule_with registry (host ∷ hosts) = some (registry, host ∷ hosts)

abbrev pub rule_at : Option (Text × Text) → Option (Text × List Text)
rule_at none = none
rule_at (some (registry, hosts_raw)) =
    if text_eq (normalize_registry_host registry) []
    then none
    else rule_with (normalize_registry_host registry) (hosts_of (split 124 hosts_raw))

unfoldable pub rule_of : Text → Option (Text × List Text)
unfolding cut normalize_registry_host hosts_of split text_eq
rule_of item = rule_at (cut 61 item)

abbrev pub add_rule : Option (Text × List Text) → HostRules → HostRules
add_rule none rules = rules
add_rule (some (registry, hosts)) rules = insert registry hosts rules

unfoldable pub add_items : List Text → HostRules → HostRules
unfolding rule_of insert text_eq
add_items [] rules = rules
add_items (item ∷ items) rules = add_items items (add_rule (rule_of item) rules)

unfoldable pub parse_registry_host_rules : Text → HostRules
unfolding add_items split
parse_registry_host_rules raw = add_items (split 59 raw) []
