-- ===== src/Daemon/Router.antt =====
-- internal/builddaemon/target_router.go: the registry that a build is routed to. The reference
-- library, SHA-256 and the JSON decoder are parameters.
pub mod Rendezvous
use buildkit_service.Prelude.{
  ℕ, zero, suc, ◌+◌, ◌<◌, Bool, true, false, not, ◌&&◌, ◌||◌, Option, none, some, List, [], ◌∷◌,
  ◌++◌, Text, text, text_eq, text_ltb, trim_space, trim_right_by, trim_suffix, starts_with,
  has_part, to_lower, split, member, sort_by, length, ltb, leb, nat_eq, if◌then◌else◌, utf8_all,
  Result, ok, err, ◌>>=◌,
}

-- What the source reads of a parsed reference: reference.Domain and reference.Path, and the tag
-- and the digest where it has them.
pub record Reference : Type 0 where
  pub domain : Text
  pub path : Text
  pub tag : Option Text
  pub digest : Option Text

-- reference.ParseNormalizedNamed, sha256.Sum256 of bytes, and json.Unmarshal into strings.
pub record Libraries : Type 0 where
  pub parse_normalized_named : Text → Result Text Reference
  pub sum256 : List ℕ → List ℕ
  pub decode_strings : Text → Result Text (List Text)

pub record RegistryRoutingTarget : Type 0 where
  pub prefix : Text
  pub host : Text
  pub path_prefix : Text

abbrev pub min_routing_targets : ℕ
min_routing_targets = 2

abbrev pub max_routing_targets : ℕ
max_routing_targets = 32

abbrev pub invalid_target : Text → Text
invalid_target raw = text "invalid routing target " ++ raw

abbrev pub slash : ℕ
slash = 47

abbrev pub probe_repository : Text
probe_repository = text "buildctl-route-probe"

abbrev pub first_part : List Text → Text
first_part [] = []
first_part (part ∷ parts) = part

abbrev pub target_at : Text → Text → RegistryRoutingTarget
target_at host path_prefix = record {
  prefix = if text_eq path_prefix [] then host else host ++ (text "/" ++ path_prefix);
  host = host;
  path_prefix = path_prefix;
}

-- From the path of the probe on.
abbrev pub of_probe : Text → Reference → Result Text RegistryRoutingTarget
of_probe raw probe =
    let path_prefix = trim_suffix (text "/" ++ probe_repository) probe.path in
    if text_eq probe.path probe_repository
    then ok (target_at probe.domain [])
    else if text_eq path_prefix probe.path
    then err (invalid_target raw)
    else ok (target_at probe.domain path_prefix)

abbrev pub on_probe : Text → Result Text Reference → Result Text RegistryRoutingTarget
on_probe raw (err e) = err (invalid_target raw ++ (text ": " ++ e))
on_probe raw (ok probe) = of_probe raw probe

unfoldable pub parse_routing_target : Libraries → Text → Result Text RegistryRoutingTarget
unfolding trim_space trim_right_by text_eq has_part split trim_suffix
parse_routing_target lib raw =
    let prefix = trim_right_by (nat_eq slash) (trim_space raw) in
    let first_component = first_part (split slash prefix) in
    if text_eq prefix [] || has_part (text "://") prefix
    then err (invalid_target raw)
    else if not (text_eq first_component (text "localhost"))
        && not (has_part (text ".") first_component)
        && not (has_part (text ":") first_component)
    then err (invalid_target raw)
    else on_probe raw
        (lib.parse_normalized_named (prefix ++ (text "/" ++ (probe_repository ++ text ":latest"))))

abbrev pub add_target :
    Text
    → List Text
    → List RegistryRoutingTarget
    → RegistryRoutingTarget
    → Result Text (List Text × List RegistryRoutingTarget)
add_target raw unique targets target =
    if member target.prefix unique
    then err (text "duplicate routing target " ++ raw)
    else ok (target.prefix ∷ unique, targets ++ target ∷ [])

-- The loop over the prefixes.
unfoldable pub parse_prefixes :
    Libraries
    → List Text
    → List Text
    → List RegistryRoutingTarget
    → Result Text (List RegistryRoutingTarget)
unfolding parse_routing_target member
parse_prefixes lib [] unique targets = ok targets
parse_prefixes lib (raw ∷ rest) unique targets = parse_routing_target lib raw >>= λ target.
    add_target raw unique targets target >>= λ next. parse_prefixes lib rest next.0 next.1

abbrev pub target_before : RegistryRoutingTarget → RegistryRoutingTarget → Bool
target_before a b = text_ltb a.prefix b.prefix

abbrev pub sort_targets : List RegistryRoutingTarget → Option (List RegistryRoutingTarget)
sort_targets targets = some (sort_by target_before targets)

abbrev pub parse_decoded : Libraries → List Text → Result Text (Option (List RegistryRoutingTarget))
parse_decoded lib prefixes =
    if ltb (length prefixes) min_routing_targets || ltb max_routing_targets (length prefixes)
    then err (text "routing targets must contain between 2 and 32 registry prefixes")
    else (parse_prefixes lib prefixes [] [] >>= λ targets. ok (sort_targets targets))

abbrev pub on_decoded :
    Libraries → Result Text (List Text) → Result Text (Option (List RegistryRoutingTarget))
on_decoded lib (err e) = err (text "parse --routing-targets-json: " ++ e)
on_decoded lib (ok prefixes) = parse_decoded lib prefixes

-- `none` is a nil router.
unfoldable pub parse_routing_targets :
    Libraries → Text → Result Text (Option (List RegistryRoutingTarget))
unfolding trim_space text_eq parse_prefixes sort_by
parse_routing_targets lib raw =
    if text_eq (trim_space raw) [] then ok none else on_decoded lib (lib.decode_strings raw)

-- The digits of hex.DecodeString.
abbrev pub is_hex : ℕ → Bool
is_hex c = (leb 48 c && leb c 57) || (leb 97 c && leb c 102) || (leb 65 c && leb c 70)

abbrev pub all_hex : Text → Bool
all_hex [] = true
all_hex (c ∷ s) = is_hex c && all_hex s

-- The length of a string is that of its bytes; a string of 64 bytes decodes where all are digits.
unfoldable pub normalize_context_sha256 : Text → Result Text Text
unfolding to_lower trim_space utf8_all
normalize_context_sha256 value =
    let lowered = to_lower (trim_space value) in
    if not (nat_eq (length (utf8_all lowered)) 64)
    then err (text "context_sha256 must be a 64-character hexadecimal digest")
    else if not (all_hex lowered)
    then err (text "context_sha256 must be a 64-character hexadecimal digest")
    else ok lowered

unfoldable pub rendezvous_score : Libraries → Text → Text → List ℕ
unfolding utf8_all
rendezvous_score lib prefix digest = lib.sum256 (utf8_all (prefix ++ (0 ∷ digest)))

-- The loop over the other targets, with the score of the one that is selected; bytes.Compare is the
-- order of texts.
unfoldable pub select_from :
    (RegistryRoutingTarget → List ℕ)
    → RegistryRoutingTarget
    → List RegistryRoutingTarget
    → RegistryRoutingTarget
unfolding text_ltb
select_from score selected [] = selected
select_from score selected (target ∷ targets) =
    select_from score (if text_ltb (score selected) (score target) then target else selected)
      targets

abbrev pub suffix_of : Reference → Text
suffix_of named =
    elim named.tag as (λ _. Text) [ none ↦ [] | some tag ↦ text ":" ++ tag ]
    ++ elim named.digest as (λ _. Text) [ none ↦ [] | some digest ↦ text "@" ++ digest ]

-- The path below the prefix of the target, which is not doubled.
abbrev pub path_under : RegistryRoutingTarget → Text → Text
path_under target path =
    if not (text_eq target.path_prefix [])
      && not (text_eq path target.path_prefix)
      && not (starts_with (target.path_prefix ++ text "/") path)
    then target.path_prefix ++ (text "/" ++ path)
    else path

abbrev pub image_at : RegistryRoutingTarget → Reference → Text
image_at target named =
    target.host ++ (text "/" ++ (path_under target named.path ++ suffix_of named))

abbrev pub select :
    Libraries → Text → RegistryRoutingTarget → List RegistryRoutingTarget → RegistryRoutingTarget
select lib digest first rest = select_from (λ t. rendezvous_score lib t.prefix digest) first rest

abbrev pub on_named : RegistryRoutingTarget → Result Text Reference → Result Text Text
on_named selected (err e) = err (text "parse image for registry routing: " ++ e)
on_named selected (ok named) = ok (image_at selected named)

abbrev pub route_among : Libraries → List RegistryRoutingTarget → Text → Text → Result Text Text
route_among lib [] image context = err (text "routing targets are not configured")
route_among lib (first ∷ rest) image context = normalize_context_sha256 context >>= λ digest.
    on_named (select lib digest first rest) (lib.parse_normalized_named (trim_space image))

unfoldable pub route :
    Libraries → Option (List RegistryRoutingTarget) → Text → Text → Result Text Text
unfolding normalize_context_sha256 select_from rendezvous_score trim_space text_eq starts_with
route lib none image context = err (text "routing targets are not configured")
route lib (some targets) image context = route_among lib targets image context
