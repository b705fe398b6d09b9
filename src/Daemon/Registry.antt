-- ===== src/Daemon/Registry.antt =====
-- internal/builddaemon/registry.go: the check that an image exists, which asks registries that the
-- configuration names. The reference library, package net, the resolver of containerd and the
-- Docker configuration are parameters; the resolver is a tree of requests, each followed by what
-- its answer makes of it.
pub mod Guard
use buildkit_service.Prelude.{
  ℕ, ◌+◌, Bool, true, false, not, ◌&&◌, ◌||◌, Option, none, some, List, [], ◌∷◌, ◌++◌, Map, Text,
  text, eq_text, text_eq, trim_space, trim_suffix, to_lower, starts_with, cut, has_one_of, split,
  member, lookup, insert, ltb, nat_eq, if◌then◌else◌, Result, ok, err, ◌>>=◌, ℤ, pos, negsuc,
}
use buildkit_service.Daemon.HostRules.{
  normalize_registry_host, HostRules, hosts_of, rule_with, rule_at, rule_of, add_rule, add_items,
  parse_registry_host_rules,
}

-- What the source reads of a parsed reference; `with_tag` is its text after TagNameOnly.
pub record Named : Type 0 where
  pub domain : Text
  pub is_digested : Bool
  pub with_tag : Text

pub record AuthConfig : Type 0 where
  pub registry_token : Text
  pub identity_token : Text
  pub username : Text
  pub password : Text

pub record ImageCheckResult : Type 0 where
  pub digest : Text
  pub media_type : Text
  pub size : ℤ

pub record Request : Type 0 where
  pub scheme : Text
  pub host : Text

pub data ResolveError : Type 0 where
  deadline_exceeded not_found : ResolveError
  other_error : Text → ResolveError

pub data Resolver : Type 0 where
  resolved : Result ResolveError ImageCheckResult → Resolver
  requests : Request → (Result Text Text → Resolver) → Resolver

abbrev pub Credentials : Type 0
Credentials = Text → Result Text (Text × Text)

pub record Libraries : Type 0 where
  pub parse_normalized_named : Text → Result Text Named
  pub split_host_port : Text → Option (Text × Text)
  pub is_loopback : Text → Bool
  pub resolve_image : Credentials → Bool → Text → Resolver

pub data CheckError : Type 0 where
  invalid_image_reference registry_not_allowed config_error : Text → CheckError
  registry_check_busy : CheckError
  resolve_error : ResolveError → CheckError

-- strings.EqualFold with `localhost`: the long s is the one other letter that folds to one of its.
abbrev pub fold_s : ℕ → ℕ
fold_s c = if nat_eq c 383 then 115 else c

unfoldable pub fold_all : Text → Text
fold_all [] = []
fold_all (c ∷ s) = fold_s c ∷ fold_all s

abbrev pub host_part : Text → Option (Text × Text) → Text
host_part registry none = registry
host_part registry (some (host, port)) = host

unfoldable pub registry_uses_plain_http : Libraries → Text → Bool
unfolding fold_all to_lower text_eq
registry_uses_plain_http lib registry =
    let host = host_part registry (lib.split_host_port registry) in
    text_eq (fold_all (to_lower host)) (text "localhost") || lib.is_loopback host

-- The part of the trimmed image before its first slash, which is not empty.
abbrev pub invalid : Text → Text → Result CheckError (Text × Text)
invalid image why = err (invalid_image_reference (image ++ (text ": " ++ why)))

abbrev pub of_named : Text → Result Text Named → Result CheckError (Text × Text)
of_named image (err e) = invalid image e
of_named image (ok named) =
    if named.is_digested
    then invalid image (text "digest references are not supported")
    else ok (named.with_tag, named.domain)

abbrev pub of_cut : Libraries → Text → Text → Option (Text × Text) → Result CheckError (Text × Text)
of_cut lib image trimmed none =
    invalid image (text "a fully qualified registry/repository reference is required")
of_cut lib image trimmed (some (registry, rest)) =
    if text_eq registry []
    then invalid image (text "a fully qualified registry/repository reference is required")
    else if not (has_one_of (text "." ∷ text ":" ∷ []) registry)
        && not (text_eq registry (text "localhost"))
    then invalid image (text "a fully qualified registry hostname is required")
    else of_named image (lib.parse_normalized_named trimmed)

unfoldable pub normalize_registry_image_reference :
    Libraries → Text → Result CheckError (Text × Text)
unfolding trim_space cut has_one_of text_eq
normalize_registry_image_reference lib image =
    of_cut lib image (trim_space image) (cut 47 (trim_space image))

-- registryCredentialHosts: the candidates without a repetition or an empty one.
abbrev pub unless_seen : Text → List Text → List Text
unless_seen candidate seen =
    if text_eq candidate [] || member candidate seen then seen else seen ++ candidate ∷ []

unfoldable pub registry_credential_hosts : Text → List Text
unfolding text_eq member
registry_credential_hosts host =
    let one = unless_seen host [] in
    let more =
      unless_seen (text "https://index.docker.io/v1/") (unless_seen (text "docker.io") one) in
    if text_eq host (text "registry-1.docker.io") || text_eq host (text "docker.io")
    then more
    else one

abbrev pub auth_of : AuthConfig → Result Text (Text × Text) → Result Text (Text × Text)
auth_of auth rest =
    if not (text_eq auth.registry_token [])
    then ok ([], auth.registry_token)
    else if not (text_eq auth.identity_token [])
    then ok ([], auth.identity_token)
    else if not (text_eq auth.username []) || not (text_eq auth.password [])
    then ok (auth.username, auth.password)
    else rest

unfoldable pub credentials_among :
    (Text → Result Text AuthConfig) → List Text → Result Text (Text × Text)
unfolding text_eq
credentials_among get_auth_config [] = ok ([], [])
credentials_among get_auth_config (candidate ∷ candidates) =
    let rest = credentials_among get_auth_config candidates in
    get_auth_config candidate >>= λ auth. auth_of auth rest

abbrev pub credentials : (Text → Result Text AuthConfig) → Credentials
credentials get_auth_config host =
    credentials_among get_auth_config (registry_credential_hosts host)

pub record RegistryCheckTransport : Type 0 where
  pub allowed_hosts : List Text
  pub registry_host : Text
  pub allow_plain_http : Bool

-- The answer of a base transport to the request with this number.
abbrev pub Base : Type 0
Base = ℕ → Request → Result Text Text

-- RoundTrip: the requests that go to the base transport, and the answer.
unfoldable pub round_trip :
    RegistryCheckTransport
    → (Request → Result Text Text)
    → Request
    → List Request × Result Text Text
unfolding normalize_registry_host to_lower text_eq member
round_trip t base q =
    let request_host = normalize_registry_host q.host in
    if not (member request_host t.allowed_hosts)
    then ([], err (text "registry check refuses request to untrusted host " ++ request_host))
    else if text_eq (to_lower q.scheme) (text "https")
    then (q ∷ [], base q)
    else if text_eq (to_lower q.scheme) (text "http")
        && t.allow_plain_http
        && text_eq request_host t.registry_host
    then (q ∷ [], base q)
    else ([], err (text "registry check refuses insecure request"))

-- What a check sends, and what it gives.
pub record Checked : Type 0 where
  pub sent : List Request
  pub result : Result CheckError ImageCheckResult

abbrev pub of_resolved : Result ResolveError ImageCheckResult → Result CheckError ImageCheckResult
of_resolved (ok r) = ok r
of_resolved (err e) = err (resolve_error e)

unfoldable pub run_resolver : RegistryCheckTransport → Base → ℕ → Resolver → Checked
unfolding round_trip
run_resolver t base n (resolved r) = record { sent = []; result = of_resolved r }
run_resolver t base n (requests q next) =
    let tripped = round_trip t (base n) q in
    let rest = run_resolver t base (n + 1) (next tripped.1) in
    record rest { sent = tripped.0 ++ rest.sent }

-- registryImageChecker: its rules, its slots with those that are held, the Docker configuration as
-- dockerconfig.Load reads it, and its transport.
pub record RegistryImageChecker : Type 0 where
  pub host_rules : HostRules
  pub slots : Option (ℕ × ℕ)
  pub docker_config : Result Text (Text → Result Text AuthConfig)
  pub transport : Base

-- A slot is taken without a wait, and given back when the check returns.
abbrev pub has_slot : Option (ℕ × ℕ) → Bool
has_slot none = true
has_slot (some (held, capacity)) = ltb held capacity

abbrev pub fails : CheckError → Checked
fails e = record { sent = []; result = err e }

abbrev pub transport_for : Libraries → Text → List Text → RegistryCheckTransport
transport_for lib registry hosts = record {
  allowed_hosts = hosts;
  registry_host = normalize_registry_host registry;
  allow_plain_http = registry_uses_plain_http lib registry;
}

abbrev pub after_config :
    Libraries
    → RegistryImageChecker
    → Text
    → Text
    → List Text
    → Result Text (Text → Result Text AuthConfig)
    → Checked
after_config lib r normalized registry hosts (err e) =
    fails (config_error (text "load docker config: " ++ e))
after_config lib r normalized registry hosts (ok get_auth_config) =
    run_resolver (transport_for lib registry hosts) r.transport 0 (
      lib.resolve_image (credentials get_auth_config) (registry_uses_plain_http lib registry)
        normalized)

abbrev pub after_rule :
    Libraries → RegistryImageChecker → Text → Text → Option (List Text) → Checked
after_rule lib r normalized registry none = fails (registry_not_allowed registry)
after_rule lib r normalized registry (some hosts) =
    if has_slot r.slots
    then after_config lib r normalized registry hosts r.docker_config
    else fails registry_check_busy

abbrev pub after_normalize :
    Libraries → RegistryImageChecker → Result CheckError (Text × Text) → Checked
after_normalize lib r (err e) = fails e
after_normalize lib r (ok (normalized, registry)) =
    after_rule lib r normalized registry (lookup (normalize_registry_host registry) r.host_rules)

unfoldable pub check_image : Libraries → RegistryImageChecker → Text → Checked
unfolding normalize_registry_image_reference normalize_registry_host lookup registry_uses_plain_http
    run_resolver registry_credential_hosts credentials_among
check_image lib r image = after_normalize lib r (normalize_registry_image_reference lib image)

-- The status of handleHeadImage, with the requests that it has sent; the headers of a success are
-- those of `head_headers`.
abbrev pub status_of : Result CheckError ImageCheckResult → ℕ
status_of (ok r) = 200
status_of (err (registry_not_allowed host)) = 403
status_of (err registry_check_busy) = 429
status_of (err (resolve_error deadline_exceeded)) = 504
status_of (err (resolve_error not_found)) = 404
status_of (err (invalid_image_reference image)) = 400
status_of (err (config_error e)) = 502
status_of (err (resolve_error (other_error e))) = 502

abbrev pub size_header : ℤ → List (Text × ℤ)
size_header (pos n) = (text "Content-Length", pos n) ∷ []
size_header (negsuc n) = []

abbrev pub text_header : Text → Text → List (Text × Text)
text_header name value = if text_eq value [] then [] else (name, value) ∷ []

unfoldable pub head_headers : ImageCheckResult → List (Text × Text) × List (Text × ℤ)
unfolding text_eq
head_headers r = (
  text_header (text "Docker-Content-Digest") r.digest
      ++ text_header (text "Content-Type") r.media_type,
  size_header r.size,
)

abbrev pub head_by : Libraries → Text → Option RegistryImageChecker → List Request × ℕ
head_by lib image none = ([], 503)
head_by lib image (some r) =
    ((check_image lib r image).sent, status_of (check_image lib r image).result)

unfoldable pub handle_head_image : Libraries → Option RegistryImageChecker → Text → List Request × ℕ
unfolding check_image trim_space text_eq
handle_head_image lib images param =
    if text_eq (trim_space param) [] then ([], 400) else head_by lib (trim_space param) images
