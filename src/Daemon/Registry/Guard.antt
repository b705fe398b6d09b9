-- ===== src/Daemon/Registry/Guard.antt =====
-- internal/builddaemon/registry.go: the hosts that a check of an image can reach.
use buildkit_service.Prelude.{
  ℕ, ◌≡◌, refl, sym, ap, ◌∙◌, Bool, true, false, not, ◌&&◌, Option, none, some, List, [], ◌∷◌, ◌++◌,
  Text, text, eq_text, text_eq, text_eq_iff, to_lower, member, split, lookup, lookup-insert, ◌⊎◌,
  inl, inr, All, All-append, Bool-cases, if◌then◌else◌, Result, ok, err, arith, trim_space, ◌+◌,
}
use buildkit_service.Daemon.Registry.{
  Request, Resolver, resolved, requests, Libraries, CheckError, registry_uses_plain_http,
  RegistryCheckTransport, Base, round_trip, run_resolver, RegistryImageChecker, fails,
  transport_for, after_config, after_rule, after_normalize, check_image,
  normalize_registry_image_reference, has_slot, credentials, AuthConfig, handle_head_image,
  registry_check_busy,
}
use buildkit_service.Daemon.HostRules.{
  HostRules, normalize_registry_host, rule_of, add_rule, add_items, parse_registry_host_rules,
}

-- A request to an allowed host: over HTTPS, or over HTTP to the registry itself where it may be.
abbrev pub IsLetThrough : RegistryCheckTransport → Request → Type 0
IsLetThrough t q =
    (member (normalize_registry_host q.host) t.allowed_hosts ≡ true)
    × ((text_eq (to_lower q.scheme) (text "https") ≡ true)
        ⊎ ((text_eq (to_lower q.scheme) (text "http") ≡ true)
            × (t.allow_plain_http ≡ true)
            × (normalize_registry_host q.host ≡ t.registry_host)))

abbrev tripped_if :
    (Request → Result Text Text)
    → Request
    → Bool
    → Bool
    → Bool
    → Bool
    → Bool
    → List Request × Result Text Text
tripped_if base q allowed secure plain may same =
    if not allowed
    then (
      [],
      err (
          text "registry check refuses request to untrusted host "
          ++ normalize_registry_host q.host),
    )
    else if secure
    then (q ∷ [], base q)
    else if plain && may && same
    then (q ∷ [], base q)
    else ([], err (text "registry check refuses insecure request"))

round_trip-All :
    (t : RegistryCheckTransport) (base : Request → Result Text Text) (q : Request)
    → All (IsLetThrough t) (round_trip t base q).0
unfolding round_trip
round_trip-All t base q =
    by_tests (member (normalize_registry_host q.host) t.allowed_hosts) refl
      (text_eq (to_lower q.scheme) (text "https")) refl (text_eq (to_lower q.scheme) (text "http"))
      refl t.allow_plain_http refl (text_eq (normalize_registry_host q.host) t.registry_host) refl
  where
    by_tests :
        (allowed : Bool)
        → member (normalize_registry_host q.host) t.allowed_hosts ≡ allowed
        → (secure : Bool) → text_eq (to_lower q.scheme) (text "https") ≡ secure
        → (plain : Bool) → text_eq (to_lower q.scheme) (text "http") ≡ plain
        → (may : Bool) → t.allow_plain_http ≡ may
        → (same : Bool) → text_eq (normalize_registry_host q.host) t.registry_host ≡ same
        → All (IsLetThrough t) (tripped_if base q allowed secure plain may same).0
    by_tests false a secure b plain c may d same e = tt
    by_tests true a true b plain c may d same e = ((a, inl b), tt)
    by_tests true a false b false c may d same e = tt
    by_tests true a false b true c false d same e = tt
    by_tests true a false b true c true d false e = tt
    by_tests true a false b true c true d true e =
        ((a, inr (c, d, (text_eq_iff (normalize_registry_host q.host) t.registry_host).0 e)), tt)

run_resolver-All :
    (t : RegistryCheckTransport) (base : Base) (n : ℕ) (x : Resolver)
    → All (IsLetThrough t) (run_resolver t base n x).sent
unfolding run_resolver
run_resolver-All t base n (resolved r) = tt
run_resolver-All t base n (requests q next) =
    All-append (IsLetThrough t) (round_trip t (base n) q).0 _ (
      round_trip-All t (base n) q,
      run_resolver-All t base (n + 1) (next (round_trip t (base n) q).1),
    )

-- The last item of the configuration that makes a rule for a registry.
abbrev pub or_earlier : Option (List Text) → Option (List Text) → Option (List Text)
or_earlier none earlier = earlier
or_earlier (some hosts) earlier = some hosts

abbrev pub hosts_in : Text → Option (Text × List Text) → Option (List Text)
hosts_in registry none = none
hosts_in registry (some (at, hosts)) = if text_eq at registry then some hosts else none

abbrev pub last_rule : Text → List Text → Option (List Text)
last_rule registry [] = none
last_rule registry (item ∷ items) =
    or_earlier (last_rule registry items) (hosts_in registry (rule_of item))

lookup-add_rule :
    (registry : Text) (o : Option (Text × List Text)) (rules : HostRules)
    → lookup registry (add_rule o rules) ≡ or_earlier (hosts_in registry o) (lookup registry rules)
lookup-add_rule registry none rules = refl
lookup-add_rule registry (some (at, hosts)) rules =
    ground (arith, lookup-insert at registry hosts rules)

or_earlier_assoc :
    (a b c : Option (List Text)) → or_earlier a (or_earlier b c) ≡ or_earlier (or_earlier a b) c
or_earlier_assoc none b c = refl
or_earlier_assoc (some h) b c = refl

lookup-add_items :
    (registry : Text) (items : List Text) (rules : HostRules)
    → lookup registry (add_items items rules)
      ≡ or_earlier (last_rule registry items) (lookup registry rules)
unfolding add_items
lookup-add_items registry [] rules = refl
lookup-add_items registry (item ∷ items) rules =
    lookup-add_items registry items (add_rule (rule_of item) rules)
    ∙ ap (or_earlier (last_rule registry items)) (lookup-add_rule registry (rule_of item) rules)
    ∙ or_earlier_assoc (last_rule registry items) (hosts_in registry (rule_of item))
        (lookup registry rules)

or_nothing : (o : Option (List Text)) → or_earlier o none ≡ o
or_nothing none = refl
or_nothing (some h) = refl

pub lookup-parse_registry_host_rules :
    (raw registry : Text)
    → lookup registry (parse_registry_host_rules raw) ≡ last_rule registry (split 59 raw)
unfolding parse_registry_host_rules lookup
lookup-parse_registry_host_rules raw registry =
    lookup-add_items registry (split 59 raw) [] ∙ or_nothing _

-- What a check may send under some configuration: nothing, or requests that its transport lets
-- through, whose hosts are those of the last rule for the registry of the image.
abbrev pub IsGuarded : Libraries → Text → Text → List Request → Type 0
IsGuarded lib raw image sent =
    (sent ≡ [])
    ⊎ ((normalized : Text) × (registry : Text) × (hosts : List Text)
        × (normalize_registry_image_reference lib image ≡ ok (normalized, registry))
        × (last_rule (normalize_registry_host registry) (split 59 raw) ≡ some hosts)
        × All (IsLetThrough (transport_for lib registry hosts)) sent)

check_image-IsGuarded :
    (lib : Libraries) (r : RegistryImageChecker) (raw image : Text)
    → r.host_rules ≡ parse_registry_host_rules raw
    → IsGuarded lib raw image (check_image lib r image).sent
unfolding check_image
check_image-IsGuarded lib r raw image e =
    by_reference (normalize_registry_image_reference lib image) refl
  where
    by_config :
        (normalized registry : Text) (hosts : List Text)
        → normalize_registry_image_reference lib image ≡ ok (normalized, registry)
        → last_rule (normalize_registry_host registry) (split 59 raw) ≡ some hosts
        → (c : Result Text (Text → Result Text AuthConfig))
        → IsGuarded lib raw image (after_config lib r normalized registry hosts c).sent
    by_config normalized registry hosts good rule (err x) = inl refl
    by_config normalized registry hosts good rule (ok get) = inr (
      normalized,
      registry,
      hosts,
      good,
      rule,
      run_resolver-All (transport_for lib registry hosts) r.transport 0
          (lib.resolve_image (credentials get) (registry_uses_plain_http lib registry) normalized),
    )

    by_slot :
        (normalized registry : Text) (hosts : List Text)
        → normalize_registry_image_reference lib image ≡ ok (normalized, registry)
        → last_rule (normalize_registry_host registry) (split 59 raw) ≡ some hosts
        → (b : Bool)
        → IsGuarded lib raw image
            (if b
              then after_config lib r normalized registry hosts r.docker_config
              else fails registry_check_busy).sent
    by_slot normalized registry hosts good rule true =
        by_config normalized registry hosts good rule r.docker_config
    by_slot normalized registry hosts good rule false = inl refl

    by_rule :
        (normalized registry : Text)
        → normalize_registry_image_reference lib image ≡ ok (normalized, registry)
        → (o : Option (List Text)) → last_rule (normalize_registry_host registry) (split 59 raw) ≡ o
        → IsGuarded lib raw image (after_rule lib r normalized registry o).sent
    by_rule normalized registry good none rule = inl refl
    by_rule normalized registry good (some hosts) rule =
        by_slot normalized registry hosts good rule (has_slot r.slots)

    by_reference :
        (x : Result CheckError (Text × Text))
        → normalize_registry_image_reference lib image ≡ x
        → IsGuarded lib raw image (after_normalize lib r x).sent
    by_reference (err x) bad = inl refl
    by_reference (ok (normalized, registry)) good =
        by_rule normalized registry good (lookup (normalize_registry_host registry) r.host_rules) (
          sym (lookup-parse_registry_host_rules raw (normalize_registry_host registry))
          ∙ ap (lookup (normalize_registry_host registry)) (sym e))

-- Where the rules of a checker are parsed from some configuration, whatever the resolver, the Docker
-- configuration and the registries do: the requests that a check of an image sends go to hosts that
-- the last rule for its registry lists, over HTTPS, or over HTTP to the registry itself where it is
-- local; without a rule, none is sent.
pub handle_head_image-IsGuarded :
    (lib : Libraries) (r : RegistryImageChecker) (raw param : Text)
    → r.host_rules ≡ parse_registry_host_rules raw
    → IsGuarded lib raw (trim_space param) (handle_head_image lib (some r) param).0
unfolding handle_head_image
handle_head_image-IsGuarded lib r raw param e = elim (Bool-cases (text_eq (trim_space param) [])) [
  | inl nothing ↦ rw nothing (inl refl)
  | inr given ↦ rw given (check_image-IsGuarded lib r raw (trim_space param) e)
]
