-- ===== src/Tests/Routes.antt =====
-- Routing to registries: internal/builddaemon/target_router.go.
use buildkit_service.Prelude.{
  ◌≡◌, ◌≢◌, ap, refl, none, some, [], ◌∷◌, ◌++◌, Text, text, text_eq, arith, ok,
}
use buildkit_service.Daemon.Router.{
  Reference, Libraries, RegistryRoutingTarget, target_at, select_from, select, rendezvous_score,
  route, normalize_context_sha256,
}
use buildkit_service.Daemon.Router.Rendezvous.{route-without}

abbrev named : Reference
named = record {
  domain = text "docker.io";
  path = text "library/app";
  tag = some (text "v1");
  digest = none;
}

-- A sum that is the bytes themselves, and a parser of one image.
abbrev libraries : Libraries
libraries = record {
  parse_normalized_named = λ image. ok named;
  sum256 = λ bytes. bytes;
  decode_strings = λ raw. ok (raw ∷ []);
}

abbrev context : Text
context = text "00112233445566778899aabbccddeeff00112233445566778899AABBCCDDEEFF"

abbrev digest : Text
digest = text "00112233445566778899aabbccddeeff00112233445566778899aabbccddeeff"

abbrev first_target : RegistryRoutingTarget
first_target = target_at (text "a.io") []

abbrev second_target : RegistryRoutingTarget
second_target = target_at (text "b.io") (text "team")

normalized : normalize_context_sha256 context ≡ ok digest
unfolding normalize_context_sha256
normalized = refl

second_is_selected : select libraries digest first_target (second_target ∷ []) ≡ second_target
unfolding select_from rendezvous_score text_eq
second_is_selected = refl

abbrev between : RegistryRoutingTarget
between = target_at (text "aa.io") []

not_between : select libraries digest first_target ([] ++ between ∷ second_target ∷ []) ≢ between
unfolding select_from rendezvous_score text_eq
not_between = λ e. ground (arith, ap (λ t. t.host) e)

route-without_example :
    route libraries (some (first_target ∷ ([] ++ second_target ∷ []))) (text "app:v1") context
    ≡ route libraries
        (some (first_target ∷ ([] ++ between ∷ second_target ∷ [])))
        (text "app:v1")
        context
route-without_example =
    route-without libraries first_target [] between (second_target ∷ []) (text "app:v1") context
      digest normalized not_between
