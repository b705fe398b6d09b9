-- ===== src/Tests/Registries.antt =====
-- Checks of images: internal/builddaemon/registry.go.
use buildkit_service.Prelude.{
  ◌≡◌, refl, false, none, some, [], ◌∷◌, Text, text, Result, ok, err, pos, trim_space,
}
use buildkit_service.Daemon.Registry.{
  Libraries, Resolver, resolved, requests, RegistryImageChecker, handle_head_image,
}
use buildkit_service.Daemon.HostRules.{parse_registry_host_rules}
use buildkit_service.Daemon.Registry.Guard.{IsGuarded, handle_head_image-IsGuarded}

-- The manifest, then a host that no rule lists; any answer but an error is the digest.
abbrev after_manifest : Result Text Text → Resolver
after_manifest (err e) = resolved (ok (record { digest = e; media_type = []; size = pos 0 }))
after_manifest (ok body) =
    requests (record { scheme = text "https"; host = text "evil.io" })
      (λ answer. resolved (ok (record { digest = body; media_type = []; size = pos 0 })))

abbrev libraries : Libraries
libraries = record {
  parse_normalized_named = λ image.
      ok (record { domain = text "r.io"; is_digested = false; with_tag = text "r.io/app:latest" });
  split_host_port = λ host. none;
  is_loopback = λ host. false;
  resolve_image = λ credentials plain image.
      requests (record { scheme = text "HTTPS"; host = text "Auth.r.io." }) after_manifest;
}

abbrev rules : Text
rules = text "R.io=old.io;r.io=r.io|auth.R.io; =x"

checker : RegistryImageChecker
unfolding parse_registry_host_rules
checker = record {
  host_rules = parse_registry_host_rules rules;
  slots = some (0, 1);
  docker_config = ok (λ host. err []);
  transport = λ n q. ok (text "sha256:0");
}

asked :
    handle_head_image libraries (some checker) (text " r.io/app ")
    ≡ (record { scheme = text "HTTPS"; host = text "Auth.r.io." } ∷ [], 200)
unfolding checker handle_head_image parse_registry_host_rules
asked = refl

handle_head_image-IsGuarded_example :
    IsGuarded libraries rules
      (trim_space (text " r.io/app "))
      (handle_head_image libraries (some checker) (text " r.io/app ")).0
unfolding parse_registry_host_rules checker
handle_head_image-IsGuarded_example =
    handle_head_image-IsGuarded libraries checker rules (text " r.io/app ") refl
