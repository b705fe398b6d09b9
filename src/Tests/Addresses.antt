-- ===== src/Tests/Addresses.antt =====
-- Reading the list of BuildKit addresses: internal/builddaemon/scheduler.go.
use buildkit_service.Prelude.{
  ◌≡◌, refl, ◌&&◌, Option, none, some, List, [], ◌∷◌, ◌++◌, Text, text, split, leb, if◌then◌else◌,
  ok, text_ltb,
}
use buildkit_service.Daemon.Pool.{BuildkitAddr}
use buildkit_service.Daemon.Addresses.{Net, parse_buildkit_addrs}

pair_of : List Text → Option (Text × Text)
pair_of (host ∷ port ∷ []) = some (host, port)
pair_of _ = none

ip_of : Text → Option Text
ip_of [] = none
ip_of (c ∷ s) = if leb 48 c && leb c 57 then some (c ∷ s) else none

-- Names that begin with a digit are addresses; every other name has one.
one_host : Net
unfolding split pair_of ip_of
one_host = record {
  split_host_port = λ s. pair_of (split 58 s);
  parse_ip = ip_of;
  lookup_host = λ host. some (text "10.0.0.9" ∷ []);
  join_host_port = λ ip port. ip ++ 58 ∷ port;
}

abbrev listed : List BuildkitAddr
listed =
    record {
      original = text "10.0.0.1:2";
      addr = text "tcp://10.0.0.1:2";
      node_ip = text "10.0.0.1";
    }
    ∷ record { original = text "w1:1"; addr = text "tcp://10.0.0.9:1"; node_ip = text "10.0.0.9" }
    ∷ []

parsed : parse_buildkit_addrs one_host (text "w1:1, 10.0.0.1:2") ≡ ok listed
unfolding one_host parse_buildkit_addrs text_ltb
parsed = refl
