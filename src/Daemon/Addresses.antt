-- ===== src/Daemon/Addresses.antt =====
-- internal/builddaemon/scheduler.go: parseBuildkitAddrs, with package net as a parameter.
pub mod Listing
use buildkit_service.Prelude.{
  ℕ, Bool, true, false, not, Option, none, some, List, [], ◌∷◌, ◌++◌, Text, text, text_eq, text_ltb,
  trim_space, trim_prefix, has_part, split, sort_by, if◌then◌else◌, Result, ok, err,
}
use buildkit_service.Daemon.Pool.{BuildkitAddr}

-- net.SplitHostPort, net.ParseIP with String, net.LookupHost and net.JoinHostPort; `none` is an
-- error, or a nil IP.
pub record Net : Type 0 where
  pub split_host_port : Text → Option (Text × Text)
  pub parse_ip : Text → Option Text
  pub lookup_host : Text → Option (List Text)
  pub join_host_port : Text → Text → Text

abbrev pub ip_or_empty : Net → Option (Text × Text) → Text
ip_or_empty net none = []
ip_or_empty net (some (host, port)) = elim (net.parse_ip host) [ none ↦ [] | some ip ↦ ip ]

unfoldable pub node_ip_from_buildkit_addr : Net → Text → Text
unfolding trim_prefix trim_space
node_ip_from_buildkit_addr net addr =
    ip_or_empty net (net.split_host_port (trim_prefix (text "tcp://") (trim_space addr)))

unfoldable pub resolved_addrs : Net → Text → Text → List Text → List BuildkitAddr
resolved_addrs net part port [] = []
resolved_addrs net part port (ip ∷ ips) =
    record { original = part; addr = text "tcp://" ++ net.join_host_port ip port; node_ip = ip }
    ∷ resolved_addrs net part port ips

abbrev pub unresolved : Net → Text → Text → List BuildkitAddr
unresolved net part addr =
    record { original = part; addr = addr; node_ip = node_ip_from_buildkit_addr net addr } ∷ []

abbrev pub of_lookup : Net → Text → Text → Text → Option (List Text) → List BuildkitAddr
of_lookup net part addr port none = unresolved net part addr
of_lookup net part addr port (some ips) = resolved_addrs net part port ips

abbrev pub of_ip : Net → Text → Text → Text → Text → Option Text → List BuildkitAddr
of_ip net part addr host port (some ip) = record { original = part; addr = addr; node_ip = ip } ∷ []
of_ip net part addr host port none = of_lookup net part addr port (net.lookup_host host)

abbrev pub of_host_port : Net → Text → Text → Option (Text × Text) → List BuildkitAddr
of_host_port net part addr none = unresolved net part addr
of_host_port net part addr (some (host, port)) = of_ip net part addr host port (net.parse_ip host)

-- The body of the loop, for a part that is not blank.
unfoldable pub addrs_of_part : Net → Text → List BuildkitAddr
unfolding has_part trim_prefix resolved_addrs node_ip_from_buildkit_addr
addrs_of_part net part =
    let addr = if has_part (text "://") part then part else text "tcp://" ++ part in
    of_host_port net part addr (net.split_host_port (trim_prefix (text "tcp://") addr))

unfoldable pub addrs_of_parts : Net → List Text → List BuildkitAddr
unfolding trim_space text_eq addrs_of_part
addrs_of_parts net [] = []
addrs_of_parts net (part ∷ parts) =
    let rest = addrs_of_parts net parts in
    if text_eq (trim_space part) [] then rest else addrs_of_part net (trim_space part) ++ rest

abbrev pub addr_before : BuildkitAddr → BuildkitAddr → Bool
addr_before a b = text_ltb a.addr b.addr

abbrev pub sorted_addrs : List BuildkitAddr → Result Text (List BuildkitAddr)
sorted_addrs [] = err (text "no valid buildkitd addresses")
sorted_addrs (a ∷ addrs) = ok (sort_by addr_before (a ∷ addrs))

unfoldable pub parse_buildkit_addrs : Net → Text → Result Text (List BuildkitAddr)
unfolding trim_space text_eq split addrs_of_parts sort_by
parse_buildkit_addrs net raw =
    if text_eq (trim_space raw) []
    then err (text "--buildkitd-addr is required")
    else sorted_addrs (addrs_of_parts net (split 44 raw))
