-- ===== src/Daemon/Addresses/Listing.antt =====
-- internal/builddaemon/scheduler.go: what an accepted list of addresses is.
use buildkit_service.Prelude.{
  ◌<◌, ◌≡◌, refl, subst, Bool, true, false, Option, none, some, List, [], ◌∷◌, ◌++◌, Text, text,
  text_eq, trim_space, has_part, split, length, length-sort_by, All, All-append, IsSorted, sort_by,
  sort_by-IsSorted, All-sort_by, text_ltb_asymm, text_le_trans, if◌then◌else◌, ok, Bool-cases, inl,
  inr, arith, starts_with,
}
use buildkit_service.Daemon.Pool.{BuildkitAddr}
use buildkit_service.Daemon.Addresses.{
  Net, resolved_addrs, of_lookup, of_ip, of_host_port, addrs_of_part, addrs_of_parts, addr_before,
  sorted_addrs, parse_buildkit_addrs,
}

-- An address with a scheme.
abbrev pub HasScheme : BuildkitAddr → Type 0
HasScheme a = has_part (text "://") a.addr ≡ true

tcp_scheme : (s : Text) → has_part (text "://") (text "tcp://" ++ s) ≡ true
unfolding has_part starts_with
tcp_scheme s = refl

resolved_addrs-HasScheme :
    (net : Net) (part port : Text) (ips : List Text)
    → All HasScheme (resolved_addrs net part port ips)
unfolding resolved_addrs
resolved_addrs-HasScheme net part port [] = tt
resolved_addrs-HasScheme net part port (ip ∷ ips) =
    (tcp_scheme (net.join_host_port ip port), resolved_addrs-HasScheme net part port ips)

of_host_port-HasScheme :
    (net : Net) (part addr : Text) (o : Option (Text × Text))
    → has_part (text "://") addr ≡ true
    → All HasScheme (of_host_port net part addr o)
of_host_port-HasScheme net part addr none h = (h, tt)
of_host_port-HasScheme net part addr (some (host, port)) h = by_ip (net.parse_ip host)
  where
    by_lookup : (o : Option (List Text)) → All HasScheme (of_lookup net part addr port o)
    by_lookup none = (h, tt)
    by_lookup (some ips) = resolved_addrs-HasScheme net part port ips

    by_ip : (o : Option Text) → All HasScheme (of_ip net part addr host port o)
    by_ip none = by_lookup (net.lookup_host host)
    by_ip (some ip) = (h, tt)

addrs_of_part-HasScheme : (net : Net) (part : Text) → All HasScheme (addrs_of_part net part)
unfolding addrs_of_part
addrs_of_part-HasScheme net part =
    of_host_port-HasScheme net part
      (if has_part (text "://") part then part else text "tcp://" ++ part) _
      (schemed (has_part (text "://") part) refl)
  where
    schemed :
        (b : Bool)
        → has_part (text "://") part ≡ b
        → has_part (text "://") (if b then part else text "tcp://" ++ part) ≡ true
    schemed true e = e
    schemed false e = tcp_scheme part

addrs_of_parts-HasScheme :
    (net : Net) (parts : List Text) → All HasScheme (addrs_of_parts net parts)
unfolding addrs_of_parts
addrs_of_parts-HasScheme net [] = tt
addrs_of_parts-HasScheme net (part ∷ parts) = elim (Bool-cases (text_eq (trim_space part) [])) [
  | inl e ↦ rw e (addrs_of_parts-HasScheme net parts)
  | inr e ↦ rw e (
      All-append HasScheme (addrs_of_part net (trim_space part)) (addrs_of_parts net parts)
        (addrs_of_part-HasScheme net (trim_space part), addrs_of_parts-HasScheme net parts))
]

-- An accepted list of addresses is not empty and sorted, and every address in it has a scheme,
-- whatever the resolver answers.
pub parse_buildkit_addrs_lem :
    (net : Net) (raw : Text) (addrs : List BuildkitAddr)
    → parse_buildkit_addrs net raw ≡ ok addrs
    → (0 < length addrs) × IsSorted addr_before addrs × All HasScheme addrs
unfolding parse_buildkit_addrs
parse_buildkit_addrs_lem net raw addrs h = elim (Bool-cases (text_eq (trim_space raw) [])) [
  | inl e ↦ cc (rw e at h)
  | inr e ↦
      by_addrs (addrs_of_parts net (split 44 raw)) (addrs_of_parts-HasScheme net (split 44 raw))
        (rw e at h)
]
  where
    by_addrs :
        (l : List BuildkitAddr)
        → All HasScheme l
        → sorted_addrs l ≡ ok addrs
        → (0 < length addrs) × IsSorted addr_before addrs × All HasScheme addrs
    by_addrs [] s p = cc
    by_addrs (a ∷ l) s p =
        let same : sort_by addr_before (a ∷ l) ≡ addrs = cc in
        subst (λ m. (0 < length m) × IsSorted addr_before m × All HasScheme m) same
          (
            omega (arith, length-sort_by addr_before (a ∷ l)),
            sort_by-IsSorted addr_before (λ x y. text_ltb_asymm x.addr y.addr)
                (λ x y z. text_le_trans x.addr y.addr z.addr) (a ∷ l),
            All-sort_by addr_before HasScheme (a ∷ l) s,
          )
