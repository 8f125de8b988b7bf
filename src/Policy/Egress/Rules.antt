-- ===== src/Policy/Egress/Rules.antt =====
-- The policy of capsule-cli/src/policy/mod.rs, stated over the rules that the manifest lists.
use nova_enclave_capsule.Prelude.{
  Bool, true, false, ◌||◌, none, some, List, [], ◌∷◌, ◌++◌, ◌≡◌, refl, ◌↔◌, arith, any, any-append,
  Option-cases, inl, inr,
}
use nova_enclave_capsule.Prelude.Text.{Text}
use nova_enclave_capsule.Policy.DomainFilter
use nova_enclave_capsule.Policy.DomainFilter.{
  DomainFilter, pattern_matches, new_pattern, new_domain,
}
use nova_enclave_capsule.Policy.DomainFilter.Matching.{Covers}
use nova_enclave_capsule.Policy.DomainFilter.Reading.{
  pattern_parts, host_labels, pattern_matches_iff,
}
use nova_enclave_capsule.Policy.IpFilter
use nova_enclave_capsule.Policy.IpFilter.{IpFilter, Net}
use nova_enclave_capsule.Policy.Egress.{load_from}

module _ (net : Net) where
  -- A rule that is a network, and contains the address.
  abbrev pub AddrRule : net.IpAddr → Text → Type 0
  AddrRule addr rule =
      (n : net.IpNetwork) × (net.parse_network rule ≡ some n) × (net.network_contains n addr ≡ true)

  -- A rule that is no network, and covers the host.
  abbrev pub DomainRule : Text → Text → Type 0
  DomainRule host rule =
      (net.parse_network rule ≡ none) × Covers (pattern_parts rule) (host_labels host)

  pub addr_rule : net.IpAddr → Text → Bool
  addr_rule addr rule = elim (net.parse_network rule) [
    | none ↦ false
    | some n ↦ net.network_contains n addr
  ]

  pub domain_rule : Text → Text → Bool
  domain_rule host rule = elim (net.parse_network rule) [
    | none ↦ pattern_matches (new_pattern rule) (new_domain host)
    | some n ↦ false
  ]

  load_from_domain :
      (domains : DomainFilter) (ips : IpFilter net) (rule : Text) (spec : List Text)
      → net.parse_network rule ≡ none
      → load_from net domains ips (rule ∷ spec)
        ≡ load_from net (DomainFilter.add domains rule) ips spec
  unfolding load_from IpFilter.add
  load_from_domain domains ips rule spec e = rw (e, load_from)

  load_from_network :
      (domains : DomainFilter) (ips : IpFilter net) (rule : Text) (spec : List Text)
      {n : net.IpNetwork}
      → net.parse_network rule ≡ some n
      → load_from net domains ips (rule ∷ spec)
        ≡ load_from net domains (record { patterns = ips.patterns ++ n ∷ [] }) spec
  unfolding load_from IpFilter.add
  load_from_network domains ips rule spec e = rw (e, load_from)

  pub matches-load_from_ip :
      (addr : net.IpAddr) (domains : DomainFilter) (ips : IpFilter net) (spec : List Text)
      → IpFilter.matches net (load_from net domains ips spec).1 addr
        ≡ (IpFilter.matches net ips addr || any (addr_rule addr) spec)
  unfolding IpFilter.matches addr_rule
  matches-load_from_ip addr domains ips [] = unfold load_from in ground arith
  matches-load_from_ip addr domains ips (rule ∷ spec) =
      elim (Option-cases (net.parse_network rule)) [
        | inl e ↦
            rw (load_from_domain domains ips rule spec e, e, addr_rule)
              (matches-load_from_ip addr (DomainFilter.add domains rule) ips spec)
        | inr (n, e) ↦
            let more : IpFilter net = record { patterns = ips.patterns ++ n ∷ [] } in
            rw (load_from_network domains ips rule spec e, e, addr_rule)
              (ground (
                arith,
                matches-load_from_ip addr domains more spec,
                any-append (λ p. net.network_contains p addr) ips.patterns (n ∷ []),
              ))
      ]

  pub matches-load_from_domain :
      (host : Text) (domains : DomainFilter) (ips : IpFilter net) (spec : List Text)
      → DomainFilter.matches (load_from net domains ips spec).0 host
        ≡ (DomainFilter.matches domains host || any (domain_rule host) spec)
  unfolding DomainFilter.matches DomainFilter.add domain_rule
  matches-load_from_domain host domains ips [] = unfold load_from in ground arith
  matches-load_from_domain host domains ips (rule ∷ spec) =
      elim (Option-cases (net.parse_network rule)) [
        | inl e ↦
            rw (load_from_domain domains ips rule spec e, e, domain_rule)
              (ground (
                arith,
                matches-load_from_domain host (DomainFilter.add domains rule) ips spec,
                any-append (λ p. pattern_matches p (new_domain host)) domains.patterns
                    (new_pattern rule ∷ []),
              ))
        | inr (n, e) ↦
            let more : IpFilter net = record { patterns = ips.patterns ++ n ∷ [] } in
            rw (load_from_network domains ips rule spec e, e, domain_rule)
              (matches-load_from_domain host domains more spec)
      ]

  pub addr_rule_iff :
      (addr : net.IpAddr) (rule : Text) → (addr_rule addr rule ≡ true) ↔ AddrRule addr rule
  unfolding addr_rule
  addr_rule_iff addr rule = elim (Option-cases (net.parse_network rule)) [
    | inl e ↦ rw (e, addr_rule) (λ h. absurd (cc), λ (n, p, q). absurd (cc))
    | inr (n, e) ↦
        rw (e, addr_rule) (λ h. (n, refl, h), λ (m, p, q). let same : n ≡ m = cc in rw same q)
  ]

  pub domain_rule_iff : (host rule : Text) → (domain_rule host rule ≡ true) ↔ DomainRule host rule
  unfolding domain_rule
  domain_rule_iff host rule = elim (Option-cases (net.parse_network rule)) [
    | inl e ↦
        let (to, from) = pattern_matches_iff rule host in
        rw (e, domain_rule) (λ h. (refl, to h), λ (p, c). from c)
    | inr (n, e) ↦ rw (e, domain_rule) (λ h. absurd (cc), λ (p, c). absurd (cc))
  ]
