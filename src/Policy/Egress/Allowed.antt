-- ===== src/Policy/Egress/Allowed.antt =====
-- Which hosts the policy of capsule-cli/src/policy/mod.rs allows.
use mathlib.Core.List.{map}
use nova_enclave_capsule.Prelude.{
  Bool, true, false, not, ◌&&◌, ◌||◌, Option, none, some, List, [], ◌∷◌, ◌≡◌, ◌≢◌, refl, ◌↔◌, arith,
  any, Any, any_sound, any_complete, inl, inr, append-nil, sym, Option-cases,
}
use nova_enclave_capsule.Prelude.Text.{Text, codes, split, to_ascii_lowercase}
use nova_enclave_capsule.Manifest.{Egress}
use nova_enclave_capsule.Policy.DomainFilter
use nova_enclave_capsule.Policy.DomainFilter.{
  DomainFilter, superwild, new_part, pattern_matches, new_pattern, new_domain,
}
use nova_enclave_capsule.Policy.DomainFilter.Reading.{host_labels, pattern_matches_iff}
use nova_enclave_capsule.Policy.IpFilter
use nova_enclave_capsule.Policy.IpFilter.{IpFilter, Net}
use nova_enclave_capsule.Policy.Egress.{
  EgressPolicy, load_filters, new_policy, allow_all, is_host_allowed, strip_brackets,
}
use nova_enclave_capsule.Policy.Egress.Rules.{
  AddrRule, DomainRule, addr_rule, domain_rule, addr_rule_iff, domain_rule_iff,
  matches-load_from_ip, matches-load_from_domain,
}

and-not_iff : (a b : Bool) → ((a && not b) ≡ true) ↔ ((a ≡ true) × ¬ (b ≡ true))
and-not_iff true true = (λ e. absurd (cc), λ (e, n). absurd (n refl))
and-not_iff true false = (λ e. (refl, λ f. cc), λ e. refl)
and-not_iff false b = (λ e. absurd (cc), λ (e, n). absurd (cc))

-- The rules of an optional list; a missing list has none.
abbrev pub listed : Option (List Text) → List Text
listed none = []
listed (some rules) = rules

any_iff :
    (p : Text → Bool) (P : Text → Type 0)
    → ((rule : Text) → (p rule ≡ true) ↔ P rule)
    → (rules : List Text) → (any p rules ≡ true) ↔ Any P rules
any_iff p P f rules = (any_sound p P (λ r. (f r).0) rules, any_complete p P (λ r. (f r).1) rules)

gate_iff :
    (p : Text → Bool) (P : Text → Type 0)
    → ((rule : Text) → (p rule ≡ true) ↔ P rule)
    → (allow deny : List Text)
    → ((any p allow && not (any p deny)) ≡ true) ↔ (Any P allow × ¬ Any P deny)
gate_iff p P f allow deny =
    let (to, from) = and-not_iff (any p allow) (any p deny) in
    let (a, a') = any_iff p P f allow in
    let (d, d') = any_iff p P f deny in
    (λ h. (a (to h).0, λ x. (to h).1 (d' x)), λ (x, n). from (a' x, λ e. n (d e)))

module _ (net : Net) where
  matches-load_filters_ip :
      (addr : net.IpAddr) (rules : Option (List Text))
      → IpFilter.matches net (load_filters net rules).1 addr
        ≡ any (addr_rule net addr) (listed rules)
  unfolding load_filters IpFilter.new_filter
  matches-load_filters_ip addr none = unfold IpFilter.matches in refl
  matches-load_filters_ip addr (some rules) =
      rw matches-load_from_ip (unfold IpFilter.matches in refl)

  matches-load_filters_domain :
      (host : Text) (rules : Option (List Text))
      → DomainFilter.matches (load_filters net rules).0 host
        ≡ any (domain_rule net host) (listed rules)
  unfolding load_filters DomainFilter.new_filter
  matches-load_filters_domain host none = unfold DomainFilter.matches in refl
  matches-load_filters_domain host (some rules) =
      rw matches-load_from_domain (unfold DomainFilter.matches in refl)

  -- A host that is written as an address is allowed exactly if some allow rule is a network that
  -- contains the address and no deny rule is one: domain patterns play no part.
  pub addr_allowed_iff :
      (spec : Egress) (host : Text) {addr : net.IpAddr}
      → net.parse_addr (strip_brackets host) ≡ some addr
      → (is_host_allowed net (new_policy net spec) host ≡ true) ↔ (
          Any (AddrRule net addr) (listed spec.allow)
          × ¬ Any (AddrRule net addr) (listed spec.deny))
  unfolding new_policy is_host_allowed
  addr_allowed_iff spec host {addr} e =
      rw
        (
          e,
          is_host_allowed,
          matches-load_filters_ip addr spec.allow,
          matches-load_filters_ip addr spec.deny,
        )
        (gate_iff (addr_rule net addr) (AddrRule net addr) (addr_rule_iff net addr)
          (listed spec.allow) (listed spec.deny))

  -- A host that is not written as an address is allowed exactly if some allow rule that is no network
  -- covers it and no such deny rule covers it.
  pub domain_allowed_iff :
      (spec : Egress) (host : Text)
      → net.parse_addr (strip_brackets host) ≡ none
      → (is_host_allowed net (new_policy net spec) host ≡ true) ↔ (
          Any (DomainRule net (strip_brackets host)) (listed spec.allow)
          × ¬ Any (DomainRule net (strip_brackets host)) (listed spec.deny))
  unfolding new_policy is_host_allowed
  domain_allowed_iff spec host e =
      let inner = strip_brackets host in
      rw
        (
          e,
          is_host_allowed,
          matches-load_filters_domain inner spec.allow,
          matches-load_filters_domain inner spec.deny,
        )
        (gate_iff (domain_rule net inner) (DomainRule net inner) (domain_rule_iff net inner)
          (listed spec.allow) (listed spec.deny))

-- What ipnetwork documents of the two networks that hold every address.
pub record AnyNetworks (net : Net) : Type 0 where
  pub any4 : net.IpNetwork
  pub any6 : net.IpNetwork
  pub parse_any4 : net.parse_network (codes "0.0.0.0/0") ≡ some any4
  pub parse_any6 : net.parse_network (codes "::/0") ≡ some any6
  pub covers :
      (addr : net.IpAddr)
      → (net.network_contains any4 addr || net.network_contains any6 addr) ≡ true

split-ne-nil : (s : Text) → split b'.' s ≢ []
unfolding split
split-ne-nil [] e = cc
split-ne-nil (c ∷ s) e = ground arith

map-ne-nil : (parts : List Text) → parts ≢ [] → map to_ascii_lowercase parts ≢ []
map-ne-nil [] n e = n refl
map-ne-nil (p ∷ ps) n e = cc

-- `**` alone matches every host that is a domain.
pub superwild-matches :
    (host : Text) → pattern_matches (new_pattern (codes "**")) (new_domain host) ≡ true
unfolding new_part split
superwild-matches host = (pattern_matches_iff (codes "**") host).1 (
    inr (record {
      ignored = [];
      tail = [];
      front = host_labels host;
      back = [];
      pattern_eq = refl;
      labels_eq = sym (append-nil (host_labels host));
      front_nonempty = map-ne-nil (split b'.' host) (split-ne-nil host);
      same = tt;
    }))

module _ (net : Net) (networks : AnyNetworks net) where
  abbrev open_policy : EgressPolicy net
  open_policy = record {
    domain_allow = DomainFilter.allow_all;
    domain_deny = DomainFilter.new_filter;
    ip_allow = record { patterns = networks.any4 ∷ networks.any6 ∷ [] };
    ip_deny = IpFilter.new_filter net;
  }

  open_policy-is_host_allowed : (host : Text) → is_host_allowed net open_policy host ≡ true
  unfolding is_host_allowed
  open_policy-is_host_allowed host = elim (Option-cases (net.parse_addr (strip_brackets host))) [
    | inl e ↦
        rw (e, is_host_allowed)
          (unfold DomainFilter.matches DomainFilter.allow_all DomainFilter.new_filter in
            rw superwild-matches)
    | inr (addr, e) ↦
        rw (e, is_host_allowed)
          (unfold IpFilter.matches IpFilter.new_filter in ground (arith, networks.covers addr))
  ]

  -- `EgressPolicy::allow_all` does not panic, and its policy allows every host, if the two networks
  -- that it names parse and hold every address between them.
  pub allow_all-is_host_allowed :
      (policy : EgressPolicy net) × (allow_all net ≡ some policy)
      × ((host : Text) → is_host_allowed net policy host ≡ true)
  unfolding allow_all IpFilter.allow_all
  allow_all-is_host_allowed = (
    open_policy,
    rw (networks.parse_any4, networks.parse_any6, allow_all, IpFilter.allow_all),
    open_policy-is_host_allowed,
  )
