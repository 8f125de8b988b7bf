-- ===== src/Policy/Egress.antt =====
-- capsule-cli/src/policy/mod.rs.
pub mod Rules
pub mod Allowed
use nova_enclave_capsule.Prelude.{Bool, not, ◌&&◌, Option, none, some, List, [], ◌∷◌}
use nova_enclave_capsule.Prelude.Text.{Text, strip_prefix, strip_suffix}
use nova_enclave_capsule.Manifest.{Egress}
use nova_enclave_capsule.Policy.DomainFilter
use nova_enclave_capsule.Policy.DomainFilter.{DomainFilter}
use nova_enclave_capsule.Policy.IpFilter
use nova_enclave_capsule.Policy.IpFilter.{IpFilter, Net}

abbrev or_self : Text → Option Text → Text
or_self s none = s
or_self s (some t) = t

-- An IPv6 address comes in brackets.
unfoldable pub strip_brackets : Text → Text
unfolding strip_prefix strip_suffix
strip_brackets host =
    let inner = or_self host (strip_prefix (b'[' ∷ []) host) in
    or_self inner (strip_suffix b']' inner)

module _ (net : Net) where
  pub record EgressPolicy : Type 0 where
    pub domain_allow : DomainFilter
    pub domain_deny : DomainFilter
    pub ip_allow : IpFilter net
    pub ip_deny : IpFilter net

  -- The loop of `load_filters`: what is no network is a domain pattern.
  unfoldable pub load_from : DomainFilter → IpFilter net → List Text → DomainFilter × IpFilter net
  load_from domains ips [] = (domains, ips)
  load_from domains ips (pattern ∷ spec) = elim (IpFilter.add net ips pattern) [
    | none ↦ load_from (DomainFilter.add domains pattern) ips spec
    | some more ↦ load_from domains more spec
  ]

  unfoldable pub load_filters : Option (List Text) → DomainFilter × IpFilter net
  unfolding load_from
  load_filters none = (DomainFilter.new_filter, IpFilter.new_filter net)
  load_filters (some spec) = load_from DomainFilter.new_filter (IpFilter.new_filter net) spec

  -- `EgressPolicy::new`
  unfoldable pub new_policy : Egress → EgressPolicy
  new_policy spec =
      let (domain_allow, ip_allow) = load_filters spec.allow in
      let (domain_deny, ip_deny) = load_filters spec.deny in
      record {
        domain_allow = domain_allow;
        domain_deny = domain_deny;
        ip_allow = ip_allow;
        ip_deny = ip_deny;
      }

  -- `none` is the panic of `IpFilter::allow_all`.
  unfoldable pub allow_all : Option EgressPolicy
  allow_all = elim (IpFilter.allow_all net) [
    | none ↦ none
    | some ips ↦ some (record {
      domain_allow = DomainFilter.allow_all;
      domain_deny = DomainFilter.new_filter;
      ip_allow = ips;
      ip_deny = IpFilter.new_filter net;
    })
  ]

  unfoldable pub is_host_allowed : EgressPolicy → Text → Bool
  is_host_allowed policy host =
      let inner = strip_brackets host in
      elim (net.parse_addr inner) [
        | some addr ↦
            IpFilter.matches net policy.ip_allow addr
            && not (IpFilter.matches net policy.ip_deny addr)
        | none ↦
            DomainFilter.matches policy.domain_allow inner
            && not (DomainFilter.matches policy.domain_deny inner)
      ]
