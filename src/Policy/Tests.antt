-- ===== src/Policy/Tests.antt =====
-- The cases of the source's own tests, and the theorems at concrete policies.
use nova_enclave_capsule.Prelude.{
  Bool, true, false, Option, none, some, [], ◌∷◌, ◌≡◌, refl, ◌↔◌, all, Any, not, ◌==◌, list_eq,
  nat_eq, if◌then◌else◌,
}
use nova_enclave_capsule.Prelude.Text.{Text, codes}
use nova_enclave_capsule.Manifest.{Egress}
use nova_enclave_capsule.Policy.DomainFilter
use nova_enclave_capsule.Policy.IpFilter
use nova_enclave_capsule.Policy.DomainFilter.{new_pattern, new_domain, pattern_matches}
use nova_enclave_capsule.Policy.DomainFilter.Matching.{Covers}
use nova_enclave_capsule.Policy.DomainFilter.Reading.{
  pattern_parts, host_labels, pattern_matches_iff,
}
use nova_enclave_capsule.Policy.IpFilter.{Net}
use nova_enclave_capsule.Policy.Egress.{new_policy, load_filters, is_host_allowed, strip_brackets}
use nova_enclave_capsule.Policy.Egress.Rules.{AddrRule, DomainRule}
use nova_enclave_capsule.Policy.Egress.Allowed.{
  listed, addr_allowed_iff, domain_allowed_iff, AnyNetworks,
}

abbrev covers : Text → Text → Bool
covers pat host = pattern_matches (new_pattern pat) (new_domain host)

positives :
    all
      (covers (codes "**.amazonaws.com"))
      (codes "kms.us-east-1.amazonaws.com" ∷ codes "S3.amazonaws.com" ∷ [])
    ≡ true
unfolding pattern_matches new_pattern new_domain
positives = refl

negatives :
    all
      (λ host. not (covers (codes "foo.*.com") host))
      (codes "example.net" ∷ [] ∷ codes "foo.bar.example.com" ∷ codes ".com" ∷ [])
    ≡ true
unfolding pattern_matches new_pattern new_domain
negatives = refl

-- Two addresses, and the networks of one and of both.
abbrev tiny_net : Net
tiny_net = record {
  IpAddr = Bool;
  IpNetwork = Option Bool;
  parse_addr = λ t.
      if t == codes "1.1.1.1" then some true else if t == codes "::1" then some false else none;
  parse_network = λ t.
      if t == codes "1.1.1.1"
      then some (some true)
      else if t == codes "0.0.0.0/0"
      then some none
      else if t == codes "::/0"
      then some none
      else none;
  network_contains = λ n a. holds n a;
}
  where
    holds : Option Bool → Bool → Bool
    holds none a = true
    holds (some true) a = a
    holds (some false) a = not a

abbrev sample_spec : Egress
sample_spec = record {
  proxy_port = none;
  allow = some (codes "**" ∷ codes "1.1.1.1" ∷ []);
  deny = some (codes "*.evil.com" ∷ []);
}

policy : Unit {0}
unfolding is_host_allowed new_policy load_filters strip_brackets DomainFilter.matches
    DomainFilter.add DomainFilter.new_filter pattern_matches new_pattern new_domain IpFilter.add
    IpFilter.matches IpFilter.new_filter
policy = tt

policy_tests :
    (is_host_allowed tiny_net (new_policy tiny_net sample_spec) (codes "a.example.com") ≡ true)
    × (is_host_allowed tiny_net (new_policy tiny_net sample_spec) (codes "a.EVIL.com") ≡ false)
    × (is_host_allowed tiny_net (new_policy tiny_net sample_spec) (codes "1.1.1.1") ≡ true)
    × (is_host_allowed tiny_net (new_policy tiny_net sample_spec) (codes "[::1]") ≡ false)
unfolding policy
policy_tests = (refl, refl, refl, refl)

pattern_matches_iff_example :
    (covers (codes "**.amazonaws.com") (codes "s3.amazonaws.com") ≡ true)
    ↔ Covers (pattern_parts (codes "**.amazonaws.com")) (host_labels (codes "s3.amazonaws.com"))
pattern_matches_iff_example =
    pattern_matches_iff (codes "**.amazonaws.com") (codes "s3.amazonaws.com")

addr_allowed_iff_example :
    (is_host_allowed tiny_net (new_policy tiny_net sample_spec) (codes "[::1]") ≡ true) ↔ (
      Any (AddrRule tiny_net false) (listed sample_spec.allow)
      × ¬ Any (AddrRule tiny_net false) (listed sample_spec.deny))
unfolding strip_brackets
addr_allowed_iff_example = addr_allowed_iff tiny_net sample_spec (codes "[::1]") refl

domain_allowed_iff_example :
    (is_host_allowed tiny_net (new_policy tiny_net sample_spec) (codes "a.b") ≡ true) ↔ (
      Any (DomainRule tiny_net (strip_brackets (codes "a.b"))) (listed sample_spec.allow)
      × ¬ Any (DomainRule tiny_net (strip_brackets (codes "a.b"))) (listed sample_spec.deny))
unfolding strip_brackets
domain_allowed_iff_example = domain_allowed_iff tiny_net sample_spec (codes "a.b") refl

abbrev tiny_networks : AnyNetworks tiny_net
tiny_networks = record {
  any4 = none;
  any6 = none;
  parse_any4 = refl;
  parse_any6 = refl;
  covers = λ addr. refl;
}
