-- ===== src/Policy/IpFilter.antt =====
-- capsule-cli/src/policy/ip_filter.rs. The crate ipnetwork and the reading of addresses are
-- parameters: no theorem depends on how an address is written.
use nova_enclave_capsule.Prelude.{Bool, Option, none, some, List, [], ◌∷◌, ◌++◌, any}
use nova_enclave_capsule.Prelude.Text.{Text, codes}

-- `std::net::IpAddr` and `ipnetwork::IpNetwork`, with the `FromStr` of both and
-- `IpNetwork::contains`.
pub record Net : Type 1 where
  pub IpAddr : Type 0
  pub IpNetwork : Type 0
  pub parse_addr : Text → Option IpAddr
  pub parse_network : Text → Option IpNetwork
  pub network_contains : IpNetwork → IpAddr → Bool

module _ (net : Net) where
  open net use {IpAddr, IpNetwork, parse_network, network_contains}

  pub record IpFilter : Type 0 where
    pub patterns : List IpNetwork

  -- `IpFilter::new`
  unfoldable pub new_filter : IpFilter
  new_filter = record { patterns = [] }

  -- The two `unwrap`s panic on `none`.
  unfoldable pub allow_all : Option IpFilter
  allow_all = elim (parse_network (codes "0.0.0.0/0")) [
    | none ↦ none
    | some any4 ↦ elim (parse_network (codes "::/0")) [
      | none ↦ none
      | some any6 ↦ some (record { patterns = any4 ∷ any6 ∷ [] })
    ]
  ]

  -- The filter with one more network, or `none` if the pattern is no network.
  unfoldable pub add : IpFilter → Text → Option IpFilter
  add filter pattern = elim (parse_network pattern) [
    | none ↦ none
    | some network ↦ some (record { patterns = filter.patterns ++ network ∷ [] })
  ]

  unfoldable pub matches : IpFilter → IpAddr → Bool
  matches filter addr = any (λ p. network_contains p addr) filter.patterns
