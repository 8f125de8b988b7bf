-- ===== src/Kms/Address.antt =====
-- Wallets, URLs and error texts in capsule-cli/src/integrations/nova_kms.rs.
use nova_enclave_capsule.Prelude.{
  ℕ, Bool, true, false, not, ◌&&◌, ◌||◌, Option, none, some, List, [], ◌∷◌, ◌++◌, Result, ok, ◌>>=◌,
  ◌>>◌, fail_if, ok_or, map_err, ◌-◌, ◌==◌, nat_eq, list_eq, any, if◌then◌else◌, ltb, leb,
}
use nova_enclave_capsule.Prelude.Text.{
  Text, codes, is_empty, trim, to_ascii_lowercase, strip_prefix, utf8_len, utf8_width,
  trim_start_pairs, starts_with, contains,
}
use nova_enclave_capsule.Kms.Outside.{Outside, Bytes, Client, default_client, local_client}

-- `trim_0x`
unfoldable pub trim_0x : Text → Text
unfolding trim_start_pairs
trim_0x value = trim_start_pairs b'0' b'X' (trim_start_pairs b'0' b'x' value)

abbrev pub invalid_wallet : Text → Text
invalid_wallet wallet = codes "invalid wallet address format: " ++ wallet

-- The forty characters behind `0x`, or of the whole text.
unfoldable pub wallet_body : Text → Option Text
wallet_body value = elim (strip_prefix (codes "0x") value) [
  | some stripped ↦ if utf8_len stripped == 40 then some stripped else none
  | none ↦ if utf8_len value == 40 then some value else none
]

-- `while normalized.ends_with('/') { normalized.pop(); }`
unfoldable pub drop_slashes : Text → Text
drop_slashes [] = []
drop_slashes (c ∷ s) =
    let rest = drop_slashes s in if is_empty rest && c == b'/' then [] else c ∷ rest

unfoldable pub with_scheme : Text → Text
unfolding starts_with
with_scheme url =
    if starts_with url (codes "http://") || starts_with url (codes "https://")
    then url
    else codes "https://" ++ url

-- `trim_start_matches` and `trim_end_matches` of a character.
unfoldable pub trim_start_char : ℕ → Text → Text
trim_start_char p [] = []
trim_start_char p (c ∷ s) = let rest = trim_start_char p s in if c == p then rest else c ∷ s

unfoldable pub trim_end_char : ℕ → Text → Text
trim_end_char p [] = []
trim_end_char p (c ∷ s) =
    let rest = trim_end_char p s in if is_empty rest && c == p then [] else c ∷ rest

unfoldable pub lower_contains_any : Text → List Text → Bool
unfolding to_ascii_lowercase contains
lower_contains_any message markers =
    any (λ marker. contains (to_ascii_lowercase message) marker) markers

abbrev pub connectivity_markers : List Text
connectivity_markers =
    codes "error sending request for url"
    ∷ codes "connection refused"
    ∷ codes "connection reset"
    ∷ codes "timed out"
    ∷ codes "timeout"
    ∷ codes "dns error"
    ∷ codes "tcp connect"
    ∷ codes "channel closed"
    ∷ codes "broken pipe"
    ∷ codes "network is unreachable"
    ∷ []

unfoldable pub looks_like_connectivity_error : Text → Bool
unfolding lower_contains_any
looks_like_connectivity_error message = lower_contains_any message connectivity_markers

unfoldable pub looks_like_kms_not_found_error : Text → Bool
unfolding lower_contains_any
looks_like_kms_not_found_error message =
    lower_contains_any message (codes "kms http 404" ∷ codes "key not found" ∷ [])

unfoldable pub looks_like_transient_registry_error : Text → Bool
unfolding lower_contains_any looks_like_connectivity_error
looks_like_transient_registry_error message =
    looks_like_connectivity_error message || lower_contains_any message (codes "out of sync" ∷ [])

unfoldable pub looks_like_registry_not_ready_error : Text → Bool
unfolding lower_contains_any
looks_like_registry_not_ready_error message = lower_contains_any message (
    codes "is not zk-verified on registry"
    ∷ codes "is not active on registry"
    ∷ codes "registry discovery returned no active kms nodes"
    ∷ [])

unfoldable pub looks_like_registry_rpc_unavailable_error : Text → Bool
unfolding lower_contains_any
looks_like_registry_rpc_unavailable_error message = lower_contains_any message (
    codes "registry discovery failed"
    ∷ codes "registry eth_call http 5"
    ∷ codes "registry eth_call failed: upstream temporarily unavailable"
    ∷ [])

abbrev pub in_front : ℕ → Option Text → Option Text
in_front c none = none
in_front c (some t) = some (c ∷ t)

-- The text up to a number of bytes, if that is the end of a character.
unfoldable pub take_bytes : ℕ → Text → Option Text
take_bytes budget [] = if budget == 0 then some [] else none
take_bytes budget (c ∷ s) =
    let rest = take_bytes (budget - utf8_width c) s in
    if ltb budget (utf8_width c) then (if budget == 0 then some [] else none) else in_front c rest

-- `none` is the panic of a slice that ends inside a character.
unfoldable pub truncate_for_log : Text → ℕ → Option Text
unfolding take_bytes
truncate_for_log value max_len =
    if leb (utf8_len value) max_len then some value else elim (take_bytes max_len value) [
      | none ↦ none
      | some t ↦ some (t ++ codes "...(truncated)")
    ]

module _ (out : Outside) where
  unfoldable pub canonical_wallet : Text → Result Text Text
  unfolding wallet_body
  canonical_wallet wallet = do
    body ← ok_or (wallet_body (out.to_lowercase (trim wallet))) (invalid_wallet wallet)
    _ ← map_err (λ e. invalid_wallet wallet) (out.hex_decode body)
    ok (codes "0x" ++ body)

  -- The 20 bytes of an address.
  unfoldable pub parse_h160 : Text → Result Text Bytes
  unfolding trim_0x
  parse_h160 address = do
    fail_if (not (utf8_len (trim_0x address) == 40)) (codes "invalid address length: " ++ address)
    map_err (λ e. codes "invalid address hex: " ++ e) (out.hex_decode (trim_0x address))

  abbrev has_host : Option (Option Text) → Bool
  has_host (some (some host)) = true
  has_host url = false

  unfoldable pub normalize_base_url : Text → Option Text
  unfolding drop_slashes with_scheme
  normalize_base_url value =
      if is_empty (trim value)
      then none
      else if is_empty (drop_slashes (with_scheme (trim value)))
      then none
      else if has_host (out.parse_url (drop_slashes (with_scheme (trim value))))
      then some (drop_slashes (with_scheme (trim value)))
      else none

  abbrev ipv6_host : Option Bool → Bool
  ipv6_host none = false
  ipv6_host (some loopback) = loopback

  abbrev address_host : Option Bool → Option Bool → Bool
  address_host (some loopback) ipv6 = loopback
  address_host none ipv6 = ipv6_host ipv6

  unfoldable pub host_is_loopback : Text → Bool
  host_is_loopback host =
      to_ascii_lowercase host == codes "localhost"
      || host == codes "::1"
      || address_host (out.ipv4_is_loopback host) (out.ipv6_is_loopback host)

  abbrev url_is_loopback : Option (Option Text) → Bool
  unfolding host_is_loopback trim_start_char trim_end_char
  url_is_loopback (some (some raw_host)) =
      host_is_loopback (trim_end_char b']' (trim_start_char b'[' raw_host))
  url_is_loopback url = false

  unfoldable pub is_loopback_url : Text → Bool
  unfolding url_is_loopback
  is_loopback_url url = url_is_loopback (out.parse_url url)

  unfoldable pub http_client_for_url : Text → Client
  unfolding is_loopback_url
  http_client_for_url url = if is_loopback_url url then local_client else default_client
