-- ===== src/Manifest/Kms.antt =====
-- The check of the KMS integration in capsule-cli/src/manifest.rs. `hex::decode` is a parameter.
pub mod Prefixes
pub mod Accepted
use nova_enclave_capsule.Prelude.{
  ℕ, Bool, true, false, not, ◌&&◌, ◌||◌, Option, none, some, List, Result, ok, ◌>>=◌, ◌>>◌, fail_if,
  ok_or, ◌≡◌, ◌≢◌, ◌↔◌, ◌⊎◌, inl, inr, arith, ◌==◌, nat_eq, list_eq, if◌then◌else◌, Bool-cases,
  Option-cases,
}
use nova_enclave_capsule.Prelude.Text.{
  trim_start_pairs, Text, codes, is_empty, trim, strip_prefix, utf8_len,
}
use nova_enclave_capsule.Manifest.{
  KmsIntegration, ManifestError, wallet_without_kms, registry_required, registry_incomplete,
  app_id_required, app_id_zero, registry_address_required, registry_address_shape,
}

abbrev pub is_some {ℓ} : {A : Type ℓ} → Option A → Bool
is_some none = false
is_some (some a) = true

-- `as_deref().map(str::trim).filter(|v| !v.is_empty())`
unfoldable pub trimmed : Option Text → Option Text
trimmed none = none
trimmed (some text) = if is_empty (trim text) then none else some (trim text)

unfoldable pub has_any_registry_field : KmsIntegration → Bool
unfolding trimmed
has_any_registry_field kms = is_some kms.kms_app_id || is_some (trimmed kms.nova_app_registry)

unfoldable pub registry_discovery_configured : KmsIntegration → Bool
unfolding trimmed
registry_discovery_configured kms =
    is_some kms.kms_app_id && is_some (trimmed kms.nova_app_registry)

-- `starts_with`
unfoldable pub starts_with_text : Text → Text → Bool
unfolding strip_prefix
starts_with_text text front = is_some (strip_prefix front text)

unfoldable pub registry_hex : Text → Text
unfolding trim_start_pairs
registry_hex registry = trim_start_pairs b'0' b'X' (trim_start_pairs b'0' b'x' registry)

unfoldable pub has_address_shape : Text → Bool
unfolding starts_with_text
has_address_shape registry =
    (starts_with_text registry (codes "0x") || starts_with_text registry (codes "0X"))
    && utf8_len registry == 42

module _ (hex_decode : Text → Option (List ℕ)) where
  unfoldable pub validate_registry_fields : KmsIntegration → Result ManifestError (Unit {0})
  unfolding trimmed has_address_shape registry_hex
  validate_registry_fields kms = do
    kms_app_id ← ok_or kms.kms_app_id app_id_required
    fail_if (kms_app_id == 0) app_id_zero
    registry ← ok_or (trimmed kms.nova_app_registry) registry_address_required
    fail_if (not (has_address_shape registry)) registry_address_shape
    fail_if (not (is_some (hex_decode (registry_hex registry)))) registry_address_shape

  abbrev when : Bool → Result ManifestError (Unit {0}) → Result ManifestError (Unit {0})
  when true m = m
  when false m = ok tt

  unfoldable pub validate_enabled : KmsIntegration → Result ManifestError (Unit {0})
  unfolding has_any_registry_field registry_discovery_configured validate_registry_fields
  validate_enabled kms = do
    fail_if (not kms.use_app_wallet && not (has_any_registry_field kms)) registry_required
    fail_if (has_any_registry_field kms && not (registry_discovery_configured kms))
        registry_incomplete
    when (registry_discovery_configured kms) (validate_registry_fields kms)

  unfoldable pub validate_kms : KmsIntegration → Result ManifestError (Unit {0})
  unfolding validate_enabled
  validate_kms kms = do
    fail_if (kms.use_app_wallet && not kms.enabled) wallet_without_kms
    when kms.enabled (validate_enabled kms)

  -- A registry that passes the checks of its text.
  abbrev pub NamesRegistry : KmsIntegration → Type 0
  NamesRegistry kms =
      (id : ℕ) × (registry : Text) × (bytes : List ℕ) × (kms.kms_app_id ≡ some id)
      × (id ≢ 0)
      × (trimmed kms.nova_app_registry ≡ some registry)
      × (has_address_shape registry ≡ true)
      × (hex_decode (registry_hex registry) ≡ some bytes)

  -- No registry is named.
  abbrev pub HasNoRegistry : KmsIntegration → Type 0
  HasNoRegistry kms = (kms.kms_app_id ≡ none) × (trimmed kms.nova_app_registry ≡ none)

  pub validate_kms_complete :
      (kms : KmsIntegration)
      → ((kms.enabled ≡ false) × (kms.use_app_wallet ≡ false))
        ⊎ ((kms.enabled ≡ true)
            × (NamesRegistry kms ⊎ ((kms.use_app_wallet ≡ true) × HasNoRegistry kms)))
      → validate_kms kms ≡ ok tt
  unfolding validate_kms validate_enabled validate_registry_fields has_any_registry_field
      registry_discovery_configured
  validate_kms_complete kms (inl (off, unused)) = ground arith
  validate_kms_complete kms
        (inr (on, inl (id, registry, bytes, with_id, nonzero, named, shape, decoded))) =
      ground arith
  validate_kms_complete kms (inr (on, inr (wallet, (no_id, no_registry)))) = ground arith

  pub validate_kms_sound :
      (kms : KmsIntegration)
      → validate_kms kms ≡ ok tt
      → ((kms.enabled ≡ false) × (kms.use_app_wallet ≡ false))
        ⊎ ((kms.enabled ≡ true)
            × (NamesRegistry kms ⊎ ((kms.use_app_wallet ≡ true) × HasNoRegistry kms)))
  unfolding validate_kms validate_enabled validate_registry_fields has_any_registry_field
      registry_discovery_configured
  validate_kms_sound kms h = elim (Bool-cases kms.enabled) [
    | inl on ↦ elim (Option-cases kms.kms_app_id) [
      | inl no_id ↦ elim (Option-cases (trimmed kms.nova_app_registry)) [
        | inl no_registry ↦ inr (on, inr (ground arith, (no_id, no_registry)))
        | inr (registry, named) ↦ absurd (ground arith)
      ]
      | inr (id, with_id) ↦ elim (Option-cases (trimmed kms.nova_app_registry)) [
        | inl no_registry ↦ absurd (ground arith)
        | inr (registry, named) ↦ elim (Option-cases (hex_decode (registry_hex registry))) [
          | inl bad ↦ absurd (ground arith)
          | inr (bytes, decoded) ↦
              inr
                (on, inl (id, registry, bytes, with_id, ground arith, named, ground arith, decoded))
        ]
      ]
    ]
    | inr off ↦ inl (off, ground arith)
  ]
