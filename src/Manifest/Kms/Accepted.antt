-- ===== src/Manifest/Kms/Accepted.antt =====
-- Which KMS integrations capsule-cli/src/manifest.rs accepts, and what it takes for the address of a
-- registry.
use nova_enclave_capsule.Prelude.{
  ℕ, true, false, Option, none, some, List, [], ◌∷◌, ok, ◌≡◌, ◌≢◌, ◌↔◌, ◌⊎◌, refl, sym, subst, ap,
  ◌∙◌, inl, inr, arith, nat_eq, list_eq, Bool-cases, Option-cases,
}
use nova_enclave_capsule.Prelude.Text.{Text, codes, is_empty, trim, trim_start_pairs, utf8_len}
use nova_enclave_capsule.Manifest.{KmsIntegration}
use nova_enclave_capsule.Manifest.Kms.Prefixes.{
  StartsWith, Strips, starts_with_text-StartsWith, trim_start_pairs-Strips, Strips-unique,
}
use nova_enclave_capsule.Manifest.Kms.{
  trimmed, starts_with_text, has_address_shape, registry_hex, NamesRegistry, HasNoRegistry,
  validate_kms, validate_kms_complete, validate_kms_sound,
}

-- What is taken for the address of a registry: `0x` or `0X` and 40 more bytes, which are hexadecimal
-- digits once each `0x` and then each `0X` in front is removed.
pub record IsRegistryAddress (hex_decode : Text → Option (List ℕ)) (registry : Text) : Type 0 where
  pub prefixed : StartsWith (codes "0x") registry ⊎ StartsWith (codes "0X") registry
  pub len : utf8_len registry ≡ 42
  pub inner : Text
  pub lower : Strips (codes "0x") registry inner
  pub digits : Text
  pub upper : Strips (codes "0X") inner digits
  pub bytes : List ℕ
  pub decoded : hex_decode digits ≡ some bytes

empty-nil : (t : Text) → is_empty t ≡ true → t ≡ []
empty-nil [] h = refl
empty-nil (c ∷ t) h = absurd (cc)

full-nil : (t : Text) → is_empty t ≡ false → t ≢ []
full-nil [] h = absurd (cc)
full-nil (c ∷ t) h = λ e. absurd (cc)

module _ (hex_decode : Text → Option (List ℕ)) where
  address_sound :
      (registry : Text) (bytes : List ℕ)
      → has_address_shape registry ≡ true
      → hex_decode (registry_hex registry) ≡ some bytes
      → IsRegistryAddress hex_decode registry
  unfolding has_address_shape registry_hex
  address_sound registry bytes shape decoded =
      let x = starts_with_text-StartsWith registry (codes "0x") in
      let big = starts_with_text-StartsWith registry (codes "0X") in
      record {
        prefixed = elim (Bool-cases (starts_with_text registry (codes "0x"))) [
          | inl short ↦ inl (x.0 short)
          | inr long ↦ inr (big.0 (ground arith))
        ];
        len = ground arith;
        inner = trim_start_pairs b'0' b'x' registry;
        lower = trim_start_pairs-Strips b'0' b'x' registry;
        digits = registry_hex registry;
        upper = trim_start_pairs-Strips b'0' b'X' (trim_start_pairs b'0' b'x' registry);
        bytes = bytes;
        decoded = decoded;
      }

  address_shape :
      (registry : Text) → IsRegistryAddress hex_decode registry → has_address_shape registry ≡ true
  unfolding has_address_shape
  address_shape registry a = elim a.prefixed [
    | inl lower ↦
        let x = (starts_with_text-StartsWith registry (codes "0x")).1 lower in
        let len = a.len in ground arith
    | inr upper ↦
        let x = (starts_with_text-StartsWith registry (codes "0X")).1 upper in
        let len = a.len in ground arith
  ]

  address_decoded :
      (registry : Text) (a : IsRegistryAddress hex_decode registry)
      → hex_decode (registry_hex registry) ≡ some a.bytes
  unfolding registry_hex
  address_decoded registry a =
      ap hex_decode (
        ap (trim_start_pairs b'0' b'X') (Strips-unique b'0' b'x' registry a.inner a.lower)
        ∙ Strips-unique b'0' b'X' a.inner a.digits a.upper)
      ∙ a.decoded

  -- An app that is not zero is named, and a registry.
  abbrev pub HasRegistry : KmsIntegration → Type 0
  HasRegistry kms =
      (id : ℕ) × (registry : Text) × (kms.kms_app_id ≡ some id)
      × (id ≢ 0)
      × (kms.nova_app_registry ≡ some registry)
      × IsRegistryAddress hex_decode (trim registry)

  -- No app is named, and no registry but, it may be, blanks.
  abbrev pub HasNone : KmsIntegration → Type 0
  HasNone kms =
      (kms.kms_app_id ≡ none)
      × ((kms.nova_app_registry ≡ none)
          ⊎ ((blank : Text) × (kms.nova_app_registry ≡ some blank) × (trim blank ≡ [])))

  trimmed-some :
      (o : Option Text) {registry : Text}
      → trimmed o ≡ some registry
      → (text : Text) × (o ≡ some text) × (trim text ≡ registry)
  unfolding trimmed
  trimmed-some none h = absurd (cc)
  trimmed-some (some text) h = (text, refl, ground arith)

  trimmed_address :
      (text : Text)
      → IsRegistryAddress hex_decode (trim text)
      → trimmed (some text) ≡ some (trim text)
  unfolding trimmed utf8_len
  trimmed_address text a = elim (Bool-cases (is_empty (trim text))) [
    | inl blank ↦
        let zero_len : 0 ≡ 42 = sym (ap utf8_len (empty-nil (trim text) blank)) ∙ a.len in
        absurd (omega (arith, zero_len))
    | inr full ↦ rw (full) refl
  ]

  blank_iff : (kms : KmsIntegration) → HasNoRegistry hex_decode kms ↔ HasNone kms
  unfolding trimmed
  blank_iff kms = elim (Option-cases kms.nova_app_registry) [
    | inl gone ↦ ground arith
    | inr (text, named) ↦ elim (Bool-cases (is_empty (trim text))) [
      | inl blank ↦ let e = empty-nil (trim text) blank in ground arith
      | inr full ↦ let e = full-nil (trim text) full in ground arith
    ]
  ]

  registry_iff : (kms : KmsIntegration) → NamesRegistry hex_decode kms ↔ HasRegistry kms
  registry_iff kms = (
    λ (id, registry, bytes, with_id, nonzero, named, shape, decoded).
        let (text, there, same) = trimmed-some kms.nova_app_registry named in
        (
          id,
          text,
          with_id,
          nonzero,
          there,
          subst (IsRegistryAddress hex_decode) (sym same)
              (address_sound registry bytes shape decoded),
        ),
    λ (id, text, with_id, nonzero, named, a). (
      id,
      trim text,
      a.bytes,
      with_id,
      nonzero,
      ap trimmed named ∙ trimmed_address text a,
      address_shape (trim text) a,
      address_decoded (trim text) a,
    ),
  )

  -- An integration is accepted exactly if it is off and does not use the wallet, or it is on, and then
  -- either it uses the wallet and names neither an app id nor, but for blanks, a registry, or it names an app id other than 0 and a registry
  -- whose text, trimmed, has 42 bytes, starts with `0x` or `0X`, and decodes as hexadecimal once each
  -- `0x` and then each `0X` in front is removed. So a text of fewer digits behind more than one prefix
  -- is accepted.
  pub validate_kms_iff :
      (kms : KmsIntegration)
      → (validate_kms hex_decode kms ≡ ok tt) ↔ (
          ((kms.enabled ≡ false) × (kms.use_app_wallet ≡ false))
          ⊎ ((kms.enabled ≡ true)
              × (HasRegistry kms ⊎ ((kms.use_app_wallet ≡ true) × HasNone kms))))
  validate_kms_iff kms =
      let sound = validate_kms_sound hex_decode kms in
      let complete = validate_kms_complete hex_decode kms in
      let names = registry_iff kms in
      let blank = blank_iff kms in
      (
        (λ h. elim (sound h) [
          | inl off ↦ inl off
          | inr (on, inl named) ↦ inr (on, inl (names.0 named))
          | inr (on, inr (wallet, no_registry)) ↦ inr (on, inr (wallet, blank.0 no_registry))
        ]),
        (λ h. elim h [
          | inl off ↦ complete (inl off)
          | inr (on, inl named) ↦ complete (inr (on, inl (names.1 named)))
          | inr (on, inr (wallet, no_registry)) ↦
              complete (inr (on, inr (wallet, blank.1 no_registry)))
        ]),
      )
