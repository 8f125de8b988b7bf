-- ===== src/Kms/Call/Guards.antt =====
-- What the operations of capsule-cli/src/integrations/nova_kms.rs refuse before they call the KMS, and
-- what a derived key has behind it.
use nova_enclave_capsule.Prelude.{
  ℕ, true, false, some, ◌++◌, ok, err, map_err-eq-ok, ◌≡◌, ◌⊎◌, refl, inl, inr, if_elim,
}
use nova_enclave_capsule.Prelude.Text.{Text, codes, decimal, is_empty, trim}
use nova_enclave_capsule.Prelude.Action.{failed, lift, bail, >>=-eq-ok, raise-eq-ok, if_bail-eq-ok}
use nova_enclave_capsule.Kms.Outside.{
  Outside, Bytes, Json, string, number, object, end, member, post_method,
}
use nova_enclave_capsule.Kms.Proxy.{Config, RegistryDiscoveryConfig, State, Do, text_field}
use nova_enclave_capsule.Kms.Discovery.Listed.{CacheListed}
use nova_enclave_capsule.Kms.Call.{
  call_kms_json_internal, is_reserved_derive_path, derive_payload, call_derive, derive_key,
}
use nova_enclave_capsule.Kms.Call.Answered.{Trusted, call_kms_json_internal-Trusted}

module _ (out : Outside) (config : Config) where
  -- A path that is empty or reserved, once trimmed, is refused before anything is done.
  pub derive_key_refused :
      (path context : Text) (length : ℕ) (s : State out.World)
      → (is_empty (trim path) ≡ true) ⊎ (is_reserved_derive_path out config path ≡ true)
      → ((derive_key out config path context length s).0 ≡ s)
        × ((e : Text) × ((derive_key out config path context length s).1 ≡ err (failed e)))
  unfolding derive_key
  derive_key_refused path context length s h =
      let P : Do out Bytes → Type 0 =
        λ m. ((m s).0 ≡ s) × ((e : Text) × ((m s).1 ≡ err (failed e))) in
      if_elim P (is_empty (trim path)) (bail (codes "KMS derive path cannot be empty")) _
        (λ _. (refl, (_, refl)))
        (λ full.
          if_elim P (is_reserved_derive_path out config path)
            (bail (codes "KMS derive path '" ++ (path ++ codes "' is reserved")))
            (call_derive out config path context length) (λ _. (refl, (_, refl)))
            (λ free. elim h [ inl e ↦ absurd (cc (e, full)) | inr e ↦ absurd (cc (e, free)) ]))

  -- What a derived key has behind it: a response to the request for this path, context and length.
  pub record Derived (discovery : RegistryDiscoveryConfig) (path context : Text) (length : ℕ)
      (key : Bytes) : Type 0 where
    pub not_reserved : is_reserved_derive_path out config path ≡ false
    pub response : Json
    pub trusted :
        Trusted out config discovery post_method
          (codes "/kms/derive")
          (some (
            object (
              member (codes "path") (string path) (
                member
                  (codes "context")
                  (string context)
                  (member (codes "length") (number (decimal length)) end)))))
          response
    pub key_b64 : Text
    pub message : Text
    pub has_key : text_field out response (codes "key") message ≡ ok key_b64
    pub decoded : out.base64_decode key_b64 ≡ ok key

  call_derive-Derived :
      (discovery : RegistryDiscoveryConfig) (path context : Text) (length : ℕ) (s : State out.World)
      {key : Bytes}
      → is_reserved_derive_path out config path ≡ false
      → config.registry_discovery ≡ some discovery
      → config.require_mutual_signature ≡ true
      → CacheListed out discovery s.discovery_cache
      → (call_derive out config path context length s).1 ≡ ok key
      → Derived discovery path context length key
  unfolding call_derive
  call_derive-Derived discovery path context length s free configured required listed done =
      let payload = derive_payload out config path context length in
      let (response, called, d1) =
        >>=-eq-ok
          (call_kms_json_internal out config post_method (codes "/kms/derive") (some payload)) _ s
          done in
      let (key_b64, has_key, d2) =
        >>=-eq-ok
          (lift (text_field out response (codes "key") (codes "KMS response missing 'key'"))) _ _
          d1 in
      record {
        not_reserved = free;
        response = response;
        trusted =
            call_kms_json_internal-Trusted out config discovery post_method (codes "/kms/derive")
              (some payload) s configured required listed called;
        key_b64 = key_b64;
        message = codes "KMS response missing 'key'";
        has_key = raise-eq-ok _ has_key;
        decoded = map_err-eq-ok _ (out.base64_decode key_b64) (raise-eq-ok _ d2);
      }

  -- A key that is derived is for a path that is not reserved, and is what the field `key` of the
  -- KMS's answer decodes to. The request had this path, context and length as its payload, encrypted
  -- for the registered key of a node that the registry has listed, and the answer is what the
  -- envelope of that node's response is decrypted to, which the node's registered wallet has signed.
  -- The nodes of the cache at the start are listed, and mutual signatures are required.
  pub derive_key-Derived :
      (discovery : RegistryDiscoveryConfig) (path context : Text) (length : ℕ) (s : State out.World)
      {key : Bytes}
      → config.registry_discovery ≡ some discovery
      → config.require_mutual_signature ≡ true
      → CacheListed out discovery s.discovery_cache
      → (derive_key out config path context length s).1 ≡ ok key
      → Derived discovery path context length key
  unfolding derive_key
  derive_key-Derived discovery path context length s configured required listed done =
      let (_, d1) = if_bail-eq-ok (is_empty (trim path)) _ _ s done in
      let (free, d2) = if_bail-eq-ok (is_reserved_derive_path out config path) _ _ s d1 in
      call_derive-Derived discovery path context length s free configured required listed d2
