-- ===== src/Kms/Exchange/Bound.antt =====
-- What an answer of a node has behind it, in capsule-cli/src/integrations/nova_kms.rs.
use nova_enclave_capsule.Prelude.{
  true, false, not, some, [], ◌∷◌, ok, Result-cases, ◌≡◌, ◌≢◌, ap, inl, inr, refl, ◌==◌, nat_eq,
  list_eq, list_beq_iff, Bool-cases, Option-cases, if_err-eq-ok, not-eq-false, arith,
}
use nova_enclave_capsule.Prelude.Text.{Text, codes, is_empty}
use nova_enclave_capsule.Prelude.Action.{lift, expect, >>=-eq-ok, raise-eq-ok, if_bail-eq-ok}
use nova_enclave_capsule.Kms.Outside.{Outside, Json, Response}
use nova_enclave_capsule.Kms.Address.{trim_0x, canonical_wallet, truncate_for_log}
use nova_enclave_capsule.Kms.Nodes.{KmsNodeCacheEntry}
use nova_enclave_capsule.Kms.Proxy.{Config, State, KmsNodeIdentity, text_field}
use nova_enclave_capsule.Kms.Identity.{check_binding, verify_node_identity_binding}
use nova_enclave_capsule.Kms.Envelope.{decrypt_from, key_mismatch, decrypt_envelope}
use nova_enclave_capsule.Kms.Exchange.{
  eip191_personal_message_bytes, response_message, verify_mutual_response_signature,
  check_signature,
}

is_empty-eq-false : (t : Text) → is_empty t ≡ false → t ≢ []
is_empty-eq-false [] h = absurd (cc)
is_empty-eq-false (c ∷ t) h = λ e. absurd (cc)

not_empty-is_empty : (t : Text) → t ≢ [] → is_empty t ≡ false
not_empty-is_empty [] h = absurd (h refl)
not_empty-is_empty (c ∷ t) h = refl

pub differs : (s t : Text) → s ≡ t → not (s == t) ≡ false
differs s t h = ap not ((list_beq_iff s t).1 h)

pub same-eq-true : (s t : Text) → not (s == t) ≡ false → s ≡ t
same-eq-true s t h = (list_beq_iff s t).0 (not-eq-false (s == t) h)

module _ (out : Outside) where
  -- The identity that a node gives is that of the registry: the same wallet, and the same key, which
  -- is not empty.
  pub record IsBound (node : KmsNodeCacheEntry) (identity : KmsNodeIdentity) (key : Text)
      : Type 0 where
    pub same_wallet :
        (wallet : Text) × (canonical_wallet out node.wallet ≡ ok wallet)
        × (canonical_wallet out identity.wallet ≡ ok wallet)
    pub same_key : trim_0x identity.tee_pubkey ≡ trim_0x node.tee_pubkey
    pub not_empty : trim_0x node.tee_pubkey ≢ []
    pub key_eq : key ≡ trim_0x node.tee_pubkey

  check_binding-same :
      (node : KmsNodeCacheEntry) (identity : KmsNodeIdentity) (registry status key : Text)
      → check_binding out node identity registry status ≡ ok key
      → (status ≡ registry)
        × (trim_0x node.tee_pubkey ≢ [])
        × (trim_0x identity.tee_pubkey ≡ trim_0x node.tee_pubkey)
        × (key ≡ trim_0x node.tee_pubkey)
  unfolding check_binding
  check_binding-same node identity registry status key h =
      let (wallets, h1) = if_err-eq-ok (not (status == registry)) _ _ h in
      let (full, h2) = if_err-eq-ok (is_empty (trim_0x node.tee_pubkey)) _ _ h1 in
      let (_, h3) = if_err-eq-ok (is_empty (trim_0x identity.tee_pubkey)) _ _ h2 in
      let (keys, h4) =
        if_err-eq-ok (not (trim_0x identity.tee_pubkey == trim_0x node.tee_pubkey)) _ _ h3 in
      (same-eq-true status registry wallets, is_empty-eq-false _ full, same-eq-true _ _ keys, cc h4)

  pub verify_node_identity_binding-IsBound :
      (node : KmsNodeCacheEntry) (identity : KmsNodeIdentity) {key : Text}
      → verify_node_identity_binding out node identity ≡ ok key
      → IsBound node identity key
  unfolding verify_node_identity_binding
  verify_node_identity_binding-IsBound node identity {key} h =
      elim (Result-cases (canonical_wallet out node.wallet)) [
        | inl (e, p) ↦ absurd (ground arith)
        | inr (registry, p) ↦ elim (Result-cases (canonical_wallet out identity.wallet)) [
          | inl (e, q) ↦ absurd (ground arith)
          | inr (status, q) ↦
              let (wallets, full, keys, key_eq) =
                check_binding-same node identity registry status key (ground arith) in
              record {
                same_wallet = (registry, p, cc (q, wallets));
                same_key = keys;
                not_empty = full;
                key_eq = key_eq;
              }
        ]
      ]

  -- The wallet of the node has signed the signature of the request.
  unfoldable pub Signed : KmsNodeCacheEntry → Response → Text → Type 0
  Signed node response client_signature =
      (wallet : Text) × (signature : Text) × (canonical_wallet out node.wallet ≡ ok wallet)
      × (response.signature ≡ some signature)
      × (out.verify_message signature
            (eip191_personal_message_bytes out (response_message out client_signature wallet))
            wallet
          ≡ true)

  pub check_signature-Signed :
      (config : Config) (node : KmsNodeCacheEntry) (response : Response) (client_signature : Text)
      → config.require_mutual_signature ≡ true
      → check_signature out config node response client_signature ≡ ok tt
      → Signed node response client_signature
  unfolding Signed check_signature verify_mutual_response_signature
  check_signature-Signed config node response client_signature required h =
      elim (Option-cases response.signature) [
        | inl none_given ↦ absurd (ground arith)
        | inr (signature, given) ↦ elim (Result-cases (canonical_wallet out node.wallet)) [
          | inl (e, p) ↦ absurd (ground arith)
          | inr (wallet, p) ↦ (wallet, signature, p, given, ground arith)
        ]
      ]

  -- The envelope names the key that is expected as its sender's.
  unfoldable pub SentBy : Json → Text → Type 0
  SentBy envelope key =
      (field : Json) × (sender : Text) × (out.get envelope (codes "sender_tee_pubkey") ≡ some field)
      × (out.as_str field ≡ some sender)
      × (trim_0x sender ≡ trim_0x key)

  -- A text that stands in a field.
  unfoldable pub HasField : Json → Text → Text → Type 0
  HasField value name t =
      (field : Json) × (out.get value name ≡ some field) × (out.as_str field ≡ some t)

  pub text_field-eq-ok :
      (value : Json) (name message : Text) {t : Text}
      → text_field out value name message ≡ ok t
      → HasField value name t
  unfolding text_field HasField
  text_field-eq-ok value name message h = elim (Option-cases (out.get value name)) [
    | inl p ↦ absurd (ground arith)
    | inr (field, p) ↦ elim (Option-cases (out.as_str field)) [
      | inl q ↦ absurd (ground arith)
      | inr (text, q) ↦ (field, p, ground arith)
    ]
  ]

  key_mismatch-fails :
      (sender expected : Text) (s : State out.World) {value : Json}
      → (key_mismatch out sender expected s).1 ≢ ok value
  unfolding key_mismatch
  key_mismatch-fails sender expected s = λ h.
      let (t, _, h1) = >>=-eq-ok (expect (truncate_for_log expected 24)) _ s h in
      let (u, _, h2) = >>=-eq-ok (expect (truncate_for_log sender 24)) _ s h1 in absurd (cc)

  pub decrypt_from-same :
      (config : Config) (envelope : Json) (sender expected : Text) (s : State out.World)
      {value : Json}
      → (decrypt_from out config envelope sender expected s).1 ≡ ok value
      → sender ≡ expected
  unfolding decrypt_from
  decrypt_from-same config envelope sender expected s {value} h =
      let (_, h1) = if_bail-eq-ok (is_empty sender) _ _ s h in
      let (_, h2) = if_bail-eq-ok (is_empty expected) _ _ s h1 in
      elim (Bool-cases (not (sender == expected))) [
        | inl differ ↦ absurd (
            let failed : (key_mismatch out sender expected s).1 ≡ ok value = cc (differ, h2) in
            key_mismatch-fails sender expected s failed)
        | inr same ↦ same-eq-true sender expected same
      ]

  pub decrypt_envelope-SentBy :
      (config : Config) (envelope : Json) (key : Text) (s : State out.World) {value : Json}
      → (decrypt_envelope out config envelope key s).1 ≡ ok value
      → SentBy envelope key
  unfolding decrypt_envelope SentBy HasField
  decrypt_envelope-SentBy config envelope key s h =
      let (sender, e, done) =
        >>=-eq-ok (lift (text_field out envelope (codes "sender_tee_pubkey") _))
          (λ sender. decrypt_from out config envelope (trim_0x sender) (trim_0x key)) s h in
      let (field, got, read) =
        text_field-eq-ok envelope (codes "sender_tee_pubkey") _ (raise-eq-ok _ e) in
      (
        field,
        sender,
        got,
        read,
        decrypt_from-same config envelope (trim_0x sender) (trim_0x key) s done,
      )
