-- ===== src/Kms/Log/Redacted.antt =====
-- The secrets in JSON that is made for the log: capsule-cli/src/integrations/nova_kms.rs, `redact_json_for_log`.
use nova_enclave_capsule.Prelude.{ℕ, true, ◌≡◌, ◌⊎◌, inl, inr, refl, ◌++◌, if◌then◌else◌, if_elim}
use nova_enclave_capsule.Prelude.Text.{Text, codes, decimal, to_ascii_lowercase}
use nova_enclave_capsule.Kms.Outside.{
  Outside, Json, null, boolean, number, string, array, object, Items, nil, cons, Members, end,
  member,
}
use nova_enclave_capsule.Kms.Log.{
  is_sensitive_log_field, redacted, redact_json_for_log, redact_items, redact_members,
}

-- A text that gives a length and nothing else.
abbrev pub IsLength : Json → Type 0
IsLength v = (n : ℕ) × (v ≡ string (codes "<redacted:" ++ (decimal n ++ codes " chars>")))

-- A name that a member with a secret has, in any mix of ASCII letters' cases.
abbrev pub IsSecretName : Text → Type 0
IsSecretName k =
    let lowered = to_ascii_lowercase k in
    (lowered ≡ codes "key")
    ⊎ (lowered ≡ codes "value")
    ⊎ (lowered ≡ codes "private_key")
    ⊎ (lowered ≡ codes "signature")
    ⊎ (lowered ≡ codes "encrypted_data")

is_sensitive_log_field_complete : (k : Text) → IsSecretName k → is_sensitive_log_field k ≡ true
unfolding is_sensitive_log_field
is_sensitive_log_field_complete k (inl e) = rw (e) refl
is_sensitive_log_field_complete k (inr (inl e)) = rw (e) refl
is_sensitive_log_field_complete k (inr (inr (inl e))) = rw (e) refl
is_sensitive_log_field_complete k (inr (inr (inr (inl e)))) = rw (e) refl
is_sensitive_log_field_complete k (inr (inr (inr (inr e)))) = rw (e) refl

-- Every member with such a name, at any depth, has only its length left.
mutual
  pub NoSecrets : Json → Type 0
  NoSecrets (object members) = NoSecretMembers members
  NoSecrets (array items) = NoSecretItems items
  NoSecrets null = Unit
  NoSecrets (boolean b) = Unit
  NoSecrets (number n) = Unit
  NoSecrets (string s) = Unit

  pub NoSecretItems : Items → Type 0
  NoSecretItems nil = Unit
  NoSecretItems (cons v vs) = NoSecrets v × NoSecretItems vs

  pub NoSecretMembers : Members → Type 0
  NoSecretMembers end = Unit
  NoSecretMembers (member k v rest) =
      (IsSecretName k → IsLength v) × NoSecrets v × NoSecretMembers rest

module _ (out : Outside) where
  redacted-IsLength : (v : Json) → IsLength (redacted out v)
  unfolding redacted
  redacted-IsLength (string s) = (_, refl)
  redacted-IsLength null = (_, refl)
  redacted-IsLength (boolean b) = (_, refl)
  redacted-IsLength (number n) = (_, refl)
  redacted-IsLength (array items) = (_, refl)
  redacted-IsLength (object members) = (_, refl)

  redacted-NoSecrets : (v : Json) → NoSecrets (redacted out v)
  unfolding redacted NoSecrets
  redacted-NoSecrets (string s) = tt
  redacted-NoSecrets null = tt
  redacted-NoSecrets (boolean b) = tt
  redacted-NoSecrets (number n) = tt
  redacted-NoSecrets (array items) = tt
  redacted-NoSecrets (object members) = tt

  member-NoSecrets :
      (k : Text) (v inside : Json) (rest : Members)
      → NoSecrets inside
      → NoSecretMembers rest
      → NoSecretMembers (
          if is_sensitive_log_field k then member k (redacted out v) rest else member k inside rest)
  unfolding NoSecrets
  member-NoSecrets k v inside rest h hs =
      if_elim NoSecretMembers (is_sensitive_log_field k) _ _
        (λ _. ((λ _. redacted-IsLength v), redacted-NoSecrets v, hs))
        (λ open_.
          ((λ secret. absurd (cc (open_, is_sensitive_log_field_complete k secret))), h, hs))

  mutual
    unfolding redact_json_for_log NoSecrets

    redact_json-NoSecrets : (v : Json) → NoSecrets (redact_json_for_log out v)
    redact_json-NoSecrets (object members) = redact_members-NoSecrets members
    redact_json-NoSecrets (array items) = redact_items-NoSecrets items
    redact_json-NoSecrets null = tt
    redact_json-NoSecrets (boolean b) = tt
    redact_json-NoSecrets (number n) = tt
    redact_json-NoSecrets (string s) = tt

    redact_items-NoSecrets : (vs : Items) → NoSecretItems (redact_items out vs)
    redact_items-NoSecrets nil = tt
    redact_items-NoSecrets (cons v vs) = (redact_json-NoSecrets v, redact_items-NoSecrets vs)

    redact_members-NoSecrets : (members : Members) → NoSecretMembers (redact_members out members)
    redact_members-NoSecrets end = tt
    redact_members-NoSecrets (member k v rest) =
        member-NoSecrets k v (redact_json_for_log out v) (redact_members out rest)
          (redact_json-NoSecrets v) (redact_members-NoSecrets rest)

  -- What is made of any JSON before it is logged: at every depth, a member whose name is `key`,
  -- `value`, `private_key`, `signature` or `encrypted_data`, in any case of its ASCII letters, has
  -- only the length of its value left.
  pub redact_json_for_log-NoSecrets : (v : Json) → NoSecrets (redact_json_for_log out v)
  redact_json_for_log-NoSecrets v = redact_json-NoSecrets v
