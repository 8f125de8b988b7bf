-- ===== src/Kms/Log.antt =====
-- What capsule-cli/src/integrations/nova_kms.rs writes of a message in logs and error texts: fields
-- that hold secrets are replaced, and the rest is cut at a number of bytes.
pub mod Redacted
pub mod Cut
use nova_enclave_capsule.Prelude.{
  ℕ, Bool, true, false, ◌||◌, Option, none, some, List, ◌++◌, Result, ok, err, ◌==◌, nat_eq,
  list_eq, if◌then◌else◌,
}
use nova_enclave_capsule.Prelude.Text.{Text, codes, to_ascii_lowercase, utf8_len, decimal}
use nova_enclave_capsule.Kms.Outside.{
  Outside, Json, null, boolean, number, string, array, object, Items, nil, cons, Members, end,
  member,
}
use nova_enclave_capsule.Kms.Address.{truncate_for_log}

abbrev pub debug_log_max_len : ℕ
debug_log_max_len = 1024

unfoldable pub is_sensitive_log_field : Text → Bool
unfolding to_ascii_lowercase
is_sensitive_log_field field =
    let lowered = to_ascii_lowercase field in
    lowered == codes "key"
    || lowered == codes "value"
    || lowered == codes "private_key"
    || lowered == codes "signature"
    || lowered == codes "encrypted_data"

module _ (out : Outside) where
  -- What stands for a secret: the length of its text.
  unfoldable pub redacted : Json → Json
  redacted (string s) = string (codes "<redacted:" ++ (decimal (utf8_len s) ++ codes " chars>"))
  redacted v =
      string (codes "<redacted:" ++ (decimal (utf8_len (out.display v)) ++ codes " chars>"))

  unfoldable mutual
    unfolding redacted is_sensitive_log_field

    pub redact_json_for_log : Json → Json
    redact_json_for_log (object map) = object (redact_members map)
    redact_json_for_log (array items) = array (redact_items items)
    redact_json_for_log null = null
    redact_json_for_log (boolean b) = boolean b
    redact_json_for_log (number n) = number n
    redact_json_for_log (string s) = string s

    pub redact_items : Items → Items
    redact_items nil = nil
    redact_items (cons v vs) = cons (redact_json_for_log v) (redact_items vs)

    pub redact_members : Members → Members
    redact_members end = end
    redact_members (member k v rest) =
        let redacted_rest = redact_members rest in
        let inside = redact_json_for_log v in
        if is_sensitive_log_field k
        then member k (redacted v) redacted_rest
        else member k inside redacted_rest

  unfoldable pub preview_json_for_log : Json → Option Text
  unfolding truncate_for_log redact_json_for_log
  preview_json_for_log value =
      truncate_for_log (out.display (redact_json_for_log value)) debug_log_max_len

  abbrev preview_parsed : Text → Result Text Json → Option Text
  preview_parsed text (ok value) = preview_json_for_log value
  preview_parsed text (err e) = truncate_for_log text debug_log_max_len

  unfoldable pub preview_text_for_log : Text → Option Text
  unfolding preview_json_for_log truncate_for_log
  preview_text_for_log text = preview_parsed text (out.from_str text)
