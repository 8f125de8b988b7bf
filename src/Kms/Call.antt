-- ===== src/Kms/Call.antt =====
-- A call of the KMS in capsule-cli/src/integrations/nova_kms.rs (`call_kms_json_internal`): rounds over
-- the candidates, and the operations that are made of such calls.
pub mod Answered
pub mod Guards
use nova_enclave_capsule.Prelude.{
  ℕ, zero, suc, ◌+◌, Bool, true, false, ◌||◌, Option, none, some, List, [], ◌∷◌, ◌++◌, Result, ok,
  err, map_err, if◌then◌else◌, ltb, any,
}
use nova_enclave_capsule.Prelude.Text.{Text, codes, decimal, is_empty, trim, starts_with, contains}
use nova_enclave_capsule.Prelude.Action.{Action, ◌>>=◌, ◌>>◌, pure, lift, bail, expect, attempt}
use nova_enclave_capsule.Kms.Outside.{
  Outside, Bytes, Json, string, number, object, end, member, Method, get_method, post_method,
  put_method, delete_method,
}
use nova_enclave_capsule.Kms.Address.{
  truncate_for_log, looks_like_connectivity_error, looks_like_kms_not_found_error,
}
use nova_enclave_capsule.Kms.Log.{debug_log_max_len, preview_json_for_log}
use nova_enclave_capsule.Kms.Nodes.{KmsNodeCacheEntry}
use nova_enclave_capsule.Kms.Proxy.{Config, State, Do, sleep, log, text_field}
use nova_enclave_capsule.Kms.Discovery.{resolve_node_candidates, update_node_reachability_cache}
use nova_enclave_capsule.Kms.Identity.{invalidate_node_identity_cache}
use nova_enclave_capsule.Kms.Exchange.{call_kms_on_node}

-- The first error that says that a key is not there, and the last error.
pub record Errors : Type 0 where
  pub not_found : Option Text
  pub last : Option Text

pub data Tried : Type 0 where
  answered : Json → Tried
  refused : Errors → Tried

abbrev pub first_of : Option Text → Text → Option Text
first_of none e = some e
first_of (some earlier) e = some earlier

unfoldable pub note_error : Text → Errors → Errors
unfolding looks_like_kms_not_found_error
note_error e errors = record {
  not_found =
      if looks_like_kms_not_found_error e then first_of errors.not_found e else errors.not_found;
  last = some e;
}

abbrev pub no_errors : Errors
no_errors = record { not_found = none; last = none }

unfoldable pub final_error : Errors → Text
final_error errors = elim errors.not_found [
  | some e ↦ e
  | none ↦ elim errors.last [ some e ↦ e | none ↦ codes "KMS call failed with unknown error" ]
]

unfoldable pub looks_like_signature_failure : Text → Bool
unfolding contains
looks_like_signature_failure e =
    contains e (codes "mutual response signature verification failed")
    || contains e (codes "KMS response missing X-KMS-Response-Signature")

module _ (out : Outside) (config : Config) where
  unfoldable pub invalidate_if : Bool → Text → Do out (Unit {0})
  unfolding invalidate_node_identity_cache
  invalidate_if true url = invalidate_node_identity_cache out url
  invalidate_if false url = pure tt

  unfoldable pub unreachable_if : Bool → Text → Text → Do out (Unit {0})
  unfolding update_node_reachability_cache truncate_for_log
  unreachable_if true url e = do
    message ← expect (truncate_for_log e debug_log_max_len)
    update_node_reachability_cache out url false none (some message)
  unreachable_if false url e = pure tt

  abbrev pub after_node :
      KmsNodeCacheEntry → Errors → (Errors → Do out Tried) → Result Text Json → Do out Tried
  unfolding update_node_reachability_cache preview_json_for_log note_error
      looks_like_signature_failure looks_like_connectivity_error invalidate_if unreachable_if
  after_node node errors more (ok value) = do
    update_node_reachability_cache out node.base_url true none none
    log out (preview_json_for_log out value)
    pure (answered value)
  after_node node errors more (err e) = do
    invalidate_if (looks_like_signature_failure e) node.base_url
    unreachable_if (looks_like_connectivity_error e) node.base_url e
    more (note_error e errors)

  -- One round over the nodes, until one answers.
  unfoldable pub try_nodes :
      Method → Text → Option Json → List KmsNodeCacheEntry → Errors → Do out Tried
  unfolding call_kms_on_node after_node
  try_nodes method path payload [] errors = pure (refused errors)
  try_nodes method path payload (node ∷ nodes) errors =
      attempt (call_kms_on_node out config node method path payload)
      >>= after_node node errors (try_nodes method path payload nodes)

  abbrev pub after_round : ℕ → (Errors → Do out Json) → Tried → Do out Json
  unfolding sleep
  after_round idx more (answered value) = pure value
  after_round idx more (refused errors) =
      if ltb (idx + 1) config.max_retries then sleep out 150 >> more errors else more errors

  -- The rounds that are left, and the index of the next one.
  unfoldable pub try_rounds :
      Method → Text → Option Json → List KmsNodeCacheEntry → (left idx : ℕ) → Errors → Do out Json
  unfolding try_nodes after_round final_error
  try_rounds method path payload nodes zero idx errors = bail (final_error errors)
  try_rounds method path payload nodes (suc left) idx errors =
      try_nodes method path payload nodes errors
      >>= after_round idx (try_rounds method path payload nodes left (idx + 1))

  abbrev pub preview_payload : Option Json → Option Text
  unfolding preview_json_for_log
  preview_payload none = some (codes "<none>")
  preview_payload (some payload) = preview_json_for_log out payload

  unfoldable pub call_kms_json_internal : Method → Text → Option Json → Do out Json
  unfolding resolve_node_candidates preview_payload try_rounds
  call_kms_json_internal method path payload = do
    nodes ← resolve_node_candidates out config
    log out (preview_payload payload)
    try_rounds method path payload nodes config.max_retries 0 no_errors

  unfoldable pub is_reserved_derive_path : Text → Bool
  unfolding trim starts_with
  is_reserved_derive_path path =
      any (λ prefix. starts_with (trim path) prefix) config.reserved_derive_prefixes

  abbrev pub derive_payload : (path context : Text) → ℕ → Json
  derive_payload path context length = object (
      member (codes "path") (string path) (
        member (codes "context") (string context)
          (member (codes "length") (number (decimal length)) end)))

  unfoldable pub call_derive : (path context : Text) → ℕ → Do out Bytes
  call_derive path context length = do
    response ←
        call_kms_json_internal post_method (codes "/kms/derive")
          (some (derive_payload path context length))
    key_b64 ← lift (text_field out response (codes "key") (codes "KMS response missing 'key'"))
    lift (map_err (λ e. codes "invalid KMS key base64: " ++ e) (out.base64_decode key_b64))

  unfoldable pub derive_key : (path context : Text) → ℕ → Do out Bytes
  derive_key path context length =
      if is_empty (trim path)
      then bail (codes "KMS derive path cannot be empty")
      else if is_reserved_derive_path path
      then bail (codes "KMS derive path '" ++ (path ++ codes "' is reserved"))
      else call_derive path context length

  abbrev field_text : Option Json → Option Text
  field_text none = none
  field_text (some value) = out.as_str value

  -- A value, or nothing when the node says that the key is not there.
  abbrev pub value_of : Result Text Json → Do out (Option Text)
  unfolding looks_like_kms_not_found_error
  value_of (ok response) = pure (field_text (out.get response (codes "value")))
  value_of (err e) = if looks_like_kms_not_found_error e then pure none else bail e

  unfoldable pub kv_get : Text → Do out (Option Text)
  unfolding trim call_kms_json_internal value_of
  kv_get key =
      if is_empty (trim key)
      then bail (codes "KMS KV key cannot be empty")
      else attempt
          (call_kms_json_internal get_method (codes "/kms/data/" ++ out.byte_serialize key) none)
        >>= value_of

  unfoldable pub call_put : (key value_b64 : Text) → ℕ → Do out (Unit {0})
  unfolding call_kms_json_internal
  call_put key value_b64 ttl_ms = do
    _ ← call_kms_json_internal put_method (codes "/kms/data") (
        some (
          object (
            member (codes "key") (string key) (
              member (codes "value") (string value_b64)
                (member (codes "ttl_ms") (number (decimal ttl_ms)) end)))))
    pure tt

  unfoldable pub kv_put : (key value_b64 : Text) → ℕ → Do out (Unit {0})
  unfolding trim call_put
  kv_put key value_b64 ttl_ms =
      if is_empty (trim key)
      then bail (codes "KMS KV key cannot be empty")
      else if is_empty (trim value_b64)
      then bail (codes "KMS KV value cannot be empty")
      else call_put key value_b64 ttl_ms

  unfoldable pub call_delete : Text → Do out (Unit {0})
  unfolding call_kms_json_internal
  call_delete key = do
    _ ←
        call_kms_json_internal delete_method (codes "/kms/data")
          (some (object (member (codes "key") (string key) end)))
    pure tt

  unfoldable pub kv_delete : Text → Do out (Unit {0})
  unfolding trim call_delete
  kv_delete key =
      if is_empty (trim key) then bail (codes "KMS KV key cannot be empty") else call_delete key
