-- ===== src/Kms/Tokens.antt =====
-- The tokens of a contract's output, as capsule-cli/src/integrations/nova_kms.rs reads them.
use nova_enclave_capsule.Prelude.{
  ℕ, Bool, List, [], ◌∷◌, ◌++◌, Result, ok, err, nat_eq, if◌then◌else◌, ltb, length,
}
use nova_enclave_capsule.Prelude.Words.{u64_mod}
use nova_enclave_capsule.Prelude.Text.{Text, codes, decimal}
use nova_enclave_capsule.Kms.Outside.{Outside, Bytes, uint, bool, text, address, bytes, tuple}

module _ (out : Outside) where
  unfoldable pub token_to_u64 : out.Abi → Text → Result Text ℕ
  token_to_u64 token field = elim (out.view token) [
    | uint v ↦ if ltb v u64_mod then ok v else err (field ++ codes " exceeds u64")
    | _ ↦ err (field ++ (codes " expected uint, got " ++ out.debug token))
  ]

  unfoldable pub token_to_bool : out.Abi → Text → Result Text Bool
  token_to_bool token field = elim (out.view token) [
    | bool v ↦ ok v
    | _ ↦ err (field ++ (codes " expected bool, got " ++ out.debug token))
  ]

  unfoldable pub token_to_string : out.Abi → Text → Result Text Text
  token_to_string token field = elim (out.view token) [
    | text v ↦ ok v
    | _ ↦ err (field ++ (codes " expected string, got " ++ out.debug token))
  ]

  unfoldable pub token_to_address : out.Abi → Text → Result Text Text
  token_to_address token field = elim (out.view token) [
    | address v ↦ ok (codes "0x" ++ out.hex_encode v)
    | _ ↦ err (field ++ (codes " expected address, got " ++ out.debug token))
  ]

  unfoldable pub token_to_bytes : out.Abi → Text → Result Text Bytes
  token_to_bytes token field = elim (out.view token) [
    | bytes v ↦ ok v
    | _ ↦ err (field ++ (codes " expected bytes, got " ++ out.debug token))
  ]

  unfoldable pub extract_single_tuple : List out.Abi → Text → Result Text (List out.Abi)
  extract_single_tuple (token ∷ []) context = elim (out.view token) [
    | tuple values ↦ ok values
    | _ ↦ err (context ++ (codes " expected tuple output, got " ++ out.debug token))
  ]
  extract_single_tuple outputs context = err (
      context ++ (codes " returned " ++ (decimal (length outputs) ++ codes " outputs, expected 1")))
