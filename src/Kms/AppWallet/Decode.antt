-- ===== src/Kms/AppWallet/Decode.antt =====
-- The records of the app's wallet, as capsule-cli/src/integrations/nova_kms/app_wallet.rs and
-- nova_kms.rs read them.
use nova_enclave_capsule.Prelude.{
  not, ◌++◌, Result, ok, ◌>>=◌, ◌>>◌, fail_if, map_err, ◌==◌, nat_eq, list_eq, if◌then◌else◌,
  length,
}
use nova_enclave_capsule.Prelude.Text.{Text, codes, utf8_len}
use nova_enclave_capsule.Kms.Outside.{Outside, Bytes}
use nova_enclave_capsule.Kms.Address.{trim_0x, canonical_wallet}
use nova_enclave_capsule.Kms.Proxy.{AppWalletMaterial}

module _ (out : Outside) where
  unfoldable pub decode_kms_wallet_address : Text → Result Text Text
  decode_kms_wallet_address value_b64 = do
    decoded ←
        map_err (λ e. codes "invalid KMS app wallet address encoding: " ++ e)
          (out.base64_decode value_b64)
    address ←
        map_err (λ e. codes "invalid KMS app wallet address utf8: " ++ e) (out.from_utf8 decoded)
    canonical_wallet out address

  -- A key that is stored as its hexadecimal text.
  unfoldable pub key_of_text : Bytes → Result Text Text
  key_of_text decoded = do
    key_text ← map_err (λ e. codes "invalid KMS app wallet key utf8: " ++ e) (out.from_utf8 decoded)
    fail_if (not (utf8_len (out.to_lowercase (trim_0x key_text)) == 64))
        (codes "invalid KMS app wallet key length")
    _ ←
        map_err (λ e. codes "invalid KMS app wallet key hex: " ++ e)
          (out.hex_decode (out.to_lowercase (trim_0x key_text)))
    ok (codes "0x" ++ out.to_lowercase (trim_0x key_text))

  unfoldable pub decode_kms_private_key_hex : Text → Result Text Text
  decode_kms_private_key_hex value_b64 = do
    decoded ←
        map_err (λ e. codes "invalid KMS app wallet key encoding: " ++ e)
          (out.base64_decode value_b64)
    if length decoded == 32 then ok (codes "0x" ++ out.hex_encode decoded) else key_of_text decoded

  unfoldable pub mismatch : (kms_address local_address : Text) → Text
  mismatch kms_address local_address =
      codes "app wallet unavailable: KMS address "
      ++ (kms_address ++ (codes " does not match local address " ++ local_address))

  unfoldable pub decode_app_wallet_material :
      (private_key_b64 address_b64 : Text) → Result Text AppWalletMaterial
  decode_app_wallet_material private_key_b64 address_b64 = do
    private_key_hex ← decode_kms_private_key_hex private_key_b64
    key ←
        map_err (λ e. codes "invalid app wallet private key material in KMS: " ++ e)
          (out.eth_key_from_hex private_key_hex)
    local_address ← canonical_wallet out (out.eth_address key)
    kms_address ← decode_kms_wallet_address address_b64
    fail_if (not (kms_address == local_address)) (mismatch kms_address local_address)
    ok (record { private_key_hex = private_key_hex; address = local_address })
