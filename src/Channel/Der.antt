-- ===== src/Channel/Der.antt =====
-- The DER form of a public key of capsule-cli/src/encryption_key.rs is read back.
use nova_enclave_capsule.Prelude.{
  ℕ, suc, ◌+◌, ◌%◌, false, ◌||◌, none, some, [], ◌∷◌, ◌++◌, ok, ◌>>=◌, ◌>>◌, fail_if, zero, ◌≡◌,
  refl, sym, ap, ◌∙◌, subst, arith, nat_eq, if◌then◌else◌, ltb, leb, length, take, drop,
}
use nova_enclave_capsule.Prelude.Text.{codes}
use nova_enclave_capsule.Prelude.Action.{failed, or_panic}
use nova_enclave_capsule.Channel.{
  Bytes, alg_seq, bit_string, public_key_as_der, len_bytes, parse_der_length, slice_from, slice,
  key_bytes, content_of, bits_of, der_key_bytes,
}

abbrev framed : Bytes → Bytes
framed key =
    0x30 ∷ 118 ∷ 0x30 ∷ 16 ∷ 0x06 ∷ 0x07 ∷ 0x2a ∷ 0x86 ∷ 0x48 ∷ 0xce ∷ 0x3d ∷ 0x02 ∷ 0x01 ∷ 0x06
    ∷ 0x05 ∷ 0x2b ∷ 0x81 ∷ 0x04 ∷ 0x00 ∷ 0x22 ∷ 0x03 ∷ 98 ∷ 0x00 ∷ key

bit_string-eq : (key : Bytes) → length key ≡ 97 → bit_string key ≡ 0x03 ∷ 98 ∷ 0x00 ∷ key
unfolding bit_string
bit_string-eq key h =
    ap
      (λ n.
        0x03
        ∷ ((if ltb 127 (1 + n) then 0x81 ∷ (1 + n) % 256 ∷ [] else (1 + n) % 256 ∷ [])
            ++ (0x00 ∷ key)))
      h

with_bits : Bytes → Bytes
with_bits bits =
    let len = length alg_seq + length bits in
    0x30
    ∷ ((if ltb 127 len then (0x80 + length (len_bytes len)) ∷ len_bytes len else len % 256 ∷ [])
        ++ (alg_seq ++ bits))

with_bits-framed : (key : Bytes) → length key ≡ 97 → with_bits (0x03 ∷ 98 ∷ 0x00 ∷ key) ≡ framed key
unfolding with_bits alg_seq len_bytes
with_bits-framed key h =
    ap
      (λ n.
        let len = 18 + suc (suc (suc n)) in
        0x30
        ∷ ((if ltb 127 len then (0x80 + length (len_bytes len)) ∷ len_bytes len else len % 256 ∷ [])
            ++ (alg_seq ++ (0x03 ∷ 98 ∷ 0x00 ∷ key))))
      h

public_key_as_der-framed : (key : Bytes) → length key ≡ 97 → public_key_as_der key ≡ framed key
unfolding public_key_as_der with_bits
public_key_as_der-framed key h =
    let same : bit_string key ≡ 0x03 ∷ 98 ∷ 0x00 ∷ key = bit_string-eq key h in
    let framed_as : public_key_as_der key ≡ with_bits (0x03 ∷ 98 ∷ 0x00 ∷ key) =
      ap with_bits same in
    framed_as ∙ with_bits-framed key h

take-all : (n : ℕ) (bytes : Bytes) → length bytes ≡ n → take n bytes ≡ bytes
take-all zero [] h = refl
take-all zero (b ∷ bytes) h = absurd (ground arith)
take-all (suc n) [] h = absurd (ground arith)
take-all (suc n) (b ∷ bytes) h = ap (λ t. b ∷ t) (take-all n bytes (ground arith))

key_bytes-framed : (key : Bytes) → length key ≡ 97 → key_bytes (0x03 ∷ 98 ∷ 0x00 ∷ key) ≡ ok key
unfolding key_bytes parse_der_length slice
key_bytes-framed key h =
    subst
      (λ n.
        (fail_if (ltb (suc (suc (suc n))) 100)
            (failed (codes "Invalid DER: BIT STRING length mismatch"))
          >> or_panic (if leb 100 (suc (suc (suc n))) then some (take 97 key) else none))
        ≡ ok key)
      (sym h) (ap ok (take-all 97 key h))

content : Bytes → Bytes
content key = drop 2 (framed key)

-- The length of a framed key.
abbrev after_frame : ℕ → ℕ
after_frame n = suc (
    suc (
      suc (
        suc (
          suc (
            suc (
              suc (
                suc (
                  suc (
                    suc (
                      suc (
                        suc (
                          suc (
                            suc (suc (suc (suc (suc (suc (suc (suc (suc (suc n))))))))))))))))))))))

content_of-framed : (key : Bytes) → length key ≡ 97 → content_of (framed key) ≡ ok (content key)
unfolding content_of slice_from parse_der_length content
content_of-framed key h =
    ap
      (λ n.
        fail_if (ltb (after_frame n) 4 || false) (failed (codes "Invalid DER: expected SEQUENCE"))
        >> or_panic (if leb 2 (after_frame n) then some (content key) else none))
      h

bits_of-content : (key : Bytes) → bits_of (content key) ≡ ok (0x03 ∷ 98 ∷ 0x00 ∷ key)
unfolding bits_of parse_der_length content
bits_of-content key = refl

der_key_bytes-framed : (key : Bytes) → length key ≡ 97 → der_key_bytes (framed key) ≡ ok key
unfolding der_key_bytes
der_key_bytes-framed key h =
    ap (λ r. r >>= λ c. bits_of c >>= key_bytes) (content_of-framed key h)
    ∙ ap (λ r. r >>= key_bytes) (bits_of-content key)
    ∙ key_bytes-framed key h

-- The key in what `public_key_as_der` makes of the 97 bytes of an uncompressed point is those bytes.
pub der_key_bytes-public_key_as_der :
    (key : Bytes) → length key ≡ 97 → der_key_bytes (public_key_as_der key) ≡ ok key
der_key_bytes-public_key_as_der key h =
    ap der_key_bytes (public_key_as_der-framed key h) ∙ der_key_bytes-framed key h
