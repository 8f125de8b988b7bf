-- ===== src/CapsuleApi/Random.antt =====
-- Nonces and random bytes in capsule-cli/src/capsule_api.rs. The random source of the security
-- module is the list of what its calls return: a chunk of bytes, or an error, which is `none`.
pub mod Ends
use nova_enclave_capsule.Prelude.{
  ℕ, suc, ◌+◌, ◌-◌, ◌≤◌, Bool, true, false, Option, none, some, List, [], ◌∷◌, ◌++◌, Result, ok,
  err, ◌≡◌, refl, ◌↔◌, arith, ltb, leb, length, take, if◌then◌else◌, ◌==◌, nat_eq, ◌⊎◌, inl, inr,
  Bool-cases, length-append, length-take, drop, take-append-drop, append_assoc,
}
use nova_enclave_capsule.Prelude.Text.{is_empty}

abbrev pub Bytes : Type 0
Bytes = List ℕ

abbrev pub aes_gcm_nonce_len : ℕ
aes_gcm_nonce_len = 12

abbrev pub legacy_aes_gcm_nonce_len : ℕ
legacy_aes_gcm_nonce_len = 32

abbrev pub max_empty_random_chunks : ℕ
max_empty_random_chunks = 128

pub data NonceError : Type 0 where
  invalid_nonce_length : ℕ → NonceError

unfoldable pub normalize_decrypt_nonce : Bytes → Result NonceError (Bytes × Bool)
normalize_decrypt_nonce raw_nonce =
    if length raw_nonce == aes_gcm_nonce_len
    then ok (raw_nonce, false)
    else if length raw_nonce == legacy_aes_gcm_nonce_len
    then ok (take aes_gcm_nonce_len raw_nonce, true)
    else err (invalid_nonce_length (length raw_nonce))

-- How a collection ends: with bytes, with the error of the source, with too many empty chunks, or
-- not within the calls that the list holds.
pub data Collected : Type 0 where
  collected : Bytes → Collected
  source_failed too_many_empty unfinished : Collected

-- The loop, with what is collected and the number of empty chunks in a row.
unfoldable pub collect : ℕ → Bytes → ℕ → List (Option Bytes) → Collected
collect len buf empty_chunks [] = if ltb (length buf) len then unfinished else collected buf
collect len buf empty_chunks (none ∷ rest) =
    if ltb (length buf) len then source_failed else collected buf
collect len buf empty_chunks (some chunk ∷ rest) =
    let another = collect len buf (suc empty_chunks) rest in
    let full = collect len (buf ++ take (len - length buf) chunk) 0 rest in
    let more = collect len (buf ++ chunk) 0 rest in
    if ltb (length buf) len
    then if is_empty chunk
      then if leb max_empty_random_chunks (suc empty_chunks) then too_many_empty else another
      else if leb (len - length buf) (length chunk)
      then full
      else more
    else collected buf

unfoldable pub collect_random_bytes_from_source : ℕ → List (Option Bytes) → Collected
unfolding collect
collect_random_bytes_from_source len source = collect len [] 0 source

-- The bytes that the source gives before it fails.
abbrev pub joined : List (Option Bytes) → Bytes
joined [] = []
joined (none ∷ rest) = []
joined (some chunk ∷ rest) = chunk ++ joined rest

-- The bytes are the first `len` of those that are there.
abbrev pub IsPrefix : ℕ → Bytes → Bytes → Type 0
IsPrefix len out all_bytes = (length out ≡ len) × (left : Bytes) × (all_bytes ≡ out ++ left)

pub collect_done :
    (len : ℕ) (buf : Bytes) (empty_chunks : ℕ) (source : List (Option Bytes))
    → len ≤ length buf
    → collect len buf empty_chunks source ≡ collected buf
unfolding collect
collect_done len buf empty_chunks [] h = ground arith
collect_done len buf empty_chunks (none ∷ rest) h = ground arith
collect_done len buf empty_chunks (some chunk ∷ rest) h =
    let enough : ltb (length buf) len ≡ false = ground arith in rw (collect, enough) refl

rejoin :
    (buf front back chunk rest : Bytes)
    → front ++ back ≡ chunk
    → buf ++ (chunk ++ rest) ≡ (buf ++ front) ++ (back ++ rest)
rejoin buf front back chunk rest e =
    rw (← e, append_assoc front back rest, append_assoc buf front (back ++ rest)) refl

collect-IsPrefix :
    (len : ℕ) (buf : Bytes) (empty_chunks : ℕ) (source : List (Option Bytes)) {out : Bytes}
    → length buf ≤ len
    → collect len buf empty_chunks source ≡ collected out
    → IsPrefix len out (buf ++ joined source)
unfolding collect
collect-IsPrefix len buf empty_chunks [] {out} h e = elim (Bool-cases (ltb (length buf) len)) [
  | inl short ↦ absurd (ground arith)
  | inr enough ↦ let same : buf ≡ out = ground arith in rw (← same) (ground arith, [], refl)
]
collect-IsPrefix len buf empty_chunks (none ∷ rest) {out} h e =
    elim (Bool-cases (ltb (length buf) len)) [
      | inl short ↦ absurd (ground arith)
      | inr enough ↦ let same : buf ≡ out = ground arith in rw (← same) (ground arith, [], refl)
    ]
collect-IsPrefix len buf empty_chunks (some [] ∷ rest) {out} h e =
    elim (Bool-cases (ltb (length buf) len)) [
      | inl short ↦ collect-IsPrefix len buf (suc empty_chunks) rest h (ground arith)
      | inr enough ↦
          let same : buf ≡ out = ground arith in rw (← same) (ground arith, joined rest, refl)
    ]
collect-IsPrefix len buf empty_chunks (some (c ∷ chunk) ∷ rest) {out} h e =
    elim (Bool-cases (ltb (length buf) len)) [
      | inl short ↦ elim (Bool-cases (leb (len - length buf) (length (c ∷ chunk)))) [
        | inl last ↦
            let front = take (len - length buf) (c ∷ chunk) in
            let split = take-append-drop (len - length buf) (c ∷ chunk) in
            let exact : length (buf ++ front) ≡ len =
              grind (arith, length-append buf front, length-take (len - length buf) (c ∷ chunk)) in
            let stopped = collect_done len (buf ++ front) 0 rest (omega (arith, exact)) in
            let went_on : collect len (buf ++ front) 0 rest ≡ collected out = ground arith in
            let same : buf ++ front ≡ out = ground arith in
            rw (← same) (
              exact,
              drop (len - length buf) (c ∷ chunk) ++ joined rest,
              rejoin buf front (drop (len - length buf) (c ∷ chunk)) (c ∷ chunk) (joined rest)
                  split,
            )
        | inr partial ↦
            let size = length-append buf (c ∷ chunk) in
            let fits : length (buf ++ c ∷ chunk) ≤ len = ground (arith, size) in
            let went_on : collect len (buf ++ c ∷ chunk) 0 rest ≡ collected out = ground arith in
            let (total, left, whole) =
              collect-IsPrefix len (buf ++ c ∷ chunk) 0 rest fits went_on in
            (total, left, cc (whole, append_assoc buf (c ∷ chunk) (joined rest)))
      ]
      | inr enough ↦
          let same : buf ≡ out = ground arith in
          rw (← same) (ground arith, (c ∷ chunk) ++ joined rest, refl)
    ]

-- What is collected is as long as it was asked for, and it is the start of what the source gave:
-- no byte is left out, repeated or moved.
pub collect_random_bytes_from_source-IsPrefix :
    (len : ℕ) (source : List (Option Bytes)) {out : Bytes}
    → collect_random_bytes_from_source len source ≡ collected out
    → IsPrefix len out (joined source)
unfolding collect_random_bytes_from_source
collect_random_bytes_from_source-IsPrefix len source e =
    collect-IsPrefix len [] 0 source (omega arith) e

-- A nonce is accepted exactly if it has 12 bytes, or the 32 of the older form, of which the first 12
-- are then the nonce.
pub normalize_decrypt_nonce_iff :
    (raw nonce : Bytes) (legacy : Bool)
    → (normalize_decrypt_nonce raw ≡ ok (nonce, legacy)) ↔ (
        ((length raw ≡ 12) × (nonce ≡ raw) × (legacy ≡ false))
        ⊎ ((length raw ≡ 32) × (nonce ≡ take 12 raw) × (legacy ≡ true)))
unfolding normalize_decrypt_nonce
normalize_decrypt_nonce_iff raw nonce legacy = ground arith
