-- ===== src/HostFs/Protocol/Frames.antt =====
-- Frames of capsule-cli/src/fs_protocol.rs: what is sent is read back, and nothing else is read.
use native.Mathlib.Decide.{dec_lt}
use nova_enclave_capsule.Prelude.{
  ℕ, zero, suc, ◌^◌, ◌≤◌, ◌<◌, ◌≡◌, refl, ap, ◌-◌, [], ◌∷◌, ◌++◌, some, ok, err, arith, length,
  take, drop, length-append, append_assoc, Result-cases, take-append-drop, length-take,
  ltb-eq-false, inl, inr, Option-cases,
}
use nova_enclave_capsule.HostFs.Protocol.{
  Bytes, Codec, unexpected_eof, max_msg_len, to_le_bytes, from_le_bytes, read_exact, send_msg,
  recv_msg,
}

from_le_bytes-to_le_bytes : (n : ℕ) → n < 2 ^ 32 → from_le_bytes (to_le_bytes n) ≡ n
unfolding from_le_bytes to_le_bytes
from_le_bytes-to_le_bytes n h = omega arith

take-length : (xs ys : Bytes) → take (length xs) (xs ++ ys) ≡ xs
take-length [] ys = refl
take-length (x ∷ xs) ys = rw (take-length xs ys)

drop-length : (xs ys : Bytes) → drop (length xs) (xs ++ ys) ≡ ys
drop-length [] ys = refl
drop-length (x ∷ xs) ys = drop-length xs ys

read_exact-append : (xs ys : Bytes) → read_exact (length xs) (xs ++ ys) ≡ ok (xs, ys)
unfolding read_exact
read_exact-append xs ys = ground (arith, length-append xs ys, take-length xs ys, drop-length xs ys)

-- `serde_json` reads back what it writes.
pub record IsCodec {M : Type 0} (codec : Codec M) : Type 0 where
  pub from_slice-to_vec :
      (m : M) (payload : Bytes) → codec.to_vec m ≡ some payload → codec.from_slice payload ≡ some m

read_exact-le :
    (n : ℕ) (rest : Bytes) → read_exact 4 (to_le_bytes n ++ rest) ≡ ok (to_le_bytes n, rest)
unfolding to_le_bytes
read_exact-le n rest = read_exact-append (to_le_bytes n) rest

take-append_ge :
    (n : ℕ) (xs ys : Bytes) → length xs ≤ n → take n (xs ++ ys) ≡ xs ++ take (n - length xs) ys
take-append_ge n [] ys h = let e : n - 0 ≡ n = omega arith in rw e
take-append_ge zero (x ∷ xs) ys h = absurd (omega arith)
take-append_ge (suc n) (x ∷ xs) ys h =
    let e : suc n - suc (length xs) ≡ n - length xs = omega arith in
    rw (e, take-append_ge n xs ys (omega arith))

length-to_le_bytes : (n : ℕ) → length (to_le_bytes n) ≡ 4
unfolding to_le_bytes
length-to_le_bytes n = refl

read_exact_short :
    (n : ℕ) (input : Bytes) → length input < n → read_exact n input ≡ err unexpected_eof
unfolding read_exact
read_exact_short n input h = ground arith

read_exact_sound :
    (n : ℕ) (input : Bytes) {front rest : Bytes}
    → read_exact n input ≡ ok (front, rest)
    → (input ≡ front ++ rest) × (length front ≡ n)
unfolding read_exact
read_exact_sound n input h = ground (arith, take-append-drop n input, length-take n input)

-- The input starts with a frame of the message: four bytes of length, and that many bytes of JSON,
-- at most the limit.
pub record IsFrame {M : Type 0} (codec : Codec M) (input : Bytes) (m : M) (rest : Bytes)
    : Type 0 where
  pub len_buf : Bytes
  pub payload : Bytes
  pub input_eq : input ≡ len_buf ++ (payload ++ rest)
  pub four : length len_buf ≡ 4
  pub size : length payload ≡ from_le_bytes len_buf
  pub fits : length payload ≤ max_msg_len
  pub parsed : codec.from_slice payload ≡ some m

module _ {M : Type 0} (codec : Codec M) where
  -- A length in front of a payload is read back as that length, and the payload as its message.
  recv_msg-frame :
      (payload rest : Bytes) {m : M}
      → length payload ≤ max_msg_len
      → codec.from_slice payload ≡ some m
      → recv_msg codec (to_le_bytes (length payload) ++ (payload ++ rest)) ≡ ok (m, rest)
  unfolding recv_msg
  recv_msg-frame payload rest {m} fits e = rw (
    read_exact-le (length payload) (payload ++ rest),
    from_le_bytes-to_le_bytes (length payload) (omega arith),
    ltb-eq-false max_msg_len (length payload) fits,
    read_exact-append payload rest,
    e,
  )

  -- The frame that `send_msg` writes, and what it asks of the message.
  pub send_msg_sound :
      (m : M) {frame : Bytes}
      → send_msg codec m ≡ ok frame
      → (payload : Bytes) × (codec.to_vec m ≡ some payload)
        × (length payload ≤ max_msg_len)
        × (frame ≡ to_le_bytes (length payload) ++ payload)
  unfolding send_msg
  send_msg_sound m {frame} h = elim (Option-cases (codec.to_vec m)) [
    | inl e ↦ absurd (ground arith)
    | inr (payload, e) ↦ (payload, e, ground arith, ground arith)
  ]

  -- A message that can be sent is received as it was, and what follows it stays for the next
  -- message, if the JSON of the message is read back as the message.
  pub recv_msg-send_msg :
      IsCodec codec
      → (m : M) (rest : Bytes) {frame : Bytes} → send_msg codec m ≡ ok frame
      → recv_msg codec (frame ++ rest) ≡ ok (m, rest)
  recv_msg-send_msg law m rest h =
      let (payload, e, fits, shape) = send_msg_sound m h in
      rw (shape, append_assoc (to_le_bytes (length payload)) payload rest)
        (recv_msg-frame payload rest fits (law.from_slice-to_vec m payload e))

  -- A frame that is cut short anywhere gives the error of a stream that ends too early, and no
  -- message.
  pub recv_msg_truncated :
      (m : M) (n : ℕ) {frame : Bytes}
      → send_msg codec m ≡ ok frame
      → n < length frame
      → recv_msg codec (take n frame) ≡ err unexpected_eof
  unfolding recv_msg
  recv_msg_truncated m n h short =
      let (payload, e, fits, shape) = send_msg_sound m h in
      let size = length payload in
      let le = to_le_bytes size in
      let total = length-append le payload in
      let four = length-to_le_bytes size in
      rw shape (elim (dec_lt n 4) [
        | yes early ↦ rw (
            read_exact_short 4 (take n (le ++ payload))
              (omega (arith, length-take n (le ++ payload))))
        | no late ↦ rw (
          take-append_ge n le payload (omega arith),
          read_exact-le size (take (n - length le) payload),
          from_le_bytes-to_le_bytes size (omega arith),
          ltb-eq-false max_msg_len size fits,
          read_exact_short size (take (n - length le) payload)
              (omega (arith, ap length shape, length-take (n - length le) payload)),
        )
      ])

  -- A message is only ever read from a frame at the start of the input: four bytes of length, at
  -- most the limit, and that many bytes of JSON. The rest is left as it was.
  pub recv_msg_sound :
      (input : Bytes) {m : M} {rest : Bytes}
      → recv_msg codec input ≡ ok (m, rest)
      → IsFrame codec input m rest
  unfolding recv_msg
  recv_msg_sound input {m} {rest} h = elim (Result-cases (read_exact 4 input)) [
    | inl (e, cut) ↦ absurd (ground arith)
    | inr ((len_buf, body), got_len) ↦
        elim (Result-cases (read_exact (from_le_bytes len_buf) body)) [
          | inl (e, cut) ↦ absurd (ground arith)
          | inr ((payload, left), got_payload) ↦ elim (Option-cases (codec.from_slice payload)) [
            | inl e ↦ absurd (ground arith)
            | inr (message, e) ↦
                let read_len = read_exact_sound 4 input got_len in
                let read_payload = read_exact_sound (from_le_bytes len_buf) body got_payload in
                let parts : (from_le_bytes len_buf ≤ max_msg_len) × (message ≡ m) × (left ≡ rest) =
                  ground arith in
                record {
                  len_buf = len_buf;
                  payload = payload;
                  input_eq = cc (read_len.0, read_payload.0, parts.2);
                  four = read_len.1;
                  size = read_payload.1;
                  fits = omega arith;
                  parsed = cc;
                }
          ]
        ]
  ]
