-- ===== src/Console/Tests.antt =====
-- The log of capsule-cli/src/bin/capsule-runtime/console.rs over a small circular buffer.
use nova_enclave_capsule.Prelude.{
  ℕ, ◌+◌, ◌-◌, none, some, [], ◌∷◌, ◌++◌, ◌≡◌, refl, true, arith, length, length-append,
  length-drop, take, drop, leb, if◌then◌else◌, append-nil,
}
use nova_enclave_capsule.Console.{Bytes, CircBuf, ByteLog, append, read}
use nova_enclave_capsule.Console.History.{IsCircBuf, Holds, start, read_lem, append_lem}

-- A buffer by the number of free bytes and what it holds.
abbrev Buffer : Type 0
Buffer = ℕ × Bytes

abbrev list_buffer : CircBuf
list_buffer = record {
  Buffer = Buffer;
  with_capacity = λ n. some (n, []);
  avail = λ b. b.0;
  advance_read = λ b n. if leb n (length b.1) then some (b.0 + n, drop n b.1) else none;
  write = λ b bytes.
      if leb (length bytes) b.0
      then some ((b.0 - length bytes, b.1 ++ bytes), length bytes)
      else none;
  get_bytes_upto_size = λ b n. take n b.1 ∷ [];
}

abbrev list_buffer-IsCircBuf : IsCircBuf list_buffer
list_buffer-IsCircBuf = record {
  cap = λ b. b.0 + length b.1;
  contents = λ b. b.1;
  with_capacity-some = λ n. ((n, []), refl, refl, omega arith);
  avail-cap = λ b. refl;
  advance_read-drop = λ b n h.
      let fits : leb n (length b.1) ≡ true = ground (arith, h) in
      ((b.0 + n, drop n b.1), rw fits refl, refl, omega (arith, h, length-drop n b.1));
  write-append = λ b bytes h.
      let fits : leb (length bytes) b.0 ≡ true = ground (arith, h) in
      (
        (b.0 - length bytes, b.1 ++ bytes),
        rw fits refl,
        refl,
        omega (arith, h, length-append b.1 bytes),
      );
  get_bytes_upto_size-take = λ b n. append-nil (take n b.1);
}

-- A log of four bytes that holds the last three of a history of five.
abbrev sample_log : ByteLog list_buffer
sample_log = record { buffer = (1, 3 ∷ 4 ∷ 5 ∷ []); head = 2 }

abbrev history : Bytes
history = 1 ∷ 2 ∷ 3 ∷ 4 ∷ 5 ∷ []

sample_log-Holds : Holds list_buffer list_buffer-IsCircBuf sample_log history
sample_log-Holds = record { within = omega arith; kept = refl }

read_lem_example : read list_buffer sample_log 0 2 ≡ (
  start list_buffer list_buffer-IsCircBuf sample_log 0
      + length (take 2 (drop (start list_buffer list_buffer-IsCircBuf sample_log 0) history)),
  take 2 (drop (start list_buffer list_buffer-IsCircBuf sample_log 0) history),
)
read_lem_example = read_lem list_buffer list_buffer-IsCircBuf sample_log 0 2 sample_log-Holds

append_lem_example :
    (log' : ByteLog list_buffer) × (trim_cnt : ℕ) × (append list_buffer sample_log (6 ∷ 7 ∷ [])
      ≡ some (log', trim_cnt))
    × Holds list_buffer list_buffer-IsCircBuf log' (history ++ 6 ∷ 7 ∷ [])
    × (log'.head ≡ sample_log.head + trim_cnt)
    × (list_buffer-IsCircBuf.cap log'.buffer ≡ list_buffer-IsCircBuf.cap sample_log.buffer)
append_lem_example =
    append_lem list_buffer list_buffer-IsCircBuf sample_log (6 ∷ 7 ∷ []) sample_log-Holds
      (omega arith)
