-- ===== src/Console.antt =====
-- The log of the application in capsule-cli/src/bin/capsule-runtime/console.rs. The crate circbuf is
-- a parameter; the watchers, which only wake readers up, are left out.
pub mod History
mod Tests
use nova_enclave_capsule.Prelude.{
  ℕ, ◌+◌, ◌-◌, Option, none, some, List, [], ◌∷◌, ◌++◌, ltb, length, drop, if◌then◌else◌, ◌*◌, ◌==◌,
  nat_eq,
}

abbrev pub Bytes : Type 0
Bytes = List ℕ

-- `circbuf::CircBuf`: what the log calls. `none` is the `Err` of the crate.
pub record CircBuf : Type 1 where
  pub Buffer : Type 0
  pub with_capacity : ℕ → Option Buffer
  pub avail : Buffer → ℕ
  pub advance_read : Buffer → ℕ → Option Buffer
  pub write : Buffer → Bytes → Option (Buffer × ℕ)
  pub get_bytes_upto_size : Buffer → ℕ → List Bytes

abbrev pub app_log_capacity : ℕ
app_log_capacity = 128 * 1024

-- The parts of the slices behind the offset, which is the loop of `read`.
unfoldable pub copy_from : ℕ → List Bytes → Bytes
copy_from offset [] = []
copy_from offset (data_slice ∷ rest) =
    let here = drop offset data_slice ++ copy_from 0 rest in
    let later = copy_from (offset - length data_slice) rest in
    if ltb offset (length data_slice) then here else later

module _ (circ : CircBuf) where
  pub record ByteLog : Type 0 where
    pub buffer : circ.Buffer
    pub head : ℕ

  abbrev start_log : Option circ.Buffer → Option ByteLog
  start_log none = none
  start_log (some buffer) = some (record { buffer = buffer; head = 0 })

  -- `ByteLog::new`, where `none` is a panic.
  unfoldable pub new_log : Option ByteLog
  new_log = start_log (circ.with_capacity app_log_capacity)

  -- `.ignore()`: an error leaves the buffer as it is.
  abbrev or_same : circ.Buffer → Option circ.Buffer → circ.Buffer
  or_same buffer none = buffer
  or_same buffer (some advanced) = advanced

  -- The bytes that make room leave at the head.
  unfoldable pub make_room : ByteLog → ℕ → ByteLog × ℕ
  make_room log size =
      if ltb (circ.avail log.buffer) size
      then (
        record {
          buffer = or_same log.buffer (circ.advance_read log.buffer (size - circ.avail log.buffer));
          head = log.head + (size - circ.avail log.buffer);
        },
        size - circ.avail log.buffer,
      )
      else (log, 0)

  abbrev all_written : ℕ → ℕ → ℕ → Option (circ.Buffer × ℕ) → Option (ByteLog × ℕ)
  all_written head trim_cnt size none = none
  all_written head trim_cnt size (some (buffer, written)) =
      if written == size then some (record { buffer = buffer; head = head }, trim_cnt) else none

  -- `append`, with the number of bytes that it drops. `none` is a failed assertion.
  unfoldable pub append : ByteLog → Bytes → Option (ByteLog × ℕ)
  unfolding make_room
  append log bytes =
      let (roomy, trim_cnt) = make_room log (length bytes) in
      if ltb (circ.avail roomy.buffer) (length bytes)
      then none
      else all_written roomy.head trim_cnt (length bytes) (circ.write roomy.buffer bytes)

  unfoldable pub copied : ByteLog → ℕ → ℕ → Bytes
  unfolding copy_from
  copied log offset size = copy_from offset (circ.get_bytes_upto_size log.buffer (size + offset))

  -- `read` at a cursor into a buffer of `size` bytes: the cursor behind it, and the bytes.
  unfoldable pub read : ByteLog → ℕ → ℕ → ℕ × Bytes
  unfolding copied
  read log pos size =
      if ltb pos log.head
      then (log.head + length (copied log 0 size), copied log 0 size)
      else (pos + length (copied log (pos - log.head) size), copied log (pos - log.head) size)
