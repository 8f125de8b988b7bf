-- ===== src/HostFs/Protocol.antt =====
-- capsule-cli/src/fs_protocol.rs. A message is a frame: the length of its JSON as four bytes, then
-- the JSON. serde_json is the parameter `Codec`; a reader is the list of the bytes up to the end of
-- the stream, and a writer is the list of the bytes that are written.
pub mod Frames
use nova_enclave_capsule.Prelude.{
  ℕ, ◌+◌, ◌*◌, ◌/◌, ◌%◌, Bool, Option, List, [], ◌∷◌, ◌++◌, Result, ok, err, ◌>>=◌, ◌>>◌, fail_if,
  ok_or, ltb, length, take, drop, if◌then◌else◌,
}
use nova_enclave_capsule.Prelude.Text.{Text}
use nova_enclave_capsule.Prelude.Words.{u32_mod, checked}

abbrev pub Bytes : Type 0
Bytes = List ℕ

abbrev pub hostfs_protocol_version : ℕ
hostfs_protocol_version = 1

abbrev pub max_msg_len : ℕ
max_msg_len = 8 * 1024 * 1024

pub data ProtocolError : Type 0 where
  not_serializable too_large not_u32 unexpected_eof malformed : ProtocolError

-- `serde_json::to_vec` and `serde_json::from_slice` at one type of messages.
pub record Codec (M : Type 0) : Type 0 where
  pub to_vec : M → Option Bytes
  pub from_slice : Bytes → Option M

-- `u32::to_le_bytes`
unfoldable pub to_le_bytes : ℕ → Bytes
to_le_bytes n = n % 256 ∷ n / 256 % 256 ∷ n / 65_536 % 256 ∷ n / 16_777_216 % 256 ∷ []

-- `u32::from_le_bytes`, of four bytes.
unfoldable pub from_le_bytes : Bytes → ℕ
from_le_bytes [] = 0
from_le_bytes (b ∷ bs) = b + 256 * from_le_bytes bs

-- `AsyncReadExt::read_exact`: the bytes that are read, and those that are left.
unfoldable pub read_exact : ℕ → Bytes → Result ProtocolError (Bytes × Bytes)
read_exact n input =
    if ltb (length input) n then err unexpected_eof else ok (take n input, drop n input)

module _ {M : Type 0} (codec : Codec M) where
  unfoldable pub send_msg : M → Result ProtocolError Bytes
  send_msg message = do
    payload ← ok_or (codec.to_vec message) not_serializable
    fail_if (ltb max_msg_len (length payload)) too_large
    len ← ok_or (checked u32_mod (length payload)) not_u32
    ok (to_le_bytes len ++ payload)

  unfoldable pub recv_msg : Bytes → Result ProtocolError (M × Bytes)
  recv_msg input = do
    (len_buf, body) ← read_exact 4 input
    let len = from_le_bytes len_buf
    fail_if (ltb max_msg_len len) too_large
    (payload, rest) ← read_exact len body
    message ← ok_or (codec.from_slice payload) malformed
    ok (message, rest)

pub record HelloRequest : Type 0 where
  pub protocol_version : ℕ
  pub mount_name : Text

pub record HelloResponse : Type 0 where
  pub protocol_version : ℕ
  pub mount_name : Text
  pub read_only : Bool

-- An `os_code` is an `i32` that is never negative here: it is an errno.
pub record FsProxyError : Type 0 where
  pub os_code : Option ℕ
  pub message : Text

pub data FsEntryType : Type 0 where
  file directory symlink other : FsEntryType

pub record FsMetadata : Type 0 where
  pub entry_type : FsEntryType
  pub len : ℕ
  pub read_only : Bool
  pub mtime_secs : ℕ
  pub mtime_nsecs : ℕ
  pub atime_secs : ℕ
  pub atime_nsecs : ℕ

pub record FsDirEntry : Type 0 where
  pub name : Text
  pub entry_type : FsEntryType

pub record FsStat : Type 0 where
  pub total_bytes : ℕ
  pub available_bytes : ℕ

pub data FsProxyRequest : Type 0 where
  hello : HelloRequest → FsProxyRequest
  ping stat_fs : FsProxyRequest
  get_metadata read_dir remove_file remove_dir fsync : (path : Text) → FsProxyRequest
  read_file : (path : Text) (offset len : ℕ) → FsProxyRequest
  write_file : (path : Text) (offset : ℕ) (bytes : Bytes) (create truncate : Bool) → FsProxyRequest
  set_len : (path : Text) (size : ℕ) → FsProxyRequest
  mkdir : (path : Text) (recursive : Bool) → FsProxyRequest
  rename : (from to : Text) → FsProxyRequest

pub data FsProxyResponse : Type 0 where
  hello : HelloResponse → FsProxyResponse
  pong done : FsProxyResponse
  stat_fs : FsStat → FsProxyResponse
  metadata : FsMetadata → FsProxyResponse
  read_dir : List FsDirEntry → FsProxyResponse
  read_file : Bytes → FsProxyResponse
  write_file : (written : ℕ) → FsProxyResponse
  error : FsProxyError → FsProxyResponse
