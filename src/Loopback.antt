-- ===== src/Loopback.antt =====
-- The mounts that a run asks for, in capsule-cli/src/hostfs.rs: each `--mount` binding is matched with
-- an entry of the manifest.
pub mod Resolved
mod Tests
use nova_enclave_capsule.Prelude.{
  ℕ, Bool, true, false, not, ◌&&◌, Option, none, some, List, [], ◌∷◌, ◌++◌, Result, ok, err, ◌>>=◌,
  ◌>>◌, fail_if, ok_or, ◌==◌, nat_eq, list_eq, any, seen, if◌then◌else◌,
}
use nova_enclave_capsule.Prelude.Text.{Text, codes, is_empty, trim, to_ascii_lowercase}
use nova_enclave_capsule.HostFs.PathName.{is_absolute}
use nova_enclave_capsule.Manifest.{Manifest, HostFsMountConfig, hostfs_mounts}

abbrev pub container_hostfs_root : Text
container_hostfs_root = codes "/mnt/capsule-hostfs-data"

pub record RuntimeMountBinding : Type 0 where
  pub name : Text
  pub host_path : Text

pub record LoopbackMountRequest : Type 0 where
  pub name : Text
  pub host_state_dir : Text
  pub container_mount_path : Text
  pub enclave_mount_path : Text
  pub size_mb : ℕ
  pub required : Bool

pub data LoopbackError : Type 0 where
  not_a_pair name_missing host_path_missing : LoopbackError
  duplicate_binding no_mounts no_matching_entry missing_binding : LoopbackError

abbrev cons_front : ℕ → Option (Text × Text) → Option (Text × Text)
cons_front c none = none
cons_front c (some (front, back)) = some (c ∷ front, back)

-- `split_once`, of one character.
unfoldable pub split_once : ℕ → Text → Option (Text × Text)
split_once separator [] = none
split_once separator (c ∷ s) =
    let later = cons_front c (split_once separator s) in
    if c == separator then some ([], s) else later

unfoldable pub parse_runtime_mount_binding : Text → Result LoopbackError RuntimeMountBinding
unfolding split_once
parse_runtime_mount_binding spec = do
  (name, host_path) ← ok_or (split_once b'=' spec) not_a_pair
  fail_if (is_empty (trim name)) name_missing
  fail_if (is_empty (trim host_path)) host_path_missing
  ok (record { name = trim name; host_path = trim host_path })

abbrev pub name_key : Text → Text
name_key name = to_ascii_lowercase (trim name)

-- The loop that fills `bindings_by_name`, with the keys that it has met.
unfoldable pub index :
    List Text → List RuntimeMountBinding → Result LoopbackError (List (Text × RuntimeMountBinding))
index keys [] = ok []
index keys (binding ∷ rest) = do
  fail_if (seen (name_key binding.name) keys) duplicate_binding
  table ← index (name_key binding.name ∷ keys) rest
  ok ((name_key binding.name, binding) ∷ table)

-- `HashMap::get`
unfoldable pub get : Text → List (Text × RuntimeMountBinding) → Option RuntimeMountBinding
get key [] = none
get key ((other, binding) ∷ table) =
    let later = get key table in if other == key then some binding else later

-- Whether an entry has the name of the binding, but for the case of ASCII letters.
unfoldable pub has_entry : List HostFsMountConfig → RuntimeMountBinding → Bool
has_entry mounts binding =
    any (λ mount. to_ascii_lowercase mount.name == to_ascii_lowercase (trim binding.name)) mounts

unfoldable pub check_bindings :
    List HostFsMountConfig → List RuntimeMountBinding → Result LoopbackError (Unit {0})
unfolding has_entry
check_bindings mounts [] = ok tt
check_bindings mounts (binding ∷ rest) = do
  fail_if (not (has_entry mounts binding)) no_matching_entry
  check_bindings mounts rest

-- `Path::join`, where a path that is absolute replaces the base.
unfoldable pub join : Text → Text → Text
unfolding is_absolute
join base path = if is_absolute path then path else base ++ b'/' ∷ path

unfoldable pub to_request : HostFsMountConfig → RuntimeMountBinding → LoopbackMountRequest
unfolding join
to_request mount binding = record {
  name = mount.name;
  host_state_dir = binding.host_path;
  container_mount_path = join container_hostfs_root mount.name;
  enclave_mount_path = mount.mount_path;
  size_mb = mount.size_mb;
  required = mount.required;
}

unfoldable pub request_of :
    HostFsMountConfig
    → Option RuntimeMountBinding
    → Result LoopbackError (List LoopbackMountRequest)
unfolding to_request
request_of mount none = if mount.required then err missing_binding else ok []
request_of mount (some binding) = ok (to_request mount binding ∷ [])

-- The loop over the entries of the manifest.
unfoldable pub collect_requests :
    List (Text × RuntimeMountBinding)
    → List HostFsMountConfig
    → Result LoopbackError (List LoopbackMountRequest)
unfolding get request_of
collect_requests table [] = ok []
collect_requests table (mount ∷ mounts) = do
  request ← request_of mount (get (name_key mount.name) table)
  rest ← collect_requests table mounts
  ok (request ++ rest)

abbrev pub or_empty : Option (List HostFsMountConfig) → List HostFsMountConfig
or_empty none = []
or_empty (some mounts) = mounts

unfoldable pub resolve_mounts :
    List HostFsMountConfig
    → List RuntimeMountBinding
    → Result LoopbackError (List LoopbackMountRequest)
unfolding index check_bindings collect_requests
resolve_mounts mounts bindings = do
  table ← index [] bindings
  fail_if (not (is_empty bindings) && is_empty mounts) no_mounts
  check_bindings mounts bindings
  collect_requests table mounts

unfoldable pub resolve_loopback_mounts :
    Manifest → List RuntimeMountBinding → Result LoopbackError (List LoopbackMountRequest)
unfolding hostfs_mounts resolve_mounts
resolve_loopback_mounts manifest bindings =
    resolve_mounts (or_empty (hostfs_mounts manifest)) bindings
