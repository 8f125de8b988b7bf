-- ===== src/HostFs/Service.antt =====
-- The requests that capsule-cli/src/hostfs_service.rs answers. That a blocking task panics is not
-- modelled.
pub mod Listing
pub mod ReadOnly
use nova_enclave_capsule.Prelude.{
  ℕ, ◌*◌, ◌%◌, Bool, true, false, Option, none, some, List, [], ◌∷◌, ◌++◌, Result, ok, err, fail_if,
  ltb, length, if◌then◌else◌, not,
}
use nova_enclave_capsule.Prelude.Text.{Text, codes, is_empty, trim, decimal, text_lt}
use nova_enclave_capsule.Prelude.Words.{u64_mod}
use nova_enclave_capsule.HostFs.Protocol.{
  Bytes, FsProxyError, FsEntryType, file, directory, symlink, other, FsMetadata, FsDirEntry, FsStat,
  FsProxyRequest, hello, ping, stat_fs, get_metadata, read_dir, remove_file, remove_dir, fsync,
  read_file, write_file, set_len, mkdir, rename, FsProxyResponse, pong, done, metadata, error,
}
use nova_enclave_capsule.HostFs.Io.{
  FilePath, IoError, FileType, SystemTime, before_epoch, since_epoch, Metadata, DirEntry, Os,
  map_err, Io, ◌>>=◌, ◌>>◌, pure, lift, look, act,
}
use nova_enclave_capsule.HostFs.Resolve.{
  invalid_input, resolve_existing_path, resolve_path_for_create, resolve_path_preserving_leaf,
}

abbrev pub max_read_file_len : ℕ
max_read_file_len = 1024 * 1024

abbrev pub erofs : ℕ
erofs = 30

pub record HostFsService : Type 0 where
  pub mount_name : Text
  pub root : FilePath
  pub read_only : Bool

-- Why `HostFsService::new` gives no service.
pub data NewError : Type 0 where
  empty_mount_name not_a_directory : NewError
  no_root : IoError → NewError

unfoldable pub file_type_to_entry_type : FileType → FsEntryType
file_type_to_entry_type t =
    if t.is_dir
    then directory
    else if t.is_file
    then file
    else if t.is_symlink
    then symlink
    else other

unfoldable pub system_time_to_epoch : Option SystemTime → ℕ × ℕ
system_time_to_epoch none = (0, 0)
system_time_to_epoch (some before_epoch) = (0, 0)
system_time_to_epoch (some (since_epoch secs nanos)) = (secs, nanos)

unfoldable pub metadata_to_wire : Metadata → FsMetadata
unfolding file_type_to_entry_type system_time_to_epoch
metadata_to_wire m = record {
  entry_type = file_type_to_entry_type m.file_type;
  len = m.len;
  read_only = m.readonly;
  mtime_secs = (system_time_to_epoch m.modified).0;
  mtime_nsecs = (system_time_to_epoch m.modified).1;
  atime_secs = (system_time_to_epoch m.accessed).0;
  atime_nsecs = (system_time_to_epoch m.accessed).1;
}

-- One round of the loop of `handle_read_dir`.
unfoldable pub to_entry : Result IoError DirEntry → Result FsProxyError FsDirEntry
unfolding file_type_to_entry_type
to_entry (err e) = map_err (err e)
to_entry (ok entry) = go (map_err entry.file_type)
  where
    go : Result FsProxyError FileType → Result FsProxyError FsDirEntry
    go (err e) = err e
    go (ok t) = ok (record { name = entry.name; entry_type = file_type_to_entry_type t })

abbrev push :
    Result FsProxyError FsDirEntry
    → Result FsProxyError (List FsDirEntry)
    → Result FsProxyError (List FsDirEntry)
push (err e) rest = err e
push (ok entry) (err e) = err e
push (ok entry) (ok entries) = ok (entry ∷ entries)

-- The loop, which ends at the first error.
unfoldable pub collect : List (Result IoError DirEntry) → Result FsProxyError (List FsDirEntry)
unfolding to_entry
collect [] = ok []
collect (entry ∷ rest) = push (to_entry entry) (collect rest)

-- `sort_by` on the names, which is a stable sort.
unfoldable pub insert : FsDirEntry → List FsDirEntry → List FsDirEntry
insert x [] = x ∷ []
insert x (y ∷ ys) = let rest = insert x ys in if text_lt y.name x.name then y ∷ rest else x ∷ y ∷ ys

unfoldable pub sort_by_name : List FsDirEntry → List FsDirEntry
unfolding insert
sort_by_name [] = []
sort_by_name (x ∷ xs) = insert x (sort_by_name xs)

module _ (os : Os) where
  abbrev canonical_dir :
      os.State → Text → Bool → Result IoError FilePath → Result NewError HostFsService
  canonical_dir s mount_name read_only (err e) = err (no_root e)
  canonical_dir s mount_name read_only (ok root) =
      if os.is_dir s root
      then ok (record { mount_name = mount_name; root = root; read_only = read_only })
      else err not_a_directory

  unfoldable pub new : os.State → Text → FilePath → Bool → Result NewError HostFsService
  new s mount_name root read_only =
      if is_empty (trim mount_name)
      then err empty_mount_name
      else canonical_dir s mount_name read_only (os.canonicalize s root)

module _ (os : Os) (service : HostFsService) where
  unfoldable pub ensure_writable : Io os.State (Unit {0})
  ensure_writable =
      if service.read_only
      then lift (
          err (record {
            os_code = some erofs;
            message = codes "hostfs mount '" ++ (service.mount_name ++ codes "' is read-only");
          }))
      else pure tt

  abbrev existing : Text → Io os.State FilePath
  existing path = look (λ s. resolve_existing_path os s service.root service.mount_name path)

  abbrev for_create : Text → Io os.State FilePath
  for_create path = look (λ s. resolve_path_for_create os s service.root service.mount_name path)

  abbrev preserving_leaf : Text → Bool → Io os.State FilePath
  preserving_leaf path allow_root =
      look (λ s. resolve_path_preserving_leaf os s service.root service.mount_name path allow_root)

  unfoldable pub handle_statfs : Io os.State FsProxyResponse
  handle_statfs = do
    stat ← look (λ s. map_err (os.statvfs s service.root))
    pure (
        stat_fs (record {
          total_bytes = stat.blocks * stat.fragment_size % u64_mod;
          available_bytes = stat.blocks_available * stat.fragment_size % u64_mod;
        }))

  unfoldable pub handle_metadata : Text → Io os.State FsProxyResponse
  unfolding metadata_to_wire
  handle_metadata path = do
    resolved ← preserving_leaf path true
    m ← look (λ s. map_err (os.symlink_metadata s resolved))
    pure (metadata (metadata_to_wire m))

  unfoldable pub handle_read_dir : Text → Io os.State FsProxyResponse
  unfolding collect sort_by_name
  handle_read_dir path = do
    resolved ← existing path
    dir ← look (λ s. map_err (os.read_dir s resolved))
    entries ← lift (collect dir)
    pure (read_dir (sort_by_name entries))

  unfoldable pub handle_read_file : Text → ℕ → ℕ → Io os.State FsProxyResponse
  unfolding invalid_input
  handle_read_file path offset len = do
    lift (
        fail_if (ltb max_read_file_len len) (
          invalid_input (
            codes "read length "
            ++ (decimal len
                ++ (codes " exceeds hostfs max read size " ++ decimal max_read_file_len)))))
    resolved ← existing path
    opened ← look (λ s. map_err (os.open_read s resolved))
    sought ← lift (map_err (os.seek opened offset))
    data_read ← look (λ s. map_err (os.read s sought len))
    pure (read_file data_read)

  unfoldable pub handle_write_file : Text → ℕ → Bytes → Bool → Bool → Io os.State FsProxyResponse
  handle_write_file path offset bytes create truncate = do
    resolved ← for_create path
    opened ← act (os.open_write create truncate resolved)
    sought ← lift (map_err (os.seek opened offset))
    act (os.write_all sought bytes)
    look (λ s. map_err (os.sync_data s sought))
    pure (write_file (length bytes))

  unfoldable pub handle_set_len : Text → ℕ → Io os.State FsProxyResponse
  handle_set_len path size = do
    resolved ← for_create path
    opened ← act (os.open_write false false resolved)
    act (os.set_len opened size)
    look (λ s. map_err (os.sync_all s opened))
    pure done

  unfoldable pub handle_mkdir : Text → Bool → Io os.State FsProxyResponse
  handle_mkdir path recursive = do
    resolved ← for_create path
    act (if recursive then os.create_dir_all resolved else os.create_dir resolved)
    pure done

  unfoldable pub handle_remove_file : Text → Io os.State FsProxyResponse
  handle_remove_file path = do
    resolved ← preserving_leaf path false
    act (os.remove_file resolved)
    pure done

  unfoldable pub handle_remove_dir : Text → Io os.State FsProxyResponse
  handle_remove_dir path = do
    resolved ← preserving_leaf path false
    act (os.remove_dir resolved)
    pure done

  unfoldable pub handle_rename : Text → Text → Io os.State FsProxyResponse
  handle_rename from to = do
    source ← preserving_leaf from false
    target ← for_create to
    act (os.rename source target)
    pure done

  unfoldable pub handle_fsync : Text → Io os.State FsProxyResponse
  handle_fsync path = do
    resolved ← existing path
    opened ← look (λ s. map_err (os.open_read s resolved))
    look (λ s. map_err (os.sync_all s opened))
    pure done

  unfoldable pub handle_request : FsProxyRequest → Io os.State FsProxyResponse
  unfolding ensure_writable invalid_input handle_statfs handle_metadata handle_read_dir
      handle_read_file handle_write_file handle_set_len handle_mkdir handle_remove_file
      handle_remove_dir handle_rename handle_fsync
  handle_request (hello request) = lift (err (invalid_input (codes "hello may only be sent once")))
  handle_request ping = pure pong
  handle_request stat_fs = handle_statfs
  handle_request (get_metadata path) = handle_metadata path
  handle_request (read_dir path) = handle_read_dir path
  handle_request (read_file path offset len) = handle_read_file path offset len
  handle_request (write_file path offset bytes create truncate) =
      ensure_writable >> handle_write_file path offset bytes create truncate
  handle_request (set_len path size) = ensure_writable >> handle_set_len path size
  handle_request (mkdir path recursive) = ensure_writable >> handle_mkdir path recursive
  handle_request (remove_file path) = ensure_writable >> handle_remove_file path
  handle_request (remove_dir path) = ensure_writable >> handle_remove_dir path
  handle_request (rename from to) = ensure_writable >> handle_rename from to
  handle_request (fsync path) = handle_fsync path
