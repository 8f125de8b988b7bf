-- ===== src/HostFs/Service/ReadOnly.antt =====
-- A read-only mount of capsule-cli/src/hostfs_service.rs.
use nova_enclave_capsule.Prelude.{ℕ, Bool, true, false, some, Result, err, ◌≡◌, refl, arith}
use nova_enclave_capsule.Prelude.Text.{Text}
use nova_enclave_capsule.HostFs.Protocol.{
  FsProxyError, FsProxyRequest, hello, ping, stat_fs, get_metadata, read_dir, remove_file,
  remove_dir, fsync, read_file, write_file, set_len, mkdir, rename, FsProxyResponse,
}
use nova_enclave_capsule.HostFs.Io.{Os, Io, ◌>>◌}
use nova_enclave_capsule.HostFs.Service.{
  HostFsService, erofs, ensure_writable, handle_statfs, handle_metadata, handle_read_dir,
  handle_read_file, handle_fsync, handle_request, handle_write_file, handle_set_len, handle_mkdir,
  handle_remove_file, handle_remove_dir, handle_rename,
}

-- The requests that may write.
unfoldable pub writes : FsProxyRequest → Bool
writes (write_file path offset bytes create truncate) = true
writes (set_len path size) = true
writes (mkdir path recursive) = true
writes (remove_file path) = true
writes (remove_dir path) = true
writes (rename from to) = true
writes _ = false

-- The state is unchanged, and the error is EROFS.
abbrev pub IsRefused : {S : Type 0} → S → S × Result FsProxyError FsProxyResponse → Type 0
IsRefused s (s', r) = (s' ≡ s) × (e : FsProxyError) × (r ≡ err e) × (e.os_code ≡ some erofs)

module _ (os : Os) (service : HostFsService) where
  handle_statfs_keeps : (s : os.State) → (handle_statfs os service s).0 ≡ s
  unfolding handle_statfs
  handle_statfs_keeps s = ground arith

  handle_metadata_keeps : (path : Text) (s : os.State) → (handle_metadata os service path s).0 ≡ s
  unfolding handle_metadata
  handle_metadata_keeps path s = ground arith

  handle_read_dir_keeps : (path : Text) (s : os.State) → (handle_read_dir os service path s).0 ≡ s
  unfolding handle_read_dir
  handle_read_dir_keeps path s = ground arith

  handle_read_file_keeps :
      (path : Text) (offset len : ℕ) (s : os.State)
      → (handle_read_file os service path offset len s).0 ≡ s
  unfolding handle_read_file
  handle_read_file_keeps path offset len s = ground arith

  handle_fsync_keeps : (path : Text) (s : os.State) → (handle_fsync os service path s).0 ≡ s
  unfolding handle_fsync
  handle_fsync_keeps path s = ground arith

  refused :
      service.read_only ≡ true
      → (s : os.State) (k : Io os.State FsProxyResponse)
      → IsRefused s ((ensure_writable os service >> k) s)
  unfolding ensure_writable
  refused h s k = rw h (refl, _, refl, refl)

  -- A service that is read-only leaves the state of the host's file system as it is, whatever the
  -- request, and answers a request that would write with the error EROFS.
  pub handle_request-read_only :
      service.read_only ≡ true
      → (request : FsProxyRequest) (s : os.State)
      → ((handle_request os service request s).0 ≡ s)
        × (writes request ≡ true → IsRefused s (handle_request os service request s))
  unfolding handle_request writes
  handle_request-read_only h (hello request) s = (refl, λ e. absurd (cc))
  handle_request-read_only h ping s = (refl, λ e. absurd (cc))
  handle_request-read_only h stat_fs s = (handle_statfs_keeps s, λ e. absurd (cc))
  handle_request-read_only h (get_metadata path) s =
      (handle_metadata_keeps path s, λ e. absurd (cc))
  handle_request-read_only h (read_dir path) s = (handle_read_dir_keeps path s, λ e. absurd (cc))
  handle_request-read_only h (read_file path offset len) s =
      (handle_read_file_keeps path offset len s, λ e. absurd (cc))
  handle_request-read_only h (fsync path) s = (handle_fsync_keeps path s, λ e. absurd (cc))
  handle_request-read_only h (write_file path offset bytes create truncate) s =
      let r = refused h s (handle_write_file os service path offset bytes create truncate) in
      (r.0, λ e. r)
  handle_request-read_only h (set_len path size) s =
      let r = refused h s (handle_set_len os service path size) in (r.0, λ e. r)
  handle_request-read_only h (mkdir path recursive) s =
      let r = refused h s (handle_mkdir os service path recursive) in (r.0, λ e. r)
  handle_request-read_only h (remove_file path) s =
      let r = refused h s (handle_remove_file os service path) in (r.0, λ e. r)
  handle_request-read_only h (remove_dir path) s =
      let r = refused h s (handle_remove_dir os service path) in (r.0, λ e. r)
  handle_request-read_only h (rename from to) s =
      let r = refused h s (handle_rename os service from to) in (r.0, λ e. r)
