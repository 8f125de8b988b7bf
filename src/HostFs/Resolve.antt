-- ===== src/HostFs/Resolve.antt =====
-- How capsule-cli/src/hostfs_service.rs finds the host path of a path that a client names.
pub mod Within
use nova_enclave_capsule.Prelude.{
  ℕ, Bool, true, false, Option, none, some, List, [], ◌∷◌, ◌++◌, Result, ok, err, ◌>>=◌, ◌>>◌, ◌==◌,
  list_eq, nat_eq, ◌&&◌, if◌then◌else◌,
}
use nova_enclave_capsule.Prelude.Text.{Text, codes, is_empty}
use nova_enclave_capsule.HostFs.Protocol.{FsProxyError}
use nova_enclave_capsule.HostFs.PathName.{Names, InvalidPath, must_be_relative, traversal}
use nova_enclave_capsule.HostFs.PathName
use nova_enclave_capsule.HostFs.Io.{FilePath, Os, map_err}

abbrev pub einval : ℕ
einval = 22

unfoldable pub invalid_input : Text → FsProxyError
invalid_input message = record { os_code = some einval; message = message }

abbrev path_error : InvalidPath → FsProxyError
path_error must_be_relative = invalid_input (codes "hostfs paths must be relative")
path_error traversal = invalid_input (codes "hostfs path traversal is not allowed")

abbrev with_message : Result InvalidPath Names → Result FsProxyError Names
with_message (ok names) = ok names
with_message (err e) = err (path_error e)

-- `normalize_relative_path`, with its errors as the client sees them.
unfoldable pub normalize : Text → Result FsProxyError Names
unfolding PathName.normalize_relative_path invalid_input
normalize path = with_message (PathName.normalize_relative_path path)

-- `Path::starts_with`
unfoldable pub starts_with : FilePath → FilePath → Bool
starts_with path [] = true
starts_with [] (r ∷ root) = false
starts_with (p ∷ path) (r ∷ root) = p == r && starts_with path root

-- `path == root` holds only if `path.starts_with(root)` does.
unfoldable pub ensure_within_root : FilePath → Text → FilePath → Result FsProxyError (Unit {0})
unfolding starts_with invalid_input
ensure_within_root root mount_name path =
    if starts_with path root
    then ok tt
    else err (invalid_input (codes "hostfs path escapes mount root '" ++ (mount_name ++ codes "'")))

-- `Path::parent` and `Path::file_name` of a path that is not empty.
unfoldable pub parent : Names → Names
parent [] = []
parent (name ∷ []) = []
parent (name ∷ next ∷ names) = name ∷ parent (next ∷ names)

unfoldable pub file_name : Names → Option Text
file_name [] = none
file_name (name ∷ []) = some name
file_name (name ∷ next ∷ names) = file_name (next ∷ names)

module _ (os : Os) (s : os.State) (root : FilePath) (mount_name : Text) where
  -- `canonicalize`, and then `ensure_within_root`.
  unfoldable pub canonical_within : FilePath → Result FsProxyError FilePath
  unfolding ensure_within_root
  canonical_within path = do
    canonical ← map_err (os.canonicalize s path)
    ensure_within_root root mount_name canonical
    ok canonical

  unfoldable pub resolve_follow_path_sync : Names → Result FsProxyError FilePath
  unfolding canonical_within
  resolve_follow_path_sync relative = canonical_within (root ++ relative)

  -- What one round makes of the path with the next name: a path that exists is made canonical, and
  -- has to lie under the root.
  unfoldable pub enter : FilePath → Result FsProxyError FilePath
  unfolding canonical_within
  enter current = if os.exists s current then canonical_within current else ok current

  -- The loop of `resolve_path_for_create_sync`. A path that was normalized has names only, so its
  -- refusal of another component does not occur.
  unfoldable pub descend : FilePath → Names → Result FsProxyError FilePath
  unfolding enter
  descend current [] = ok current
  descend current (part ∷ rest) = enter (current ++ part ∷ []) >>= λ next. descend next rest

  unfoldable pub resolve_path_for_create_sync : Names → Result FsProxyError FilePath
  unfolding descend invalid_input
  resolve_path_for_create_sync [] =
      err (invalid_input (codes "path must not refer to the mount root"))
  resolve_path_for_create_sync (part ∷ rest) = descend root (part ∷ rest)

  -- The directory that holds the leaf.
  unfoldable pub resolve_parent : Names → Result FsProxyError FilePath
  unfolding resolve_follow_path_sync
  resolve_parent [] = ok root
  resolve_parent (name ∷ names) = resolve_follow_path_sync (name ∷ names)

  abbrev join_leaf : FilePath → Option Text → Result FsProxyError FilePath
  join_leaf dir none = err (invalid_input (codes "hostfs path must refer to a filesystem entry"))
  join_leaf dir (some leaf) = ok (dir ++ leaf ∷ [])

  unfoldable pub resolve_path_preserving_leaf_sync : Names → Bool → Result FsProxyError FilePath
  unfolding resolve_parent parent file_name invalid_input
  resolve_path_preserving_leaf_sync [] true = ok root
  resolve_path_preserving_leaf_sync [] false =
      err (invalid_input (codes "path must not refer to the mount root"))
  resolve_path_preserving_leaf_sync (name ∷ names) allow_root = do
    dir ← resolve_parent (parent (name ∷ names))
    join_leaf dir (file_name (name ∷ names))

  -- The methods of `HostFsService`, each from the path's text.
  unfoldable pub resolve_existing_path : Text → Result FsProxyError FilePath
  unfolding normalize resolve_follow_path_sync
  resolve_existing_path path = do relative ← normalize path; resolve_follow_path_sync relative

  unfoldable pub resolve_path_for_create : Text → Result FsProxyError FilePath
  unfolding normalize resolve_path_for_create_sync
  resolve_path_for_create path = do relative ← normalize path; resolve_path_for_create_sync relative

  unfoldable pub resolve_path_preserving_leaf : Text → Bool → Result FsProxyError FilePath
  unfolding normalize resolve_path_preserving_leaf_sync
  resolve_path_preserving_leaf path allow_root = do
    relative ← normalize path
    resolve_path_preserving_leaf_sync relative allow_root
