-- ===== src/HostFs/PathName.antt =====
-- Paths as the sources use them: `Path::components` of Rust's standard library on Unix, and
-- `normalize_relative_path` of capsule-cli/src/hostfs_service.rs.
pub mod Plain
pub mod Normal
use nova_enclave_capsule.Prelude.{
  Bool, false, ◌||◌, List, [], ◌∷◌, ◌++◌, Result, ok, err, ◌>>=◌, ◌>>◌, fail_if, ◌==◌, list_eq,
  nat_eq, if◌then◌else◌,
}
use nova_enclave_capsule.Prelude.Text.{Text, codes, is_empty, split, trim}

-- `std::path::Component`; a prefix occurs on Windows only.
pub data Component : Type 0 where
  root_dir cur_dir parent_dir : Component
  normal : Text → Component

-- What stands between two slashes: nothing and `.` are skipped.
unfoldable pub component : Text → List Component
component part =
    if is_empty part || part == codes "."
    then []
    else if part == codes ".."
    then parent_dir ∷ []
    else normal part ∷ []

unfoldable pub body : List Text → List Component
unfolding component
body [] = []
body (part ∷ parts) = component part ++ body parts

-- A leading `.` is kept.
unfoldable pub relative : List Text → List Component
unfolding body
relative [] = []
relative (part ∷ parts) = if part == codes "." then cur_dir ∷ body parts else body (part ∷ parts)

unfoldable pub components : Text → List Component
unfolding body relative split
components [] = []
components (c ∷ s) =
    if c == b'/' then root_dir ∷ body (split b'/' s) else relative (split b'/' (c ∷ s))

unfoldable pub is_absolute : Text → Bool
is_absolute [] = false
is_absolute (c ∷ s) = c == b'/'

-- A path to which only names were pushed: its names. `as_os_str().is_empty()` holds of no names.
abbrev pub Names : Type 0
Names = List Text

-- Why a path is refused; each is an `FsProxyError` with the code EINVAL.
pub data InvalidPath : Type 0 where
  must_be_relative traversal : InvalidPath

-- The loop of `normalize_relative_path`.
unfoldable pub push_components : Names → List Component → Result InvalidPath Names
push_components normalized [] = ok normalized
push_components normalized (normal part ∷ rest) = push_components (normalized ++ part ∷ []) rest
push_components normalized (cur_dir ∷ rest) = push_components normalized rest
push_components normalized (parent_dir ∷ rest) = err traversal
push_components normalized (root_dir ∷ rest) = err must_be_relative

-- What follows the trimming.
unfoldable pub normalize_raw : Text → Result InvalidPath Names
normalize_raw raw =
    if is_empty raw || raw == codes "."
    then ok []
    else do fail_if (is_absolute raw) must_be_relative; push_components [] (components raw)

unfoldable pub normalize_relative_path : Text → Result InvalidPath Names
unfolding normalize_raw
normalize_relative_path path = normalize_raw (trim path)
