-- ===== src/Manifest/Mounts.antt =====
-- The check of the mounts in capsule-cli/src/manifest.rs (`Storage::validate`), and what it lets
-- through.
use nova_enclave_capsule.Prelude.{
  ℕ, ◌<◌, Bool, true, false, not, ◌&&◌, ◌||◌, none, some, List, [], ◌∷◌, Result, ok, ◌>>◌, fail_if,
  ◌≡◌, ◌≢◌, refl, ◌↔◌, inl, inr, arith, PartialEq, ◌==◌, nat_eq, list_eq, list_beq_iff, all, any,
  All, seen, Distinct, Fresh, Fresh-nil, Result-cases,
}
use mathlib.Core.List.{map}
use nova_enclave_capsule.Prelude.Text.{
  Text, codes, is_empty, trim, to_ascii_lowercase, is_ascii_alphanumeric,
}
use nova_enclave_capsule.HostFs.PathName.{
  Component, root_dir, cur_dir, parent_dir, normal, components, is_absolute,
}
use nova_enclave_capsule.Manifest.{
  HostFsMountConfig, Storage, ManifestError, mount_name_required, mount_name_characters,
  mount_path_relative, mount_path_components, mount_path_outside_root, mount_size_zero,
  duplicate_mount_name, duplicate_mount_path,
}

-- Two paths are equal if their components are.
abbrev component_beq : Component → Component → Bool
component_beq root_dir root_dir = true
component_beq cur_dir cur_dir = true
component_beq parent_dir parent_dir = true
component_beq (normal a) (normal b) = a == b
component_beq a b = false

pub component_beq_iff : (a b : Component) → (component_beq a b ≡ true) ↔ (a ≡ b)
component_beq_iff (normal a) (normal b) = ground (arith, list_beq_iff a b)
component_beq_iff a b = ground arith

instance abbrev pub component_eq : PartialEq Component
component_eq = record { eq = component_beq; eq_iff = component_beq_iff }

unfoldable pub is_name_character : ℕ → Bool
unfolding is_ascii_alphanumeric
is_name_character c = is_ascii_alphanumeric c || c == b'-' || c == b'_' || c == b'.'

unfoldable pub is_dotted : Component → Bool
is_dotted cur_dir = true
is_dotted parent_dir = true
is_dotted component = false

-- `Path::starts_with`
unfoldable pub starts_with : List Component → List Component → Bool
starts_with path [] = true
starts_with [] (b ∷ base) = false
starts_with (c ∷ path) (b ∷ base) = c == b && starts_with path base

abbrev pub allowed_root : List Component
allowed_root = root_dir ∷ normal (codes "mnt") ∷ []

unfoldable pub validate_mount : HostFsMountConfig → Result ManifestError (Unit {0})
unfolding is_name_character is_dotted starts_with
validate_mount mount = do
  fail_if (is_empty (trim mount.name)) mount_name_required
  fail_if (not (all is_name_character mount.name)) mount_name_characters
  fail_if (not (is_absolute mount.mount_path)) mount_path_relative
  fail_if (any is_dotted (components mount.mount_path)) mount_path_components
  fail_if
      (components mount.mount_path == allowed_root
        || not (starts_with (components mount.mount_path) allowed_root))
      mount_path_outside_root
  fail_if (mount.size_mb == 0) mount_size_zero

abbrev pub mount_key : HostFsMountConfig → Text
mount_key mount = to_ascii_lowercase (trim mount.name)

abbrev pub path_key : HostFsMountConfig → List Component
path_key mount = components mount.mount_path

-- The loop of `Storage::validate`, with the names and the paths that it has met.
unfoldable pub validate_mounts :
    List Text → List (List Component) → List HostFsMountConfig → Result ManifestError (Unit {0})
unfolding validate_mount
validate_mounts names paths [] = ok tt
validate_mounts names paths (mount ∷ mounts) = do
  validate_mount mount
  fail_if (seen (mount_key mount) names) duplicate_mount_name
  fail_if (seen (path_key mount) paths) duplicate_mount_path
  validate_mounts (mount_key mount ∷ names) (path_key mount ∷ paths) mounts

unfoldable pub validate_storage : Storage → Result ManifestError (Unit {0})
unfolding validate_mounts
validate_storage storage = elim storage.mounts [
  | none ↦ ok tt
  | some mounts ↦ validate_mounts [] [] mounts
]

-- A mount as it should be: a name of the allowed characters, a path that lies strictly below /mnt
-- without `.` or `..`, and a size.
abbrev pub IsMount : HostFsMountConfig → Type 0
IsMount mount =
    (trim mount.name ≢ [])
    × (all is_name_character mount.name ≡ true)
    × (is_absolute mount.mount_path ≡ true)
    × (any is_dotted (path_key mount) ≡ false)
    × ((below : Component) × (rest : List Component) × (path_key mount
          ≡ root_dir ∷ normal (codes "mnt") ∷ below ∷ rest))
    × (0 < mount.size_mb)

starts_with_below :
    (path : List Component)
    → (path == allowed_root) ≡ false
    → starts_with path allowed_root ≡ true
    → (below : Component) × (rest : List Component) × (path
        ≡ root_dir ∷ normal (codes "mnt") ∷ below ∷ rest)
unfolding starts_with
starts_with_below [] differs below = absurd (cc)
starts_with_below (c ∷ []) differs below = absurd (ground arith)
starts_with_below (c ∷ d ∷ []) differs below = absurd (ground arith)
starts_with_below (c ∷ d ∷ b ∷ rest) differs below =
    let tests : ((c == root_dir) ≡ true) × ((d == normal (codes "mnt")) ≡ true) = ground arith in
    let first = (component_beq_iff c root_dir).0 tests.0 in
    let second = (component_beq_iff d (normal (codes "mnt"))).0 tests.1 in (b, rest, cc)

is_empty-false : (s : Text) → (is_empty s ≡ false) ↔ (s ≢ [])
is_empty-false [] = ((λ h. absurd (cc)), (λ h. absurd (h refl)))
is_empty-false (c ∷ s) = ((λ h e. absurd (cc)), (λ h. refl))

validate_mount-IsMount :
    (mount : HostFsMountConfig) → (validate_mount mount ≡ ok tt) ↔ IsMount mount
unfolding validate_mount starts_with
validate_mount-IsMount mount = (
  (λ h.
      let tests : (is_empty (trim mount.name) ≡ false)
          × (all is_name_character mount.name ≡ true)
          × (is_absolute mount.mount_path ≡ true)
          × (any is_dotted (path_key mount) ≡ false)
          × ((path_key mount == allowed_root) ≡ false)
          × (starts_with (path_key mount) allowed_root ≡ true)
          × (0 < mount.size_mb) =
        ground arith in
      (
        (is_empty-false (trim mount.name)).0 tests.0,
        tests.1,
        tests.2,
        tests.3,
        starts_with_below (path_key mount) tests.4 tests.5,
        tests.6,
      )),
  (λ (named, characters, absolute, plain, (below, rest, path), size).
      let full = (is_empty-false (trim mount.name)).1 named in
      rw (validate_mount, full, characters, absolute, plain, path, starts_with) (ground arith)),
)

validate_mounts_iff :
    (names : List Text) (paths : List (List Component)) (mounts : List HostFsMountConfig)
    → (validate_mounts names paths mounts ≡ ok tt) ↔ (
        All IsMount mounts × Fresh names (map mount_key mounts) × Fresh paths (map path_key mounts))
unfolding validate_mounts
validate_mounts_iff names paths [] = ((λ h. (tt, tt, tt)), (λ h. refl))
validate_mounts_iff names paths (mount ∷ mounts) =
    let here = validate_mount-IsMount mount in
    let later = validate_mounts_iff (mount_key mount ∷ names) (path_key mount ∷ paths) mounts in
    (
      (λ h. elim (Result-cases (validate_mount mount)) [
        | inl (e, refused) ↦ absurd (ground arith)
        | inr (tt, valid) ↦
            let parts : (seen (mount_key mount) names ≡ false)
                × (seen (path_key mount) paths ≡ false)
                × (validate_mounts (mount_key mount ∷ names) (path_key mount ∷ paths) mounts
                    ≡ ok tt) =
              ground arith in
            let r = later.0 parts.2 in ((here.0 valid, r.0), (parts.0, r.1), (parts.1, r.2))
      ]),
      (λ ((m, ms), (unnamed, fresh), (unused, free)).
          let valid = here.1 m in
          let rest = later.1 (ms, fresh, free) in
          rw (validate_mounts, valid, unnamed, unused, rest) refl),
    )

-- Mounts are accepted exactly if each is as it should be, no two have the same name but for the
-- case of ASCII letters, and no two have the same path.
pub validate_storage_iff :
    (storage : Storage) (mounts : List HostFsMountConfig)
    → storage.mounts ≡ some mounts
    → (validate_storage storage ≡ ok tt)
      ↔ (All IsMount mounts × Distinct (map mount_key mounts) × Distinct (map path_key mounts))
unfolding validate_storage
validate_storage_iff storage mounts e =
    let loop = validate_mounts_iff [] [] mounts in
    let names = Fresh-nil (map mount_key mounts) in
    let paths = Fresh-nil (map path_key mounts) in
    rw (validate_storage, e)
      (
        (λ h. let r = loop.0 h in (r.0, names.0 r.1, paths.0 r.2)),
        (λ (valid, n, p). loop.1 (valid, names.1 n, paths.1 p)),
      )
