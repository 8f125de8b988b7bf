-- ===== src/HostFs/Resolve/Within.antt =====
-- Paths of capsule-cli/src/hostfs_service.rs stay under the root of the mount.
use nova_enclave_capsule.Prelude.{
  Bool, true, some, [], ◌∷◌, ◌++◌, ok, ◌≡◌, refl, sym, ◌⊎◌, inl, inr, arith, All, ◌==◌, list_eq,
  nat_eq, list_beq_iff, Bool-cases, Result-cases, >>=-eq-ok, append_assoc, append-nil,
}
use nova_enclave_capsule.Prelude.Text.{Text}
use nova_enclave_capsule.HostFs.PathName.{Names}
use nova_enclave_capsule.HostFs.PathName
use nova_enclave_capsule.HostFs.PathName.Plain.{IsPlain, normalize_relative_path-IsPlain}
use nova_enclave_capsule.HostFs.Io.{FilePath, Os, map_err}
use nova_enclave_capsule.HostFs.Resolve.{
  starts_with, ensure_within_root, canonical_within, resolve_follow_path_sync, enter, descend,
  resolve_path_for_create_sync, resolve_parent, parent, file_name,
  resolve_path_preserving_leaf_sync, normalize, resolve_existing_path, resolve_path_for_create,
  resolve_path_preserving_leaf,
}

-- The path is the root, or lies below it.
abbrev pub IsWithin : FilePath → FilePath → Type 0
IsWithin root path = (rest : FilePath) × (path ≡ root ++ rest)

-- A directory under the root, and one name in it, which is not followed.
abbrev pub IsLeafWithin : FilePath → FilePath → Type 0
IsLeafWithin root path =
    (dir : FilePath) × (leaf : Text) × IsWithin root dir × IsPlain leaf × (path ≡ dir ++ leaf ∷ [])

starts_with-IsWithin : (path root : FilePath) → starts_with path root ≡ true → IsWithin root path
unfolding starts_with
starts_with-IsWithin path [] h = (path, refl)
starts_with-IsWithin [] (r ∷ root) h = absurd (cc)
starts_with-IsWithin (p ∷ path) (r ∷ root) h =
    let both : ((p == r) ≡ true) × (starts_with path root ≡ true) = ground arith in
    let (rest, e) = starts_with-IsWithin path root both.1 in
    let same = (list_beq_iff p r).0 both.0 in (rest, cc)

IsWithin-child :
    (root path : FilePath) (name : Text) → IsWithin root path → IsWithin root (path ++ name ∷ [])
IsWithin-child root path name (rest, e) =
    (rest ++ name ∷ [], rw (e, append_assoc root rest (name ∷ [])) refl)

normalize_sound : (path : Text) {names : Names} → normalize path ≡ ok names → All IsPlain names
unfolding normalize
normalize_sound path h = elim (Result-cases (PathName.normalize_relative_path path)) [
  | inl (e, refused) ↦ absurd (ground arith)
  | inr (names, e) ↦ normalize_relative_path-IsPlain path (ground arith)
]

module _ (os : Os) (s : os.State) (root : FilePath) (mount_name : Text) where
  canonical_within_sound :
      (path : FilePath) {result : FilePath}
      → canonical_within os s root mount_name path ≡ ok result
      → IsWithin root result
  unfolding canonical_within ensure_within_root
  canonical_within_sound path h = elim (Result-cases (map_err (os.canonicalize s path))) [
    | inl (e, missing) ↦ absurd (ground arith)
    | inr (canonical, e) ↦ elim (Bool-cases (starts_with canonical root)) [
      | inl inside ↦ starts_with-IsWithin _ root (ground arith)
      | inr outside ↦ absurd (ground arith)
    ]
  ]

  enter_sound :
      (current : FilePath) {next : FilePath}
      → IsWithin root current
      → enter os s root mount_name current ≡ ok next
      → IsWithin root next
  unfolding enter
  enter_sound current {next} within h = elim (Bool-cases (os.exists s current)) [
    | inl there ↦ canonical_within_sound current (ground arith)
    | inr absent ↦ let same : current ≡ next = ground arith in (within.0, cc (within.1))
  ]

  descend_sound :
      (current : FilePath) (names : Names) {result : FilePath}
      → IsWithin root current
      → descend os s root mount_name current names ≡ ok result
      → IsWithin root result
  unfolding descend
  descend_sound current [] (rest, e) h = (rest, cc)
  descend_sound current (part ∷ names) within h =
      let (next, entered, left) = >>=-eq-ok _ _ h in
      descend_sound next names
        (enter_sound (current ++ part ∷ []) (IsWithin-child root current part within) entered) left

  resolve_parent_sound :
      (names : Names) {dir : FilePath}
      → resolve_parent os s root mount_name names ≡ ok dir
      → IsWithin root dir
  unfolding resolve_parent resolve_follow_path_sync
  resolve_parent_sound [] h = ([], cc (append-nil root))
  resolve_parent_sound (name ∷ names) h = canonical_within_sound (root ++ name ∷ names) h

file_name_sound :
    (name : Text) (names : Names)
    → All IsPlain (name ∷ names)
    → (leaf : Text) × (file_name (name ∷ names) ≡ some leaf) × IsPlain leaf
unfolding file_name
file_name_sound name [] (h, hs) = (name, refl, h)
file_name_sound name (next ∷ names) (h, hs) = file_name_sound next names hs

module _ (os : Os) (s : os.State) (root : FilePath) (mount_name : Text) where
  leaf_sound :
      (name : Text) (names : Names) (allow_root : Bool) {result : FilePath}
      → All IsPlain (name ∷ names)
      → resolve_path_preserving_leaf_sync os s root mount_name (name ∷ names) allow_root ≡ ok result
      → IsLeafWithin root result
  unfolding resolve_path_preserving_leaf_sync
  leaf_sound name names allow_root plain h =
      elim (Result-cases (resolve_parent os s root mount_name (parent (name ∷ names)))) [
        | inl (e, refused) ↦ absurd (ground arith)
        | inr (dir, e) ↦
            let (leaf, found, ok_leaf) = file_name_sound name names plain in
            (
              dir,
              leaf,
              resolve_parent_sound os s root mount_name (parent (name ∷ names)) e,
              ok_leaf,
              ground arith,
            )
      ]

  -- The path that a request to read is resolved to is the root of the mount or lies below it.
  pub resolve_existing_path-IsWithin :
      (path : Text) {result : FilePath}
      → resolve_existing_path os s root mount_name path ≡ ok result
      → IsWithin root result
  unfolding resolve_existing_path resolve_follow_path_sync
  resolve_existing_path-IsWithin path h =
      let (relative, e, resolved) =
        >>=-eq-ok (normalize path) (resolve_follow_path_sync os s root mount_name) h in
      canonical_within_sound os s root mount_name (root ++ relative) resolved

  -- The path that a request to create is resolved to is, by its names, the root of the mount or
  -- lies below it, whichever of its names exist already.
  pub resolve_path_for_create-IsWithin :
      (path : Text) {result : FilePath}
      → resolve_path_for_create os s root mount_name path ≡ ok result
      → IsWithin root result
  unfolding resolve_path_for_create resolve_path_for_create_sync
  resolve_path_for_create-IsWithin path h = elim (Result-cases (normalize path)) [
    | inl (e, refused) ↦ absurd (ground arith)
    | inr ([], e) ↦ absurd (ground arith)
    | inr (part ∷ rest, e) ↦
        descend_sound os s root mount_name root (part ∷ rest) ([], sym (append-nil root))
          (ground arith)
  ]

  -- The path that a request on an entry itself is resolved to is a plain name in a directory that
  -- is the root of the mount or lies below it; only a request that may name the root gets the root.
  pub resolve_path_preserving_leaf-IsLeafWithin :
      (path : Text) (allow_root : Bool) {result : FilePath}
      → resolve_path_preserving_leaf os s root mount_name path allow_root ≡ ok result
      → ((allow_root ≡ true) × (result ≡ root)) ⊎ IsLeafWithin root result
  unfolding resolve_path_preserving_leaf resolve_path_preserving_leaf_sync
  resolve_path_preserving_leaf-IsLeafWithin path allow_root {result} h =
      elim (Result-cases (normalize path)) [
        | inl (e, refused) ↦ absurd (ground arith)
        | inr ([], e) ↦ elim (Bool-cases allow_root) [
          | inl allowed ↦ inl (allowed, ground arith)
          | inr refused ↦ absurd (ground arith)
        ]
        | inr (name ∷ names, e) ↦
            inr (leaf_sound name names allow_root (normalize_sound path e) (ground arith))
      ]
