-- ===== src/HostFs/Service/Listing.antt =====
-- The listing of a directory in capsule-cli/src/hostfs_service.rs.
use nova_enclave_capsule.Prelude.{
  true, false, List, [], ◌∷◌, Result, ok, err, ok-injective, ◌≡◌, refl, sym, subst, ◌⊎◌, inl, inr,
  arith, nat_eq, Bool-cases, Result-cases,
}
use nova_enclave_capsule.Prelude.Text.{Text, text_lt}
use nova_enclave_capsule.HostFs.Protocol.{
  FsEntryType, directory, file, symlink, other, FsDirEntry, FsProxyResponse, read_dir,
}
use nova_enclave_capsule.HostFs.Io.{
  FilePath, IoError, FileType, DirEntry, Os, map_err, look, lift, >>=-eq-ok,
}
use nova_enclave_capsule.HostFs.Resolve.{resolve_existing_path}
use nova_enclave_capsule.HostFs.Resolve.Within.{IsWithin, resolve_existing_path-IsWithin}
use nova_enclave_capsule.HostFs.Service.{
  HostFsService, file_type_to_entry_type, to_entry, collect, insert, sort_by_name, handle_read_dir,
}
use mathlib.Core.List.{Perm}
use mathlib.Core.List.Perm

text_lt-asym : (s t : Text) → text_lt s t ≡ true → text_lt t s ≡ false
unfolding text_lt
text_lt-asym [] [] h = refl
text_lt-asym [] (d ∷ t) h = refl
text_lt-asym (c ∷ s) [] h = cc
text_lt-asym (c ∷ s) (d ∷ t) h = grind (arith, text_lt-asym s t)

-- No name is smaller than the one before it.
abbrev pub IsOrdered : List FsDirEntry → Type 0
IsOrdered [] = Unit
IsOrdered (x ∷ []) = Unit
IsOrdered (x ∷ y ∷ ys) = (text_lt y.name x.name ≡ false) × IsOrdered (y ∷ ys)

insert_after :
    (p x : FsDirEntry) (ys : List FsDirEntry)
    → text_lt x.name p.name ≡ false
    → IsOrdered (p ∷ ys)
    → IsOrdered (p ∷ insert x ys)
unfolding insert
insert_after p x [] h k = (h, tt)
insert_after p x (y ∷ ys) h (k, ks) = elim (Bool-cases (text_lt y.name x.name)) [
  | inl later ↦ rw (insert, later) (k, insert_after y x ys (text_lt-asym y.name x.name later) ks)
  | inr here ↦ rw (insert, here) (h, (here, ks))
]

insert-IsOrdered : (x : FsDirEntry) (ys : List FsDirEntry) → IsOrdered ys → IsOrdered (insert x ys)
unfolding insert
insert-IsOrdered x [] k = tt
insert-IsOrdered x (y ∷ ys) k = elim (Bool-cases (text_lt y.name x.name)) [
  | inl later ↦ rw (insert, later) (insert_after y x ys (text_lt-asym y.name x.name later) k)
  | inr here ↦ rw (insert, here) (here, k)
]

insert-perm : (x : FsDirEntry) (ys : List FsDirEntry) → Perm (insert x ys) (x ∷ ys)
unfolding insert
insert-perm x [] = Perm.rfl
insert-perm x (y ∷ ys) = elim (Bool-cases (text_lt y.name x.name)) [
  | inl later ↦ rw (insert, later) (Perm.trans (Perm.cons y (insert-perm x ys)) (Perm.swap x y ys))
  | inr here ↦ rw (insert, here) Perm.rfl
]

sort_by_name_lem :
    (entries : List FsDirEntry)
    → IsOrdered (sort_by_name entries) × Perm (sort_by_name entries) entries
unfolding sort_by_name
sort_by_name_lem [] = (tt, Perm.rfl)
sort_by_name_lem (x ∷ xs) =
    let (ordered, perm) = sort_by_name_lem xs in
    (
      insert-IsOrdered x (sort_by_name xs) ordered,
      Perm.trans (insert-perm x (sort_by_name xs)) (Perm.cons x perm),
    )

map_err-eq-ok : {A : Type 0} (r : Result IoError A) {a : A} → map_err r ≡ ok a → r ≡ ok a
unfolding map_err
map_err-eq-ok (ok x) h = cc
map_err-eq-ok (err e) h = absurd (cc)

-- The kind that is listed for what the system says of an entry.
abbrev pub IsKind : FileType → FsEntryType → Type 0
IsKind t kind =
    ((t.is_dir ≡ true) × (kind ≡ directory))
    ⊎ ((t.is_dir ≡ false) × (t.is_file ≡ true) × (kind ≡ file))
    ⊎ ((t.is_dir ≡ false) × (t.is_file ≡ false) × (t.is_symlink ≡ true) × (kind ≡ symlink))
    ⊎ ((t.is_dir ≡ false) × (t.is_file ≡ false) × (t.is_symlink ≡ false) × (kind ≡ other))

file_type_to_entry_type-IsKind : (t : FileType) → IsKind t (file_type_to_entry_type t)
unfolding file_type_to_entry_type
file_type_to_entry_type-IsKind t = elim (Bool-cases t.is_dir) [
  | inl dir ↦ inl (ground arith)
  | inr no_dir ↦ elim (Bool-cases t.is_file) [
    | inl plain ↦ inr (inl (ground arith))
    | inr no_file ↦ elim (Bool-cases t.is_symlink) [
      | inl link ↦ inr (inr (inl (ground arith)))
      | inr no_link ↦ inr (inr (inr (ground arith)))
    ]
  ]
]

-- What is listed for an entry that was read: its name and its kind.
abbrev pub IsEntry : Result IoError DirEntry → FsDirEntry → Type 0
IsEntry r x =
    (entry : DirEntry) × (t : FileType) × (r ≡ ok entry)
    × (entry.file_type ≡ ok t)
    × (x.name ≡ entry.name)
    × IsKind t x.entry_type

abbrev pub AreEntries : List (Result IoError DirEntry) → List FsDirEntry → Type 0
AreEntries [] [] = Unit
AreEntries [] (x ∷ xs) = ⊥
AreEntries (r ∷ rs) [] = ⊥
AreEntries (r ∷ rs) (x ∷ xs) = IsEntry r x × AreEntries rs xs

to_entry-IsEntry : (r : Result IoError DirEntry) {x : FsDirEntry} → to_entry r ≡ ok x → IsEntry r x
unfolding to_entry map_err
to_entry-IsEntry (err e) h = absurd (cc)
to_entry-IsEntry (ok entry) {x} h = elim (Result-cases entry.file_type) [
  | inl (e, broken) ↦ absurd (ground arith)
  | inr (t, kind) ↦
      let same : record { name = entry.name; entry_type = file_type_to_entry_type t } ≡ x =
        ground arith in
      subst (IsEntry (ok entry)) same (entry, t, refl, kind, refl, file_type_to_entry_type-IsKind t)
]

collect-AreEntries :
    (dir : List (Result IoError DirEntry)) {xs : List FsDirEntry}
    → collect dir ≡ ok xs
    → AreEntries dir xs
unfolding collect
collect-AreEntries [] h = subst (AreEntries []) (ok-injective h) tt
collect-AreEntries (r ∷ rs) {xs} h = elim (Result-cases (to_entry r)) [
  | inl (e, broken) ↦ absurd (ground arith)
  | inr (x, here) ↦ elim (Result-cases (collect rs)) [
    | inl (e, broken) ↦ absurd (ground arith)
    | inr (ys, there) ↦
        let same : x ∷ ys ≡ xs = ground arith in
        subst (AreEntries (r ∷ rs)) same (to_entry-IsEntry r here, collect-AreEntries rs there)
  ]
]

module _ (os : Os) (service : HostFsService) where
  -- The listing of a directory under the root.
  pub record IsListing (s : os.State) (path : Text) (response : FsProxyResponse) : Type 0 where
    pub resolved : FilePath
    pub resolved_eq : resolve_existing_path os s service.root service.mount_name path ≡ ok resolved
    pub within : IsWithin service.root resolved
    pub dir : List (Result IoError DirEntry)
    pub dir_eq : os.read_dir s resolved ≡ ok dir
    pub found : List FsDirEntry
    pub found_eq : AreEntries dir found
    pub entries : List FsDirEntry
    pub ordered : IsOrdered entries
    pub same_entries : Perm entries found
    pub response_eq : response ≡ read_dir entries

  -- A directory that is listed lies under the root of the mount, where its path resolves to; all its
  -- entries could be read, and the reply has the name and the kind of each of them, each as often as
  -- it was read, in the order of the names.
  pub handle_read_dir_sound :
      (path : Text) (s : os.State) {response : FsProxyResponse}
      → (handle_read_dir os service path s).1 ≡ ok response
      → IsListing s path response
  unfolding handle_read_dir
  handle_read_dir_sound path s done =
      let (resolved, here, d1) =
        >>=-eq-ok (look (λ s. resolve_existing_path os s service.root service.mount_name path)) _ s
          done in
      let (dir, read, d2) = >>=-eq-ok (look (λ s. map_err (os.read_dir s resolved))) _ _ d1 in
      let (found, all_read, d3) = >>=-eq-ok (lift (collect dir)) _ _ d2 in
      let (ordered, perm) = sort_by_name_lem found in
      record {
        resolved = resolved;
        resolved_eq = here;
        within = resolve_existing_path-IsWithin os s service.root service.mount_name path here;
        dir = dir;
        dir_eq = map_err-eq-ok (os.read_dir s resolved) read;
        found = found;
        found_eq = collect-AreEntries dir all_read;
        entries = sort_by_name found;
        ordered = ordered;
        same_entries = perm;
        response_eq = sym (ok-injective d3);
      }
