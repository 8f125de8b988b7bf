-- ===== src/HostFs/PathName/Normal.antt =====
-- `normalize_relative_path` of capsule-cli/src/hostfs_service.rs as one equation.
use nova_enclave_capsule.Prelude.{
  Bool, true, false, List, [], ◌∷◌, ◌++◌, Result, ok, err, ◌≡◌, refl, sym, inl, inr, arith, any,
  list_beq, list_beq_iff, nat_eq, Bool-cases, ◌==◌, list_eq, append_assoc, append-nil,
  if◌then◌else◌, any-append, if_elim, subst,
}
use nova_enclave_capsule.Prelude.Text.{Text, codes, split, trim}
use nova_enclave_capsule.HostFs.PathName.{
  Component, root_dir, cur_dir, parent_dir, normal, component, body, relative, components,
  is_absolute, Names, InvalidPath, must_be_relative, traversal, push_components, normalize_raw,
  normalize_relative_path,
}

abbrev pub is_parent : Component → Bool
is_parent parent_dir = true
is_parent _ = false

abbrev pub is_root : Component → Bool
is_root root_dir = true
is_root _ = false

-- The names among the components.
abbrev pub names_of : List Component → Names
names_of [] = []
names_of (normal name ∷ rest) = name ∷ names_of rest
names_of (_ ∷ rest) = names_of rest

push_components_lem :
    (done : Names) (rest : List Component)
    → any is_root rest ≡ false
    → push_components done rest
      ≡ (if any is_parent rest then err traversal else ok (done ++ names_of rest))
unfolding push_components
push_components_lem done [] h = rw append-nil
push_components_lem done (normal name ∷ rest) h =
    rw (
      push_components_lem (done ++ name ∷ []) rest h,
      append_assoc done (name ∷ []) (names_of rest),
    )
push_components_lem done (cur_dir ∷ rest) h = push_components_lem done rest h
push_components_lem done (parent_dir ∷ rest) h = refl
push_components_lem done (root_dir ∷ rest) h = absurd (cc)

component-rootless : (part : Text) → any is_root (component part) ≡ false
unfolding component
component-rootless part = ground arith

body-rootless : (parts : List Text) → any is_root (body parts) ≡ false
unfolding body
body-rootless [] = refl
body-rootless (part ∷ parts) =
    rw (any-append is_root (component part) (body parts), component-rootless part)
      (body-rootless parts)

relative-rootless : (parts : List Text) → any is_root (relative parts) ≡ false
unfolding relative
relative-rootless [] = refl
relative-rootless (part ∷ parts) =
    if_elim (λ cs. any is_root cs ≡ false) (part == codes ".") _ _ (λ e. body-rootless parts)
      (λ e. body-rootless (part ∷ parts))

components-rootless : (s : Text) → is_absolute s ≡ false → any is_root (components s) ≡ false
unfolding components is_absolute
components-rootless [] h = refl
components-rootless (c ∷ s) h =
    if_elim (λ cs. any is_root cs ≡ false) (c == b'/') _ _ (λ e. absurd (cc))
      (λ e. relative-rootless (split b'/' (c ∷ s)))

abbrev normal_form : Text → Result InvalidPath Names
normal_form raw =
    if is_absolute raw
    then err must_be_relative
    else if any is_parent (components raw)
    then err traversal
    else ok (names_of (components raw))

normalize_raw_lem : (raw : Text) → normalize_raw raw ≡ normal_form raw
unfolding normalize_raw
normalize_raw_lem [] = unfold components is_absolute in refl
normalize_raw_lem (c ∷ s) = elim (Bool-cases (list_beq (c ∷ s) (codes "."))) [
  | inl dot ↦
      subst (λ t. normalize_raw t ≡ normal_form t) (sym ((list_beq_iff (c ∷ s) (codes ".")).0 dot))
        (unfold components is_absolute in refl)
  | inr other ↦ elim (Bool-cases (is_absolute (c ∷ s))) [
    | inl root ↦ rw (other, root)
    | inr free ↦
        rw (other, free)
          (push_components_lem [] (components (c ∷ s)) (components-rootless (c ∷ s) free))
  ]
]

-- A path is refused exactly if it is absolute or has a `..`; any other gives its names, and the
-- whole path is trimmed first.
pub normalize_relative_path_lem :
    (path : Text)
    → normalize_relative_path path ≡ (
        if is_absolute (trim path)
        then err must_be_relative
        else if any is_parent (components (trim path))
        then err traversal
        else ok (names_of (components (trim path))))
unfolding normalize_relative_path
normalize_relative_path_lem path = normalize_raw_lem (trim path)
