-- ===== src/HostFs/PathName/Plain.antt =====
-- What `normalize_relative_path` of capsule-cli/src/hostfs_service.rs lets through.
use nova_enclave_capsule.Prelude.{
  ℕ, Bool, true, false, ◌||◌, List, [], ◌∷◌, ◌++◌, ok, ◌≡◌, ◌≢◌, refl, inl, inr, arith, All,
  All-append, list_beq, list_beq_iff, nat_eq, Bool-cases, ◌==◌, list_eq, if_elim,
}
use nova_enclave_capsule.Prelude.Text.{Text, codes, is_empty, split, split_step, trim}
use nova_enclave_capsule.HostFs.PathName.{
  Component, root_dir, cur_dir, parent_dir, normal, component, body, relative, components,
  is_absolute, Names, push_components, normalize_raw, normalize_relative_path,
}

abbrev pub NoSlash : Text → Type 0
NoSlash = All (λ c. c ≢ b'/')

-- A name that can be joined to a directory without leaving it.
abbrev pub IsPlain : Text → Type 0
IsPlain name = (name ≢ []) × (name ≢ codes ".") × (name ≢ codes "..") × NoSlash name

split_step-NoSlash :
    (b : Bool) (c : ℕ) (parts : List Text)
    → (b ≡ false → c ≢ b'/')
    → All NoSlash parts
    → All NoSlash (split_step b c parts)
split_step-NoSlash true c parts h k = (tt, k)
split_step-NoSlash false c [] h k = ((h refl, tt), tt)
split_step-NoSlash false c (part ∷ parts) h (k, ks) = ((h refl, k), ks)

split-NoSlash : (s : Text) → All NoSlash (split b'/' s)
unfolding split
split-NoSlash [] = (tt, tt)
split-NoSlash (c ∷ s) =
    split_step-NoSlash (c == b'/') c (split b'/' s) (λ e. ground arith) (split-NoSlash s)

abbrev PlainComponent : Component → Type 0
PlainComponent (normal name) = IsPlain name
PlainComponent _ = Unit

component-Plain : (part : Text) → NoSlash part → All PlainComponent (component part)
unfolding component
component-Plain [] h = tt
component-Plain (c ∷ s) h = elim (Bool-cases (list_beq (c ∷ s) (codes "."))) [
  | inl dot ↦ rw (dot, component) tt
  | inr other ↦ elim (Bool-cases (list_beq (c ∷ s) (codes ".."))) [
    | inl dots ↦ rw (other, dots, component) (tt, tt)
    | inr plain ↦
        rw (other, plain, component)
          (
            (
              λ e. cc,
              λ e. cc ((list_beq_iff (c ∷ s) (codes ".")).1 e),
              λ e. cc ((list_beq_iff (c ∷ s) (codes "..")).1 e),
              h,
            ),
            tt,
          )
  ]
]

body-Plain : (parts : List Text) → All NoSlash parts → All PlainComponent (body parts)
unfolding body
body-Plain [] h = tt
body-Plain (part ∷ parts) (h, hs) =
    All-append PlainComponent (component part) (body parts) (component-Plain part h)
      (body-Plain parts hs)

relative-Plain : (parts : List Text) → All NoSlash parts → All PlainComponent (relative parts)
unfolding relative
relative-Plain [] h = tt
relative-Plain (part ∷ parts) (h, hs) =
    if_elim (All PlainComponent) (part == codes ".") _ _ (λ e. (tt, body-Plain parts hs))
      (λ e. body-Plain (part ∷ parts) (h, hs))

components-Plain : (s : Text) → All PlainComponent (components s)
unfolding components
components-Plain [] = tt
components-Plain (c ∷ s) =
    if_elim (All PlainComponent) (c == b'/') _ _
      (λ e. (tt, body-Plain (split b'/' s) (split-NoSlash s)))
      (λ e. relative-Plain (split b'/' (c ∷ s)) (split-NoSlash (c ∷ s)))

push_components-Plain :
    (done : Names) (rest : List Component) {names : Names}
    → All IsPlain done
    → All PlainComponent rest
    → push_components done rest ≡ ok names
    → All IsPlain names
unfolding push_components
push_components-Plain done [] h k e = ground arith
push_components-Plain done (normal part ∷ rest) h (k, ks) e =
    push_components-Plain (done ++ part ∷ []) rest (All-append IsPlain done (part ∷ []) h (k, tt))
      ks e
push_components-Plain done (cur_dir ∷ rest) h (k, ks) e = push_components-Plain done rest h ks e
push_components-Plain done (parent_dir ∷ rest) h k e = absurd (cc)
push_components-Plain done (root_dir ∷ rest) h k e = absurd (cc)

normalize_raw-IsPlain :
    (raw : Text) {names : Names} → normalize_raw raw ≡ ok names → All IsPlain names
unfolding normalize_raw
normalize_raw-IsPlain raw {names} h = elim (Bool-cases (is_empty raw || raw == codes ".")) [
  | inl here ↦ let e : [] ≡ names = ground arith in rw (← e) tt
  | inr away ↦ elim (Bool-cases (is_absolute raw)) [
    | inl root ↦ absurd (ground arith)
    | inr free ↦ push_components-Plain [] (components raw) tt (components-Plain raw) (ground arith)
  ]
]

-- The names that a path is normalised to can be joined to a directory without leaving it: none is
-- empty, `.` or `..`, and none holds a slash.
pub normalize_relative_path-IsPlain :
    (path : Text) {names : Names} → normalize_relative_path path ≡ ok names → All IsPlain names
unfolding normalize_relative_path
normalize_relative_path-IsPlain path h = normalize_raw-IsPlain (trim path) h
