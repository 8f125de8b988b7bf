-- ===== src/Manifest/Kms/Prefixes.antt =====
-- The prefixes of a text, and what is left when they are removed: `starts_with` and
-- `trim_start_matches` as capsule-cli/src/manifest.rs calls them.
use nova_enclave_capsule.Prelude.{
  ℕ, zero, suc, true, ◌&&◌, some, [], ◌∷◌, ◌++◌, ◌≡◌, ◌↔◌, refl, ap, ◌∙◌, inl, inr, arith, ◌==◌,
  nat_eq, nat_beq_iff, list_eq, Bool-cases, Option-cases,
}
use nova_enclave_capsule.Prelude.Text.{Text, strip_prefix, trim_start_pairs}
use nova_enclave_capsule.Manifest.Kms.{is_some, starts_with_text}

abbrev pub StartsWith : Text → Text → Type 0
StartsWith front text = (rest : Text) × (text ≡ front ++ rest)

abbrev pub repeated : ℕ → Text → Text
repeated zero front = []
repeated (suc n) front = front ++ repeated n front

-- The text is what is left when a prefix is removed for as long as there is one.
abbrev pub Strips : Text → Text → Text → Type 0
Strips front text left = (n : ℕ) × (text ≡ repeated n front ++ left) × (StartsWith front left → ⊥)

strip_prefix-some :
    (front text rest : Text) → strip_prefix front text ≡ some rest → text ≡ front ++ rest
unfolding strip_prefix
strip_prefix-some [] text rest h = ground arith
strip_prefix-some (p ∷ ps) [] rest h = absurd (cc)
strip_prefix-some (p ∷ ps) (c ∷ text) rest h = elim (Bool-cases (p == c)) [
  | inl same ↦
      let later : strip_prefix ps text ≡ some rest = ground arith in
      let e = strip_prefix-some ps text rest later in let head = (nat_beq_iff p c).0 same in cc
  | inr other ↦ absurd (ground arith)
]

strip_prefix-append : (front rest : Text) → strip_prefix front (front ++ rest) ≡ some rest
unfolding strip_prefix
strip_prefix-append [] rest = refl
strip_prefix-append (p ∷ ps) rest =
    rw (strip_prefix, (nat_beq_iff p p).1 refl) (strip_prefix-append ps rest)

pub starts_with_text-StartsWith :
    (text front : Text) → (starts_with_text text front ≡ true) ↔ StartsWith front text
unfolding starts_with_text
starts_with_text-StartsWith text front = (
  λ h. elim (Option-cases (strip_prefix front text)) [
    | inl gone ↦ absurd (ground arith)
    | inr (rest, e) ↦ (rest, strip_prefix-some front text rest e)
  ],
  λ h. ap is_some (ap (strip_prefix front) h.1 ∙ strip_prefix-append front h.0),
)

pub trim_start_pairs-Strips : (p q : ℕ) (s : Text) → Strips (p ∷ q ∷ []) s (trim_start_pairs p q s)
unfolding trim_start_pairs
trim_start_pairs-Strips p q [] = (0, refl, λ h. absurd (ground arith))
trim_start_pairs-Strips p q (c ∷ []) = (0, refl, λ h. absurd (ground arith))
trim_start_pairs-Strips p q (c ∷ d ∷ s) = elim (Bool-cases (c == p && d == q)) [
  | inl both ↦
      let (n, e, clean) = trim_start_pairs-Strips p q s in
      let first : c ≡ p = ground arith in
      let second : d ≡ q = ground arith in
      rw (trim_start_pairs, both) (suc n, cc (e, first, second), clean)
  | inr other ↦ rw (trim_start_pairs, other) (0, refl, λ h. absurd (ground arith))
]

trim_clean : (p q : ℕ) (s : Text) → (StartsWith (p ∷ q ∷ []) s → ⊥) → trim_start_pairs p q s ≡ s
unfolding trim_start_pairs
trim_clean p q [] clean = refl
trim_clean p q (c ∷ []) clean = refl
trim_clean p q (c ∷ d ∷ s) clean = elim (Bool-cases (c == p && d == q)) [
  | inl both ↦
      let first : c ≡ p = ground arith in
      let second : d ≡ q = ground arith in absurd (clean (s, cc (first, second)))
  | inr other ↦ rw (trim_start_pairs, other) refl
]

trim_repeated :
    (p q n : ℕ) (left : Text)
    → (StartsWith (p ∷ q ∷ []) left → ⊥)
    → trim_start_pairs p q (repeated n (p ∷ q ∷ []) ++ left) ≡ left
unfolding trim_start_pairs
trim_repeated p q zero left clean = trim_clean p q left clean
trim_repeated p q (suc n) left clean =
    rw (trim_start_pairs, (nat_beq_iff p p).1 refl, (nat_beq_iff q q).1 refl)
      (trim_repeated p q n left clean)

pub Strips-unique :
    (p q : ℕ) (s left : Text) → Strips (p ∷ q ∷ []) s left → trim_start_pairs p q s ≡ left
Strips-unique p q s left (n, e, clean) =
    ap (trim_start_pairs p q) e ∙ trim_repeated p q n left clean
