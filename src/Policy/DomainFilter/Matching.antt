-- ===== src/Policy/DomainFilter/Matching.antt =====
-- The loop of `Pattern::matches` in capsule-cli/src/policy/domain_filter.rs, and what a pattern
-- covers, read from left to right.
use nova_enclave_capsule.Prelude.{
  ◌≡◌, ◌≢◌, refl, ap, ◌⊎◌, inl, inr, true, List, [], ◌∷◌, ◌++◌, arith, list_beq_iff, nat_eq,
  Bool-cases, list_beq,
}
use nova_enclave_capsule.Prelude.Text.{Text}
use nova_enclave_capsule.Policy.DomainFilter.{PatternPart, superwild, wild, named, matches_from}

-- A pattern without `**` matches as many labels as it has parts, one by one.
abbrev pub SameLabels : List PatternPart → List Text → Type 0
SameLabels [] [] = Unit
SameLabels (wild ∷ ps) (q ∷ qs) = SameLabels ps qs
SameLabels (named part ∷ ps) (q ∷ qs) = (part ≡ q) × SameLabels ps qs
SameLabels _ _ = ⊥

-- A `**` that stands first matches one label or more.
pub record SuffixMatch (ps : List PatternPart) (qs : List Text) : Type 0 where
  pub ignored : List PatternPart
  pub tail : List PatternPart
  pub front : List Text
  pub back : List Text
  pub pattern_eq : ps ≡ ignored ++ (superwild ∷ tail)
  pub labels_eq : qs ≡ front ++ back
  pub front_nonempty : front ≢ []
  pub same : SameLabels tail back

abbrev pub Covers : List PatternPart → List Text → Type 0
Covers ps qs = SameLabels ps qs ⊎ SuffixMatch ps qs

-- The same in the reverse order, in which the loop goes.
pub record PrefixMatch (ps : List PatternPart) (qs : List Text) : Type 0 where
  pub ignored : List PatternPart
  pub head : List PatternPart
  pub front : List Text
  pub back : List Text
  pub pattern_eq : ps ≡ head ++ (superwild ∷ ignored)
  pub labels_eq : qs ≡ back ++ front
  pub front_nonempty : front ≢ []
  pub same : SameLabels head back

abbrev pub Started : List PatternPart → List Text → Type 0
Started ps qs = SameLabels ps qs ⊎ PrefixMatch ps qs

Started-wild :
    (ps : List PatternPart) (q : Text) (qs : List Text)
    → Started ps qs
    → Started (wild ∷ ps) (q ∷ qs)
Started-wild ps q qs (inl s) = inl s
Started-wild ps q qs (inr m) = inr (record {
  ignored = m.ignored;
  head = wild ∷ m.head;
  front = m.front;
  back = q ∷ m.back;
  pattern_eq = ap (λ t. wild ∷ t) m.pattern_eq;
  labels_eq = ap (λ t. q ∷ t) m.labels_eq;
  front_nonempty = m.front_nonempty;
  same = m.same;
})

Started-named :
    (part : Text) (ps : List PatternPart) (q : Text) (qs : List Text)
    → part ≡ q
    → Started ps qs
    → Started (named part ∷ ps) (q ∷ qs)
Started-named part ps q qs e (inl s) = inl (e, s)
Started-named part ps q qs e (inr m) = inr (record {
  ignored = m.ignored;
  head = named part ∷ m.head;
  front = m.front;
  back = q ∷ m.back;
  pattern_eq = ap (λ t. named part ∷ t) m.pattern_eq;
  labels_eq = ap (λ t. q ∷ t) m.labels_eq;
  front_nonempty = m.front_nonempty;
  same = (e, m.same);
})

pub matches_from_sound :
    (ps : List PatternPart) (qs : List Text) → matches_from ps qs ≡ true → Started ps qs
unfolding matches_from
matches_from_sound [] [] h = inl tt
matches_from_sound [] (q ∷ qs) h = absurd (cc)
matches_from_sound (p ∷ ps) [] h = absurd (cc)
matches_from_sound (superwild ∷ ps) (q ∷ qs) h = inr (record {
  ignored = ps;
  head = [];
  front = q ∷ qs;
  back = [];
  pattern_eq = refl;
  labels_eq = refl;
  front_nonempty = λ e. cc;
  same = tt;
})
matches_from_sound (wild ∷ ps) (q ∷ qs) h = Started-wild ps q qs (matches_from_sound ps qs h)
matches_from_sound (named part ∷ ps) (q ∷ qs) h = elim (Bool-cases (list_beq part q)) [
  | inl same ↦
      Started-named part ps q qs ((list_beq_iff part q).0 same)
        (matches_from_sound ps qs (rw same at h))
  | inr other ↦ absurd (ground arith)
]

pub matches_from_same :
    (ps : List PatternPart) (qs : List Text) → SameLabels ps qs → matches_from ps qs ≡ true
unfolding matches_from
matches_from_same [] [] s = refl
matches_from_same (wild ∷ ps) (q ∷ qs) s = matches_from_same ps qs s
matches_from_same (named part ∷ ps) (q ∷ qs) s =
    rw ((list_beq_iff part q).1 s.0) (matches_from_same ps qs s.1)
matches_from_same (superwild ∷ ps) (q ∷ qs) s = refl
matches_from_same [] (q ∷ qs) s = absurd s
matches_from_same (superwild ∷ ps) [] s = absurd s
matches_from_same (wild ∷ ps) [] s = absurd s
matches_from_same (named part ∷ ps) [] s = absurd s

pub matches_from_prefix :
    (head ignored : List PatternPart) (back front : List Text)
    → SameLabels head back
    → front ≢ []
    → matches_from (head ++ (superwild ∷ ignored)) (back ++ front) ≡ true
unfolding matches_from
matches_from_prefix [] ignored [] [] s n = absurd (n refl)
matches_from_prefix [] ignored [] (q ∷ qs) s n = refl
matches_from_prefix (wild ∷ ps) ignored (q ∷ qs) front s n =
    matches_from_prefix ps ignored qs front s n
matches_from_prefix (named part ∷ ps) ignored (q ∷ qs) front s n =
    rw ((list_beq_iff part q).1 s.0) (matches_from_prefix ps ignored qs front s.1 n)
matches_from_prefix (superwild ∷ ps) ignored (q ∷ qs) front s n = refl
matches_from_prefix [] ignored (q ∷ qs) front s n = absurd s
matches_from_prefix (superwild ∷ ps) ignored [] front s n = absurd s
matches_from_prefix (wild ∷ ps) ignored [] front s n = absurd s
matches_from_prefix (named part ∷ ps) ignored [] front s n = absurd s
