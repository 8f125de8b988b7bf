-- ===== src/Policy/DomainFilter/Reading.antt =====
-- Which hosts a pattern of capsule-cli/src/policy/domain_filter.rs matches.
use mathlib.Core.List.{map, reverse, reverse-cons, reverse-append, reverse-reverse}
use nova_enclave_capsule.Prelude.{
  ◌≡◌, ◌≢◌, ◌↔◌, sym, ap, ◌∙◌, inl, inr, true, List, [], ◌∷◌, ◌++◌, append_assoc,
}
use nova_enclave_capsule.Prelude.Text.{Text, split, to_ascii_lowercase}
use nova_enclave_capsule.Policy.DomainFilter.{
  PatternPart, superwild, wild, named, new_part, new_pattern, new_domain, matches_from,
  pattern_matches,
}
use nova_enclave_capsule.Policy.DomainFilter.Matching.{
  SameLabels, Covers, Started, matches_from_sound, matches_from_same, matches_from_prefix,
}

SameLabels-append :
    (ps rs : List PatternPart) (qs ts : List Text)
    → SameLabels ps qs
    → SameLabels rs ts
    → SameLabels (ps ++ rs) (qs ++ ts)
SameLabels-append [] rs [] ts s t = t
SameLabels-append (wild ∷ ps) rs (q ∷ qs) ts s t = SameLabels-append ps rs qs ts s t
SameLabels-append (named part ∷ ps) rs (q ∷ qs) ts s t = (s.0, SameLabels-append ps rs qs ts s.1 t)
SameLabels-append (superwild ∷ ps) rs (q ∷ qs) ts s t = absurd s
SameLabels-append [] rs (q ∷ qs) ts s t = absurd s
SameLabels-append (superwild ∷ ps) rs [] ts s t = absurd s
SameLabels-append (wild ∷ ps) rs [] ts s t = absurd s
SameLabels-append (named part ∷ ps) rs [] ts s t = absurd s

SameLabels-reverse :
    (ps : List PatternPart) (qs : List Text)
    → SameLabels ps qs
    → SameLabels (reverse ps) (reverse qs)
SameLabels-reverse [] [] s = tt
SameLabels-reverse (wild ∷ ps) (q ∷ qs) s =
    rw (reverse-cons, reverse-cons)
      (SameLabels-append (reverse ps) (wild ∷ []) (reverse qs) (q ∷ []) (SameLabels-reverse ps qs s)
        tt)
SameLabels-reverse (named part ∷ ps) (q ∷ qs) s =
    rw (reverse-cons, reverse-cons)
      (SameLabels-append (reverse ps) (named part ∷ []) (reverse qs) (q ∷ [])
        (SameLabels-reverse ps qs s.1) (s.0, tt))
SameLabels-reverse (superwild ∷ ps) (q ∷ qs) s = absurd s
SameLabels-reverse [] (q ∷ qs) s = absurd s
SameLabels-reverse (superwild ∷ ps) [] s = absurd s
SameLabels-reverse (wild ∷ ps) [] s = absurd s
SameLabels-reverse (named part ∷ ps) [] s = absurd s

reverse-middle {ℓ} :
    {A : Type ℓ} (xs : List A) (x : A) (ys : List A)
    → reverse (xs ++ (x ∷ ys)) ≡ reverse ys ++ (x ∷ reverse xs)
reverse-middle xs x ys = simp (reverse-append, reverse-cons, append_assoc)

reverse-ne-nil {ℓ} : {A : Type ℓ} (xs : List A) → xs ≢ [] → reverse xs ≢ []
reverse-ne-nil xs n e = n (sym (reverse-reverse xs) ∙ ap reverse e)

Covers-of_Started :
    (ps : List PatternPart) (qs : List Text) → Started (reverse ps) (reverse qs) → Covers ps qs
Covers-of_Started ps qs (inl s) =
    inl (rw (reverse-reverse, reverse-reverse) at (SameLabels-reverse (reverse ps) (reverse qs) s))
Covers-of_Started ps qs (inr m) = inr (record {
  ignored = reverse m.ignored;
  tail = reverse m.head;
  front = reverse m.front;
  back = reverse m.back;
  pattern_eq =
      sym (reverse-reverse ps)
      ∙ ap reverse m.pattern_eq
      ∙ reverse-middle m.head superwild m.ignored;
  labels_eq = sym (reverse-reverse qs) ∙ ap reverse m.labels_eq ∙ reverse-append m.back m.front;
  front_nonempty = reverse-ne-nil m.front m.front_nonempty;
  same = SameLabels-reverse m.head m.back m.same;
})

matches_from_of_Covers :
    (ps : List PatternPart) (qs : List Text)
    → Covers ps qs
    → matches_from (reverse ps) (reverse qs) ≡ true
matches_from_of_Covers ps qs (inl s) =
    matches_from_same (reverse ps) (reverse qs) (SameLabels-reverse ps qs s)
matches_from_of_Covers ps qs (inr m) =
    rw (ap reverse m.pattern_eq ∙ reverse-middle m.ignored superwild m.tail) (
      rw (ap reverse m.labels_eq ∙ reverse-append m.front m.back) (
        matches_from_prefix (reverse m.tail) (reverse m.ignored) (reverse m.back) (reverse m.front)
          (SameLabels-reverse m.tail m.back m.same) (reverse-ne-nil m.front m.front_nonempty)))

-- The parts of a pattern and the labels of a host, from left to right.
abbrev pub pattern_parts : Text → List PatternPart
pattern_parts pat = map new_part (split b'.' pat)

abbrev pub host_labels : Text → List Text
host_labels host = map to_ascii_lowercase (split b'.' host)

-- A pattern matches a host exactly if the parts and the labels, read from left to right, agree one
-- by one (`*` with any label) and there is no `**`; or if the parts behind the last `**` agree one
-- by one with the last labels of the host and at least one label stands in front of those. The
-- parts in front of that `**` play no part.
pub pattern_matches_iff :
    (pat host : Text)
    → (pattern_matches (new_pattern pat) (new_domain host) ≡ true)
      ↔ Covers (pattern_parts pat) (host_labels host)
unfolding pattern_matches new_pattern new_domain
pattern_matches_iff pat host = (
  λ h. Covers-of_Started (pattern_parts pat) (host_labels host) (matches_from_sound _ _ h),
  λ c. matches_from_of_Covers (pattern_parts pat) (host_labels host) c,
)
