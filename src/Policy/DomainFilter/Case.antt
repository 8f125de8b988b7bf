-- ===== src/Policy/DomainFilter/Case.antt =====
-- Letter case in capsule-cli/src/policy/domain_filter.rs.
use mathlib.Core.List.{map}
use nova_enclave_capsule.Prelude.{
  ℕ, ◌≡◌, refl, sym, List, [], ◌∷◌, arith, ◌==◌, nat_eq, list_beq, All, Bool, true, false,
}
use nova_enclave_capsule.Prelude.Text.{Text, codes, lower, split, split_step, to_ascii_lowercase}
use nova_enclave_capsule.Policy.DomainFilter.{new_part, new_pattern, new_domain, pattern_matches}

lower_idem : (c : ℕ) → lower (lower c) ≡ lower c
lower_idem c = ground arith

pub to_ascii_lowercase_idem :
    (s : Text) → to_ascii_lowercase (to_ascii_lowercase s) ≡ to_ascii_lowercase s
unfolding to_ascii_lowercase
to_ascii_lowercase_idem [] = refl
to_ascii_lowercase_idem (c ∷ s) = cc (lower_idem c, to_ascii_lowercase_idem s)

lower-dot : (c : ℕ) → (lower c == b'.') ≡ (c == b'.')
lower-dot c = ground arith

map-split_step :
    (b : Bool) (c : ℕ) (parts : List Text)
    → map to_ascii_lowercase (split_step b c parts)
      ≡ split_step b (lower c) (map to_ascii_lowercase parts)
unfolding to_ascii_lowercase
map-split_step true c parts = refl
map-split_step false c [] = refl
map-split_step false c (part ∷ parts) = refl

split-lower : (s : Text) → split b'.' (map lower s) ≡ map to_ascii_lowercase (split b'.' s)
unfolding split
split-lower [] = unfold to_ascii_lowercase in refl
split-lower (c ∷ s) =
    rw (lower-dot, split-lower s) (sym (map-split_step (c == b'.') c (split b'.' s)))

map_lower_idem :
    (parts : List Text)
    → map to_ascii_lowercase (map to_ascii_lowercase parts) ≡ map to_ascii_lowercase parts
map_lower_idem [] = refl
map_lower_idem (p ∷ ps) = cc (to_ascii_lowercase_idem p, map_lower_idem ps)

-- A text of stars equals a text exactly if it equals the lowercase of that text.
beq-lower_stars : (s t : Text) → All (λ c. c ≡ b'*') t → list_beq (map lower s) t ≡ list_beq s t
beq-lower_stars [] [] h = refl
beq-lower_stars [] (x ∷ t) h = refl
beq-lower_stars (c ∷ s) [] h = refl
beq-lower_stars (c ∷ s) (x ∷ t) h = ground (arith, beq-lower_stars s t h.1)

new_part-lower : (part : Text) → new_part (map lower part) ≡ new_part part
unfolding new_part
new_part-lower part = rw (
  beq-lower_stars part (codes "**") (refl, (refl, tt)),
  beq-lower_stars part (codes "*") (refl, tt),
  to_ascii_lowercase_idem part,
)

map-new_part-lower :
    (parts : List Text) → map new_part (map to_ascii_lowercase parts) ≡ map new_part parts
unfolding to_ascii_lowercase
map-new_part-lower [] = refl
map-new_part-lower (p ∷ ps) = cc (new_part-lower p, map-new_part-lower ps)

-- Letter case plays no part: writing the pattern and the host in lowercase changes nothing.
pub pattern_matches-lowercase :
    (pat host : Text)
    → pattern_matches (new_pattern (to_ascii_lowercase pat)) (new_domain (to_ascii_lowercase host))
      ≡ pattern_matches (new_pattern pat) (new_domain host)
unfolding new_pattern new_domain
pattern_matches-lowercase pat host = rw (
  split-lower pat,
  split-lower host,
  map-new_part-lower (split b'.' pat),
  map_lower_idem (split b'.' host),
)
