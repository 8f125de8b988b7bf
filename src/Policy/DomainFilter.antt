-- ===== src/Policy/DomainFilter.antt =====
-- capsule-cli/src/policy/domain_filter.rs. Patterns and domains keep their labels in reverse, as
-- the source does, so matching starts at the top-level domain.
pub mod Matching
pub mod Reading
pub mod Case
use mathlib.Core.List.{map, reverse}
use nova_enclave_capsule.Prelude.{
  Bool, true, false, List, [], ◌∷◌, ◌++◌, any, ◌==◌, nat_eq, list_eq, if◌then◌else◌,
}
use nova_enclave_capsule.Prelude.Text.{Text, codes, split, to_ascii_lowercase}

pub data PatternPart : Type 0 where
  superwild wild : PatternPart
  named : Text → PatternPart

-- `PatternPart::new`
unfoldable pub new_part : Text → PatternPart
unfolding to_ascii_lowercase
new_part part =
    if part == codes "**"
    then superwild
    else if part == codes "*"
    then wild
    else named (to_ascii_lowercase part)

pub record Pattern : Type 0 where
  pub parts : List PatternPart

pub record Domain : Type 0 where
  pub parts : List Text

-- `Pattern::new`
unfoldable pub new_pattern : Text → Pattern
unfolding new_part split
new_pattern pat = record { parts = reverse (map new_part (split b'.' pat)) }

-- `Domain::new`
unfoldable pub new_domain : Text → Domain
unfolding to_ascii_lowercase split
new_domain dom = record { parts = reverse (map to_ascii_lowercase (split b'.' dom)) }

-- The loop of `Pattern::matches` over the two iterators.
unfoldable pub matches_from : List PatternPart → List Text → Bool
matches_from [] [] = true
matches_from [] (q ∷ qs) = false
matches_from (p ∷ ps) [] = false
matches_from (superwild ∷ ps) (q ∷ qs) = true
matches_from (wild ∷ ps) (q ∷ qs) = matches_from ps qs
matches_from (named part ∷ ps) (q ∷ qs) = if part == q then matches_from ps qs else false

-- `Pattern::matches`
unfoldable pub pattern_matches : Pattern → Domain → Bool
unfolding matches_from
pattern_matches pattern query = matches_from pattern.parts query.parts

pub record DomainFilter : Type 0 where
  pub patterns : List Pattern

-- `DomainFilter::new`
unfoldable pub new_filter : DomainFilter
new_filter = record { patterns = [] }

unfoldable pub allow_all : DomainFilter
unfolding new_pattern
allow_all = record { patterns = new_pattern (codes "**") ∷ [] }

unfoldable pub add : DomainFilter → Text → DomainFilter
add filter pattern = record { patterns = filter.patterns ++ new_pattern pattern ∷ [] }

unfoldable pub matches : DomainFilter → Text → Bool
matches filter domain =
    let dom = new_domain domain in any (λ pat. pattern_matches pat dom) filter.patterns
