-- ===== src/Prelude/Repeats.antt =====
-- A loop that keeps a `HashSet` of what it has met, and the list without repetitions that it wants.
use mathlib.Core.Path.{◌≡◌, refl, sym}
use mathlib.Core.Logic.{◌≢◌, ◌↔◌}
use mathlib.Core.Bool.{Bool, false}
use mathlib.Core.List.{List, [], ◌∷◌}
use native.Mathlib.Omega.{arith}
use nova_enclave_capsule.Prelude.Tests.{PartialEq, ◌==◌}
use nova_enclave_capsule.Prelude.Lists.{any, All}

module _ {A : Type 0} ⦃e : PartialEq A⦄ where
  -- `HashSet::contains`
  abbrev pub seen : A → List A → Bool
  seen x used = any (λ u. u == x) used

  abbrev pub AllNot : A → List A → Type 0
  AllNot x = All (λ u. u ≢ x)

  -- No element occurs twice.
  abbrev pub Distinct : List A → Type 0
  Distinct [] = Unit
  Distinct (x ∷ xs) = AllNot x xs × Distinct xs

  -- Nothing in the list is in the set, nor earlier in the list.
  abbrev pub Fresh : List A → List A → Type 0
  Fresh used [] = Unit
  Fresh used (x ∷ xs) = (seen x used ≡ false) × Fresh (x ∷ used) xs

  seen-AllNot : (x : A) (used : List A) → (seen x used ≡ false) ↔ AllNot x used
  seen-AllNot x [] = ((λ h. tt), (λ h. refl))
  seen-AllNot x (u ∷ used) = ground (arith, e.eq_iff u x, seen-AllNot x used)

  All-before_nil : (used : List A) → All (λ u. AllNot u []) used
  All-before_nil [] = tt
  All-before_nil (u ∷ used) = (tt, All-before_nil used)

  All-before-cons :
      (x : A) (xs used : List A)
      → (AllNot x used × All (λ u. AllNot u xs) used) ↔ All (λ u. AllNot u (x ∷ xs)) used
  All-before-cons x xs [] = ((λ h. tt), (λ h. (tt, tt)))
  All-before-cons x xs (u ∷ used) =
      let ih = All-before-cons x xs used in
      (
        (λ ((n, ns), (h, hs)). (((λ e. n (sym e)), h), ih.0 (ns, hs))),
        (λ ((n, h), hs). let (ns, later) = ih.1 hs in (((λ e. n (sym e)), ns), (h, later))),
      )

  -- A list is taken with a set of what was met exactly if nothing occurs twice in it, and nothing
  -- of it is in the set.
  pub Fresh-iff : (used xs : List A) → Fresh used xs ↔ (Distinct xs × All (λ u. AllNot u xs) used)
  Fresh-iff used [] = ((λ h. (tt, All-before_nil used)), (λ h. tt))
  Fresh-iff used (x ∷ xs) =
      let ih = Fresh-iff (x ∷ used) xs in
      let here = seen-AllNot x used in
      let before = All-before-cons x xs used in
      (
        (λ (unseen, rest).
            let (distinct, (later, others)) = ih.0 rest in
            ((later, distinct), before.0 (here.0 unseen, others))),
        (λ ((later, distinct), others).
            let (unseen, old) = before.1 others in (here.1 unseen, ih.1 (distinct, (later, old)))),
      )

  pub Fresh-nil : (xs : List A) → Fresh [] xs ↔ Distinct xs
  Fresh-nil xs = let both = Fresh-iff [] xs in ((λ h. (both.0 h).0), (λ h. both.1 (h, tt)))
