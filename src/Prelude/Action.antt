-- ===== src/Prelude/Action.antt =====
-- Actions on a state that may fail with a text or panic: an async function that returns
-- `anyhow::Result`. The state that an action leaves stays when a later one fails.
use mathlib.Core.Path.{◌≡◌, refl, ap}
use mathlib.Core.Option.{Option, none, some}
use mathlib.Core.Bool.{Bool, true, false}
use nova_enclave_capsule.Prelude.Tests.{if◌then◌else◌}
use nova_enclave_capsule.Prelude.Fallible.{Result, ok, err}
use nova_enclave_capsule.Prelude.Text.{Text}

pub data Fault : Type 0 where
  failed : Text → Fault
  panicked : Fault

abbrev pub Action : Type 0 → Type 0 → Type 0
Action S A = S → S × Result Fault A

-- A result of a function that may fail, as one of an action.
abbrev pub raise : {A : Type 0} → Result Text A → Result Fault A
raise (ok a) = ok a
raise (err e) = err (failed e)

abbrev pub or_panic : {A : Type 0} → Option A → Result Fault A
or_panic none = err panicked
or_panic (some a) = ok a

-- What a `match` on a result sees: a panic passes it by.
abbrev pub caught : {A : Type 0} → Result Fault A → Result Fault (Result Text A)
caught (ok a) = ok (ok a)
caught (err (failed e)) = ok (err e)
caught (err panicked) = err panicked

module _ {S : Type 0} where
  abbrev pub proceed : {A B : Type 0} → Result Fault A → (A → Action S B) → Action S B
  proceed (ok a) next s = next a s
  proceed (err e) next s = (s, err e)

  infixl 5 ◌>>=◌ ◌>>◌
  abbrev pub ◌>>=◌ : {A B : Type 0} → Action S A → (A → Action S B) → Action S B
  ◌>>=◌ first next s = let (s', r) = first s in proceed r next s'

  abbrev pub ◌>>◌ : {B : Type 0} → Action S (Unit {0}) → Action S B → Action S B
  first >> second = first >>= λ _. second

  abbrev pub pure : {A : Type 0} → A → Action S A
  pure a s = (s, ok a)

  abbrev pub lift : {A : Type 0} → Result Text A → Action S A
  lift r s = (s, raise r)

  abbrev pub bail : {A : Type 0} → Text → Action S A
  bail message s = (s, err (failed message))

  -- A value that is a panic when it is missing.
  abbrev pub expect : {A : Type 0} → Option A → Action S A
  expect o s = (s, or_panic o)

  abbrev pub attempt : {A : Type 0} → Action S A → Action S (Result Text A)
  attempt m s = let (s', r) = m s in (s', caught r)

  abbrev pub get_state : Action S S
  get_state s = (s, ok s)

  abbrev pub put_state : S → Action S (Unit {0})
  put_state s' s = (s', ok tt)

  proceed-eq-ok :
      {A B : Type 0} (r : Result Fault A) (next : A → Action S B) (s : S) {y : B}
      → (proceed r next s).1 ≡ ok y
      → (x : A) × (r ≡ ok x) × ((next x s).1 ≡ ok y)
  proceed-eq-ok (ok x) next s done = (x, refl, done)
  proceed-eq-ok (err e) next s done = absurd (cc)

  -- Inversion of a bind that succeeds: the first action does, and the second one after it.
  pub >>=-eq-ok :
      {A B : Type 0} (m : Action S A) (next : A → Action S B) (s : S) {y : B}
      → ((m >>= next) s).1 ≡ ok y
      → (x : A) × ((m s).1 ≡ ok x) × ((next x (m s).0).1 ≡ ok y)
  >>=-eq-ok m next s done = proceed-eq-ok (m s).1 next (m s).0 done

  -- A bind whose first action succeeds is the second one, on the state that the first leaves.
  pub >>=-next :
      {A B : Type 0} (m : Action S A) (next : A → Action S B) (s : S) {x : A}
      → (m s).1 ≡ ok x
      → (m >>= next) s ≡ next x (m s).0
  >>=-next m next s h = ap (λ r. proceed r next (m s).0) h

  proceed-keeps :
      {A B : Type 0} (P : S → Type 0) (next : A → Action S B)
      → ((x : A) (s : S) → P s → P (next x s).0)
      → (r : Result Fault A) (s : S) → P s
      → P (proceed r next s).0
  proceed-keeps P next next-keeps (ok x) s h = next-keeps x s h
  proceed-keeps P next next-keeps (err e) s h = h

  -- A property of the states that both parts of a bind keep.
  pub >>=-keeps :
      {A B : Type 0} (P : S → Type 0) (m : Action S A) (next : A → Action S B)
      → ((s : S) → P s → P (m s).0)
      → ((x : A) (s : S) → P s → P (next x s).0)
      → (s : S) → P s
      → P ((m >>= next) s).0
  >>=-keeps P m next m-keeps next-keeps s h =
      proceed-keeps P next next-keeps (m s).1 (m s).0 (m-keeps s h)

  proceed-reaches :
      {A B : Type 0} (P : S → Type 0) (next : A → Action S B) (r : Result Fault A) (s : S)
      → P s
      → ((x : A) → r ≡ ok x → P (next x s).0)
      → P (proceed r next s).0
  proceed-reaches P next (ok x) s h later = later x refl
  proceed-reaches P next (err e) s h later = h

  -- A property of the state that a bind leaves: the first part leaves it, and so does the second one
  -- with what the first part gave.
  pub >>=-reaches :
      {A B : Type 0} (P : S → Type 0) (m : Action S A) (next : A → Action S B) (s : S)
      → P (m s).0
      → ((x : A) → (m s).1 ≡ ok x → P (next x (m s).0).0)
      → P ((m >>= next) s).0
  >>=-reaches P m next s h later = proceed-reaches P next (m s).1 (m s).0 h later

  pub if_bail-eq-ok :
      {A : Type 0} (b : Bool) (e : Text) (m : Action S A) (s : S) {y : A}
      → ((if b then bail e else m) s).1 ≡ ok y
      → (b ≡ false) × ((m s).1 ≡ ok y)
  if_bail-eq-ok true e m s h = absurd (cc)
  if_bail-eq-ok false e m s h = (refl, h)

pub raise-eq-ok : {A : Type 0} (r : Result Text A) {x : A} → raise r ≡ ok x → r ≡ ok x
raise-eq-ok (ok a) h = cc
raise-eq-ok (err e) h = absurd (cc)

pub or_panic-eq-ok : {A : Type 0} (o : Option A) {x : A} → or_panic o ≡ ok x → o ≡ some x
or_panic-eq-ok (some a) h = cc
or_panic-eq-ok none h = absurd (cc)

-- What is caught as a success was one.
pub caught-eq-ok : {A : Type 0} (r : Result Fault A) {x : A} → caught r ≡ ok (ok x) → r ≡ ok x
caught-eq-ok (ok a) h = cc
caught-eq-ok (err (failed e)) h = absurd (cc)
caught-eq-ok (err panicked) h = absurd (cc)
