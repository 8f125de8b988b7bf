-- ===== src/Kms/Log/Cut.antt =====
-- Where the cut of capsule-cli/src/integrations/nova_kms.rs (`truncate_for_log`) panics.
use nova_enclave_capsule.Prelude.{
  ℕ, ◌+◌, ◌-◌, ◌<◌, true, false, none, some, [], ◌∷◌, ◌++◌, ◌≡◌, ◌↔◌, inl, inr, refl, ap, ◌∙◌,
  subst, arith, ltb, ltb-eq-false, ◌==◌, nat_eq, nat_beq_iff, if◌then◌else◌, if_cases, Option-cases,
}
use nova_enclave_capsule.Prelude.Text.{Text, utf8_len, utf8_width}
use nova_enclave_capsule.Kms.Address.{in_front, take_bytes, truncate_for_log}

-- A character of the text ends after so many bytes, or the text starts there.
pub HasBoundary : Text → ℕ → Type 0
HasBoundary text n =
    (before : Text) × (after : Text) × (before ++ after ≡ text) × (utf8_len before ≡ n)

width_positive : (c : ℕ) → 0 < utf8_width c
width_positive c = ground arith

cut_start :
    (n : ℕ) (text : Text) {cut : Text}
    → (if n == 0 then some [] else none) ≡ some cut
    → HasBoundary text n
unfolding HasBoundary utf8_len
cut_start n text {cut} h =
    let zero_bytes : n ≡ 0 = ground (arith, nat_beq_iff n 0) in
    ([], text, refl, ground (arith, zero_bytes))

after_char :
    (c : ℕ) (text : Text) (n : ℕ) {cut : Text}
    → ltb n (utf8_width c) ≡ false
    → ((t : Text)
        → take_bytes (n - utf8_width c) text ≡ some t
        → HasBoundary text (n - utf8_width c))
    → in_front c (take_bytes (n - utf8_width c) text) ≡ some cut
    → HasBoundary (c ∷ text) n
unfolding HasBoundary utf8_len
after_char c text n room rest later = elim (Option-cases (take_bytes (n - utf8_width c) text)) [
  | inl missing ↦ absurd (ground (arith, missing))
  | inr (t, found) ↦
      let (before, after, same, count) = rest t found in
      (c ∷ before, after, ap (λ u. c ∷ u) same, ground (arith, count, room))
]

take_bytes-HasBoundary :
    (text : Text) (n : ℕ) {cut : Text} → take_bytes n text ≡ some cut → HasBoundary text n
unfolding take_bytes
take_bytes-HasBoundary [] n h = cut_start n [] h
take_bytes-HasBoundary (c ∷ text) n {cut} h =
    elim (if_cases (λ m. m ≡ some cut) (ltb n (utf8_width c)) _ _ h) [
      | inl (_, at_start) ↦ cut_start n (c ∷ text) at_start
      | inr (room, later) ↦
          after_char c text n room (λ t found. take_bytes-HasBoundary text (n - utf8_width c) found)
            later
    ]

take_bytes_nothing : (text : Text) → take_bytes 0 text ≡ some []
unfolding take_bytes
take_bytes_nothing [] = refl
take_bytes_nothing (c ∷ text) =
    let room : ltb 0 (utf8_width c) ≡ true = ground (arith, width_positive c) in cc room

take_step :
    (c : ℕ) (text : Text) (n : ℕ)
    → ltb n (utf8_width c) ≡ false
    → take_bytes n (c ∷ text) ≡ in_front c (take_bytes (n - utf8_width c) text)
unfolding take_bytes
take_step c text n room = cc room

take_bytes-append :
    (before after : Text) → take_bytes (utf8_len before) (before ++ after) ≡ some before
unfolding utf8_len
take_bytes-append [] after = take_bytes_nothing after
take_bytes-append (b ∷ before) after =
    let room : ltb (utf8_width b + utf8_len before) (utf8_width b) ≡ false =
      ltb-eq-false _ _ (omega arith) in
    let left : (utf8_width b + utf8_len before) - utf8_width b ≡ utf8_len before = omega arith in
    take_step b (before ++ after) _ room
    ∙ ap (λ k. in_front b (take_bytes k (before ++ after))) left
    ∙ ap (in_front b) (take_bytes-append before after)

boundary-take_bytes :
    (text : Text) (n : ℕ) → HasBoundary text n → (cut : Text) × (take_bytes n text ≡ some cut)
unfolding HasBoundary
boundary-take_bytes text n (before, after, same, count) = (
  before,
  subst (λ t. take_bytes n t ≡ some before) same
      (subst (λ k. take_bytes k (before ++ after) ≡ some before) count
        (take_bytes-append before after)),
)

truncate_panics :
    (text : Text) (n : ℕ)
    → (truncate_for_log text n ≡ none) ↔ ((n < utf8_len text) × (take_bytes n text ≡ none))
unfolding truncate_for_log
truncate_panics text n = elim (Option-cases (take_bytes n text)) [
  | inl missing ↦ ground (arith, missing)
  | inr (cut, found) ↦ ground (arith, found)
]

-- A text is cut without a panic exactly if it is short enough, or a character of it ends where it is
-- cut: the slice panics on any other.
pub truncate_for_log-panics_iff :
    (text : Text) (n : ℕ)
    → (truncate_for_log text n ≡ none) ↔ ((n < utf8_len text) × (HasBoundary text n → ⊥))
truncate_for_log-panics_iff text n =
    let panics = truncate_panics text n in
    (
      (λ h.
          let (long, missing) = panics.0 h in
          (
            long,
            (λ inside.
                let (cut, found) = boundary-take_bytes text n inside in
                absurd (cc (found, missing))),
          )),
      (λ (long, outside). elim (Option-cases (take_bytes n text)) [
        | inl missing ↦ panics.1 (long, missing)
        | inr (cut, found) ↦ absurd (outside (take_bytes-HasBoundary text n found))
      ]),
    )
