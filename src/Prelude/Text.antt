-- ===== src/Prelude/Text.antt =====
-- `str`: a text is the list of its Unicode scalar values. The functions are those of Rust's `str`
-- and `char` that the modelled sources call.
use Prim.Native.Nat.{ℕ, zero, suc, ◌+◌, ◌/◌, ◌%◌}
use Prim.Native.Char.{code}
use Prim.Native.String.{String}
use mathlib.Core.Path.{◌≡◌, refl}
use mathlib.Core.Bool.{Bool, true, false, ◌&&◌, ◌||◌}
use mathlib.Core.Option.{Option, none, some}
use mathlib.Core.List.{List, [], ◌∷◌, ◌++◌, map, reverse}
use nova_enclave_capsule.Prelude.Tests.{ltb, leb, ◌==◌, nat_eq, list_eq, if◌then◌else◌}

abbrev pub Text : Type 0
Text = List ℕ

-- The text that a literal of the source spells.
abbrev pub codes : String → Text
codes String.[] = []
codes (String.◌∷◌ c s) = code c ∷ codes s

abbrev pub is_empty {ℓ} : {A : Type ℓ} → List A → Bool
is_empty [] = true
is_empty (x ∷ xs) = false

-- `char::is_ascii_uppercase`, and what `to_ascii_lowercase` makes of one character.
abbrev pub lower : ℕ → ℕ
lower c = if leb b'A' c && leb c b'Z' then c + 32 else c

unfoldable pub to_ascii_lowercase : Text → Text
to_ascii_lowercase s = map lower s

unfoldable pub is_ascii_alphanumeric : ℕ → Bool
is_ascii_alphanumeric c =
    (leb b'0' c && leb c b'9') || (leb b'A' c && leb c b'Z') || (leb b'a' c && leb c b'z')

-- `char::is_whitespace`: the characters with the property White_Space.
unfoldable pub is_whitespace : ℕ → Bool
is_whitespace c =
    (leb 9 c && leb c 13)
    || c == 32
    || c == 0x85
    || c == 0xa0
    || c == 0x1680
    || (leb 0x2000 c && leb c 0x200a)
    || c == 0x2028
    || c == 0x2029
    || c == 0x202f
    || c == 0x205f
    || c == 0x3000

trim_start : Text → Text
trim_start [] = []
trim_start (c ∷ s) = if is_whitespace c then trim_start s else c ∷ s

unfoldable pub trim : Text → Text
unfolding trim_start is_whitespace
trim s = reverse (trim_start (reverse (trim_start s)))

-- One character in front of the parts of the rest.
abbrev pub split_step : Bool → ℕ → List Text → List Text
split_step true c parts = [] ∷ parts
split_step false c [] = (c ∷ []) ∷ []
split_step false c (part ∷ parts) = (c ∷ part) ∷ parts

-- `str::split` at one character.
unfoldable pub split : ℕ → Text → List Text
split sep [] = [] ∷ []
split sep (c ∷ s) = split_step (c == sep) c (split sep s)

unfoldable pub strip_prefix : Text → Text → Option Text
strip_prefix [] s = some s
strip_prefix (p ∷ ps) [] = none
strip_prefix (p ∷ ps) (c ∷ s) = if p == c then strip_prefix ps s else none

-- `str::strip_suffix` of one character.
unfoldable pub strip_suffix : ℕ → Text → Option Text
strip_suffix p [] = none
strip_suffix p (c ∷ []) = if p == c then some [] else none
strip_suffix p (c ∷ d ∷ s) = elim (strip_suffix p (d ∷ s)) [ none ↦ none | some r ↦ some (c ∷ r) ]

-- `trim_start_matches` of a text of two characters: each one in front is removed.
unfoldable pub trim_start_pairs : ℕ → ℕ → Text → Text
trim_start_pairs p q [] = []
trim_start_pairs p q (c ∷ []) = c ∷ []
trim_start_pairs p q (c ∷ d ∷ s) =
    let rest = trim_start_pairs p q s in if c == p && d == q then rest else c ∷ d ∷ s

-- The number of bytes in UTF-8 (`str::len`).
abbrev pub utf8_width : ℕ → ℕ
utf8_width c = if ltb c 0x80 then 1 else if ltb c 0x800 then 2 else if ltb c 0x10000 then 3 else 4

unfoldable pub utf8_len : Text → ℕ
utf8_len [] = 0
utf8_len (c ∷ s) = utf8_width c + utf8_len s

trim_example : trim (codes "  a b\t ") ≡ codes "a b"
unfolding trim
trim_example = refl

split_example : split b'.' (codes "a..b") ≡ codes "a" ∷ [] ∷ codes "b" ∷ []
unfolding split
split_example = refl

-- `Display` of an unsigned integer. The fuel counts digits: a number is above its own logarithm.
digits : ℕ → ℕ → Text
digits zero n = []
digits (suc fuel) n =
    let more = digits fuel (n / 10) ++ (b'0' + n % 10) ∷ [] in
    if ltb n 10 then (b'0' + n) ∷ [] else more

unfoldable pub decimal : ℕ → Text
unfolding digits
decimal n = digits (suc n) n

decimal_example : decimal 1_048_577 ≡ codes "1048577"
unfolding decimal
decimal_example = refl

-- `str::cmp` by code points, which orders texts as their UTF-8 bytes do: the first is smaller.
unfoldable pub text_lt : Text → Text → Bool
text_lt [] [] = false
text_lt [] (d ∷ t) = true
text_lt (c ∷ s) [] = false
text_lt (c ∷ s) (d ∷ t) = ltb c d || (c == d && text_lt s t)

-- `str::starts_with` and `str::contains` of a text, and `str::ends_with` of a character.
unfoldable pub starts_with : Text → Text → Bool
starts_with text [] = true
starts_with [] (p ∷ part) = false
starts_with (c ∷ text) (p ∷ part) = c == p && starts_with text part

unfoldable pub contains : Text → Text → Bool
unfolding starts_with
contains [] part = is_empty part
contains (c ∷ text) part = let later = contains text part in starts_with (c ∷ text) part || later

contains_example : contains (codes "KMS HTTP 404") (codes "HTTP") ≡ true
unfolding contains
contains_example = refl
