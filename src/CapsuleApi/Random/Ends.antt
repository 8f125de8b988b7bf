-- ===== src/CapsuleApi/Random/Ends.antt =====
-- How the collection of random bytes in capsule-cli/src/capsule_api.rs ends, on every source.
use nova_enclave_capsule.Prelude.{
  ℕ, zero, suc, ◌-◌, ◌≤◌, ◌<◌, true, Option, none, some, List, [], ◌∷◌, ◌++◌, ◌≡◌, refl, sym, subst,
  ap, ◌∙◌, arith, ltb, leb, length, take, nat_eq, inl, inr, Bool-cases, length-append, length-take,
  append_assoc, append-nil,
}
use nova_enclave_capsule.CapsuleApi.Random.{
  Bytes, max_empty_random_chunks, Collected, collected, source_failed, too_many_empty, unfinished,
  collect, collect_done, collect_random_bytes_from_source,
}

-- The calls of a source that give chunks.
abbrev pub calls : List Bytes → List (Option Bytes)
calls [] = []
calls (chunk ∷ chunks) = some chunk ∷ calls chunks

abbrev pub bytes_of : List Bytes → Bytes
bytes_of [] = []
bytes_of (chunk ∷ chunks) = chunk ++ bytes_of chunks

-- Of the chunks, and as many empty ones before them, never 128 in a row are empty.
abbrev pub IsTolerated : ℕ → List Bytes → Type 0
IsTolerated before [] = Unit
IsTolerated before ([] ∷ chunks) = (suc before < 128) × IsTolerated (suc before) chunks
IsTolerated before ((c ∷ chunk) ∷ chunks) = IsTolerated 0 chunks

-- The number of empty chunks at the end, those before the chunks included.
abbrev pub empty_at_end : ℕ → List Bytes → ℕ
empty_at_end before [] = before
empty_at_end before ([] ∷ chunks) = empty_at_end (suc before) chunks
empty_at_end before ((c ∷ chunk) ∷ chunks) = empty_at_end 0 chunks

-- The chunks that the source gives first, and the calls that come after them.
abbrev pub Gives : ℕ → List (Option Bytes) → List Bytes → List (Option Bytes) → Type 0
Gives before source chunks later = (source ≡ calls chunks ++ later) × IsTolerated before chunks

-- What a collection gives that has some bytes, behind some empty chunks.
abbrev pub Ends : ℕ → Bytes → ℕ → List (Option Bytes) → Collected → Type 0
Ends len buf before source (collected out) =
    (chunks : List Bytes) × (later : List (Option Bytes)) × Gives before source chunks later
    × (len ≤ length (buf ++ bytes_of chunks))
    × (out ≡ take len (buf ++ bytes_of chunks))
Ends len buf before source source_failed =
    (chunks : List Bytes) × (later : List (Option Bytes)) × Gives before source chunks
      (none ∷ later)
    × (length (buf ++ bytes_of chunks) < len)
Ends len buf before source too_many_empty =
    (chunks : List Bytes) × (later : List (Option Bytes)) × Gives before source chunks
      (some [] ∷ later)
    × (length (buf ++ bytes_of chunks) < len)
    × (empty_at_end before chunks ≡ 127)
Ends len buf before source unfinished =
    (chunks : List Bytes) × Gives before source chunks [] × (length (buf ++ bytes_of chunks) < len)

take-enough :
    (n : ℕ) (xs ys : Bytes) → length xs ≤ n → take n (xs ++ ys) ≡ xs ++ take (n - length xs) ys
take-enough n [] ys h = let same : n - 0 ≡ n = omega arith in rw (same) refl
take-enough zero (x ∷ xs) ys h = absurd (omega (arith, h))
take-enough (suc n) (x ∷ xs) ys h =
    let same : suc n - suc (length xs) ≡ n - length xs = omega arith in
    cc (take-enough n xs ys (omega (arith, h)), same)

take-all : (n : ℕ) (xs : Bytes) → length xs ≡ n → take n (xs ++ []) ≡ xs
take-all zero [] h = refl
take-all (suc n) [] h = refl
take-all zero (x ∷ xs) h = absurd (omega (arith, h))
take-all (suc n) (x ∷ xs) h = ap (λ zs. x ∷ zs) (take-all n xs (omega (arith, h)))

-- An empty chunk that is tolerated.
Ends-empty :
    (len : ℕ) (buf : Bytes) (before : ℕ) (source : List (Option Bytes)) (r : Collected)
    → suc before < 128
    → Ends len buf (suc before) source r
    → Ends len buf before (some [] ∷ source) r
Ends-empty len buf before source (collected out) lt (chunks, later, (e, fine), enough, same) =
    ([] ∷ chunks, later, (ap (λ x. some [] ∷ x) e, (lt, fine)), enough, same)
Ends-empty len buf before source source_failed lt (chunks, later, (e, fine), rest) =
    ([] ∷ chunks, later, (ap (λ x. some [] ∷ x) e, (lt, fine)), rest)
Ends-empty len buf before source too_many_empty lt (chunks, later, (e, fine), short, run) =
    ([] ∷ chunks, later, (ap (λ x. some [] ∷ x) e, (lt, fine)), short, run)
Ends-empty len buf before source unfinished lt (chunks, (e, fine), rest) =
    ([] ∷ chunks, (ap (λ x. some [] ∷ x) e, (lt, fine)), rest)

-- A chunk with bytes, all of which are taken.
Ends-chunk :
    (len : ℕ) (buf : Bytes) (before c : ℕ) (chunk : Bytes) (source : List (Option Bytes))
    (r : Collected)
    → Ends len (buf ++ c ∷ chunk) 0 source r
    → Ends len buf before (some (c ∷ chunk) ∷ source) r
Ends-chunk len buf before c chunk source (collected out) (chunks, later, (e, fine), enough, same) =
    let whole = append_assoc buf (c ∷ chunk) (bytes_of chunks) in
    (
      (c ∷ chunk) ∷ chunks,
      later,
      (ap (λ x. some (c ∷ chunk) ∷ x) e, fine),
      subst (λ b. len ≤ length b) whole enough,
      same ∙ ap (take len) whole,
    )
Ends-chunk len buf before c chunk source source_failed (chunks, later, (e, fine), short) =
    let whole = append_assoc buf (c ∷ chunk) (bytes_of chunks) in
    (
      (c ∷ chunk) ∷ chunks,
      later,
      (ap (λ x. some (c ∷ chunk) ∷ x) e, fine),
      subst (λ b. length b < len) whole short,
    )
Ends-chunk len buf before c chunk source too_many_empty (chunks, later, (e, fine), short, run) =
    let whole = append_assoc buf (c ∷ chunk) (bytes_of chunks) in
    (
      (c ∷ chunk) ∷ chunks,
      later,
      (ap (λ x. some (c ∷ chunk) ∷ x) e, fine),
      subst (λ b. length b < len) whole short,
      run,
    )
Ends-chunk len buf before c chunk source unfinished (chunks, (e, fine), short) =
    let whole = append_assoc buf (c ∷ chunk) (bytes_of chunks) in
    (
      (c ∷ chunk) ∷ chunks,
      (ap (λ x. some (c ∷ chunk) ∷ x) e, fine),
      subst (λ b. length b < len) whole short,
    )

-- Nothing is read when there are as many bytes as were asked for.
Ends-done :
    (len : ℕ) (buf : Bytes) (before : ℕ) (source : List (Option Bytes))
    → length buf ≡ len
    → Ends len buf before source (collected buf)
Ends-done len buf before source h =
    ([], source, (refl, tt), rw (append-nil buf, h) (omega arith), sym (take-all len buf h))

-- The last chunk, of which as much is taken as is left to fill.
Ends-full :
    (len : ℕ) (buf : Bytes) (before c : ℕ) (chunk : Bytes) (source : List (Option Bytes))
    → length buf ≤ len
    → len - length buf ≤ length (c ∷ chunk)
    → Ends len buf before
        (some (c ∷ chunk) ∷ source)
        (collected (buf ++ take (len - length buf) (c ∷ chunk)))
Ends-full len buf before c chunk source h enough =
    let size = length-append buf (c ∷ chunk) in
    (
      (c ∷ chunk) ∷ [],
      source,
      (refl, tt),
      subst (λ x. len ≤ length (buf ++ x)) (sym (append-nil (c ∷ chunk)))
          (omega (arith, size, h, enough)),
      subst (λ x. buf ++ take (len - length buf) (c ∷ chunk) ≡ take len (buf ++ x))
          (sym (append-nil (c ∷ chunk))) (sym (take-enough len buf (c ∷ chunk) h)),
    )

short_so_far : (len : ℕ) (buf : Bytes) → ltb (length buf) len ≡ true → length (buf ++ []) < len
short_so_far len buf short = rw (append-nil buf) (ground arith)

collect-Ends :
    (len : ℕ) (buf : Bytes) (before : ℕ) (source : List (Option Bytes))
    → length buf ≤ len
    → before < 128
    → Ends len buf before source (collect len buf before source)
unfolding collect
collect-Ends len buf before [] h lt = elim (Bool-cases (ltb (length buf) len)) [
  | inl short ↦ rw (short) ([], (refl, tt), short_so_far len buf short)
  | inr enough ↦ rw (enough) (Ends-done len buf before [] (ground arith))
]
collect-Ends len buf before (none ∷ rest) h lt = elim (Bool-cases (ltb (length buf) len)) [
  | inl short ↦ rw (short) ([], rest, (refl, tt), short_so_far len buf short)
  | inr enough ↦ rw (enough) (Ends-done len buf before (none ∷ rest) (ground arith))
]
collect-Ends len buf before (some [] ∷ rest) h lt = elim (Bool-cases (ltb (length buf) len)) [
  | inl short ↦ elim (Bool-cases (leb max_empty_random_chunks (suc before))) [
    | inl limit ↦ rw (short, limit) ([], rest, (refl, tt), short_so_far len buf short, ground arith)
    | inr below ↦
        let next : suc before < 128 = ground arith in
        rw (short, below)
          (Ends-empty len buf before rest (collect len buf (suc before) rest) next
            (collect-Ends len buf (suc before) rest h next))
  ]
  | inr enough ↦ rw (enough) (Ends-done len buf before (some [] ∷ rest) (ground arith))
]
collect-Ends len buf before (some (c ∷ chunk) ∷ rest) h lt =
    elim (Bool-cases (ltb (length buf) len)) [
      | inl short ↦ elim (Bool-cases (leb (len - length buf) (length (c ∷ chunk)))) [
        | inl last ↦
            let front = take (len - length buf) (c ∷ chunk) in
            let exact : length (buf ++ front) ≡ len =
              grind (arith, length-append buf front, length-take (len - length buf) (c ∷ chunk)) in
            let stopped = collect_done len (buf ++ front) 0 rest (omega (arith, exact)) in
            rw (short, last, stopped) (Ends-full len buf before c chunk rest h (ground arith))
        | inr partial ↦
            let size = length-append buf (c ∷ chunk) in
            let fits : length (buf ++ c ∷ chunk) ≤ len = ground (arith, size) in
            rw (short, partial)
              (Ends-chunk len buf before c chunk rest (collect len (buf ++ c ∷ chunk) 0 rest)
                (collect-Ends len (buf ++ c ∷ chunk) 0 rest fits (omega arith)))
      ]
      | inr enough ↦ rw (enough) (Ends-done len buf before (some (c ∷ chunk) ∷ rest) (ground arith))
    ]

-- How a collection ends, whatever the source gives. It succeeds after chunks that have enough bytes,
-- of which never 128 in a row are empty, with the first `len` of these bytes: none is left out,
-- repeated or moved. The source's error ends it if it comes after chunks of this kind that have too
-- few bytes. It gives up at an empty chunk if it is the 128th in a row, and too few bytes came before
-- it. Else the calls are not enough: their chunks, of this kind too, have too few bytes.
pub collect_random_bytes_from_source-Ends :
    (len : ℕ) (source : List (Option Bytes))
    → Ends len [] 0 source (collect_random_bytes_from_source len source)
unfolding collect_random_bytes_from_source
collect_random_bytes_from_source-Ends len source =
    collect-Ends len [] 0 source (omega arith) (omega arith)
