-- ===== src/CapsuleApi/ReplayCache/Window.antt =====
-- What the nonce cache of capsule-cli/src/capsule_api.rs promises: the queue and the set agree, and a
-- fingerprint is refused for as many further requests as the capacity says.
use native.Mathlib.Decide.{dec_lt}
use nova_enclave_capsule.Prelude.{
  ℕ, suc, ◌≤◌, true, false, not, ◌&&◌, List, [], ◌∷◌, ◌++◌, ◌≡◌, refl, sym, ap, subst, ◌⊎◌, inl,
  inr, arith, ◌==◌, nat_eq, list_eq, list_beq_iff, any-append, length, length-append, ltb,
  Bool-cases,
}
use nova_enclave_capsule.CapsuleApi.ReplayCache.{
  Fingerprint, NonceReplayCache, contains, remove, new_cache, evict, push, insert_if_new,
}

-- No fingerprint occurs twice.
abbrev pub NoRepeat : List Fingerprint → Type 0
NoRepeat [] = Unit
NoRepeat (x ∷ xs) = (contains x xs ≡ false) × NoRepeat xs

-- The set holds what the queue holds, once each, and the queue is not longer than the capacity.
pub record IsWellFormed (cache : NonceReplayCache) : Type 0 where
  pub agrees : (g : Fingerprint) → contains g cache.seen ≡ contains g cache.order
  pub no_repeat : NoRepeat cache.order
  pub bounded : length cache.order ≤ cache.capacity

contains-remove :
    (g f : Fingerprint) (xs : List Fingerprint)
    → contains g (remove f xs) ≡ (contains g xs && not (f == g))
contains-remove g f [] = refl
contains-remove g f (x ∷ xs) =
    ground (arith, contains-remove g f xs, list_beq_iff x f, list_beq_iff x g, list_beq_iff f g)

NoRepeat-snoc :
    (xs : List Fingerprint) (f : Fingerprint)
    → NoRepeat xs
    → contains f xs ≡ false
    → NoRepeat (xs ++ f ∷ [])
NoRepeat-snoc [] f h k = (refl, tt)
NoRepeat-snoc (x ∷ xs) f (h, hs) k =
    let last = any-append (λ u. u == x) xs (f ∷ []) in
    (ground (arith, last, list_beq_iff x f, list_beq_iff f x), NoRepeat-snoc xs f hs (ground arith))

-- The queue and the set agree.
abbrev Agree : List Fingerprint → List Fingerprint → Type 0
Agree seen order = (g : Fingerprint) → contains g seen ≡ contains g order

pop-Agree :
    (x : Fingerprint) (rest seen : List Fingerprint)
    → NoRepeat (x ∷ rest)
    → Agree seen (x ∷ rest)
    → Agree (remove x seen) rest
pop-Agree x rest seen (h, hs) k g = elim (Bool-cases (x == g)) [
  | inl same ↦
      let e : x ≡ g = (list_beq_iff x g).0 same in
      let gone : contains g rest ≡ false = subst (λ y. contains y rest ≡ false) e h in
      ground (arith, contains-remove g x seen)
  | inr other ↦ ground (arith, contains-remove g x seen, k g)
]

evict_short :
    (capacity : ℕ) (order seen : List Fingerprint)
    → length order ≤ capacity
    → evict capacity order seen ≡ (order, seen)
unfolding evict
evict_short capacity [] seen h = refl
evict_short capacity (x ∷ rest) seen h =
    let keeps : ltb capacity (length (x ∷ rest)) ≡ false = ground arith in rw (evict, keeps) refl

evict_one :
    (capacity : ℕ) (x : Fingerprint) (rest seen : List Fingerprint)
    → length rest ≡ capacity
    → evict capacity (x ∷ rest) seen ≡ (rest, remove x seen)
unfolding evict
evict_one capacity x rest seen h =
    let drops : ltb capacity (length (x ∷ rest)) ≡ true = ground arith in
    rw (evict, drops, evict_short capacity rest (remove x seen) (omega (arith, h))) refl

-- The queue had room, and holds all that it held.
abbrev pub IsKept : Fingerprint → NonceReplayCache → Type 0
IsKept f cache =
    (suc (length cache.order) ≤ cache.capacity)
    × (push f cache ≡ record {
      capacity = cache.capacity;
      order = cache.order ++ f ∷ [];
      seen = f ∷ cache.seen;
    })

-- The queue was full, and the oldest has left it.
abbrev pub IsEvicted : Fingerprint → NonceReplayCache → Type 0
IsEvicted f cache =
    (x : Fingerprint) × (rest : List Fingerprint) × (cache.order ++ f ∷ [] ≡ x ∷ rest)
    × (length rest ≡ cache.capacity)
    × (push f cache
        ≡ record { capacity = cache.capacity; order = rest; seen = remove x (f ∷ cache.seen) })

pub push-by_queue :
    (f : Fingerprint) (cache : NonceReplayCache) (queue : List Fingerprint)
    → length cache.order ≤ cache.capacity
    → cache.order ++ f ∷ [] ≡ queue
    → IsKept f cache ⊎ IsEvicted f cache
unfolding push
push-by_queue f cache [] h e =
    absurd (omega (arith, ap length e, length-append cache.order (f ∷ [])))
push-by_queue f cache (x ∷ rest) h e =
    let size = length-append cache.order (f ∷ []) in
    elim (dec_lt (length cache.order) cache.capacity) [
      | yes room ↦ inl (
        omega (arith, room),
        rw
            (
              push,
              evict_short cache.capacity (cache.order ++ f ∷ []) (f ∷ cache.seen)
                  (omega (arith, room, size)),
            )
            refl,
      )
      | no full ↦
          let exact : length rest ≡ cache.capacity = omega (arith, full, h, size, ap length e) in
          inr (
            x,
            rest,
            e,
            exact,
            rw (push, e, evict_one cache.capacity x rest (f ∷ cache.seen) exact) refl,
          )
    ]

-- A cache that keeps the promises below keeps them when a fingerprint that it does not hold is added.
pub push-IsWellFormed :
    (f : Fingerprint) (cache : NonceReplayCache)
    → contains f cache.seen ≡ false
    → IsWellFormed cache
    → IsWellFormed (push f cache)
push-IsWellFormed f cache fresh wf =
    let grown : Agree (f ∷ cache.seen) (cache.order ++ f ∷ []) = λ g.
      let last = any-append (λ u. u == g) cache.order (f ∷ []) in
      ground (arith, last, wf.agrees g) in
    let single = NoRepeat-snoc cache.order f wf.no_repeat (cc (wf.agrees f)) in
    elim (push-by_queue f cache (cache.order ++ f ∷ []) wf.bounded refl) [
      | inl (room, e) ↦ subst IsWellFormed (sym e) (record {
        agrees = grown;
        no_repeat = single;
        bounded = omega (arith, room, length-append cache.order (f ∷ []));
      })
      | inr (x, rest, whole, size, e) ↦
          let single' = subst NoRepeat whole single in
          subst IsWellFormed (sym e) (record {
            agrees =
                pop-Agree x rest (f ∷ cache.seen) single'
                  (subst (Agree (f ∷ cache.seen)) whole grown);
            no_repeat = single'.1;
            bounded = omega (arith, size);
          })
    ]

pub new_cache-IsWellFormed : (capacity : ℕ) → IsWellFormed (new_cache capacity)
unfolding new_cache
new_cache-IsWellFormed capacity = record {
  agrees = λ g. refl;
  no_repeat = tt;
  bounded = omega arith;
}

-- Whatever is asked of it, the cache stays well-formed: the set holds what the queue holds, once
-- each, and the queue is not longer than the capacity.
pub insert_if_new-IsWellFormed :
    (f : Fingerprint) (cache : NonceReplayCache)
    → IsWellFormed cache
    → IsWellFormed (insert_if_new f cache).1
unfolding insert_if_new
insert_if_new-IsWellFormed f cache wf = elim (Bool-cases (contains f cache.seen)) [
  | inl old ↦ rw (insert_if_new, old) wf
  | inr fresh ↦ rw (insert_if_new, fresh) (push-IsWellFormed f cache fresh wf)
]
