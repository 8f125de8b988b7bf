-- ===== src/CapsuleApi/ReplayCache/Replay.antt =====
-- The nonce cache of capsule-cli/src/capsule_api.rs refuses a replay for as many further requests
-- as its capacity says.
use nova_enclave_capsule.Prelude.{
  ℕ, suc, ◌+◌, ◌≤◌, ◌<◌, true, false, List, [], ◌∷◌, ◌++◌, ◌≡◌, refl, sym, ap, subst, inl, inr,
  arith, ◌==◌, nat_eq, list_eq, beq_self, any-append, length, length-append, Bool-cases,
  append_assoc,
}
use nova_enclave_capsule.CapsuleApi.ReplayCache.{
  Fingerprint, NonceReplayCache, contains, push, insert_if_new,
}
use nova_enclave_capsule.CapsuleApi.ReplayCache.Window.{
  IsWellFormed, push-by_queue, push-IsWellFormed, insert_if_new-IsWellFormed,
}

-- The queue holds the fingerprint, with fewer than `n` behind it.
abbrev IsRecent : ℕ → Fingerprint → List Fingerprint → Type 0
IsRecent n f order =
    (front : List Fingerprint) × (back : List Fingerprint) × (order ≡ front ++ f ∷ back)
    × (length back < n)

-- What is left of a queue that one leaves in front.
tail-IsRecent :
    (n capacity : ℕ) (f x : Fingerprint) (rest front back : List Fingerprint)
    → x ∷ rest ≡ front ++ f ∷ back
    → length rest ≡ capacity
    → length back < n
    → n ≤ capacity
    → IsRecent n f rest
tail-IsRecent n capacity f x rest [] back e size short room =
    absurd (omega (arith, ap length e, size, short, room))
tail-IsRecent n capacity f x rest (y ∷ front) back e size short room =
    (front, back, ground arith, short)

-- A cache after one more push: its capacity is the same, and what was recent is a step older.
IsNext : ℕ → Fingerprint → NonceReplayCache → NonceReplayCache → Type 0
IsNext n f cache cache' = (cache'.capacity ≡ cache.capacity) × IsRecent n f cache'.order

push-IsRecent :
    (n : ℕ) (f g : Fingerprint) (cache : NonceReplayCache) (front back : List Fingerprint)
    → length cache.order ≤ cache.capacity
    → cache.order ++ g ∷ [] ≡ front ++ f ∷ back
    → length back < n
    → n ≤ cache.capacity
    → IsNext n f cache (push g cache)
unfolding IsNext
push-IsRecent n f g cache front back bounded e short room =
    elim (push-by_queue g cache (cache.order ++ g ∷ []) bounded refl) [
      | inl (free, pushed) ↦ subst (IsNext n f cache) (sym pushed) (refl, (front, back, e, short))
      | inr (x, rest, whole, size, pushed) ↦
          subst (IsNext n f cache) (sym pushed) (
            refl,
            tail-IsRecent n cache.capacity f x rest front back (cc (whole, e)) size short room,
          )
    ]

insert-IsRecent :
    (n : ℕ) (f g : Fingerprint) (cache : NonceReplayCache)
    → IsWellFormed cache
    → IsRecent n f cache.order
    → suc n ≤ cache.capacity
    → IsNext (suc n) f cache (insert_if_new g cache).1
unfolding insert_if_new IsNext
insert-IsRecent n f g cache wf (front, back, e, short) room =
    elim (Bool-cases (contains g cache.seen)) [
      | inl old ↦ rw (insert_if_new, old) (refl, (front, back, e, omega (arith, short)))
      | inr fresh ↦
          let size = length-append back (g ∷ []) in
          let shape : cache.order ++ g ∷ [] ≡ front ++ f ∷ (back ++ g ∷ []) =
            rw (e, append_assoc front (f ∷ back) (g ∷ [])) refl in
          rw (insert_if_new, fresh)
            (push-IsRecent (suc n) f g cache front (back ++ g ∷ []) wf.bounded shape
              (omega (arith, short, size)) room)
    ]

-- Requests, one after the other.
unfoldable pub insert_all : List Fingerprint → NonceReplayCache → NonceReplayCache
unfolding insert_if_new
insert_all [] cache = cache
insert_all (g ∷ gs) cache = insert_all gs (insert_if_new g cache).1

recent-refused :
    (n : ℕ) (f : Fingerprint) (cache : NonceReplayCache)
    → IsWellFormed cache
    → IsRecent n f cache.order
    → (insert_if_new f cache).0 ≡ false
unfolding insert_if_new
recent-refused n f cache wf (front, back, e, short) =
    let split = any-append (λ u. u == f) front (f ∷ back) in
    let self = beq_self f in
    let found : contains f (front ++ f ∷ back) ≡ true = ground (arith, split, self) in
    let held : contains f cache.seen ≡ true = cc (wf.agrees f, ap (contains f) e, found) in
    rw (insert_if_new, held) refl

still_refused :
    (n : ℕ) (f : Fingerprint) (gs : List Fingerprint) (cache : NonceReplayCache)
    → IsWellFormed cache
    → IsRecent n f cache.order
    → n + length gs ≤ cache.capacity
    → (insert_if_new f (insert_all gs cache)).0 ≡ false
unfolding insert_all IsNext
still_refused n f [] cache wf recent room = recent-refused n f cache wf recent
still_refused n f (g ∷ gs) cache wf recent room =
    let (same, later) = insert-IsRecent n f g cache wf recent (omega (arith, room)) in
    still_refused (suc n) f gs (insert_if_new g cache).1 (insert_if_new-IsWellFormed g cache wf)
      later (omega (arith, room, same))

-- A fingerprint that a well-formed cache accepts is refused when it comes again, whatever the
-- fewer requests than the capacity between the two are.
pub insert_if_new_replay :
    (f : Fingerprint) (gs : List Fingerprint) (cache : NonceReplayCache)
    → IsWellFormed cache
    → (insert_if_new f cache).0 ≡ true
    → length gs < cache.capacity
    → (insert_if_new f (insert_all gs (insert_if_new f cache).1)).0 ≡ false
unfolding insert_if_new IsNext
insert_if_new_replay f gs cache wf accepted room = elim (Bool-cases (contains f cache.seen)) [
  | inl old ↦ absurd (ground arith)
  | inr fresh ↦
      let (same, recent) =
        push-IsRecent 1 f f cache cache.order [] wf.bounded refl (omega arith)
          (omega (arith, room)) in
      let safe = push-IsWellFormed f cache fresh wf in
      rw (fresh) (still_refused 1 f gs (push f cache) safe recent (omega (arith, room, same)))
]
