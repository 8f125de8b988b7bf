-- ===== src/Loopback/Resolved.antt =====
-- What `resolve_loopback_mounts` of capsule-cli/src/hostfs.rs makes of the bindings of a run.
use mathlib.Core.List.{map}
use nova_enclave_capsule.Prelude.{
  true, false, not, some, List, [], ◌∷◌, ◌++◌, ok, ◌>>=◌, ◌≡◌, refl, sym, ap, subst, ◌∙◌, inl, inr,
  arith, ◌==◌, nat_eq, list_eq, list_beq_iff, All, Any, seen, Distinct, Fresh, Fresh-nil,
  Bool-cases, Option-cases, Result-cases, >>=-eq-ok, fail_if-eq-ok,
}
use nova_enclave_capsule.Prelude.Text.{Text}
use nova_enclave_capsule.Manifest.{HostFsMountConfig}
use nova_enclave_capsule.Loopback.{
  RuntimeMountBinding, LoopbackMountRequest, name_key, index, get, has_entry, check_bindings,
  to_request, request_of, collect_requests, resolve_mounts,
}

abbrev pub binding_key : RuntimeMountBinding → Text
binding_key binding = name_key binding.name

abbrev entry : RuntimeMountBinding → Text × RuntimeMountBinding
entry binding = (binding_key binding, binding)

-- The request joins an entry of the manifest with a binding of its name.
abbrev pub IsJoined :
    List HostFsMountConfig → List RuntimeMountBinding → LoopbackMountRequest → Type 0
IsJoined mounts bindings request =
    Any
      (λ mount.
        Any
          (λ binding.
            (name_key binding.name ≡ name_key mount.name) × (request ≡ to_request mount binding))
          bindings)
      mounts

-- An entry that is required has a request.
abbrev pub IsServed : List LoopbackMountRequest → HostFsMountConfig → Type 0
IsServed requests mount =
    mount.required ≡ true → Any (λ request. request.name ≡ mount.name) requests

index_sound :
    (keys : List Text) (bindings : List RuntimeMountBinding)
    {table : List (Text × RuntimeMountBinding)}
    → index keys bindings ≡ ok table
    → (map entry bindings ≡ table) × Fresh keys (map binding_key bindings)
unfolding index
index_sound keys [] h = (ground arith, tt)
index_sound keys (binding ∷ rest) {table} h =
    let (fresh, later) = fail_if-eq-ok (seen (binding_key binding) keys) _ _ h in
    let (others, indexed, whole) =
      >>=-eq-ok (index (binding_key binding ∷ keys) rest) (λ t. ok (entry binding ∷ t)) later in
    let (same, free) = index_sound (binding_key binding ∷ keys) rest indexed in
    let total : entry binding ∷ others ≡ table = ground arith in (cc (total, same), (fresh, free))

get_sound :
    (key : Text) (bindings : List RuntimeMountBinding) {binding : RuntimeMountBinding}
    → get key (map entry bindings) ≡ some binding
    → Any (λ b. (name_key b.name ≡ key) × (b ≡ binding)) bindings
unfolding get
get_sound key [] h = absurd (cc)
get_sound key (b ∷ rest) h = elim (Bool-cases (binding_key b == key)) [
  | inl here ↦ inl ((list_beq_iff (binding_key b) key).0 here, ground arith)
  | inr other ↦ inr (get_sound key rest (ground arith))
]

check_bindings_sound :
    (mounts : List HostFsMountConfig) (bindings : List RuntimeMountBinding)
    → check_bindings mounts bindings ≡ ok tt
    → All (λ binding. has_entry mounts binding ≡ true) bindings
unfolding check_bindings
check_bindings_sound mounts [] h = tt
check_bindings_sound mounts (binding ∷ rest) h =
    let (found, later) =
      fail_if-eq-ok (not (has_entry mounts binding)) _ (check_bindings mounts rest) h in
    (ground arith, check_bindings_sound mounts rest later)

All-weaken :
    {A : Type 0} (P Q : A → Type 0) (xs : List A) → ((x : A) → P x → Q x) → All P xs → All Q xs
All-weaken P Q [] f h = tt
All-weaken P Q (x ∷ xs) f (h, hs) = (f x h, All-weaken P Q xs f hs)

joined_here :
    (mount : HostFsMountConfig) (binding : RuntimeMountBinding)
    (bindings : List RuntimeMountBinding)
    → Any (λ b. (name_key b.name ≡ name_key mount.name) × (b ≡ binding)) bindings
    → Any
        (λ b.
          (name_key b.name ≡ name_key mount.name) × (to_request mount binding ≡ to_request mount b))
        bindings
joined_here mount binding [] h = absurd h
joined_here mount binding (b ∷ rest) (inl (key, same)) = inl (key, ap (to_request mount) (sym same))
joined_here mount binding (b ∷ rest) (inr later) = inr (joined_here mount binding rest later)

-- What is made of the entries so far, and of those that come after one more.
IsResolved : List HostFsMountConfig → List RuntimeMountBinding → List LoopbackMountRequest → Type 0
IsResolved mounts bindings requests =
    All (IsJoined mounts bindings) requests × All (IsServed requests) mounts

name-to_request :
    (mount : HostFsMountConfig) (b : RuntimeMountBinding) → (to_request mount b).name ≡ mount.name
unfolding to_request
name-to_request mount b = refl

skip-IsResolved :
    (mount : HostFsMountConfig) (mounts : List HostFsMountConfig)
    (bindings : List RuntimeMountBinding) (requests : List LoopbackMountRequest)
    → mount.required ≡ false
    → IsResolved mounts bindings requests
    → IsResolved (mount ∷ mounts) bindings requests
unfolding IsResolved
skip-IsResolved mount mounts bindings requests optional (joined, served) = (
  All-weaken (IsJoined mounts bindings) (IsJoined (mount ∷ mounts) bindings) requests (λ r j. inr j)
      joined,
  ((λ required. absurd (cc (optional, required))), served),
)

join-IsResolved :
    (mount : HostFsMountConfig) (mounts : List HostFsMountConfig) (binding : RuntimeMountBinding)
    (bindings : List RuntimeMountBinding) (requests : List LoopbackMountRequest)
    → Any (λ b. (name_key b.name ≡ name_key mount.name) × (b ≡ binding)) bindings
    → IsResolved mounts bindings requests
    → IsResolved (mount ∷ mounts) bindings (to_request mount binding ∷ requests)
unfolding IsResolved
join-IsResolved mount mounts binding bindings requests found (joined, served) = (
  (
    inl (joined_here mount binding bindings found),
    All-weaken (IsJoined mounts bindings) (IsJoined (mount ∷ mounts) bindings) requests
        (λ r j. inr j) joined,
  ),
  (
    (λ required. inl (name-to_request mount binding)),
    All-weaken (IsServed requests) (IsServed (to_request mount binding ∷ requests)) mounts
        (λ m s required. inr (s required)) served,
  ),
)

collect_requests_sound :
    (mounts : List HostFsMountConfig) (bindings : List RuntimeMountBinding)
    {requests : List LoopbackMountRequest}
    → collect_requests (map entry bindings) mounts ≡ ok requests
    → IsResolved mounts bindings requests
unfolding collect_requests request_of IsResolved
collect_requests_sound [] bindings {requests} h =
    let none_made : [] ≡ requests = ground arith in rw (← none_made) (tt, tt)
collect_requests_sound (mount ∷ mounts) bindings {requests} h =
    let table = map entry bindings in
    let found = get (name_key mount.name) table in
    let (front, made, later) =
      >>=-eq-ok (request_of mount found)
        (λ request. collect_requests table mounts >>= λ rest. ok (request ++ rest)) h in
    let (rest, collected, whole) =
      >>=-eq-ok (collect_requests table mounts) (λ rest. ok (front ++ rest)) later in
    let total : front ++ rest ≡ requests = ground arith in
    let ih = collect_requests_sound mounts bindings collected in
    elim (Option-cases found) [
      | inl unbound ↦ elim (Bool-cases mount.required) [
        | inl required ↦ absurd (ground arith)
        | inr optional ↦
            let empty : [] ≡ front = ground arith in
            subst (IsResolved (mount ∷ mounts) bindings) (ap (λ f. f ++ rest) empty ∙ total)
              (skip-IsResolved mount mounts bindings rest optional ih)
      ]
      | inr (binding, bound) ↦
          let single : to_request mount binding ∷ [] ≡ front = ground arith in
          subst (IsResolved (mount ∷ mounts) bindings) (ap (λ f. f ++ rest) single ∙ total) (
            join-IsResolved mount mounts binding bindings rest
              (get_sound (name_key mount.name) bindings bound) ih)
    ]

-- Bindings that are accepted have different names, but for the case of ASCII letters, and an entry
-- of the manifest each; every request joins an entry with a binding of its name; and every entry that
-- is required has a request.
pub resolve_mounts_sound :
    (mounts : List HostFsMountConfig) (bindings : List RuntimeMountBinding)
    {requests : List LoopbackMountRequest}
    → resolve_mounts mounts bindings ≡ ok requests
    → Distinct (map binding_key bindings)
      × All (λ binding. has_entry mounts binding ≡ true) bindings
      × All (IsJoined mounts bindings) requests
      × All (IsServed requests) mounts
unfolding resolve_mounts IsResolved
resolve_mounts_sound mounts bindings {requests} h = elim (Result-cases (index [] bindings)) [
  | inl (e, refused) ↦ absurd (ground arith)
  | inr (table, indexed) ↦ elim (Result-cases (check_bindings mounts bindings)) [
    | inl (e, refused) ↦ absurd (ground arith)
    | inr (tt, checked) ↦
        let (same, fresh) = index_sound [] bindings indexed in
        let collected : collect_requests table mounts ≡ ok requests = ground arith in
        let (joined, served) =
          collect_requests_sound mounts bindings
            (subst (λ t. collect_requests t mounts ≡ ok requests) (sym same) collected) in
        (
          (Fresh-nil (map binding_key bindings)).0 fresh,
          check_bindings_sound mounts bindings checked,
          joined,
          served,
        )
  ]
]
