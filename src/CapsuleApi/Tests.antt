-- ===== src/CapsuleApi/Tests.antt =====
-- The nonce cache and the random bytes of capsule-cli/src/capsule_api.rs at concrete inputs.
use nova_enclave_capsule.Prelude.{false, Option, some, List, [], ◌∷◌, ◌≡◌, refl, arith}
use nova_enclave_capsule.CapsuleApi.ReplayCache.{Fingerprint, new_cache, insert_if_new}
use nova_enclave_capsule.CapsuleApi.ReplayCache.Window.{
  IsWellFormed, new_cache-IsWellFormed, insert_if_new-IsWellFormed,
}
use nova_enclave_capsule.CapsuleApi.ReplayCache.Replay.{insert_all, insert_if_new_replay}
use nova_enclave_capsule.CapsuleApi.Random.{Bytes, collected, collect_random_bytes_from_source}
use nova_enclave_capsule.CapsuleApi.Random.Ends.{Ends, collect_random_bytes_from_source-Ends}

abbrev a : Fingerprint
a = 1 ∷ []

abbrev b : Fingerprint
b = 2 ∷ []

insert_if_new-IsWellFormed_example : IsWellFormed (insert_if_new a (new_cache 2)).1
insert_if_new-IsWellFormed_example =
    insert_if_new-IsWellFormed a (new_cache 2) (new_cache-IsWellFormed 2)

insert_if_new_replay_example :
    (insert_if_new a (insert_all (b ∷ []) (insert_if_new a (new_cache 2)).1)).0 ≡ false
unfolding insert_if_new new_cache
insert_if_new_replay_example =
    insert_if_new_replay a (b ∷ []) (new_cache 2) (new_cache-IsWellFormed 2) refl (omega arith)

abbrev source : List (Option Bytes)
source = some (1 ∷ 2 ∷ []) ∷ some (3 ∷ 4 ∷ []) ∷ []

bytes_collected : collect_random_bytes_from_source 3 source ≡ collected (1 ∷ 2 ∷ 3 ∷ [])
unfolding collect_random_bytes_from_source
bytes_collected = refl

collect_random_bytes_from_source-Ends_example :
    Ends 3 [] 0 source (collect_random_bytes_from_source 3 source)
collect_random_bytes_from_source-Ends_example = collect_random_bytes_from_source-Ends 3 source

abbrev twelve : Bytes
twelve = 1 ∷ 2 ∷ 3 ∷ 4 ∷ 5 ∷ 6 ∷ 7 ∷ 8 ∷ 9 ∷ 10 ∷ 11 ∷ 12 ∷ []
