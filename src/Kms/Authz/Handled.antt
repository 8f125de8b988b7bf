-- ===== src/Kms/Authz/Handled.antt =====
-- What the handlers of capsule-cli/src/integrations/nova_kms.rs do not do without a grant.
use nova_enclave_capsule.Prelude.{
  Bool, true, false, Result, ok, err, ◌≡◌, refl, ap, ◌∙◌, inl, inr, if_cases, arith, ok-injective,
}
use nova_enclave_capsule.Prelude.Text.{Text}
use nova_enclave_capsule.Prelude.Action.{attempt, >>=-eq-ok, caught, caught-eq-ok}
use nova_enclave_capsule.Kms.Outside.{Outside, Bytes}
use nova_enclave_capsule.Kms.Proxy.{Config, State, AppAuthzContext, Do}
use nova_enclave_capsule.Kms.Call.{is_reserved_derive_path, derive_key}
use nova_enclave_capsule.Kms.Authz.{
  Reply, derived, got, success, bad_request, unavailable, error_response, DeriveApiRequest,
  resolve_authz_context, authorized, granted, replied, handle_derive,
}

-- A reply that refuses.
unfoldable pub refuses : Reply → Bool
refuses (derived key) = false
refuses (got value) = false
refuses success = false
refuses (bad_request message) = true
refuses (unavailable message) = true

error_response-refuses : (message : Text) → refuses (error_response message) ≡ true
unfolding error_response refuses
error_response-refuses message = ground arith

module _ (out : Outside) (config : Config) where
  granted_by :
      (next : Do out Reply) (r : Result Text AppAuthzContext) (s : State out.World) {reply : Reply}
      → refuses reply ≡ false
      → (granted out next r s).1 ≡ ok reply
      → (context : AppAuthzContext) × (r ≡ ok context) × ((next s).1 ≡ ok reply)
  unfolding granted
  granted_by next (ok context) s open_ done = (context, refl, done)
  granted_by next (err e) s open_ done =
      let refused = error_response-refuses e in
      let same = ok-injective done in absurd (cc (refused, same, open_))

  -- What was not refused was authorized first, and is what the operation gave after that.
  authorized_by :
      (next : Do out Reply) (s : State out.World) {reply : Reply}
      → refuses reply ≡ false
      → (authorized out config next s).1 ≡ ok reply
      → (context : AppAuthzContext) × ((resolve_authz_context out config s).1 ≡ ok context)
        × ((next (resolve_authz_context out config s).0).1 ≡ ok reply)
  unfolding authorized
  authorized_by next s open_ done =
      let (r, tried, rest) = >>=-eq-ok (attempt (resolve_authz_context out config)) _ s done in
      let (context, same, went) = granted_by next r _ open_ rest in
      let allowed : caught (resolve_authz_context out config s).1 ≡ ok (ok context) =
        tried ∙ ap ok same in
      (context, caught-eq-ok _ allowed, went)

  replied_with :
      {A : Type 0} (reply : A → Reply) (r : Result Text A) (s : State out.World) {got_reply : Reply}
      → refuses got_reply ≡ false
      → (replied out reply r s).1 ≡ ok got_reply
      → (a : A) × (r ≡ ok a) × (reply a ≡ got_reply)
  unfolding replied
  replied_with reply (ok a) s open_ done = (a, refl, ok-injective done)
  replied_with reply (err e) s open_ done =
      let refused = error_response-refuses e in
      let same = ok-injective done in absurd (cc (refused, same, open_))

  -- When a request for a key is not refused, then access was granted first, the path is not reserved,
  -- and the reply is, in base64, the key that the KMS derived after the grant.
  pub handle_derive_granted :
      (request : DeriveApiRequest) (s : State out.World) {reply : Reply}
      → refuses reply ≡ false
      → (handle_derive out config (ok request) s).1 ≡ ok reply
      → (context : AppAuthzContext) × ((resolve_authz_context out config s).1 ≡ ok context)
        × (is_reserved_derive_path out config request.path ≡ false)
        × ((key : Bytes) × ((derive_key out config request.path request.context request.length
                (resolve_authz_context out config s).0).1
              ≡ ok key)
            × (derived (out.base64_encode key) ≡ reply))
  unfolding handle_derive refuses
  handle_derive_granted request s {reply} open_ done =
      let (context, allowed, went) = authorized_by _ s open_ done in
      let after = (resolve_authz_context out config s).0 in
      elim (if_cases (λ (m : Do out Reply). (m after).1 ≡ ok reply)
        (is_reserved_derive_path out config request.path) _ _ went) [
          | inl (_, refused) ↦
              let same = ok-injective refused in absurd (cc (ap refuses same, open_))
          | inr (free, asked) ↦
              let (r, tried, rest) =
                >>=-eq-ok
                  (attempt (derive_key out config request.path request.context request.length)) _
                  after asked in
              let (key, same, is_reply) =
                replied_with (λ key. derived (out.base64_encode key)) r _ open_ rest in
              let gave : caught
                    (derive_key out config request.path request.context request.length after).1
                  ≡ ok (ok key) =
                tried ∙ ap ok same in
              (context, allowed, free, (key, caught-eq-ok _ gave, is_reply))
        ]
