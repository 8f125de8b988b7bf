-- ===== src/HostFs/Session/Greeted.antt =====
-- The handshake of a connection of capsule-cli/src/hostfs_service.rs.
use nova_enclave_capsule.Prelude.{
  true, some, ok, err, ◌≡◌, ap, sym, ◌⊎◌, inl, inr, arith, ◌==◌, nat_eq, list_eq, list_beq_iff,
  Result-cases,
}
use nova_enclave_capsule.HostFs.Protocol.{
  Bytes, Codec, HelloResponse, FsProxyRequest, hello, FsProxyResponse, hostfs_protocol_version,
  recv_msg,
}
use nova_enclave_capsule.HostFs.Io.{Os}
use nova_enclave_capsule.HostFs.Service.{HostFsService}
use nova_enclave_capsule.HostFs.Session.{Outcome, stop, greet, after_hello, serve_conn}
use nova_enclave_capsule.HostFs.Session.Safety.{after_greet_cases}

-- A hello to this mount at the version of the protocol.
abbrev pub IsGreeting : HostFsService → FsProxyRequest → Type 0
IsGreeting service (hello request) =
    (request.protocol_version ≡ hostfs_protocol_version) × (request.mount_name ≡ service.mount_name)
IsGreeting service request = ⊥

greet_sound :
    (service : HostFsService) (request : FsProxyRequest) {response : HelloResponse}
    → greet service request ≡ ok response
    → IsGreeting service request
unfolding greet
greet_sound service (hello request) h =
    let tests : ((request.protocol_version == hostfs_protocol_version) ≡ true)
        × ((request.mount_name == service.mount_name) ≡ true) =
      ground arith in
    (ground arith, (list_beq_iff request.mount_name service.mount_name).0 tests.1)
greet_sound service request h = absurd (cc)

module _ (os : Os) (service : HostFsService) (requests : Codec FsProxyRequest)
    (responses : Codec FsProxyResponse) where
  -- A connection that changes the state has opened with a hello to this mount at the version of
  -- the protocol.
  pub serve_conn_greeted :
      (s : os.State) (input : Bytes) {o : Outcome os.State}
      → serve_conn os service requests responses s input ≡ some o
      → (o.state ≡ s)
        ⊎ ((request : FsProxyRequest) × (rest : Bytes) × (recv_msg requests input
              ≡ ok (request, rest))
            × IsGreeting service request)
  unfolding serve_conn after_hello
  serve_conn_greeted s input {o} h = elim (Result-cases (recv_msg requests input)) [
    | inl (e, broken) ↦
        let same : stop s (err e) ≡ o = ground arith in inl (sym (ap (λ x. x.state) same))
    | inr ((request, rest), e) ↦
        elim (after_greet_cases os service requests responses s rest (greet service request) {o = o}
          (ground arith)) [
            | inl same ↦ inl same
            | inr (response, greeted, p, served, same) ↦
                inr (request, rest, e, greet_sound service request greeted)
          ]
  ]
