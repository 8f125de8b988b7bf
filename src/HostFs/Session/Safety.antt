-- ===== src/HostFs/Session/Safety.antt =====
-- What holds of every connection of capsule-cli/src/hostfs_service.rs, whatever the peer sends.
use nova_enclave_capsule.Prelude.{
  ℕ, zero, suc, ◌<◌, true, Option, none, some, ◌++◌, Result, ok, err, ◌≡◌, refl, ap, sym, ◌⊎◌, inl,
  inr, arith, nat_eq, list_eq, length, length-append, if◌then◌else◌, Result-cases, ◌∙◌,
}
use nova_enclave_capsule.HostFs.Protocol.{
  Bytes, Codec, ProtocolError, FsProxyError, HelloResponse, FsProxyRequest, hello, FsProxyResponse,
  error, send_msg, recv_msg,
}
use nova_enclave_capsule.HostFs.Protocol.Frames.{recv_msg_sound}
use nova_enclave_capsule.HostFs.Io.{Os}
use nova_enclave_capsule.HostFs.Service.{HostFsService, handle_request}
use nova_enclave_capsule.HostFs.Service.ReadOnly.{handle_request-read_only}
use nova_enclave_capsule.HostFs.Session.{
  is_unexpected_eof, Outcome, Round, finished, next, to_response, stop, prepend, greet, after_send,
  close, answer, after_recv, serve, welcome, after_greet, after_hello, serve_conn,
}

pub recv_msg-shorter :
    {M : Type 0} (codec : Codec M) (input : Bytes) {m : M} {rest : Bytes}
    → recv_msg codec input ≡ ok (m, rest)
    → length rest < length input
recv_msg-shorter codec input {m} {rest} h =
    let frame = recv_msg_sound codec input h in
    let a = length-append frame.len_buf (frame.payload ++ rest) in
    let b = length-append frame.payload rest in
    omega (arith, ap length frame.input_eq, frame.four, a, b)

Round-cases :
    {S : Type 0} (r : Round S)
    → ((o : Outcome S) × (r ≡ finished o))
      ⊎ ((s : S) × (rest : Bytes) × (frame : Bytes) × (r ≡ next s rest frame))
Round-cases (finished o) = inl (o, refl)
Round-cases (next s rest frame) = inr (s, rest, frame, refl)

module _ {S : Type 0} where
  after_send_next :
      (s : S) (rest : Bytes) (r : Result ProtocolError Bytes) {s' : S} {rest' frame : Bytes}
      → after_send s rest r ≡ next s' rest' frame
      → (s' ≡ s) × (rest' ≡ rest)
  unfolding after_send
  after_send_next s rest r h = ground arith

  after_send_finished :
      (s : S) (rest : Bytes) (r : Result ProtocolError Bytes) {o : Outcome S}
      → after_send s rest r ≡ finished o
      → s ≡ o.state
  unfolding after_send
  after_send_finished s rest (ok frame) h = absurd (cc)
  after_send_finished s rest (err e) {o} h =
      let same : stop s (err e) ≡ o = ground arith in ap (λ x. x.state) same

  prepend-some :
      (frame : Bytes) (m : Option (Outcome S)) {o : Outcome S}
      → prepend frame m ≡ some o
      → (p : Outcome S) × (m ≡ some p) × (o.state ≡ p.state)
  prepend-some frame none h = absurd (cc)
  prepend-some frame (some p) h = (p, refl, ground arith)

module _ (os : Os) (service : HostFsService) (requests : Codec FsProxyRequest)
    (responses : Codec FsProxyResponse) where
  -- A round that goes on has read a request, and left its state.
  after_recv_next :
      (s : os.State) (input : Bytes) {s' : os.State} {rest frame : Bytes}
      → after_recv os service requests responses s (recv_msg requests input) ≡ next s' rest frame
      → (request : FsProxyRequest) × (recv_msg requests input ≡ ok (request, rest))
        × (s' ≡ (handle_request os service request s).0)
  unfolding after_recv answer
  after_recv_next s input {s'} {rest} {frame} h = elim (Result-cases (recv_msg requests input)) [
    | inl (e, broken) ↦ absurd (ground arith)
    | inr ((request, left), e) ↦
        let went_on : answer os service requests responses request s left ≡ next s' rest frame =
          ground arith in
        let (same, left_same) =
          after_send_next (handle_request os service request s).0 left
            (send_msg responses (to_response (handle_request os service request s).1)) went_on in
        (request, cc (e, left_same), same)
  ]

  serve_total :
      (fuel : ℕ) (s : os.State) (input : Bytes)
      → length input < fuel
      → (o : Outcome os.State) × (serve os service requests responses fuel s input ≡ some o)
  unfolding serve
  serve_total zero s input h = absurd (omega arith)
  serve_total (suc fuel) s input h =
      elim (Round-cases (after_recv os service requests responses s (recv_msg requests input))) [
        | inl (o, e) ↦ (o, rw (serve, e) refl)
        | inr (s', rest, frame, e) ↦
            let (request, received, same) = after_recv_next s input e in
            let shorter = recv_msg-shorter requests input received in
            let (o, later) = serve_total fuel s' rest (omega (arith, h, shorter)) in
            (
              record { state = o.state; written = frame ++ o.written; result = o.result },
              rw (serve, e, later) refl,
            )
      ]

  -- A round that ends on a read-only mount leaves the state too.
  after_recv_kept :
      service.read_only ≡ true
      → (s : os.State) (input : Bytes) {o : Outcome os.State}
      → after_recv os service requests responses s (recv_msg requests input) ≡ finished o
      → o.state ≡ s
  unfolding after_recv answer
  after_recv_kept ro s input {o} h = elim (Result-cases (recv_msg requests input)) [
    | inl (e, broken) ↦
        let same : stop s (if is_unexpected_eof e then ok tt else err e) ≡ o = ground arith in
        sym (ap (λ x. x.state) same)
    | inr ((request, left), e) ↦
        let ended : answer os service requests responses request s left ≡ finished o =
          ground arith in
        let same =
          after_send_finished (handle_request os service request s).0 left
            (send_msg responses (to_response (handle_request os service request s).1)) ended in
        sym same ∙ (handle_request-read_only os service ro request s).0
  ]

  serve-read_only :
      service.read_only ≡ true
      → (fuel : ℕ) (s : os.State) (input : Bytes) {o : Outcome os.State}
      → serve os service requests responses fuel s input ≡ some o
      → o.state ≡ s
  unfolding serve
  serve-read_only ro zero s input h = absurd (cc)
  serve-read_only ro (suc fuel) s input {o} h =
      elim (Round-cases (after_recv os service requests responses s (recv_msg requests input))) [
        | inl (last, e) ↦
            let same : last ≡ o = ground arith in
            sym (ap (λ x. x.state) same) ∙ after_recv_kept ro s input e
        | inr (s', rest, frame, e) ↦
            let (request, received, same) = after_recv_next s input e in
            let kept = (handle_request-read_only os service ro request s).0 in
            let (p, later, stays) =
              prepend-some frame (serve os service requests responses fuel s' rest) {o = o}
                (ground arith) in
            stays ∙ (serve-read_only ro fuel s' rest later ∙ (same ∙ kept))
      ]

  after_greet-total :
      (s : os.State) (rest : Bytes) (r : Result FsProxyError HelloResponse)
      → (o : Outcome os.State) × (after_greet os service requests responses s rest r ≡ some o)
  unfolding after_greet welcome
  after_greet-total s rest (err e) = (_, refl)
  after_greet-total s rest (ok response) =
      elim (Result-cases (send_msg responses (hello response))) [
        | inl (e, broken) ↦ (stop s (err e), rw (welcome, broken) refl)
        | inr (frame, e) ↦
            let (o, served) = serve_total (suc (length rest)) s rest (omega arith) in
            (
              record { state = o.state; written = frame ++ o.written; result = o.result },
              rw (welcome, e, served) refl,
            )
      ]

  -- A connection comes to an end on every input: the fuel that it is given is enough.
  pub serve_conn_total :
      (s : os.State) (input : Bytes)
      → (o : Outcome os.State) × (serve_conn os service requests responses s input ≡ some o)
  unfolding serve_conn after_hello
  serve_conn_total s input = elim (Result-cases (recv_msg requests input)) [
    | inl (e, broken) ↦ (stop s (err e), rw (after_hello, broken) refl)
    | inr ((request, rest), e) ↦
        let (o, done) = after_greet-total s rest (greet service request) in
        (o, rw (after_hello, e, done) refl)
  ]

  -- What a connection can do before the loop: nothing to the state.
  close_state : (s : os.State) (r : Result ProtocolError Bytes) → (close s r).state ≡ s
  unfolding close
  close_state s (ok frame) = refl
  close_state s (err e) = refl

  -- A connection that gets as far as the loop, or leaves the state.
  pub after_greet_cases :
      (s : os.State) (rest : Bytes) (r : Result FsProxyError HelloResponse) {o : Outcome os.State}
      → after_greet os service requests responses s rest r ≡ some o
      → (o.state ≡ s)
        ⊎ ((response : HelloResponse) × (r ≡ ok response)
            × (p : Outcome os.State) × (serve os service requests responses
                  (suc (length rest))
                  s
                  rest
                ≡ some p)
            × (o.state ≡ p.state))
  unfolding after_greet welcome
  after_greet_cases s rest (err e) {o} h =
      let same : close s (send_msg responses (error e)) ≡ o = ground arith in
      inl (sym (ap (λ x. x.state) same) ∙ close_state s (send_msg responses (error e)))
  after_greet_cases s rest (ok response) {o} h =
      elim (Result-cases (send_msg responses (hello response))) [
        | inl (e, broken) ↦
            let same : stop s (err e) ≡ o = ground arith in inl (sym (ap (λ x. x.state) same))
        | inr (frame, e) ↦
            let (p, served, same) =
              prepend-some frame (serve os service requests responses (suc (length rest)) s rest)
                {o = o} (ground arith) in
            inr (response, refl, p, served, same)
      ]

  -- A connection to a read-only service leaves the state of the host's file system as it is,
  -- whatever bytes the peer sends.
  pub serve_conn-read_only :
      service.read_only ≡ true
      → (s : os.State) (input : Bytes) {o : Outcome os.State}
      → serve_conn os service requests responses s input ≡ some o
      → o.state ≡ s
  unfolding serve_conn after_hello
  serve_conn-read_only ro s input {o} h = elim (Result-cases (recv_msg requests input)) [
    | inl (e, broken) ↦ let same : stop s (err e) ≡ o = ground arith in sym (ap (λ x. x.state) same)
    | inr ((request, rest), e) ↦
        elim (after_greet_cases s rest (greet service request) {o = o} (ground arith)) [
          | inl same ↦ same
          | inr (response, greeted, p, served, same) ↦
              same ∙ serve-read_only ro (suc (length rest)) s rest served
        ]
  ]
