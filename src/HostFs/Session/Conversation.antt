-- ===== src/HostFs/Session/Conversation.antt =====
-- A connection of capsule-cli/src/hostfs_service.rs as its client sees it: the answers, in order.
use nova_enclave_capsule.Prelude.{
  ℕ, zero, suc, ◌<◌, some, List, [], ◌∷◌, ◌++◌, Result, ok, err, ◌>>=◌, ◌≡◌, refl, ap, arith,
  length, >>=-eq-ok,
}
use nova_enclave_capsule.HostFs.Protocol.{
  Bytes, Codec, ProtocolError, unexpected_eof, FsProxyRequest, FsProxyResponse, hello,
  HelloResponse, send_msg, recv_msg, read_exact,
}
use nova_enclave_capsule.HostFs.Protocol.Frames.{IsCodec, recv_msg-send_msg}
use nova_enclave_capsule.HostFs.Io.{Os}
use nova_enclave_capsule.HostFs.Service.{HostFsService, handle_request}
use nova_enclave_capsule.HostFs.Session.{
  is_unexpected_eof, to_response, greet, after_send, answer, after_recv, serve, welcome,
  after_greet, after_hello, serve_conn,
}
use nova_enclave_capsule.HostFs.Session.Safety.{recv_msg-shorter}

-- Messages, one frame after the other.
unfoldable pub send_all : {M : Type 0} → Codec M → List M → Result ProtocolError Bytes
send_all codec [] = ok []
send_all codec (m ∷ ms) = do frame ← send_msg codec m; rest ← send_all codec ms; ok (frame ++ rest)

send_all-cons :
    {M : Type 0} (codec : Codec M) (m : M) (ms : List M) {bytes : Bytes}
    → send_all codec (m ∷ ms) ≡ ok bytes
    → (frame : Bytes) × (rest : Bytes) × (send_msg codec m ≡ ok frame)
      × (send_all codec ms ≡ ok rest)
      × (bytes ≡ frame ++ rest)
unfolding send_all
send_all-cons codec m ms {bytes} h =
    let (frame, sent, more) =
      >>=-eq-ok (send_msg codec m) (λ frame. send_all codec ms >>= λ rest. ok (frame ++ rest)) h in
    let (rest, sent_all, whole) = >>=-eq-ok (send_all codec ms) (λ rest. ok (frame ++ rest)) more in
    (frame, rest, sent, sent_all, ground arith)

recv_msg-nil : {M : Type 0} (codec : Codec M) → recv_msg codec [] ≡ err unexpected_eof
unfolding recv_msg read_exact
recv_msg-nil codec = refl

module _ (os : Os) (service : HostFsService) where
  -- The requests, each answered in the state that those before it leave.
  unfoldable pub answers : List FsProxyRequest → os.State → os.State × List FsProxyResponse
  answers [] s = (s, [])
  answers (request ∷ rest) s =
      let (s', r) = handle_request os service request s in
      let (last, later) = answers rest s' in (last, to_response r ∷ later)

module _ (os : Os) (service : HostFsService) (requests : Codec FsProxyRequest)
    (responses : Codec FsProxyResponse) (law : IsCodec requests) where
  serve-answers :
      (rs : List FsProxyRequest) (fuel : ℕ) (s : os.State) {input out : Bytes}
      → length input < fuel
      → send_all requests rs ≡ ok input
      → send_all responses (answers os service rs s).1 ≡ ok out
      → serve os service requests responses fuel s input
        ≡ some (record { state = (answers os service rs s).0; written = out; result = ok tt })
  unfolding answers serve send_all
  serve-answers rs zero s short sent answered = absurd (omega (arith, short))
  serve-answers [] (suc fuel) s {input} {out} short sent answered =
      let no_input : [] ≡ input = ground arith in
      let no_output : [] ≡ out = ground arith in
      rw (← no_input, ← no_output, serve, recv_msg-nil requests, after_recv, is_unexpected_eof) refl
  serve-answers (request ∷ rs) (suc fuel) s {input} {out} short sent answered =
      let (frame, rest, sent_one, sent_rest, whole) = send_all-cons requests request rs sent in
      let received = recv_msg-send_msg requests law request rest sent_one in
      let (s', r) = handle_request os service request s in
      let (reply, later, replied, replied_rest, out_whole) =
        send_all-cons responses (to_response r) (answers os service rs s').1 answered in
      let shorter = recv_msg-shorter requests (frame ++ rest) received in
      let ih =
        serve-answers rs fuel s' (omega (arith, short, shorter, ap length whole)) sent_rest
          replied_rest in
      rw (whole, out_whole, serve, received, after_recv, answer, replied, after_send, ih) refl

  -- A client that opens with a proper hello, and then sends any requests as frames, gets the
  -- answer to each in its order, and each is done in the state that those before it leave.
  pub serve_conn-answers :
      (greeting : FsProxyRequest) (rs : List FsProxyRequest) (s : os.State)
      {response : HelloResponse} {input out : Bytes}
      → greet service greeting ≡ ok response
      → send_all requests (greeting ∷ rs) ≡ ok input
      → send_all responses (hello response ∷ (answers os service rs s).1) ≡ ok out
      → serve_conn os service requests responses s input
        ≡ some (record { state = (answers os service rs s).0; written = out; result = ok tt })
  unfolding serve_conn
  serve_conn-answers greeting rs s {response} greeted sent answered =
      let (frame, rest, sent_one, sent_rest, whole) = send_all-cons requests greeting rs sent in
      let received = recv_msg-send_msg requests law greeting rest sent_one in
      let (reply, later, replied, replied_rest, out_whole) =
        send_all-cons responses (hello response) (answers os service rs s).1 answered in
      let served = serve-answers rs (suc (length rest)) s (omega arith) sent_rest replied_rest in
      rw (whole, out_whole, received, after_hello, greeted, after_greet, replied, welcome, served)
        refl
