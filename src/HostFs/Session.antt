-- ===== src/HostFs/Session.antt =====
-- A connection of capsule-cli/src/hostfs_service.rs (`serve_conn`): the handshake, then requests
-- until the stream ends. The peer reads all that is written; the input is what the peer sends.
pub mod Conversation
pub mod Safety
pub mod Greeted
use nova_enclave_capsule.Prelude.{
  ℕ, zero, suc, Bool, true, false, not, Option, none, some, List, [], ◌∷◌, ◌++◌, Result, ok, err,
  ◌==◌, nat_eq, list_eq, length, if◌then◌else◌,
}
use nova_enclave_capsule.Prelude.Text.{Text, codes, decimal}
use nova_enclave_capsule.HostFs.Protocol.{
  Bytes, Codec, ProtocolError, unexpected_eof, too_large, not_serializable, not_u32, malformed,
  FsProxyError, HelloRequest, HelloResponse, FsProxyRequest, hello, FsProxyResponse, error,
  hostfs_protocol_version, send_msg, recv_msg,
}
use nova_enclave_capsule.HostFs.Io.{Os}
use nova_enclave_capsule.HostFs.Resolve.{invalid_input}
use nova_enclave_capsule.HostFs.Service.{HostFsService, handle_request}

-- What a connection leaves: the host's file system, the bytes that are written, and the result.
pub record Outcome (S : Type 0) : Type 0 where
  pub state : S
  pub written : Bytes
  pub result : Result ProtocolError (Unit {0})

-- One round of the loop: it ends, or has read a request, done it and written a frame.
pub data Round (S : Type 0) : Type 0 where
  finished : Outcome S → Round S
  next : (state : S) (rest frame : Bytes) → Round S

abbrev pub to_response : Result FsProxyError FsProxyResponse → FsProxyResponse
to_response (ok response) = response
to_response (err e) = error e

abbrev pub stop : {S : Type 0} → S → Result ProtocolError (Unit {0}) → Outcome S
stop s r = record { state = s; written = []; result = r }

-- `is_unexpected_eof`
unfoldable pub is_unexpected_eof : ProtocolError → Bool
is_unexpected_eof unexpected_eof = true
is_unexpected_eof e = false

-- The first message, which has to be a hello to this mount at this version.
unfoldable pub greet : HostFsService → FsProxyRequest → Result FsProxyError HelloResponse
unfolding invalid_input
greet service (hello request) =
    if not (request.protocol_version == hostfs_protocol_version)
    then err (
        invalid_input (
          codes "unsupported hostfs protocol version "
          ++ (decimal request.protocol_version
              ++ (codes " (expected " ++ (decimal hostfs_protocol_version ++ codes ")")))))
    else if not (request.mount_name == service.mount_name)
    then err (
        invalid_input (
          codes "hostfs mount name mismatch: got '"
          ++ (request.mount_name ++ (codes "', expected '" ++ (service.mount_name ++ codes "'")))))
    else ok (record {
      protocol_version = hostfs_protocol_version;
      mount_name = service.mount_name;
      read_only = service.read_only;
    })
greet service request = err (invalid_input (codes "first hostfs message must be hello"))

module _ {S : Type 0} where
  unfoldable pub after_send : S → Bytes → Result ProtocolError Bytes → Round S
  after_send s rest (ok frame) = next s rest frame
  after_send s rest (err e) = finished (stop s (err e))

  abbrev pub prepend : Bytes → Option (Outcome S) → Option (Outcome S)
  prepend frame none = none
  prepend frame (some o) =
      some (record { state = o.state; written = frame ++ o.written; result = o.result })

  -- The one frame that refuses the handshake.
  unfoldable pub close : S → Result ProtocolError Bytes → Outcome S
  close s (ok frame) = record { state = s; written = frame; result = ok tt }
  close s (err e) = stop s (err e)

module _ (os : Os) (service : HostFsService) (requests : Codec FsProxyRequest)
    (responses : Codec FsProxyResponse) where
  unfoldable pub answer : FsProxyRequest → os.State → Bytes → Round os.State
  unfolding after_send
  answer request s rest =
      let (s', r) = handle_request os service request s in
      after_send s' rest (send_msg responses (to_response r))

  unfoldable pub after_recv :
      os.State → Result ProtocolError (FsProxyRequest × Bytes) → Round os.State
  unfolding answer is_unexpected_eof
  after_recv s (err e) = finished (stop s (if is_unexpected_eof e then ok tt else err e))
  after_recv s (ok (request, rest)) = answer request s rest

  -- The loop. A round reads four bytes at least, so fuel above the number of bytes is enough.
  unfoldable pub serve : ℕ → os.State → Bytes → Option (Outcome os.State)
  unfolding after_recv
  serve zero s input = none
  serve (suc fuel) s input = elim (after_recv s (recv_msg requests input)) [
    | finished o ↦ some o
    | next s' rest frame ↦ prepend frame (serve fuel s' rest)
  ]

  unfoldable pub welcome : os.State → Bytes → Result ProtocolError Bytes → Option (Outcome os.State)
  unfolding serve
  welcome s rest (err e) = some (stop s (err e))
  welcome s rest (ok frame) = prepend frame (serve (suc (length rest)) s rest)

  unfoldable pub after_greet :
      os.State → Bytes → Result FsProxyError HelloResponse → Option (Outcome os.State)
  unfolding welcome close
  after_greet s rest (err e) = some (close s (send_msg responses (error e)))
  after_greet s rest (ok response) = welcome s rest (send_msg responses (hello response))

  unfoldable pub after_hello :
      os.State → Result ProtocolError (FsProxyRequest × Bytes) → Option (Outcome os.State)
  unfolding after_greet greet
  after_hello s (err e) = some (stop s (err e))
  after_hello s (ok (request, rest)) = after_greet s rest (greet service request)

  unfoldable pub serve_conn : os.State → Bytes → Option (Outcome os.State)
  unfolding after_hello
  serve_conn s input = after_hello s (recv_msg requests input)
