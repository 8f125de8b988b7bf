-- ===== src/HostFs/Tests.antt =====
-- The host file system proxy at concrete inputs: a codec for some messages, and a system on which
-- each call that writes counts up.
use nova_enclave_capsule.Prelude.{
  ℕ, zero, suc, Bool, true, false, Option, none, some, List, [], ◌∷◌, ◌++◌, Result, ok, err, ◌≡◌,
  refl, ◌⊎◌, arith, any, if◌then◌else◌,
}
use nova_enclave_capsule.Prelude.Text.{Text, codes, trim}
use nova_enclave_capsule.HostFs.Protocol.{
  Bytes, Codec, FsProxyRequest, FsProxyResponse, FsDirEntry, hello, ping, mkdir, pong, done, error,
  file, read_dir, recv_msg, send_msg, unexpected_eof,
}
use nova_enclave_capsule.HostFs.Protocol.Frames.{
  IsCodec, IsFrame, recv_msg-send_msg, recv_msg_sound,
}
use nova_enclave_capsule.HostFs.Io.{FilePath, IoError, DirEntry, Os}
use nova_enclave_capsule.HostFs.PathName
use nova_enclave_capsule.HostFs.PathName.Normal.{is_parent, names_of, normalize_relative_path_lem}
use nova_enclave_capsule.HostFs.Resolve.{
  resolve_existing_path, resolve_path_for_create, resolve_path_preserving_leaf,
}
use nova_enclave_capsule.HostFs.Resolve.Within.{
  IsWithin, IsLeafWithin, resolve_existing_path-IsWithin, resolve_path_for_create-IsWithin,
  resolve_path_preserving_leaf-IsLeafWithin,
}
use nova_enclave_capsule.HostFs.Service.{HostFsService, handle_read_dir, handle_request}
use nova_enclave_capsule.HostFs.Service.Listing.{IsListing, handle_read_dir_sound}
use nova_enclave_capsule.HostFs.Session.{Outcome, greet, serve_conn}
use nova_enclave_capsule.HostFs.Session.Safety.{serve_conn-read_only, serve_conn_total}
use nova_enclave_capsule.HostFs.Session.Greeted.{IsGreeting, serve_conn_greeted}
use nova_enclave_capsule.HostFs.Session.Conversation.{answers, send_all, serve_conn-answers}

abbrev request_to_vec : FsProxyRequest → Option Bytes
request_to_vec ping = some (0 ∷ [])
request_to_vec (hello r) = some (1 ∷ r.protocol_version ∷ r.mount_name)
request_to_vec (mkdir path true) = some (2 ∷ path)
request_to_vec request = none

abbrev request_from_slice : Bytes → Option FsProxyRequest
request_from_slice (zero ∷ []) = some ping
request_from_slice (suc zero ∷ version ∷ name) =
    some (hello (record { protocol_version = version; mount_name = name }))
request_from_slice (suc (suc zero) ∷ path) = some (mkdir path true)
request_from_slice bytes = none

abbrev requests : Codec FsProxyRequest
requests = record { to_vec = request_to_vec; from_slice = request_from_slice }

abbrev response_to_vec : FsProxyResponse → Option Bytes
response_to_vec pong = some (0 ∷ [])
response_to_vec (hello r) = some (1 ∷ [])
response_to_vec done = some (2 ∷ [])
response_to_vec (error e) = some (3 ∷ [])
response_to_vec response = none

abbrev responses : Codec FsProxyResponse
responses = record { to_vec = response_to_vec; from_slice = λ bytes. none }

requests-IsCodec : IsCodec requests
requests-IsCodec = record { from_slice-to_vec = go }
  where
    go :
        (m : FsProxyRequest) (payload : Bytes)
        → request_to_vec m ≡ some payload
        → request_from_slice payload ≡ some m
    go ping payload h = let e : 0 ∷ [] ≡ payload = ground arith in rw (← e) refl
    go (hello r) payload h =
        let e : 1 ∷ r.protocol_version ∷ r.mount_name ≡ payload = ground arith in rw (← e) refl
    go (mkdir path true) payload h = let e : 2 ∷ path ≡ payload = ground arith in rw (← e) refl
    go m payload h = absurd (cc)

abbrev demo_os : Os
demo_os = record {
  State = ℕ;
  File = FilePath;
  canonicalize = λ s p. ok p;
  exists = λ s p. false;
  is_dir = λ s p. true;
  statvfs = λ s p. ok (record { fragment_size = 4_096; blocks = 10; blocks_available = 5 });
  symlink_metadata = λ s p. err (record { raw_os_error = some 2; message = [] });
  read_dir = λ s p. ok [];
  open_read = λ s p. ok p;
  seek = λ f n. ok f;
  read = λ s f n. ok [];
  sync_data = λ s f. ok tt;
  sync_all = λ s f. ok tt;
  open_write = λ c t p s. (suc s, ok p);
  write_all = λ f bytes s. (suc s, ok tt);
  set_len = λ f n s. (suc s, ok tt);
  create_dir_all = λ p s. (suc s, ok tt);
  create_dir = λ p s. (suc s, ok tt);
  remove_file = λ p s. (suc s, ok tt);
  remove_dir = λ p s. (suc s, ok tt);
  rename = λ p q s. (suc s, ok tt);
}

abbrev demo_root : FilePath
demo_root = codes "srv" ∷ codes "data" ∷ []

abbrev demo : Bool → HostFsService
demo ro = record { mount_name = codes "data"; root = demo_root; read_only = ro }

abbrev greeting : FsProxyRequest
greeting = hello (record { protocol_version = 1; mount_name = codes "data" })

abbrev ping_frame : Bytes
ping_frame = 1 ∷ 0 ∷ 0 ∷ 0 ∷ 0 ∷ []

abbrev greeting_frame : Bytes
greeting_frame = 6 ∷ 0 ∷ 0 ∷ 0 ∷ 1 ∷ 1 ∷ codes "data"

abbrev mkdir_frame : Bytes
mkdir_frame = 2 ∷ 0 ∷ 0 ∷ 0 ∷ 2 ∷ codes "a"

recv_msg-send_msg_example : recv_msg requests (ping_frame ++ 7 ∷ []) ≡ ok (ping, 7 ∷ [])
unfolding send_msg nova_enclave_capsule.HostFs.Protocol.to_le_bytes
recv_msg-send_msg_example = recv_msg-send_msg requests requests-IsCodec ping (7 ∷ []) refl

recv_msg_sound_example : IsFrame requests (ping_frame ++ 7 ∷ []) ping (7 ∷ [])
unfolding recv_msg nova_enclave_capsule.HostFs.Protocol.read_exact
    nova_enclave_capsule.HostFs.Protocol.from_le_bytes
recv_msg_sound_example = recv_msg_sound requests (ping_frame ++ 7 ∷ []) refl

normalize_relative_path_lem_example : PathName.normalize_relative_path (codes "a/../b") ≡ (
    if PathName.is_absolute (trim (codes "a/../b"))
    then err PathName.must_be_relative
    else if any is_parent (PathName.components (trim (codes "a/../b")))
    then err PathName.traversal
    else ok (names_of (PathName.components (trim (codes "a/../b")))))
normalize_relative_path_lem_example = normalize_relative_path_lem (codes "a/../b")

resolve_existing_path-IsWithin_example : IsWithin demo_root (demo_root ++ codes "a" ∷ [])
unfolding resolve_existing_path trim PathName.is_absolute PathName.push_components
    PathName.components nova_enclave_capsule.HostFs.Io.map_err
resolve_existing_path-IsWithin_example =
    resolve_existing_path-IsWithin demo_os 0 demo_root (codes "data") (codes "a") refl

resolve_path_for_create-IsWithin_example :
    IsWithin demo_root (demo_root ++ codes "a" ∷ codes "b" ∷ [])
unfolding resolve_path_for_create trim PathName.is_absolute PathName.push_components
    PathName.components
resolve_path_for_create-IsWithin_example =
    resolve_path_for_create-IsWithin demo_os 0 demo_root (codes "data") (codes "a/b") refl

resolve_path_preserving_leaf-IsLeafWithin_example :
    ((true ≡ true) × (demo_root ++ codes "a" ∷ codes "b" ∷ [] ≡ demo_root))
    ⊎ IsLeafWithin demo_root (demo_root ++ codes "a" ∷ codes "b" ∷ [])
unfolding resolve_path_preserving_leaf trim PathName.is_absolute PathName.push_components
    PathName.components nova_enclave_capsule.HostFs.Io.map_err
resolve_path_preserving_leaf-IsLeafWithin_example =
    resolve_path_preserving_leaf-IsLeafWithin demo_os 0 demo_root (codes "data") (codes "a/b") true
      refl

abbrev entry : Text → Result IoError DirEntry
entry name = ok (record {
  name = name;
  file_type = ok (record { is_dir = false; is_file = true; is_symlink = false });
})

abbrev listing_os : Os
listing_os = record demo_os { read_dir = λ s p. ok (entry (codes "b") ∷ entry (codes "a") ∷ []) }

abbrev listed : Text → FsDirEntry
listed name = record { name = name; entry_type = file }

abbrev listing : FsProxyResponse
listing = read_dir (listed (codes "a") ∷ listed (codes "b") ∷ [])

listed_by_name : (handle_read_dir listing_os (demo true) (codes "d") 0).1 ≡ ok listing
unfolding handle_read_dir resolve_existing_path trim PathName.is_absolute PathName.push_components
    PathName.components nova_enclave_capsule.HostFs.Io.map_err
    nova_enclave_capsule.Prelude.Text.text_lt
listed_by_name = refl

handle_read_dir_sound_example : IsListing listing_os (demo true) 0 (codes "d") listing
handle_read_dir_sound_example =
    handle_read_dir_sound listing_os (demo true) (codes "d") 0 listed_by_name

abbrev stream : Bytes
stream = greeting_frame ++ (mkdir_frame ++ (ping_frame ++ []))

abbrev ended : ℕ → Bytes → Outcome ℕ
ended s replies = record { state = s; written = replies; result = ok tt }

abbrev reply : ℕ → Bytes
reply n = 1 ∷ 0 ∷ 0 ∷ 0 ∷ n ∷ []

abbrev refused : Outcome ℕ
refused = ended 0 (reply 1 ++ (reply 3 ++ reply 0))

abbrev served : Outcome ℕ
served = ended 1 (reply 1 ++ (reply 2 ++ reply 0))

serve_conn-read_only_example : refused.state ≡ 0
unfolding serve_conn recv_msg nova_enclave_capsule.HostFs.Protocol.read_exact
    nova_enclave_capsule.HostFs.Protocol.from_le_bytes send_msg handle_request
    nova_enclave_capsule.HostFs.Protocol.to_le_bytes
serve_conn-read_only_example =
    serve_conn-read_only demo_os (demo true) requests responses refl 0 stream {o = refused} refl

serve_conn_greeted_example :
    (served.state ≡ 0)
    ⊎ ((request : FsProxyRequest) × (rest : Bytes) × (recv_msg requests stream ≡ ok (request, rest))
        × IsGreeting (demo false) request)
unfolding serve_conn recv_msg nova_enclave_capsule.HostFs.Protocol.read_exact
    nova_enclave_capsule.HostFs.Protocol.from_le_bytes send_msg handle_request
    resolve_path_for_create trim PathName.is_absolute PathName.push_components PathName.components
    nova_enclave_capsule.HostFs.Io.map_err nova_enclave_capsule.HostFs.Protocol.to_le_bytes
serve_conn_greeted_example =
    serve_conn_greeted demo_os (demo false) requests responses 0 stream {o = served} refl

serve_conn_total_example :
    (o : Outcome ℕ) × (serve_conn demo_os (demo false) requests responses 0 stream ≡ some o)
serve_conn_total_example = serve_conn_total demo_os (demo false) requests responses 0 stream

serve_conn-answers_example :
    serve_conn demo_os (demo false) requests responses 0 stream
    ≡ some (ended 1 (reply 1 ++ (reply 2 ++ (reply 0 ++ []))))
unfolding greet send_all answers send_msg handle_request resolve_path_for_create trim
    PathName.is_absolute PathName.push_components PathName.components
    nova_enclave_capsule.HostFs.Io.map_err nova_enclave_capsule.HostFs.Protocol.to_le_bytes
serve_conn-answers_example =
    serve_conn-answers demo_os (demo false) requests responses requests-IsCodec greeting
      (mkdir (codes "a") true ∷ ping ∷ []) 0 refl refl refl
