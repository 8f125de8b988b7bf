-- ===== src/Lib.antt =====
-- Verification of Nova Enclave Capsule (capsule-cli), which packs an application into a Nitro
-- enclave, runs it, and gives it files, network access, keys and a clock from outside.
--
-- The parts, and where each is modelled:
--   Manifest   capsule-cli/src/manifest.rs: the records of capsule.yaml (Manifest), the checks of the
--              mounts (Mounts), the KMS integration (Kms), the Helios chains (Helios), and
--              parse_manifest with the constraints between them (Parse). What the manifest accepts is
--              what the other parts are configured with.
--   Vsock      capsule-cli/src/runtime_vsock.rs and the port constants of constants.rs: the CID of an
--              enclave and the ports that the host opens for it.
--   Policy     capsule-cli/src/policy: the domain patterns (DomainFilter), the networks (IpFilter),
--              and the egress policy over both (Egress).
--   HostFs     the host file system proxy. Protocol is capsule-cli/src/fs_protocol.rs; the others are
--              capsule-cli/src/hostfs_service.rs: the paths that a client names (PathName), how they
--              are resolved under the root of the mount (Resolve), the request handlers (Service), and
--              a connection from its first byte to its last (Session). Io holds the operating system,
--              a record of its calls that is a parameter, and the actions over its state.
--   Loopback   capsule-cli/src/hostfs.rs: the --mount bindings of a run, and what they make of the mounts
--              of the manifest.
--   CapsuleApi capsule-cli/src/capsule_api.rs: the cache that refuses replayed nonces (ReplayCache),
--              and the nonces and random bytes (Random).
--   Console    capsule-cli/src/bin/capsule-runtime/console.rs: the log of the application (ByteLog).
--   Kms        capsule-cli/src/integrations/nova_kms.rs: the client of the Nova KMS. Outside holds what it
--              calls, a record that is a parameter; Address the texts of wallets, URLs and errors; Log
--              what is shown of a message; Nodes the cache of nodes; Proxy the state and the Capsule
--              API; Registry and Discovery how nodes are found; Exchange one exchange with a node; Call
--              the rounds of a call and the operations; Authz the grant and the handlers; AppWallet the
--              wallet of nova_kms/app_wallet.rs.
--   Channel    capsule-cli/src/encryption_key.rs: the DER form of a key, the key that two ends share,
--              and what they encrypt under it.
--   Prelude    lists, texts, results, tests and machine words that all of these share.
--
-- A function of the source has the definition of its name in snake case: HostFsService::handle_mkdir
-- is handle_mkdir, and X::new and X::validate are new_x and validate_x where a name would be
-- ambiguous. A loop is a definition of its own, by recursion on the list that it runs over. Fallible
-- code gives a Result, whose errors name the check that fails, or the error itself where a client sees
-- it. Numbers are naturals, with the bound of the machine word written out where the source computes.
--
-- Bounds. The loop of a connection is on fuel: a request takes four bytes at least, so one more than
-- the number of bytes is enough. The rounds of a call of the KMS and the attempts at the registry are
-- counted down from the constants of the source. The choice of a CID counts the rounds that the range has left.
-- The positions in the log of the console are not bounded: it has fewer than 2^64 bytes.
--
-- Async code is an Action (Prelude.Action) on the state: an error leaves the state that was reached, and
-- a panic is an error that no match catches. Calls of the KMS proxy are made one at a time, so its locks
-- are left out; its identifiers and hashes of requests only stand in logs. A log line is its cut, which
-- may panic.
--
-- Parameters. For the KMS: JSON, hexadecimal, URLs, the ABI, HTTP, the clock and the check of a
-- signature. For the channel: P-384, HKDF and AES-GCM, with the laws that Channel.Shared.IsLawful
-- names. The keys of eth_key.rs, and its check of a signature, are a parameter too. For the
-- others: serde_json and serde_yaml, hex::decode, the Unicode tables of to_lowercase, the crates
-- ipnetwork and circbuf, and the calls of the operating system. A FilePath is what canonicalize
-- gives and what is joined to it: its names, from the root on. A name that does not exist when a
-- path is resolved may be a link that leads nowhere yet; what the system makes of it is a call of
-- the system.
--
-- Left out: the loop that refreshes the nodes of the KMS in the background, which calls the refresh for
-- ever; PEM; the panic of a blocking task, a peer that does not read, access times, and changes that
-- other processes make to the host's files between two calls of one request; the watchers of the log;
-- the text of an error that only reaches a log; cryptography, sockets and the other parts that only
-- call libraries.
pub mod Prelude
pub mod Vsock
pub mod Policy
pub mod HostFs
pub mod Manifest
pub mod CapsuleApi
pub mod Console
pub mod Loopback
pub mod Kms
pub mod Channel
