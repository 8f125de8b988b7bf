-- ===== src/HostFs/Io.antt =====
-- What capsule-cli/src/hostfs_service.rs uses of the operating system, and its actions: an action
-- takes the state of the host's file system, and gives the state behind it and a result. A state
-- does not hold access times, so what only reads leaves it as it is.
use nova_enclave_capsule.Prelude.{ℕ, Bool, Option, some, none, List, Result, ok, err, ◌≡◌, refl}
use nova_enclave_capsule.Prelude.Text.{Text}
use nova_enclave_capsule.HostFs.Protocol.{Bytes, FsProxyError}

-- An absolute path with no links, `.` or `..` in its text, by its names from the root on:
-- `Path::join` of a name appends it, and `Path::starts_with` compares names.
abbrev pub FilePath : Type 0
FilePath = List Text

-- `io::Error`: `raw_os_error` and the text that `Display` gives.
pub record IoError : Type 0 where
  pub raw_os_error : Option ℕ
  pub message : Text

-- `std::fs::FileType`
pub record FileType : Type 0 where
  pub is_dir : Bool
  pub is_file : Bool
  pub is_symlink : Bool

-- `std::time::SystemTime`, which may lie before the Unix epoch.
pub data SystemTime : Type 0 where
  before_epoch : SystemTime
  since_epoch : (secs nanos : ℕ) → SystemTime

-- `std::fs::Metadata`
pub record Metadata : Type 0 where
  pub file_type : FileType
  pub len : ℕ
  pub readonly : Bool
  pub modified : Option SystemTime
  pub accessed : Option SystemTime

-- `DirEntry`, with the result of its `file_type`.
pub record DirEntry : Type 0 where
  pub name : Text
  pub file_type : Result IoError FileType

pub record Statvfs : Type 0 where
  pub fragment_size : ℕ
  pub blocks : ℕ
  pub blocks_available : ℕ

-- The calls of std::fs, tokio::fs and nix. Those that cannot write are functions of the state.
pub record Os : Type 1 where
  pub State : Type 0
  pub File : Type 0
  pub canonicalize : State → FilePath → Result IoError FilePath
  pub exists : State → FilePath → Bool
  pub is_dir : State → FilePath → Bool
  pub statvfs : State → FilePath → Result IoError Statvfs
  pub symlink_metadata : State → FilePath → Result IoError Metadata
  pub read_dir : State → FilePath → Result IoError (List (Result IoError DirEntry))
  pub open_read : State → FilePath → Result IoError File
  pub seek : File → ℕ → Result IoError File
  pub read : State → File → ℕ → Result IoError Bytes
  pub sync_data : State → File → Result IoError (Unit {0})
  pub sync_all : State → File → Result IoError (Unit {0})
  pub open_write : (create truncate : Bool) → FilePath → State → State × Result IoError File
  pub write_all : File → Bytes → State → State × Result IoError (Unit {0})
  pub set_len : File → ℕ → State → State × Result IoError (Unit {0})
  pub create_dir_all : FilePath → State → State × Result IoError (Unit {0})
  pub create_dir : FilePath → State → State × Result IoError (Unit {0})
  pub remove_file : FilePath → State → State × Result IoError (Unit {0})
  pub remove_dir : FilePath → State → State × Result IoError (Unit {0})
  pub rename : (from to : FilePath) → State → State × Result IoError (Unit {0})

abbrev pub eio : ℕ
eio = 5

abbrev or_eio : Option ℕ → Option ℕ
or_eio none = some eio
or_eio (some code) = some code

unfoldable pub io_error_to_proxy_error : IoError → FsProxyError
io_error_to_proxy_error e = record { os_code = or_eio e.raw_os_error; message = e.message }

-- `.map_err(io_error_to_proxy_error)`
unfoldable pub map_err {ℓ} : {A : Type ℓ} → Result IoError A → Result FsProxyError A
unfolding io_error_to_proxy_error
map_err (ok a) = ok a
map_err (err e) = err (io_error_to_proxy_error e)

abbrev pub Io : Type 0 → Type 0 → Type 0
Io S A = S → S × Result FsProxyError A

module _ {S : Type 0} where
  abbrev continue : {A B : Type 0} → Result FsProxyError A → (A → Io S B) → Io S B
  continue (ok a) f s = f a s
  continue (err e) f s = (s, err e)

  infixl 5 ◌>>=◌ ◌>>◌
  abbrev pub ◌>>=◌ : {A B : Type 0} → Io S A → (A → Io S B) → Io S B
  ◌>>=◌ m f s = let (s', r) = m s in continue r f s'

  abbrev pub ◌>>◌ : {B : Type 0} → Io S (Unit {0}) → Io S B → Io S B
  m >> k = m >>= λ _. k

  abbrev pub pure : {A : Type 0} → A → Io S A
  pure a s = (s, ok a)

  -- A computation with no effect.
  abbrev pub lift : {A : Type 0} → Result FsProxyError A → Io S A
  lift r s = (s, r)

  -- A look at the state.
  abbrev pub look : {A : Type 0} → (S → Result FsProxyError A) → Io S A
  look f s = (s, f s)

  -- A call that may write.
  abbrev pub act : {A : Type 0} → (S → S × Result IoError A) → Io S A
  act f s = let (s', r) = f s in (s', map_err r)

  continue-eq-ok :
      {A B : Type 0} (r : Result FsProxyError A) (next : A → Io S B) (s : S) {y : B}
      → (continue r next s).1 ≡ ok y
      → (x : A) × (r ≡ ok x) × ((next x s).1 ≡ ok y)
  continue-eq-ok (ok x) next s done = (x, refl, done)
  continue-eq-ok (err e) next s done = absurd (cc)

  -- Inversion of a bind that succeeds.
  pub >>=-eq-ok :
      {A B : Type 0} (m : Io S A) (next : A → Io S B) (s : S) {y : B}
      → ((m >>= next) s).1 ≡ ok y
      → (x : A) × ((m s).1 ≡ ok x) × ((next x (m s).0).1 ≡ ok y)
  >>=-eq-ok m next s done = continue-eq-ok (m s).1 next (m s).0 done
