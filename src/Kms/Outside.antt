-- ===== src/Kms/Outside.antt =====
-- What capsule-cli/src/integrations/nova_kms.rs calls: JSON, hexadecimal and URLs of libraries, the
-- clock, HTTP, the ABI of contracts, and the check of a signature. The world is what the calls act
-- on.
use nova_enclave_capsule.Prelude.{ℕ, Bool, Option, List, Result}
use nova_enclave_capsule.Prelude.Text.{Text}

abbrev pub Bytes : Type 0
Bytes = List ℕ

-- `serde_json::Value`. A number is what it prints.
mutual
  pub data Json : Type 0 where
    null : Json
    boolean : Bool → Json
    number : Text → Json
    string : Text → Json
    array : Items → Json
    object : Members → Json

  pub data Items : Type 0 where
    nil : Items
    cons : Json → Items → Items

  pub data Members : Type 0 where
    end : Members
    member : Text → Json → Members → Members

-- Which of the two HTTP clients sends a request: the second never uses a proxy.
pub data Client : Type 0 where
  default_client local_client : Client

pub data Method : Type 0 where
  get_method post_method put_method delete_method : Method

-- A response: its status, the header `x-kms-response-signature`, and its body as a text.
pub record Response : Type 0 where
  pub status : ℕ
  pub signature : Option Text
  pub text : Result Text Text

-- The contract's functions that are called, and `ethabi::Token` as the source matches on it.
pub data Function : Type 0 where
  get_active_instances get_instance_by_wallet get_app : Function

pub data Token (T : Type 0) : Type 0 where
  uint : ℕ → Token T
  bool : Bool → Token T
  text : Text → Token T
  address : Bytes → Token T
  bytes : Bytes → Token T
  tokens : List T → Token T
  tuple : List T → Token T
  other : Token T

-- `JsonRpcResponse`, with the code of its error as it prints.
pub record RpcError : Type 0 where
  pub code : Text
  pub message : Text

pub record RpcResponse : Type 0 where
  pub result : Option Text
  pub error : Option RpcError

pub record Outside : Type 1 where
  pub World : Type 0
  -- `get`, `as_str`, `from_str`, `to_string`, and `Display` of a value of JSON.
  pub get : Json → Text → Option Json
  pub as_str : Json → Option Text
  pub from_str : Text → Result Text Json
  pub to_string : Json → Result Text Text
  pub display : Json → Text
  pub rpc_from_str : Text → Result Text RpcResponse
  pub to_lowercase : Text → Text
  pub hex_decode : Text → Result Text Bytes
  pub hex_encode : Bytes → Text
  pub base64_decode : Text → Result Text Bytes
  -- `form_urlencoded::byte_serialize`
  pub byte_serialize : Text → Text
  -- `reqwest::Url::parse`, as the host of the URL if it has one, and whether a text is an address
  -- of the loopback network (`none` if it is no address).
  pub parse_url : Text → Option (Option Text)
  pub ipv4_is_loopback : Text → Option Bool
  pub ipv6_is_loopback : Text → Option Bool
  -- Tokens, and the calls and the outputs of a function.
  pub Abi : Type 0
  pub view : Abi → Token Abi
  pub make : Token Abi → Abi
  pub debug : Abi → Text
  pub encode_input : Function → List Abi → Result Text Bytes
  pub decode_output : Function → Bytes → Result Text (List Abi)
  -- `SystemTime::now` since the epoch, and a sleep of milliseconds.
  pub unix_millis : World → World × ℕ
  pub unix_secs : World → World × ℕ
  pub sleep : ℕ → World → World
  -- A request with its headers and its body, sent; `error_for_status` and `json` of a response.
  pub send :
      Client
      → Method
      → (url : Text) → (headers : List (Text × Text)) → (body : Option Json) → World
      → World × Result Text Response
  pub error_for_status : Response → Result Text Response
  pub json : Response → Result Text Json
  -- `EthKey::verify_message`: whether the wallet signed the message.
  pub verify_message : (signature : Text) → (message : Bytes) → (wallet : Text) → Bool
  -- The bytes of a text (`as_bytes`).
  pub utf8 : Text → Bytes
  pub from_utf8 : Bytes → Result Text Text
  pub base64_encode : Bytes → Text
  -- `EthKey`: a new key, one from its hexadecimal text, that text, and its address.
  pub EthKey : Type 0
  pub new_eth_key : World → World × EthKey
  pub eth_key_from_hex : Text → Result Text EthKey
  pub private_key_hex : EthKey → Text
  pub eth_address : EthKey → Text
