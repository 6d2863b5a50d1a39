-- ===== src/Crd/Connection.antt =====
-- `ConnectionSpec` of crd.rs: a connection to an outside system, and `validate`.
use stardelt_operator.Common.{
  ℕ, ◌+◌, ◌-◌, ◌*◌, ◌^◌, String, Bool, true, false, not, ◌&&◌, ◌||◌, Option, none, some, List, [],
  ◌∷◌, map, ltb, leb, nat_beq, if◌then◌else◌, nat_eq, string_eq, is_some, length, all, any,
  is_empty, contains, collect, Map, get, keys, codes, bytes, is_ascii_digit, ascii_lower,
  contains_bytes, format, ◌>>=◌, ◌>>◌, reject, Validated, ok, err,
}
use stardelt_operator.Crd.Volume.{unsafe_path}
use stardelt_operator.Crd.Names.{name_ok, group_name_ok, key_ok}
pub mod Refresh
pub mod Valid
pub mod Paths
pub mod Samples
mod Tests

pub data ConnectionScope : Type 0 where
  group managed : ConnectionScope

pub data ConnectionType : Type 0 where
  postgresql mysql sqlserver oracle rest_api s3 kafka sftp generic : ConnectionType

pub record ConnectionSecret : Type 0 where
  pub remote_ref : Option String
  pub keys : List String

pub record ConnectionSpec : Type 0 where
  pub scope : ConnectionScope
  pub owner_group : Option String
  pub usable_by : List String
  pub type_ : ConnectionType
  pub config : Map String
  pub secret : Option ConnectionSecret
  pub refresh_interval : String

abbrev group_message : String
group_message = "a group connection needs a valid ownerGroup and no usableBy"

-- The closure `group_ok` makes the tests of `group_name_ok`.
check_scope : ConnectionScope → Option String → List String → Validated
check_scope group (some g) usable_by =
    reject (not (group_name_ok g && is_empty usable_by)) group_message
check_scope group none usable_by = err group_message
check_scope managed owner usable_by =
    reject (is_some owner || is_empty usable_by || not (all group_name_ok usable_by))
      "a managed connection needs usableBy (valid group names) and no ownerGroup"

unsafe_ref : Option ConnectionSecret → Bool
unsafe_ref none = false
unsafe_ref (some s) = elim s.remote_ref [ none ↦ false | some path ↦ unsafe_path path ]

bad_keys : List String → Bool
bad_keys keys =
    is_empty keys
    || ltb 16 (length keys)
    || not (nat_beq (length (collect [] keys)) (length keys))
    || not (all key_ok keys)

check_secret : Option ConnectionSecret → Validated
check_secret none = ok tt
check_secret (some s) =
    reject (bad_keys s.keys)
      "secret.keys must be 1 to 16 unique names of letters, digits and underscore"

abbrev pub secret_words : List String
secret_words = "password" ∷ "passwd" ∷ "passphrase" ∷ "secret" ∷ "token" ∷ "credential" ∷ []

-- `key.to_ascii_lowercase()` contains one of the words.
unfoldable pub looks_secret : String → Bool
looks_secret key = any (λ w. contains_bytes (map ascii_lower (bytes key)) (bytes w)) secret_words

check_config : List String → Validated
check_config [] = ok tt
check_config (key ∷ keys) =
    reject (looks_secret key) (
      format (
        "config." ∷ key ∷ " looks like a secret: settings go in config, secrets in secret.keys"
        ∷ []))
    >> check_config keys

abbrev pub secret_keys : Option ConnectionSecret → List String
secret_keys none = []
secret_keys (some s) = s.keys

-- The closures `has_config` and `has_key`.
abbrev pub has_config : ConnectionSpec → String → Bool
has_config c k = is_some (get k c.config)

abbrev pub has_key : ConnectionSpec → String → Bool
has_key c k = contains (secret_keys c.secret) k

abbrev pub database_ok : ConnectionSpec → Bool
database_ok c = has_config c "host" && (has_key c "user" && has_key c "password")

-- The condition and the message of `needs` for each type.
needs : ConnectionType → ConnectionSpec → Bool
needs postgresql c = database_ok c
needs mysql c = database_ok c
needs sqlserver c = database_ok c
needs oracle c = database_ok c
needs rest_api c =
    has_config c "baseUrl"
    && (has_key c "token" || (has_key c "clientId" && has_key c "clientSecret"))
needs s3 c = has_config c "bucket" && (has_key c "accessKeyId" && has_key c "secretAccessKey")
needs sftp c =
    has_config c "host" && (has_key c "user" && (has_key c "password" || has_key c "privateKey"))
needs kafka c = has_config c "bootstrapServers"
needs generic c = true

abbrev database_message : String
database_message = "a database connection needs config.host and the secret keys user and password"

needs_message : ConnectionType → String
needs_message postgresql = database_message
needs_message mysql = database_message
needs_message sqlserver = database_message
needs_message oracle = database_message
needs_message rest_api =
    "a rest-api connection needs config.baseUrl and the secret key token, or clientId and clientSecret"
needs_message s3 =
    "an s3 connection needs config.bucket and the secret keys accessKeyId and secretAccessKey"
needs_message sftp =
    "an sftp connection needs config.host and the secret keys user and password or privateKey"
needs_message kafka = "a kafka connection needs config.bootstrapServers"
needs_message generic = ""

-- `chars().take_while(char::is_ascii_digit)`
unfoldable pub leading_digits : List ℕ → List ℕ
leading_digits [] = []
leading_digits (c ∷ cs) = let rest = leading_digits cs in if is_ascii_digit c then c ∷ rest else []

unfoldable pub decimal : ℕ → List ℕ → ℕ
decimal n [] = n
decimal n (c ∷ cs) = decimal (n * 10 + (c - b'0')) cs

-- `digits.parse::<u32>()` of digits only: an empty text or a value of 33 bits or more is an error.
unfoldable pub parse_u32 : List ℕ → Option ℕ
parse_u32 [] = none
parse_u32 (c ∷ cs) = if ltb (decimal 0 (c ∷ cs)) (2 ^ 32) then some (decimal 0 (c ∷ cs)) else none

-- `n.saturating_mul(60)` of a `u32`.
unfoldable pub saturating_mul60 : ℕ → ℕ
saturating_mul60 n = if ltb (n * 60) (2 ^ 32) then n * 60 else 2 ^ 32 - 1

unfoldable pub last : List ℕ → Option ℕ
last [] = none
last (c ∷ []) = some c
last (c ∷ d ∷ cs) = last (d ∷ cs)

-- `match (digits.parse(), chars().last())`
unfoldable pub minutes_of : Option ℕ → Option ℕ → ℕ
minutes_of none unit = 0
minutes_of (some n) none = 0
minutes_of (some n) (some unit) =
    if nat_beq unit b'm' then n else if nat_beq unit b'h' then saturating_mul60 n else 0

unfoldable pub minutes : String → ℕ
minutes interval = minutes_of (parse_u32 (leading_digits (codes interval))) (last (codes interval))

unfoldable pub refresh_ok : String → Bool
refresh_ok interval = leb 1 (minutes interval) && leb (minutes interval) 1440

pub validate : ConnectionSpec → String → Validated
validate c name = do
  reject (not (name_ok name)) (
      format (
        "connection name `" ∷ name
        ∷ "` must be 1 to 40 lower-case letters, digits and dashes, starting with a letter" ∷ []))
  check_scope c.scope c.owner_group c.usable_by
  reject (unsafe_ref c.secret) "secret.remoteRef must not contain .. or //"
  check_secret c.secret
  check_config (keys c.config)
  reject (not (needs c.type_ c)) (needs_message c.type_)
  reject (not (refresh_ok c.refresh_interval))
      "refreshInterval must be between 1m and 24h, for example 15m"

abbrev pub remote_ref_of : ConnectionScope → Option String → String → String
remote_ref_of group (some g) name = format ("connections/group/" ∷ g ∷ "/" ∷ name ∷ [])
remote_ref_of group none name = format ("connections/managed/" ∷ name ∷ [])
remote_ref_of managed owner name = format ("connections/managed/" ∷ name ∷ [])

unfoldable pub derived_remote_ref : ConnectionSpec → String → String
derived_remote_ref c name = remote_ref_of c.scope c.owner_group name

unfoldable pub connection_secret_name : String → String
connection_secret_name name = format ("conn-" ∷ name ∷ [])
