-- ===== src/Encoding.antt =====
-- The encoders of crates/stardelt-operator/src/keycloak.rs (hexadecimal and URL-safe base64, with the
-- credentials generated by them) and of principal_keycloak.rs (percent encoding). A text that they
-- produce is ASCII: it is the list of its bytes.
use stardelt_operator.Common.{
  ℕ, ◌+◌, ◌-◌, ◌*◌, ◌/◌, ◌%◌, ◌^◌, String, Bool, ◌||◌, none, some, List, [], ◌∷◌, ltb, leb,
  if◌then◌else◌, ◌==◌, nat_eq, get_elem?, codes, bytes, is_ascii_alphanumeric, format, Result,
  ◌>>=◌, ◌>>◌, ok, err,
}
pub mod Digits
pub mod Hex
pub mod Base64
pub mod Url
pub mod Credentials
mod Tests

abbrev pub Text : Type 0
Text = List ℕ

-- `BASE64_URL`
abbrev pub base64_alphabet : Text
base64_alphabet = codes "ABCDEFGHIJKLMNOPQRSTUVWXYZabcdefghijklmnopqrstuvwxyz0123456789-_"

abbrev pub get_or : ℕ → List ℕ → ℕ → ℕ
get_or d xs i = elim (get_elem? xs i) [ none ↦ d | some x ↦ x ]

-- `BASE64_URL[i]`; every index is masked by 63, so it is in range.
pub letter : ℕ → ℕ
letter i = get_or 0 base64_alphabet i

-- What one position of a chunk pushes.
pub position_of : ℕ → ℕ → ℕ → ℕ
position_of size group position =
    if leb position size then letter (group / 2 ^ (18 - 6 * position) % 64) else b'='

-- `for position in 0..4`, before the rest of the output.
pub push_chunk : ℕ → ℕ → Text → Text
push_chunk size group rest =
    position_of size group 0
    ∷ position_of size group 1
    ∷ position_of size group 2
    ∷ position_of size group 3
    ∷ rest

-- The bytes of a chunk stand in disjoint bits, so `|` of the shifted bytes is their sum.
pub base64_url : List ℕ → Text
base64_url [] = []
base64_url (a ∷ []) = push_chunk 1 (a * 2 ^ 16) []
base64_url (a ∷ b ∷ []) = push_chunk 2 (a * 2 ^ 16 + b * 2 ^ 8) []
base64_url (a ∷ b ∷ c ∷ rest) = push_chunk 3 (a * 2 ^ 16 + b * 2 ^ 8 + c) (base64_url rest)

-- `{:x}` and `{:X}` of one digit.
abbrev pub digit : ℕ → ℕ → ℕ
digit ten d = if ltb d 10 then b'0' + d else ten + (d - 10)

-- `format!("{byte:02x}")`, collected.
pub hex : List ℕ → Text
hex [] = []
hex (b ∷ bs) = digit b'a' (b / 16) ∷ digit b'a' (b % 16) ∷ hex bs

abbrev pub is_unreserved : ℕ → Bool
is_unreserved b = is_ascii_alphanumeric b || b == b'-' || b == b'_' || b == b'.' || b == b'~'

pub escaped : List ℕ → Text
escaped [] = []
escaped (b ∷ bs) =
    let rest = escaped bs in
    if is_unreserved b then b ∷ rest else b'%' ∷ digit b'A' (b / 16) ∷ digit b'A' (b % 16) ∷ rest

pub url_encode_component : String → Text
url_encode_component value = escaped (bytes value)

-- `getrandom::fill` of a buffer of that size.
abbrev pub Random : Type 0
Random = ℕ → Result String (List ℕ)

abbrev filled : Result String (List ℕ) → String → Result String (List ℕ)
filled (ok bs) what = ok bs
filled (err e) what = err (format (what ∷ e ∷ []))

pub generate_hex : Random → ℕ → Result String Text
generate_hex random n = do bs ← filled (random n) "cannot generate a credential: "; ok (hex bs)

unfoldable pub generate_secret : Random → Result String Text
generate_secret random = do
  bs ← filled (random 24) "cannot generate an identity credential: "
  ok (hex bs)

pub generate_fernet_key : Random → Result String Text
generate_fernet_key random = do
  bs ← filled (random 32) "cannot generate a Fernet key: "
  ok (base64_url bs)
