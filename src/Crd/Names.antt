-- ===== src/Crd/Names.antt =====
-- The name checks of crd.rs: bytes of a fixed alphabet, a first byte of a narrower one, a length.
pub mod Shape
pub mod Resource
pub mod Slash
use stardelt_operator.Common.{
  ℕ, ◌-◌, String, Bool, false, not, ◌&&◌, ◌||◌, none, some, List, leb, ◌==◌, nat_eq, string_eq,
  length, get_elem?, all, is_empty, bytes, is_ascii_lowercase, is_ascii_digit, is_ascii_alphabetic,
  is_ascii_alphanumeric,
}

-- `bytes[i]` under a test. Out of range the index panics; each use stands behind a length test.
abbrev pub byte_is : List ℕ → ℕ → (ℕ → Bool) → Bool
byte_is bs i p = elim (get_elem? bs i) [ none ↦ false | some b ↦ p b ]

-- `!bytes.is_empty() && bytes.len() <= max && first(bytes[0]) && bytes.iter().all(rest)`
abbrev pub word_ok : ℕ → (ℕ → Bool) → (ℕ → Bool) → List ℕ → Bool
word_ok max first rest bs =
    not (is_empty bs) && leb (length bs) max && byte_is bs 0 first && all rest bs

abbrev pub lower_dash : ℕ → Bool
lower_dash b = is_ascii_lowercase b || is_ascii_digit b || b == b'-'

abbrev pub group_byte : ℕ → Bool
group_byte b = is_ascii_alphanumeric b || b == b'.' || b == b'_' || b == b'-'

-- The `name_ok` of `validate` in Connection, Volume, ServicePrincipal, StreamApp and SqlWarehouse.
unfoldable pub name_ok : String → Bool
name_ok name =
    let bs = bytes name in
    not (is_empty bs)
    && leb (length bs) 40
    && byte_is bs 0 is_ascii_lowercase
    && byte_is bs (length bs - 1) (λ b. not (b == b'-'))
    && all lower_dash bs

-- The `name_ok` of a Catalog.
unfoldable pub catalog_name_ok : String → Bool
catalog_name_ok name =
    word_ok 40 is_ascii_lowercase (λ b. is_ascii_lowercase b || is_ascii_digit b) (bytes name)

unfoldable pub group_name_ok : String → Bool
group_name_ok group = word_ok 64 is_ascii_alphanumeric group_byte (bytes group)

-- The `key_ok` of `ConnectionSpec::validate`.
unfoldable pub key_ok : String → Bool
key_ok k = word_ok 63 is_ascii_alphabetic (λ b. is_ascii_alphanumeric b || b == b'_') (bytes k)

-- On the bytes of the value, since it also checks the parts of a split text.
unfoldable pub data_identifier_ok : List ℕ → Bool
data_identifier_ok value =
    word_ok 63 is_ascii_lowercase
      (λ b. is_ascii_lowercase b || is_ascii_digit b || b == b'_' || b == b'-') value

unfoldable pub catalog_ok : String → Bool
catalog_ok value =
    word_ok 63 (λ b. is_ascii_lowercase b || is_ascii_digit b) lower_dash (bytes value)
