-- ===== src/Crd/Catalog.antt =====
-- `CatalogDomainSpec` of crd.rs: one data domain, its storage, owner and grants.
pub mod Valid
mod Tests
use stardelt_operator.Common.{
  ℕ, String, ◌≡◌, ◌↔◌, Bool, true, false, not, Option, none, some, List, [], ◌∷◌, arith, nat_beq,
  PartialEq, nat_eq, string_eq, pair_eq, bool_eq, contains, insert_each, format, ◌>>=◌, ◌>>◌,
  reject, Validated,
}
use stardelt_operator.Crd.Names.{catalog_name_ok}
use stardelt_operator.Crd.Volume.{unsafe_path}
use stardelt_operator.Crd.Warehouse.{LakehouseRef}

pub data DataVerb : Type 0 where
  browse select write create manage : DataVerb

-- `{:?}` of a verb.
pub debug : DataVerb → String
debug browse = "Browse"
debug select = "Select"
debug write = "Write"
debug create = "Create"
debug manage = "Manage"

-- The discriminant, by which the derived comparisons go.
rank : DataVerb → ℕ
rank browse = 0
rank select = 1
rank write = 2
rank create = 3
rank manage = 4

verb_beq : DataVerb → DataVerb → Bool
unfolding rank
verb_beq v w = nat_beq (rank v) (rank w)

verb_beq_iff : (v w : DataVerb) → (verb_beq v w ≡ true) ↔ (v ≡ w)
unfolding verb_beq
verb_beq_iff v w = ground arith

instance pub verb_eq : PartialEq DataVerb
verb_eq = record { eq = verb_beq; decides = verb_beq_iff }

pub record CatalogGrant : Type 0 where
  pub group : String
  pub verb : DataVerb

pub record SecretKeySelector : Type 0 where
  pub name : String
  pub key : String

pub record CatalogStorage : Type 0 where
  pub bucket : Option String
  pub key_prefix : Option String
  pub credential_secret_ref : Option SecretKeySelector

pub record CatalogDomainSpec : Type 0 where
  pub lakehouse_ref : LakehouseRef
  pub display_name : Option String
  pub description : Option String
  pub owner : String
  pub storage : Option CatalogStorage
  pub grants : List CatalogGrant
  pub managed_access : Bool

abbrev pub reserved_catalog_names : List String
reserved_catalog_names = "system" ∷ "information_schema" ∷ "memory" ∷ "tpch" ∷ "tpcds" ∷ "jmx" ∷ []

-- `storage.as_ref().and_then(|s| s.key_prefix.as_deref())`
abbrev pub storage_prefix : Option CatalogStorage → Option String
storage_prefix none = none
storage_prefix (some s) = s.key_prefix

unsafe_key_prefix : Option String → Bool
unsafe_key_prefix none = false
unsafe_key_prefix (some prefix) = unsafe_path prefix

abbrev pub subject : CatalogGrant → String × DataVerb
subject g = (g.group, g.verb)

twice : CatalogGrant → String
twice g = format ("group `" ∷ g.group ∷ "` holds `" ∷ debug g.verb ∷ "` twice" ∷ [])

pub validate : CatalogDomainSpec → String → Validated
validate c name = do
  reject (not (catalog_name_ok name)) (
      format (
        "catalog name `" ∷ name
        ∷ "` must be 1 to 40 lower-case letters and digits, starting with a letter (it is a SQL identifier)"
        ∷ []))
  reject (contains reserved_catalog_names name)
      (format ("catalog name `" ∷ name ∷ "` is reserved" ∷ []))
  insert_each subject twice [] c.grants
  reject (unsafe_key_prefix (storage_prefix c.storage))
      "storage.keyPrefix must not contain .. or //"
