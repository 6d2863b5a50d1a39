-- ===== src/Crd/Catalog/Valid.antt =====
-- What an accepted catalog is, and that `validate` accepts nothing else.
use stardelt_operator.Common.{
  String, ◌≡◌, refl, subst, ◌↔◌, false, Option, none, some, map, string_eq, some-injective, pair_eq,
  In, Distinct, not-contains_iff, insert_each_iff, bytes, reject_then_iff, then_iff, last_iff,
  not-false_iff, ok,
}
use stardelt_operator.Crd.Names.{catalog_name_ok}
use stardelt_operator.Crd.Names.Shape.{IsLower, IsWord, IsLowerDigit, catalog_name_ok_iff}
use stardelt_operator.Crd.Volume.Valid.{IsSafePath, unsafe_path_iff}
use stardelt_operator.Crd.Catalog.{
  verb_eq, CatalogStorage, CatalogDomainSpec, reserved_catalog_names, storage_prefix,
  unsafe_key_prefix, subject, twice, validate,
}

abbrev pub HasSafePrefix : Option CatalogStorage → Type 0
HasSafePrefix s = (prefix : String) → storage_prefix s ≡ some prefix → IsSafePath prefix

abbrev pub IsValid : CatalogDomainSpec → String → Type 0
IsValid c name =
    IsWord 40 IsLower IsLowerDigit (bytes name)
    × (¬ (In name reserved_catalog_names)
        × (Distinct (map subject c.grants) × HasSafePrefix c.storage))

unsafe_key_prefix_iff :
    (o : Option String)
    → (unsafe_key_prefix o ≡ false) ↔ ((prefix : String) → o ≡ some prefix → IsSafePath prefix)
unfolding unsafe_key_prefix
unsafe_key_prefix_iff none = (λ h p e. cc, λ f. refl)
unsafe_key_prefix_iff (some prefix) = (
  λ h p e. subst IsSafePath (some-injective e) ((unsafe_path_iff prefix).0 h),
  λ f. (unsafe_path_iff prefix).1 (f prefix refl),
)

-- `validate` accepts exactly the catalogs whose name is 1 to 40 lower-case letters and digits,
-- starting with a letter, and is not reserved, whose pairs of a group and a verb are distinct, and
-- whose key prefix has no `..` and no `//`.
pub catalog_validate_iff :
    (c : CatalogDomainSpec) (name : String) → (validate c name ≡ ok tt) ↔ IsValid c name
unfolding validate
catalog_validate_iff c name =
    reject_then_iff _ _ _ (not-false_iff (catalog_name_ok name) (catalog_name_ok_iff name)) (
      reject_then_iff _ _ _ (not-contains_iff reserved_catalog_names name) (
        then_iff _ _ (insert_each_iff subject twice c.grants)
          (last_iff _ _ (unsafe_key_prefix_iff (storage_prefix c.storage)))))
