-- ===== src/Crd/Catalog/Tests.antt =====
-- Catalogs that the checks accept and refuse.
use stardelt_operator.Crd.Names.{catalog_name_ok}
use stardelt_operator.Common.{
  ◌≡◌, refl, ◌↔◌, false, none, List, [], ◌∷◌, string_eq, contains, insert_each, bytes, ok, err,
}
use stardelt_operator.Crd.Catalog.Valid.{IsValid, catalog_validate_iff}
use stardelt_operator.Crd.Catalog.{
  debug, verb_beq, verb_eq, CatalogGrant, CatalogDomainSpec, twice, validate, select, write,
}

abbrev catalog : List CatalogGrant → CatalogDomainSpec
catalog grants = record {
  lakehouse_ref = record { name = "main" };
  display_name = none;
  description = none;
  owner = "finance";
  storage = none;
  grants = grants;
  managed_access = false;
}

abbrev finance : CatalogDomainSpec
finance =
    catalog (record { group = "a"; verb = select } ∷ record { group = "a"; verb = write } ∷ [])

reserved : validate finance "tpch" ≡ err "catalog name `tpch` is reserved"
unfolding validate catalog_name_ok bytes contains
reserved = refl

held_twice :
    validate
      (catalog (record { group = "a"; verb = select } ∷ record { group = "a"; verb = select } ∷ []))
      "finance"
    ≡ err "group `a` holds `Select` twice"
unfolding validate catalog_name_ok bytes contains insert_each twice debug verb_eq verb_beq
held_twice = refl

catalog_validate_iff_example : (validate finance "finance" ≡ ok tt) ↔ IsValid finance "finance"
catalog_validate_iff_example = catalog_validate_iff finance "finance"
