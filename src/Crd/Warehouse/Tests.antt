-- ===== src/Crd/Warehouse/Tests.antt =====
-- Warehouses that the checks accept and refuse.
use stardelt_operator.Crd.Names.{name_ok}
use stardelt_operator.Common.{
  ◌≡◌, refl, ◌↔◌, true, none, some, [], ◌∷◌, string_eq, contains, insert_each, bytes, ok, err, ℤ,
  pos, negsuc,
}
use stardelt_operator.Crd.Warehouse.Valid.{IsValid, warehouse_validate_iff}
use stardelt_operator.Crd.Warehouse.{
  SqlWarehouseSpec, out_of_range, check_concurrency, validate, small, fair,
}

abbrev warehouse : ℤ → SqlWarehouseSpec
warehouse running = record {
  lakehouse_ref = record { name = "main" };
  display_name = none;
  size = small;
  concurrency = some (record {
    running = some running;
    queued = none;
    memory_share = none;
    scheduling = some fair;
  });
  grants = record { group = "analysts" } ∷ [];
  is_default = true;
}

no_slots :
    validate (warehouse (negsuc 0)) "bi" ≡ err "concurrency.running must be between 1 and 100"
unfolding validate check_concurrency out_of_range name_ok bytes insert_each contains
no_slots = refl

warehouse_validate_iff_example :
    (validate (warehouse (pos 20)) "bi" ≡ ok tt) ↔ IsValid (warehouse (pos 20)) "bi"
warehouse_validate_iff_example = warehouse_validate_iff (warehouse (pos 20)) "bi"
