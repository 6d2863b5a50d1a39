-- ===== src/Crd/Warehouse.antt =====
-- `SqlWarehouseSpec` of crd.rs: a compute class with its caps and the groups that may use it.
pub mod Valid
mod Tests
use stardelt_operator.Common.{
  String, Bool, false, not, Option, none, some, List, [], ◌∷◌, string_eq, insert_each, format,
  ◌>>=◌, ◌>>◌, reject, Validated, ok, ℤ, in_range, pos,
}
use stardelt_operator.Crd.Names.{name_ok}

pub data WarehouseSize : Type 0 where
  xs small medium large : WarehouseSize

pub data WarehouseScheduling : Type 0 where
  fifo fair weighted weighted_fair : WarehouseScheduling

pub record WarehouseConcurrency : Type 0 where
  pub running : Option ℤ
  pub queued : Option ℤ
  pub memory_share : Option String
  pub scheduling : Option WarehouseScheduling

pub record WarehouseGrant : Type 0 where
  pub group : String

pub record LakehouseRef : Type 0 where
  pub name : String

pub record SqlWarehouseSpec : Type 0 where
  pub lakehouse_ref : LakehouseRef
  pub display_name : Option String
  pub size : WarehouseSize
  pub concurrency : Option WarehouseConcurrency
  pub grants : List WarehouseGrant
  pub is_default : Bool

-- `if let Some(n) = o && !(lo..=hi).contains(&n)`
out_of_range : ℤ → ℤ → Option ℤ → Bool
out_of_range lo hi none = false
out_of_range lo hi (some n) = not (in_range lo hi n)

check_concurrency : Option WarehouseConcurrency → Validated
check_concurrency none = ok tt
check_concurrency (some c) = do
  reject (out_of_range (pos 1) (pos 100) c.running) "concurrency.running must be between 1 and 100"
  reject (out_of_range (pos 0) (pos 10000) c.queued)
      "concurrency.queued must be between 0 and 10000"

twice : WarehouseGrant → String
twice g = format ("group `" ∷ g.group ∷ "` appears twice in grants" ∷ [])

pub validate : SqlWarehouseSpec → String → Validated
validate w name = do
  reject (not (name_ok name)) (
      format (
        "warehouse name `" ∷ name
        ∷ "` must be 1 to 40 lower-case letters, digits and dashes, starting with a letter" ∷ []))
  insert_each (λ g. g.group) twice [] w.grants
  check_concurrency w.concurrency
