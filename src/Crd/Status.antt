-- ===== src/Crd/Status.antt =====
-- crates/stardelt-operator/src/crd.rs: the statuses that the controllers write.
use stardelt_operator.Common.{String, Bool, Option, List, ℤ}

pub record ComponentStatus : Type 0 where
  pub name : String
  pub ready : Bool
  pub message : Option String
  pub applied_hash : Option String

pub record Condition : Type 0 where
  pub type_ : String
  pub status : String
  pub reason : Option String
  pub message : Option String
  pub last_transition_time : Option String
  pub observed_generation : Option ℤ

pub record LakehouseStatus : Type 0 where
  pub phase : String
  pub conditions : List Condition
  pub observed_generation : Option ℤ
  pub components : List ComponentStatus
