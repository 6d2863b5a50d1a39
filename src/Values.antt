-- ===== src/Values.antt =====
-- crates/stardelt-operator/src/values.rs: values documents and how the layers of a component's values
-- are merged. The curated documents are files of the repository and parameters here.
use stardelt_operator.Common.{
  String, Bool, Option, none, some, [], ◌∷◌, string_eq, Map, get, insert,
}
pub mod Lookup
pub mod Merge
pub mod Precedence
pub mod Overlay
mod Tests

-- serde_json's `Value`; a number is the text it is printed as, an object has its entries in key order.
mutual
  pub data Value : Type 0 where
    null : Value
    boolean : Bool → Value
    number : String → Value
    text : String → Value
    array : Items → Value
    object : Fields → Value

  pub data Items : Type 0 where
    done : Items
    item : Value → Items → Items

  pub data Fields : Type 0 where
    nil : Fields
    field : String → Value → Fields → Fields

-- The entries of an object as a map.
unfoldable pub to_map : Fields → Map Value
to_map nil = []
to_map (field k v fs) = (k, v) ∷ to_map fs

unfoldable pub of_map : Map Value → Fields
of_map [] = nil
of_map (e ∷ m) = field e.0 e.1 (of_map m)

unfoldable pub find : String → Fields → Option Value
find k fs = get k (to_map fs)

-- `map.insert(key, value)`
unfoldable pub put : String → Value → Fields → Fields
put k v fs = of_map (insert k v (to_map fs))

-- In `merge_fields`, an entry that is removed and inserted again is replaced.
unfoldable mutual
  pub deep_merge : Value → Value → Value
  deep_merge base null = null
  deep_merge base (boolean b) = boolean b
  deep_merge base (number n) = number n
  deep_merge base (text t) = text t
  deep_merge base (array items) = array items
  deep_merge (object base) (object over) = object (merge_fields base over)
  deep_merge null (object over) = object over
  deep_merge (boolean b) (object over) = object over
  deep_merge (number n) (object over) = object over
  deep_merge (text t) (object over) = object over
  deep_merge (array items) (object over) = object over

  pub merge_fields : Fields → Fields → Fields
  merge_fields base nil = base
  merge_fields base (field k v over) =
      merge_fields
        (put k (elim (find k base) [ some existing ↦ deep_merge existing v | none ↦ v ]) base) over

-- What `golden_values` and `profile_values` read from the files of the repository.
pub record Curated (Profile : Type 0) : Type 0 where
  pub golden_values : String → Value
  pub profile_values : String → Profile → Value

abbrev pub layer : Value → Option Value → Value
layer values none = values
layer values (some over) = deep_merge values over

unfoldable pub effective_values :
    {Profile : Type 0} → Curated Profile → String → Profile → Option Value → Option Value → Value
effective_values c component profile external inline =
    layer
      (layer (deep_merge (c.golden_values component) (c.profile_values component profile)) external)
      inline
