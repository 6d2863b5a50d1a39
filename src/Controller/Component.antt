-- ===== src/Controller/Component.antt =====
-- The values of one component: `resolve_component_values` of controller.rs. The result is `none` where
-- the source panics: serde_json's index assignment, on a value that is neither an object nor null.
use stardelt_operator.Common.{
  String, Bool, true, false, ◌&&◌, Option, none, some, List, [], ◌∷◌, ◌==◌, string_eq, format,
  Result, ◌>>=◌, ok, err,
}
use stardelt_operator.Values.{
  Value, Fields, find, put, Curated, null, boolean, number, text, array, object, nil,
}
use stardelt_operator.Values.Overlay.{overlaid_values}
use stardelt_operator.Controller.Resolve.{ValuesSource, Objects, map_err, resolve_values_from}
pub mod Stamp
mod Tests

-- The object that an index assignment writes to: null becomes an empty one.
unfoldable pub fields_of : Value → Option Fields
fields_of null = some nil
fields_of (boolean b) = none
fields_of (number n) = none
fields_of (text t) = none
fields_of (array items) = none
fields_of (object fs) = some fs

abbrev pub or_null : Option Value → Value
or_null none = null
or_null (some v) = v

abbrev pub put_option : String → Fields → Option Value → Option Value
put_option k fs none = none
put_option k fs (some w) = some (object (put k w fs))

-- `values[k1][k2].. = x`; a key that is missing is null.
unfoldable pub set_in : List String → Value → Value → Option Value
set_in [] x v = some x
set_in (k ∷ p) x v = elim (fields_of v) [
  | none ↦ none
  | some fs ↦ put_option k fs (set_in p x (or_null (find k fs)))
]

abbrev pub stamp_path : List String
stamp_path = "coordinator" ∷ "annotations" ∷ "stardelt.io/trino-warehouses" ∷ []

-- `if component == "trino" && overrides.identity && let Some(stamp) = ..`
pub stamp_if : Bool → Option String → Value → Option Value
stamp_if wanted none values = some values
stamp_if true (some stamp) values = set_in stamp_path (text stamp) values
stamp_if false (some stamp) values = some values

-- What `OverridesContext` and the files give for one component.
pub record Overrides (Profile : Type 0) : Type 0 where
  pub scope_namespace : Option String
  pub values_from : Option ValuesSource
  pub inline : Option Value
  pub profile : Profile
  pub identity : Bool
  pub base_domain : Option String
  pub trino_warehouses : Option String
  pub streaming : Bool

module _ {Profile : Type 0} (o : Objects) (c : Curated Profile)
    (identity_values : String → Value) where
  -- `None => None`, and `valuesFrom {component}: {reason}` on an error.
  pub external_of : Overrides Profile → String → Result String (Option Value)
  external_of w component = elim w.values_from [
    | none ↦ ok none
    | some source ↦
        map_err (λ reason. format ("valuesFrom " ∷ component ∷ ": " ∷ reason ∷ []))
          (resolve_values_from o w.scope_namespace source)
        >>= λ v. ok (some v)
  ]

  abbrev pub before_stamp : Overrides Profile → String → Option Value → Value
  before_stamp w component external =
      overlaid_values c identity_values w.identity w.streaming w.base_domain component w.profile
        external w.inline

  pub finish :
      Overrides Profile → String → Result String (Option Value) → Option (Result String Value)
  finish w component (err reason) = some (err reason)
  finish w component (ok external) =
      elim (stamp_if (component == "trino" && w.identity) w.trino_warehouses
        (before_stamp w component external)) [ none ↦ none | some values ↦ some (ok values) ]

  pub resolve_component_values : Overrides Profile → String → Option (Result String Value)
  resolve_component_values w component = finish w component (external_of w component)
