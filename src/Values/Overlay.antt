-- ===== src/Values/Overlay.antt =====
-- The overlays of a component's values and the placeholders in them: `identity_values`,
-- `streaming_values` and the substitutions of values.rs, and their use in `resolve_component_values` of
-- controller.rs.
use Prim.Native.String
use stardelt_operator.Common.{
  ℕ, zero, suc, ◌-◌, String, Bool, Option, none, some, if◌then◌else◌, ◌==◌, string_eq, length,
  codes, starts,
}
use stardelt_operator.Values.{
  Value, null, boolean, number, text, array, object, Items, done, item, Fields, nil, field,
  deep_merge, Curated, effective_values,
}
pub mod Placeholder
pub mod Identity
mod Tests

-- `text.replace(pattern, to)`, from left to right; `skip` characters belong to a match.
replace_from : ℕ → String → String → String → String
replace_from skip pattern to String.[] = String.[]
replace_from zero pattern to (String.◌∷◌ c s) =
    let kept = replace_from zero pattern to s in
    let cut = replace_from (length (codes pattern) - 1) pattern to s in
    if starts (codes (String.◌∷◌ c s)) (codes pattern)
    then String.◌++◌ to cut
    else String.◌∷◌ c kept
replace_from (suc skip) pattern to (String.◌∷◌ c s) = replace_from skip pattern to s

pub replace : String → String → String → String
replace pattern to s = replace_from 0 pattern to s

-- The walk that `substitute_base_domain` and `substitute_namespace` share.
unfoldable mutual
  pub substitute : (String → String) → Value → Value
  substitute f null = null
  substitute f (boolean b) = boolean b
  substitute f (number n) = number n
  substitute f (text t) = text (f t)
  substitute f (array items) = array (substitute_items f items)
  substitute f (object fs) = object (substitute_fields f fs)

  pub substitute_items : (String → String) → Items → Items
  substitute_items f done = done
  substitute_items f (item v items) = item (substitute f v) (substitute_items f items)

  pub substitute_fields : (String → String) → Fields → Fields
  substitute_fields f nil = nil
  substitute_fields f (field k v fs) = field k (substitute f v) (substitute_fields f fs)

unfoldable pub substitute_base_domain : Value → String → Value
substitute_base_domain values domain = substitute (replace "__BASE_DOMAIN__" domain) values

unfoldable pub substitute_namespace : Value → String → Value
substitute_namespace values namespace = substitute (replace "__NAMESPACE__" namespace) values

unfoldable pub streaming_values : String → Value
streaming_values component =
    if component == "airflow"
    then object
        (field "kafka" (object (field "bootstrap" (text "kafka-kafka-bootstrap:9092") nil)) nil)
    else object nil

abbrev pub merge_if : Bool → Value → Value → Value
merge_if wanted values over = if wanted then deep_merge values over else values

abbrev pub substitute_if : Bool → Option String → Value → Value
substitute_if wanted none values = values
substitute_if wanted (some domain) values =
    if wanted then substitute_base_domain values domain else values

-- The values of a component up to the placeholders, from the layers that the resource and the files
-- give. `identity` is the file that `identity_values` reads.
unfoldable pub overlaid_values :
    {Profile : Type 0}
    → Curated Profile
    → (String → Value)
    → Bool
    → Bool
    → Option String
    → String
    → Profile
    → Option Value
    → Option Value
    → Value
overlaid_values c identity_values identity streaming base_domain component profile external inline =
    let values = effective_values c component profile external inline in
    let guarded = merge_if identity values (identity_values component) in
    let streamed = merge_if streaming guarded (streaming_values component) in
    substitute_if identity base_domain streamed
