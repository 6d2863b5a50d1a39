-- ===== src/Controller/Component/Tests.antt =====
-- The values of Trino on concrete resources.
use stardelt_operator.Common.{
  String, ◌≡◌, refl, ◌↔◌, true, false, ◌&&◌, Option, none, some, ◌==◌, string_eq, get, insert, ok,
  err,
}
use stardelt_operator.Values.{
  Value, to_map, of_map, find, put, deep_merge, merge_fields, Curated, effective_values, text,
  object, nil, field,
}
use stardelt_operator.Values.Merge.{}
use stardelt_operator.Values.Overlay.{overlaid_values}
use stardelt_operator.Controller.Cluster.{api_error}
use stardelt_operator.Controller.Resolve.{Objects}
use stardelt_operator.Controller.Component.{
  fields_of, set_in, stamp_path, stamp_if, Overrides, external_of, before_stamp, finish,
  resolve_component_values,
}
use stardelt_operator.Controller.Component.Stamp.{Blocks, resolve_component_values-none_iff}

abbrev empty : Curated (Unit {0})
empty = record { golden_values = λ name. object nil; profile_values = λ name profile. object nil }

abbrev no_objects : Objects
no_objects = record {
  get_config_map = λ ns name. err (api_error 404);
  get_secret = λ ns name. err (api_error 404);
  from_utf8 = λ bs. none;
  show_key = λ key. key;
  show_error = λ e. "failed";
  parse_yaml = λ document. ok (object nil);
}

abbrev coordinator : Value → Value
coordinator v = object (field "coordinator" v nil)

abbrev overlay : String → Value
overlay name = coordinator (object (field "labels" (object nil) nil))

abbrev trino_with : Value → Overrides (Unit {0})
trino_with annotations = record {
  scope_namespace = some "lake";
  values_from = none;
  inline = some (coordinator (object (field "annotations" annotations nil)));
  profile = tt;
  identity = true;
  base_domain = none;
  trino_warehouses = some "42";
  streaming = false;
}

the_stamp_is_set :
    resolve_component_values no_objects empty overlay (trino_with (object nil)) "trino"
    ≡ some (
        ok (
          coordinator (
            object (
              field "annotations"
                (object (field "stardelt.io/trino-warehouses" (text "42") nil))
                (field "labels" (object nil) nil)))))
unfolding resolve_component_values finish external_of overlaid_values effective_values deep_merge
    merge_fields find put to_map of_map get insert stamp_if set_in fields_of
the_stamp_is_set = refl

a_text_panics :
    resolve_component_values no_objects empty overlay (trino_with (text "x")) "trino" ≡ none
unfolding resolve_component_values finish external_of overlaid_values effective_values deep_merge
    merge_fields find put to_map of_map get insert stamp_if set_in fields_of
a_text_panics = refl

resolve_component_values-none_iff_example :
    (resolve_component_values no_objects empty overlay (trino_with (text "x")) "trino" ≡ none) ↔ (
      (external : Option Value) × (t : String) × (external_of no_objects empty overlay
          (trino_with (text "x"))
          "trino"
        ≡ ok external)
      × ((◌==◌ {A = String} "trino" "trino" && true) ≡ true)
      × (◌≡◌ {A = Option String} (some "42") (some t))
      × Blocks stamp_path
          (before_stamp no_objects empty overlay (trino_with (text "x")) "trino" external))
resolve_component_values-none_iff_example =
    resolve_component_values-none_iff no_objects empty overlay (trino_with (text "x")) "trino"
