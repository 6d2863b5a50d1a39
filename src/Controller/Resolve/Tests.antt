-- ===== src/Controller/Resolve/Tests.antt =====
-- External sources on a concrete API server.
use stardelt_operator.Common.{
  String, ◌≡◌, refl, ◌↔◌, Bool, true, none, some, [], ◌∷◌, if◌then◌else◌, ◌==◌, nat_eq, string_eq,
  get, ok, err,
}
use stardelt_operator.Values.{nil, object}
use stardelt_operator.Values.Merge.{is_object}
use stardelt_operator.Controller.Cluster.{api_error}
use stardelt_operator.Controller.Resolve.{
  ValuesKeyRef, ValuesSource, Objects, mapping_only, chosen, or_scope, not_found_or,
  parse_values_document, read_referenced_key, resolve_values_from,
}
use stardelt_operator.Controller.Resolve.Document.{Selects, Holds, resolve_values_from_iff}

abbrev server : Objects
server = record {
  get_config_map =
      λ ns name. if name == "tuning" then ok (("trino.yaml", "{}") ∷ []) else err (api_error 404);
  get_secret = λ ns name. err (api_error 404);
  from_utf8 = λ bs. none;
  show_key = λ key. key;
  show_error = λ e. "failed";
  parse_yaml = λ document. ok (object nil);
}

abbrev from : String → ValuesSource
from name = record {
  config_map_ref = some (record { name = name; key = "trino.yaml"; namespace = none });
  secret_ref = none;
}

the_document_is_read : resolve_values_from server (some "lake") (from "tuning") ≡ ok (object nil)
unfolding resolve_values_from chosen read_referenced_key not_found_or parse_values_document
    mapping_only get
the_document_is_read = refl

a_missing_object_is_reported :
    resolve_values_from server (some "lake") (from "other") ≡ err "ConfigMap lake/other not found"
unfolding resolve_values_from chosen read_referenced_key not_found_or parse_values_document
    mapping_only get
a_missing_object_is_reported = refl

resolve_values_from_iff_example :
    (resolve_values_from server (some "lake") (from "tuning") ≡ ok (object nil)) ↔ (
      (b : Bool) × (r : ValuesKeyRef) × (ns : String) × (document : String) × Selects
        (from "tuning")
        b
        r
      × (or_scope r.namespace (some "lake") ≡ some ns)
      × Holds server b ns r.name r.key document
      × (server.parse_yaml document ≡ ok (object nil))
      × (is_object (object nil) ≡ true))
resolve_values_from_iff_example =
    resolve_values_from_iff server (some "lake") (from "tuning") (object nil)
