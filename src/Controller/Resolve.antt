-- ===== src/Controller/Resolve.antt =====
-- The external document of a component's values: `resolve_values_from`, `read_referenced_key` and
-- `not_found_or` of controller.rs, and `parse_values_document` of values.rs.
use stardelt_operator.Common.{
  ℕ, String, Bool, true, false, Option, none, some, List, [], ◌∷◌, if◌then◌else◌, ◌==◌, nat_eq,
  string_eq, Map, get, format, Result, ◌>>=◌, ok, err,
}
use stardelt_operator.Values.{Value, null, boolean, number, text, array, object}
use stardelt_operator.Controller.Cluster.{KubeError, api_error, transport_error}
pub mod Document
mod Tests

pub record ValuesKeyRef : Type 0 where
  pub name : String
  pub key : String
  pub namespace : Option String

pub record ValuesSource : Type 0 where
  pub config_map_ref : Option ValuesKeyRef
  pub secret_ref : Option ValuesKeyRef

pub data ValuesError : Type 0 where
  invalid_yaml : String → ValuesError
  not_a_mapping : String → ValuesError

-- What the API server, the standard library and serde_yaml answer. A Secret's values are bytes.
pub record Objects : Type 0 where
  pub get_config_map : String → String → Result KubeError (Map String)
  pub get_secret : String → String → Result KubeError (Map (List ℕ))
  pub from_utf8 : List ℕ → Option String
  pub show_key : String → String
  pub show_error : KubeError → String
  pub parse_yaml : String → Result String Value

type_name : Value → String
type_name null = "null"
type_name (boolean b) = "a boolean"
type_name (number n) = "a number"
type_name (text t) = "a string"
type_name (array items) = "a list"
type_name (object fs) = "a mapping"

show_values_error : ValuesError → String
show_values_error (invalid_yaml e) = format ("not valid YAML: " ∷ e ∷ [])
show_values_error (not_a_mapping found) =
    format ("a values document must be a YAML mapping, got " ∷ found ∷ [])

mapping_only : Result String Value → Result ValuesError Value
mapping_only (err e) = err (invalid_yaml e)
mapping_only (ok (object fs)) = ok (object fs)
mapping_only (ok null) = err (not_a_mapping (type_name null))
mapping_only (ok (boolean b)) = err (not_a_mapping (type_name (boolean b)))
mapping_only (ok (number n)) = err (not_a_mapping (type_name (number n)))
mapping_only (ok (text t)) = err (not_a_mapping (type_name (text t)))
mapping_only (ok (array items)) = err (not_a_mapping (type_name (array items)))

-- `map_err`
abbrev pub map_err : {E F A : Type 0} → (E → F) → Result E A → Result F A
map_err f (ok a) = ok a
map_err f (err e) = err (f e)

-- `ok_or_else`
abbrev pub ok_or : {A : Type 0} → Option A → String → Result String A
ok_or none e = err e
ok_or (some a) e = ok a

-- The reference of a source; `true` for a Secret.
pub chosen : Option ValuesKeyRef → Option ValuesKeyRef → Result String (Bool × ValuesKeyRef)
chosen (some r) none = ok (false, r)
chosen none (some r) = ok (true, r)
chosen (some r) (some q) = err "configMapRef and secretRef are mutually exclusive"
chosen none none = err "one of configMapRef or secretRef is required"

abbrev kind_of : Bool → String
kind_of true = "Secret"
kind_of false = "ConfigMap"

-- `reference.namespace.as_deref().or(scope_namespace)`
abbrev pub or_scope : Option String → Option String → Option String
or_scope (some ns) scope = some ns
or_scope none scope = scope

abbrev pub reference_of : Bool → String → String → String
reference_of is_secret ns name = format (kind_of is_secret ∷ " " ∷ ns ∷ "/" ∷ name ∷ [])

module _ (o : Objects) where
  not_found_or : String → KubeError → String
  not_found_or reference (api_error code) =
      if code == 404
      then format (reference ∷ " not found" ∷ [])
      else format (reference ∷ ": " ∷ o.show_error (api_error code) ∷ [])
  not_found_or reference (transport_error e) =
      format (reference ∷ ": " ∷ o.show_error (transport_error e) ∷ [])

  pub parse_values_document : String → Result ValuesError Value
  parse_values_document document = mapping_only (o.parse_yaml document)

  abbrev no_key : Bool → String → String → String → String
  no_key is_secret ns name key =
      format (reference_of is_secret ns name ∷ " has no key " ∷ o.show_key key ∷ [])

  pub read_referenced_key : Bool → String → String → String → Result String String
  read_referenced_key true ns name key =
      map_err (not_found_or (reference_of true ns name)) (o.get_secret ns name) >>= λ data_.
      ok_or (get key data_) (no_key true ns name key) >>= λ bytes_. ok_or (o.from_utf8 bytes_) (
        format (
          reference_of true ns name
          ∷ " key "
          ∷ o.show_key key
          ∷ " is not UTF-8; the document must be text"
          ∷ []))
  read_referenced_key false ns name key =
      map_err (not_found_or (reference_of false ns name)) (o.get_config_map ns name) >>= λ data_.
      ok_or (get key data_) (no_key false ns name key)

  pub resolve_values_from : Option String → ValuesSource → Result String Value
  resolve_values_from scope source = chosen source.config_map_ref source.secret_ref >>= λ c.
      ok_or (or_scope c.1.namespace scope) (
        format (
          "a cluster-scoped resource has no default namespace; set namespace ("
          ∷ kind_of c.0
          ∷ " "
          ∷ c.1.name
          ∷ ")"
          ∷ []))
      >>= λ ns. read_referenced_key c.0 ns c.1.name c.1.key >>= λ document.
          map_err
            (λ e. format (
              reference_of c.0 ns c.1.name
              ∷ " key "
              ∷ o.show_key c.1.key
              ∷ ": "
              ∷ show_values_error e
              ∷ []))
            (parse_values_document document)
