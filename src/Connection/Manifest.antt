-- ===== src/Connection/Manifest.antt =====
-- The `ExternalSecret` of `plan`: the manifest, with its literal parts.
use stardelt_operator.Values.{
  Value, Items, Fields, to_map, of_map, find, put, boolean, text, array, object, done, item, nil,
}
use stardelt_operator.Values.Merge.{entry, at}
use stardelt_operator.Crd.Connection.{ConnectionSpec, connection_secret_name}
use stardelt_operator.Common.{
  String, ◌≡◌, refl, true, some, List, [], ◌∷◌, map, string_eq, get, insert,
}

-- `json!` of an object and of an array.
pub object_of : List (String × Value) → Fields
object_of [] = nil
object_of ((k, v) ∷ rest) = put k v (object_of rest)

pub array_of : List Value → Items
array_of [] = done
array_of (v ∷ vs) = item v (array_of vs)

-- One entry of `data`.
pub data_entry : String → String → Value
data_entry path key = object (
    object_of (
      ("remoteRef", object (object_of (("key", text path) ∷ ("property", text key) ∷ [])))
      ∷ ("secretKey", text key)
      ∷ []))

pub owner_entry : String → String → Value
owner_entry name uid = object (
    object_of (
      ("apiVersion", text "stardelt.io/v1alpha1")
      ∷ ("kind", text "Connection")
      ∷ ("name", text name)
      ∷ ("uid", text uid)
      ∷ ("controller", boolean true)
      ∷ ("blockOwnerDeletion", boolean true)
      ∷ []))

pub metadata_of : String → String → String → Value
metadata_of name namespace uid = object (
    object_of (
      ("name", text (connection_secret_name name))
      ∷ ("namespace", text namespace)
      ∷ (
        "labels",
        object (
            object_of (
              ("app.kubernetes.io/part-of", text "stardelt")
              ∷ ("stardelt.io/connection", text name)
              ∷ [])),
      )
      ∷ ("ownerReferences", array (array_of (owner_entry name uid ∷ [])))
      ∷ []))

pub spec_of : ConnectionSpec → String → List String → String × String × String → Value
spec_of c name keys_ (store, kind, path) = object (
    object_of (
      ("refreshInterval", text c.refresh_interval)
      ∷ ("secretStoreRef", object (object_of (("kind", text kind) ∷ ("name", text store) ∷ [])))
      ∷ (
        "target",
        object (
            object_of (
              ("name", text (connection_secret_name name))
              ∷ ("creationPolicy", text "Owner")
              ∷ ("deletionPolicy", text "Delete")
              ∷ [])),
      )
      ∷ ("data", array (array_of (map (data_entry path) keys_)))
      ∷ []))

pub external_secret :
    ConnectionSpec → String → String → String → List String → String × String × String → Value
external_secret c name namespace uid keys_ target = object (
    object_of (
      ("apiVersion", text "external-secrets.io/v1")
      ∷ ("kind", text "ExternalSecret")
      ∷ ("metadata", metadata_of name namespace uid)
      ∷ ("spec", spec_of c name keys_ target)
      ∷ []))

-- The entries of a manifest that say what is read, from where, and to where.
pub external_secret-at :
    (c : ConnectionSpec) (name namespace uid : String) (keys_ : List String)
    (store kind path : String)
    → (at ("spec" ∷ "data" ∷ []) (external_secret c name namespace uid keys_ (store, kind, path))
        ≡ some (array (array_of (map (data_entry path) keys_))))
      × (at
            ("spec" ∷ "secretStoreRef" ∷ "name" ∷ [])
            (external_secret c name namespace uid keys_ (store, kind, path))
          ≡ some (text store))
      × (at
            ("spec" ∷ "target" ∷ "name" ∷ [])
            (external_secret c name namespace uid keys_ (store, kind, path))
          ≡ some (text (connection_secret_name name)))
unfolding external_secret spec_of object_of put insert get find to_map of_map at entry
external_secret-at c name namespace uid keys_ store kind path = (refl, refl, refl)
