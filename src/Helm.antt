-- ===== src/Helm.antt =====
-- crates/stardelt-operator/src/helm.rs: the Helm command lines. Running them is the cluster's part;
-- serde_yaml's printer and serde_json's reading of `helm status` are parameters where they are used.
use Prim.Native.Char.{code}
use stardelt_operator.Common.{
  String, Bool, true, false, Option, none, some, List, [], ◌∷◌, ◌++◌, if◌then◌else◌, ◌==◌, nat_eq,
  Map, codes, bytes, contains_bytes, format,
}

-- `values` is a document of type `V`, serde_json's `Value`; `set` is in the order of its keys.
pub record HelmRelease (V : Type 0) : Type 0 where
  pub name : String
  pub chart : String
  pub repo : Option String
  pub version : Option String
  pub namespace : String
  pub dry_run : Bool
  pub set : Map String
  pub values : Option V

abbrev pub owner_marker : String
owner_marker = "managed by stardelt-operator"

-- `chart.rsplit('/').next()`
after_slash : String → Option String
after_slash String.[] = none
after_slash (String.◌∷◌ c s) = elim (after_slash s) [
  | some t ↦ some t
  | none ↦ if code c == 47 then some s else none
]

chart_name : String → String
chart_name chart = elim (after_slash chart) [ none ↦ chart | some t ↦ t ]

abbrev flag : String → Option String → List String
flag name none = []
flag name (some value) = name ∷ value ∷ []

set_args : Map String → List String
set_args [] = []
set_args (p ∷ ps) = "--set" ∷ format (p.0 ∷ "=" ∷ p.1 ∷ []) ∷ set_args ps

abbrev mode_args : Bool → List String
mode_args true = "--dry-run" ∷ []
mode_args false = "--wait" ∷ "--timeout" ∷ "10m" ∷ []

module _ {V : Type 0} where
  abbrev chart_arg : HelmRelease V → String
  chart_arg r = elim r.repo [ none ↦ r.chart | some _ ↦ chart_name r.chart ]

  abbrev values_args : Option V → List String
  values_args none = []
  values_args (some _) = "--values" ∷ "-" ∷ []

  unfoldable pub args : HelmRelease V → List String
  unfolding chart_name after_slash set_args
  args r =
      "upgrade"
      ∷ "--install"
      ∷ r.name
      ∷ chart_arg r
      ∷ "--namespace"
      ∷ r.namespace
      ∷ "--create-namespace"
      ∷ (flag "--repo" r.repo
          ++ flag "--version" r.version
          ++ set_args r.set
          ++ values_args r.values
          ++ "--description" ∷ owner_marker ∷ mode_args r.dry_run)

  unfoldable pub history_args : HelmRelease V → List String
  history_args r = "history" ∷ r.name ∷ "--namespace" ∷ r.namespace ∷ "-o" ∷ "json" ∷ []

  unfoldable pub uninstall_args : HelmRelease V → List String
  uninstall_args r =
      "uninstall" ∷ r.name ∷ "--namespace" ∷ r.namespace ∷ "--ignore-not-found" ∷ "--wait"
      ∷ "--timeout" ∷ "120s" ∷ []

  unfoldable pub status_args : HelmRelease V → List String
  status_args r = "status" ∷ r.name ∷ "--namespace" ∷ r.namespace ∷ "-o" ∷ "json" ∷ []

  -- `values_yaml` and `fingerprint`, over serde_yaml's printer and the standard library's hasher.
  abbrev pub values_yaml : (V → String) → HelmRelease V → Option String
  values_yaml print r = elim r.values [ none ↦ none | some v ↦ some (print v) ]

  abbrev pub fingerprint :
      (V → String) → (List String → Option String → String) → HelmRelease V → String
  fingerprint print hash r = hash (args r) (values_yaml print r)

-- `history_json.contains(OWNER_MARKER)`
unfoldable pub is_owned : String → Bool
is_owned history_json = contains_bytes (bytes history_json) (codes owner_marker)
