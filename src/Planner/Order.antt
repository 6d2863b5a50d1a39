-- ===== src/Planner/Order.antt =====
-- Which components are planned, and in which order.
use stardelt_operator.Common.{
  String, ◌≡◌, Bool, true, false, not, ◌&&◌, ◌||◌, List, [], ◌∷◌, map, arith, ◌==◌, string_eq, keep,
}
use stardelt_operator.Planner.{
  ComponentPlan, PlatformInstanceSpec, CatalogImpl, lakekeeper, LakehouseSpec, syncs, runs_store,
  is_seaweedfs, plan_platform, plan_lakehouse, polaris,
}

abbrev names : List ComponentPlan → List String
names cs = map (λ (c : ComponentPlan). c.name) cs

-- The order in which the components of a platform are installed.
abbrev pub platform_order : List String
platform_order =
    "cnpg" ∷ "external-secrets" ∷ "openbao" ∷ "jupyterhub" ∷ "airflow" ∷ "superset" ∷ "kafka"
    ∷ "spark-operator" ∷ []

-- What a platform asks for: the secrets contract, and a pillar for each application.
abbrev pub platform_wants : PlatformInstanceSpec → String → Bool
platform_wants spec name =
    (name == "cnpg")
    || (name == "external-secrets" && syncs spec.secrets_mode)
    || (name == "openbao" && runs_store spec.secrets_mode)
    || (name == "jupyterhub" && spec.pillars.notebooks)
    || (name == "airflow" && spec.pillars.pipelines)
    || (name == "superset" && spec.pillars.dashboards)
    || (name == "kafka" && spec.pillars.streaming)
    || (name == "spark-operator" && spec.pillars.streaming)

-- A platform's plan is the components that the platform wants, in the one order of a platform.
pub plan_platform_selects :
    (spec : PlatformInstanceSpec)
    → map (λ (c : ComponentPlan). c.name) (plan_platform spec)
      ≡ keep (platform_wants spec) platform_order
unfolding plan_platform
plan_platform_selects spec = ground arith

-- The order of a lakehouse: storage, permissions, catalog, query serving.
abbrev pub lakehouse_order : List String
lakehouse_order = "seaweedfs" ∷ "openfga" ∷ "lakekeeper" ∷ "polaris" ∷ "trino" ∷ []

abbrev is_lakekeeper : CatalogImpl → Bool
is_lakekeeper lakekeeper = true
is_lakekeeper polaris = false

abbrev pub lakehouse_wants : LakehouseSpec → String → Bool
lakehouse_wants spec name =
    (name == "seaweedfs" && is_seaweedfs spec.storage)
    || (name == "openfga")
    || (name == "lakekeeper" && is_lakekeeper spec.catalog)
    || (name == "polaris" && not (is_lakekeeper spec.catalog))
    || (name == "trino")

-- A lakehouse's plan is the components that it wants: storage, then permissions, then the catalog,
-- then query serving.
pub plan_lakehouse_selects :
    (spec : LakehouseSpec)
    → map (λ (c : ComponentPlan). c.name) (plan_lakehouse spec)
      ≡ keep (lakehouse_wants spec) lakehouse_order
unfolding plan_lakehouse
plan_lakehouse_selects spec = ground arith
