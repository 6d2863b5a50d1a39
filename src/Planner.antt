-- ===== src/Planner.antt =====
-- crates/stardelt-operator/src/planner.rs: the components that a resource needs, in apply order, and
-- the pinned charts. The specs keep the fields that the planner and the deletion read.
use stardelt_operator.Common.{
  String, Bool, true, false, Option, none, some, List, [], ◌∷◌, ◌++◌, if◌then◌else◌, any, Map, get,
}
use stardelt_operator.Crd.Pipeline.Task.{
  PipelineTask, sql_task, notebook_task, python_task, dbt_task, quality_task,
}
use stardelt_operator.Crd.Pipeline.{PipelineEngine, PipelineSpec, airflow, spark}
pub mod Order
pub mod Pins
mod Tests

pub record ComponentPlan : Type 0 where
  pub name : String
  pub chart : Option String

pub data SecretsMode : Type 0 where
  external platform no_secrets : SecretsMode

pub record Pillars : Type 0 where
  pub lakehouse : Bool
  pub batch : Bool
  pub notebooks : Bool
  pub pipelines : Bool
  pub dashboards : Bool
  pub streaming : Bool
  pub ml : Bool

pub record PlatformInstanceSpec : Type 0 where
  pub secrets_mode : SecretsMode
  pub pillars : Pillars

pub data CatalogImpl : Type 0 where
  lakekeeper polaris : CatalogImpl

pub data StorageImpl : Type 0 where
  seaweedfs byo_s3 : StorageImpl

pub data DeletionPolicy : Type 0 where
  retain delete : DeletionPolicy

pub record LakehouseSpec : Type 0 where
  pub catalog : CatalogImpl
  pub storage : StorageImpl
  pub dry_run : Bool
  pub adopt : Bool
  pub deletion_policy : DeletionPolicy

pub data IngestionDomain : Type 0 where
  saas enterprise cdc : IngestionDomain

-- `mode != SecretsMode::None` and `mode == SecretsMode::Platform`
abbrev pub syncs : SecretsMode → Bool
syncs no_secrets = false
syncs external = true
syncs platform = true

abbrev pub runs_store : SecretsMode → Bool
runs_store platform = true
runs_store external = false
runs_store no_secrets = false

abbrev pub is_seaweedfs : StorageImpl → Bool
is_seaweedfs seaweedfs = true
is_seaweedfs byo_s3 = false

abbrev component : String → String → ComponentPlan
component name chart = record { name = name; chart = some chart }

-- `if wanted { plan.push(..) }`
abbrev push_if : Bool → List ComponentPlan → List ComponentPlan → List ComponentPlan
push_if wanted cs plan = if wanted then plan ++ cs else plan

unfoldable pub plan_platform : PlatformInstanceSpec → List ComponentPlan
plan_platform spec =
    let base = component "cnpg" "cnpg/cloudnative-pg" ∷ [] in
    let synced =
      push_if (syncs spec.secrets_mode)
        (component "external-secrets" "external-secrets/external-secrets" ∷ []) base in
    let stored =
      push_if (runs_store spec.secrets_mode) (component "openbao" "openbao/openbao" ∷ []) synced in
    let noted =
      push_if spec.pillars.notebooks (component "jupyterhub" "jupyterhub/jupyterhub" ∷ []) stored in
    let piped =
      push_if spec.pillars.pipelines (component "airflow" "apache-airflow/airflow" ∷ []) noted in
    let shown =
      push_if spec.pillars.dashboards (component "superset" "superset/superset" ∷ []) piped in
    push_if spec.pillars.streaming
      (component "kafka" "strimzi/strimzi-kafka-operator"
        ∷ component "spark-operator" "spark-operator/spark-operator"
        ∷ [])
      shown

abbrev pub catalog_component : CatalogImpl → ComponentPlan
catalog_component lakekeeper = component "lakekeeper" "lakekeeper/lakekeeper"
catalog_component polaris = component "polaris" "polaris/polaris"

unfoldable pub plan_lakehouse : LakehouseSpec → List ComponentPlan
plan_lakehouse spec =
    push_if (is_seaweedfs spec.storage) (component "seaweedfs" "seaweedfs/seaweedfs" ∷ []) []
    ++ component "openfga" "openfga/openfga"
      ∷ catalog_component spec.catalog
      ∷ component "trino" "trino/trino"
      ∷ []

unfoldable pub plan_ingestion_source : IngestionDomain → List ComponentPlan
plan_ingestion_source saas = component "seatunnel" "seatunnel/seatunnel" ∷ []
plan_ingestion_source enterprise = component "nifi" "nifi/nifi" ∷ []
plan_ingestion_source cdc =
    component "kafka" "strimzi/strimzi-kafka-operator"
    ∷ component "debezium" "debezium/debezium-operator"
    ∷ []

abbrev is_dbt : PipelineTask → Bool
is_dbt t = elim t.kind [
  | sql_task ↦ false
  | notebook_task ↦ false
  | python_task ↦ false
  | dbt_task ↦ true
  | quality_task ↦ false
]

abbrev engine_plan : PipelineEngine → List ComponentPlan
engine_plan airflow = component "airflow" "apache-airflow/airflow" ∷ []
engine_plan spark = component "spark-operator" "spark-operator/spark-operator" ∷ []

unfoldable pub plan_pipeline : PipelineSpec → List ComponentPlan
plan_pipeline spec =
    push_if (any is_dbt spec.tasks) (record { name = "dbt"; chart = none } ∷ [])
      (engine_plan spec.engine)

-- The arms of the two `match chart`.
abbrev pub chart_versions : Map String
chart_versions =
    ("cnpg/cloudnative-pg", "0.28.2")
    ∷ ("seaweedfs/seaweedfs", "4.25.1")
    ∷ ("lakekeeper/lakekeeper", "0.11.0")
    ∷ ("trino/trino", "1.42.2")
    ∷ ("jupyterhub/jupyterhub", "4.4.3")
    ∷ ("apache-airflow/airflow", "1.21.0")
    ∷ ("superset/superset", "0.15.5")
    ∷ ("openfga/openfga", "0.2.62")
    ∷ ("external-secrets/external-secrets", "2.13.0")
    ∷ ("openbao/openbao", "0.30.4")
    ∷ ("strimzi/strimzi-kafka-operator", "1.3.1")
    ∷ ("spark-operator/spark-operator", "2.5.2")
    ∷ []

abbrev pub chart_repos : Map String
chart_repos =
    ("cnpg/cloudnative-pg", "https://cloudnative-pg.github.io/charts")
    ∷ ("seaweedfs/seaweedfs", "https://seaweedfs.github.io/seaweedfs/helm")
    ∷ ("lakekeeper/lakekeeper", "https://lakekeeper.github.io/lakekeeper-charts/")
    ∷ ("trino/trino", "https://trinodb.github.io/charts")
    ∷ ("jupyterhub/jupyterhub", "https://jupyterhub.github.io/helm-chart/")
    ∷ ("apache-airflow/airflow", "https://airflow.apache.org")
    ∷ ("superset/superset", "https://apache.github.io/superset")
    ∷ ("openfga/openfga", "https://openfga.github.io/helm-charts")
    ∷ ("external-secrets/external-secrets", "https://charts.external-secrets.io")
    ∷ ("openbao/openbao", "https://openbao.github.io/openbao-helm")
    ∷ ("strimzi/strimzi-kafka-operator", "https://strimzi.io/charts/")
    ∷ ("spark-operator/spark-operator", "https://kubeflow.github.io/spark-operator")
    ∷ []

unfoldable pub chart_version : String → Option String
chart_version chart = get chart chart_versions

unfoldable pub chart_repo : String → Option String
chart_repo chart = get chart chart_repos
