-- ===== src/Provision/Platform.antt =====
-- The steps of provision.rs for a `PlatformInstance`. The realm, its environment and the identity
-- contract are built by keycloak.rs and identity.rs from the spec, which may fail; they are fields here.
use stardelt_operator.Crd.Status.{ComponentStatus}
use stardelt_operator.Planner.{Pillars}
use stardelt_operator.Secrets.{status}
use stardelt_operator.Secrets.Platform.{IdentityMode, keycloak, no_identity, external_provider}
use stardelt_operator.Provision.{
  Object, Applied, History, Server, Run, ◌>>=◌, ◌>>◌, stop, return, stop_if, only_if, cluster_ready,
  unready, apply_or, apply_known, database, workload, objects_applied, read_secret, or_status,
}
use stardelt_operator.Provision.Lakehouse.{made}
use stardelt_operator.Common.{
  String, Bool, true, false, not, ◌&&◌, Option, none, some, List, [], ◌∷◌, ◌++◌, map, if◌then◌else◌,
  is_empty, format, Result, ok, err,
}
pub mod Missing
pub mod Ready
mod Tests

pub record Instance : Type 0 where
  pub namespace : String
  pub profile : String
  pub dry_run : Bool
  pub identity : IdentityMode
  pub pillars : Pillars
  pub realm : Result String Object
  pub env : Result String Object
  pub contract : Result String (Option Object)

pub data Step : Type 0 where
  keycloak_pg nova_pg kafka_broker keycloak_workload pg_dumps superset_rbac : Step
  superset_group_roles airflow_rbac airflow_group_roles identity_contract : Step

abbrev pub runs_keycloak : IdentityMode → Bool
runs_keycloak keycloak = true
runs_keycloak no_identity = false
runs_keycloak external_provider = false

abbrev pub signs_in : IdentityMode → Bool
signs_in keycloak = true
signs_in no_identity = false
signs_in external_provider = true

-- `join(", ")`
pub join : List String → String
join [] = ""
join (x ∷ []) = x
join (x ∷ y ∷ ys) = format (x ∷ ", " ∷ join (y ∷ ys) ∷ [])

-- `KEYCLOAK_SECRETS`
abbrev pub keycloak_secrets : List String
keycloak_secrets =
    "keycloak-pg-app" ∷ "keycloak-admin" ∷ "stardelt-realm-admin" ∷ "stardelt-oidc-clients" ∷ []

abbrev unless_there : String → Option {0} (Unit {0}) → List String → List String
unless_there name (some u) missing = missing
unless_there name none missing = name ∷ missing

abbrev or_early : {A : Type 0} → String → Result String A → Run A
or_early name (ok a) = return a
or_early name (err message) = stop (unready name message)

module _ (k : Server) where
  abbrev pub is_there : {A : Type 0} → Option A → Option {0} (Unit {0})
  is_there none = none
  is_there (some a) = some tt

  -- The Secrets of a list that do not exist.
  pub missing_secrets : String → List String → Run (List String)
  missing_secrets step [] h = (ok [], h)
  missing_secrets step (name ∷ names) h =
      ((λ b. (or_status k step (k.on_secret b name), read_secret name ∷ b)) >>= λ found.
      missing_secrets step names >>= λ missing. return (unless_there name (is_there found) missing))
        h

  module _ (s : Instance) where
    abbrev pub object_of : String → Object
    object_of builder = made builder (s.namespace ∷ [])

    pub ensure_keycloak_pg : History → Option ComponentStatus × History
    ensure_keycloak_pg = only_if (runs_keycloak s.identity) (
        database k "keycloak-pg" s.dry_run (object_of "prerequisites::keycloak_pg_cluster")
          (object_of "prerequisites::keycloak_pg_backup") "planned (dry-run): Cluster keycloak-pg")

    pub ensure_nova_pg : History → Option ComponentStatus × History
    ensure_nova_pg = only_if s.pillars.lakehouse (
        database k "nova-pg" s.dry_run (object_of "prerequisites::nova_pg_cluster")
          (object_of "prerequisites::nova_pg_backup") "planned (dry-run): Cluster nova-pg")

    abbrev pub node_pool : Object
    node_pool = made "kafka::node_pool" (s.namespace ∷ s.profile ∷ [])

    abbrev pub broker : Object
    broker = object_of "kafka::broker"

    -- The broker is applied after its node pool, and reported ready also in a dry run.
    pub ensure_kafka_broker : History → Option ComponentStatus × History
    ensure_kafka_broker = only_if s.pillars.streaming (
        apply_known k "kafka" "waiting for Strimzi: CRD kafkanodepools is not installed yet"
          node_pool s.dry_run
        >> apply_known k "kafka" "waiting for Strimzi: CRD kafkas is not installed yet" broker
            s.dry_run
        >>= λ (applied : Applied). return (
            if cluster_ready applied.document
            then status "kafka" true "broker ready"
            else if s.dry_run
            then unready "kafka" "planned (dry-run): Kafka kafka"
            else unready "kafka" "waiting for Kafka to become Ready"))

    abbrev pub keycloak_objects : Object → Object → List Object
    keycloak_objects realm env = realm ∷ env ∷ object_of "keycloak::service" ∷ []

    -- Nothing is applied until every Secret that the Deployment reads exists.
    pub keycloak_run : Run ComponentStatus
    keycloak_run = missing_secrets "keycloak" keycloak_secrets >>= λ missing.
        stop_if (not (is_empty missing))
          (unready "keycloak" (format ("waiting for identity secrets: " ∷ join missing ∷ [])))
        >> or_early "keycloak" s.realm
        >>= λ realm. or_early "keycloak" s.env >>= λ env.
            workload k "keycloak" s.dry_run (keycloak_objects realm env)
              (object_of "keycloak::deployment") "planned (dry-run): Deployment keycloak"

    pub ensure_keycloak : History → Option ComponentStatus × History
    ensure_keycloak = only_if (runs_keycloak s.identity) keycloak_run

    abbrev pub wanted_dumps : List (String × Object)
    wanted_dumps =
        (if s.pillars.dashboards
          then ("superset-pg-dump", object_of "pg_dump::superset_cron_job") ∷ []
          else [])
        ++ (if s.pillars.pipelines
            then ("airflow-pg-dump", object_of "pg_dump::airflow_cron_job") ∷ []
            else [])

    pub ensure_pg_dumps : History → Option ComponentStatus × History
    ensure_pg_dumps =
        let names = join (map (λ (d : String × Object). d.0) wanted_dumps) in
        only_if (s.pillars.lakehouse && not (is_empty wanted_dumps)) (
          objects_applied k "pg-dumps" s.dry_run (map (λ (d : String × Object). d.1) wanted_dumps)
            (format ("planned (dry-run): " ∷ names ∷ [])) (format ("applied: " ∷ names ∷ [])))

    abbrev pub superset_rbac_objects : List Object
    superset_rbac_objects = map object_of (
        "superset::service_account" ∷ "superset::catalog_reader_role"
        ∷ "superset::catalog_reader_binding" ∷ [])

    pub ensure_superset_rbac : History → Option ComponentStatus × History
    ensure_superset_rbac = only_if s.pillars.dashboards (
        objects_applied k "superset-rbac" s.dry_run superset_rbac_objects
          "planned (dry-run): ServiceAccount, Role and RoleBinding superset-group-roles"
          "applied: superset-rbac")

    abbrev pub superset_roles_objects : List Object
    superset_roles_objects =
        map object_of ("superset::group_roles_config_map" ∷ "superset::group_roles_cron_job" ∷ [])

    pub ensure_superset_group_roles : History → Option ComponentStatus × History
    ensure_superset_group_roles = only_if s.pillars.dashboards (
        objects_applied k "superset-group-roles" s.dry_run superset_roles_objects
          "planned (dry-run): ConfigMap and CronJob superset-group-roles"
          "applied: superset-group-roles")

    abbrev pub airflow_rbac_objects : List Object
    airflow_rbac_objects =
        map object_of ("airflow::pipeline_reader_role" ∷ "airflow::pipeline_reader_binding" ∷ [])

    pub ensure_airflow_rbac : History → Option ComponentStatus × History
    ensure_airflow_rbac = only_if s.pillars.pipelines (
        objects_applied k "airflow-rbac" s.dry_run airflow_rbac_objects
          "planned (dry-run): Role and RoleBinding airflow-pipeline-reader"
          "applied: airflow-pipeline-reader")

    abbrev pub airflow_roles_objects : List Object
    airflow_roles_objects = map object_of (
        "airflow::group_roles_service_account" ∷ "airflow::group_roles_config_map"
        ∷ "airflow::group_roles_binding" ∷ "airflow::group_roles_cron_job" ∷ [])

    pub ensure_airflow_group_roles : History → Option ComponentStatus × History
    ensure_airflow_group_roles = only_if s.pillars.pipelines (
        objects_applied k "airflow-group-roles" s.dry_run airflow_roles_objects
          "planned (dry-run): ServiceAccount, ConfigMap, RoleBinding and CronJob airflow-group-roles"
          "applied: airflow-group-roles")

    -- The contract that was built, with what is reported where there is none.
    pub publish : Result String (Option Object) → History → Option ComponentStatus × History
    publish (err message) h = (some (unready "identity" message), h)
    publish (ok none) h = (none, h)
    publish (ok (some config_map)) h =
        only_if true
          (stop_if s.dry_run (unready "identity" "planned (dry-run)")
            >> apply_or k "identity" config_map false
            >> return (status "identity" true "published ConfigMap stardelt-identity"))
          h

    pub ensure_identity : History → Option ComponentStatus × History
    ensure_identity h = if signs_in s.identity then publish s.contract h else (none, h)

    -- The step of each name, as `reconcile_platform` runs it.
    pub platform_step : Step → History → Option ComponentStatus × History
    platform_step keycloak_pg h = ensure_keycloak_pg h
    platform_step nova_pg h = ensure_nova_pg h
    platform_step kafka_broker h = ensure_kafka_broker h
    platform_step keycloak_workload h = ensure_keycloak h
    platform_step pg_dumps h = ensure_pg_dumps h
    platform_step superset_rbac h = ensure_superset_rbac h
    platform_step superset_group_roles h = ensure_superset_group_roles h
    platform_step airflow_rbac h = ensure_airflow_rbac h
    platform_step airflow_group_roles h = ensure_airflow_group_roles h
    platform_step identity_contract h = ensure_identity h
