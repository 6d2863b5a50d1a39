-- ===== src/Provision/Lakehouse.antt =====
-- The steps of provision.rs for a `Lakehouse`, and `trino_url` of identity.rs.
use stardelt_operator.Crd.Status.{ComponentStatus}
use stardelt_operator.Planner.{CatalogImpl, StorageImpl, is_seaweedfs, lakekeeper, polaris}
use stardelt_operator.Encoding.{Text}
use stardelt_operator.Secrets.{status, text}
use stardelt_operator.Secrets.ObjectStore.{S3Keys, bucket, s3_endpoint}
use stardelt_operator.Provision.{
  Object, built, Applied, History, Server, Run, ◌>>=◌, ◌>>◌, stop, return, stop_if, only_if,
  at_least_one, unready, was_done, done_by, apply_or, need_store, database, workload,
  objects_applied, run_job,
}
use stardelt_operator.Common.{
  String, Bool, true, false, not, Option, none, some, List, [], ◌∷◌, map, if◌then◌else◌, nat_eq,
  string_eq, Map, bytes, format,
}
pub mod Jobs
pub mod Ready
mod Tests

-- What the steps read of the resource; `profile` is its name, and `previous` are the components of its
-- status.
pub record Target : Type 0 where
  pub name : String
  pub namespace : String
  pub profile : String
  pub dry_run : Bool
  pub catalog : CatalogImpl
  pub storage : StorageImpl
  pub bucket_name : Option String
  pub spark_enabled : Bool
  pub previous : List ComponentStatus

pub data Step : Type 0 where
  catalog_database openfga_database bootstrap notebooks_bucket archive network_policy : Step
  openfga_policy spark : Step
  discovery : Bool → Bool → Step

abbrev pub made : String → List String → Object
made builder args = built builder (map bytes args)

-- `format!("{prefix}-{:08x}", hasher.finish() as u32)`
abbrev job_name : Server → String → List Text → String
job_name k prefix parts = format (prefix ∷ "-" ∷ k.hash parts ∷ [])

abbrev pub bootstrap_job_name : Server → S3Keys → String → String → String
bootstrap_job_name k keys_ bucket endpoint =
    job_name k "lakekeeper-bootstrap" (keys_.access_key ∷ bytes bucket ∷ bytes endpoint ∷ [])

abbrev pub notebooks_bucket_job_name : Server → String → String
notebooks_bucket_job_name k endpoint =
    job_name k "notebooks-bucket" (bytes "notebooks" ∷ bytes endpoint ∷ [])

abbrev pub archive_bucket_job_name : Server → String → String
archive_bucket_job_name k endpoint =
    job_name k "archive-bucket" (bytes "lakehouse-backup" ∷ bytes endpoint ∷ [])

abbrev pub job_of : String → Target → String → Object
job_of builder t job = made builder (t.name ∷ t.namespace ∷ job ∷ [])

pub trino_url : String → Bool → String
trino_url namespace authenticated =
    if authenticated
    then format ("https://trino." ∷ namespace ∷ ".svc.cluster.local:8443" ∷ [])
    else format ("http://trino." ∷ namespace ∷ ".svc.cluster.local:8080" ∷ [])

-- `S3Location`
pub record S3Location : Type 0 where
  pub endpoint : Text
  pub bucket : Text
  pub region : Text

module _ (k : Server) where
  -- `?` on an Option, with what is reported without it.
  abbrev or_stop : {A B : Type 0} → Option A → Run B → (A → Run B) → Run B
  or_stop none m f = m
  or_stop (some a) m f = f a

  pub read_keys : Map Text → Option S3Keys
  read_keys secret = elim (text k.is_utf8 secret "access-key") [
    | none ↦ none
    | some access ↦ elim (text k.is_utf8 secret "secret-key") [
      | none ↦ none
      | some key ↦ some (record { access_key = access; secret_key = key })
    ]
  ]

  pub read_location : Map Text → Option S3Location
  read_location secret = elim (text k.is_utf8 secret "endpoint") [
    | none ↦ none
    | some endpoint ↦ elim (text k.is_utf8 secret "bucket") [
      | none ↦ none
      | some bucket ↦ elim (text k.is_utf8 secret "region") [
        | none ↦ none
        | some region ↦ some (record { endpoint = endpoint; bucket = bucket; region = region })
      ]
    ]
  ]

  module _ (t : Target) where
    abbrev pub catalog_cluster : Object
    catalog_cluster = made "prerequisites::catalog_cluster" (t.name ∷ t.namespace ∷ t.profile ∷ [])

    abbrev pub catalog_backup : Object
    catalog_backup = made "prerequisites::catalog_pg_backup" (t.name ∷ t.namespace ∷ [])

    pub ensure_catalog_database : Run ComponentStatus
    ensure_catalog_database =
        database k "catalog-database" t.dry_run catalog_cluster catalog_backup
          "planned (dry-run): Cluster lakekeeper-pg"

    abbrev pub openfga_cluster : Object
    openfga_cluster = made "prerequisites::openfga_pg_cluster" (t.namespace ∷ [])

    abbrev pub openfga_backup : Object
    openfga_backup = made "prerequisites::openfga_pg_backup" (t.namespace ∷ [])

    pub ensure_openfga_database : Run ComponentStatus
    ensure_openfga_database =
        database k "openfga-database" t.dry_run openfga_cluster openfga_backup
          "planned (dry-run): Cluster openfga-pg"

    abbrev pub bootstrap_job : S3Keys → String
    bootstrap_job keys_ =
        bootstrap_job_name k keys_ (bucket t.bucket_name) (s3_endpoint t.namespace)

    abbrev pub notebooks_job : String
    notebooks_job = notebooks_bucket_job_name k (s3_endpoint t.namespace)

    abbrev pub archive_job : String
    archive_job = archive_bucket_job_name k (s3_endpoint t.namespace)

    pub bootstrap_with : S3Keys → Run ComponentStatus
    bootstrap_with keys_ =
        let job = bootstrap_job keys_ in
        run_job k "lakekeeper-bootstrap" t.previous job
          (job_of "prerequisites::bootstrap_job" t job) "warehouse bootstrapped"
          "bootstrap Job is running"

    pub ensure_bootstrap : Run ComponentStatus
    ensure_bootstrap =
        stop_if t.dry_run (unready "lakekeeper-bootstrap" "planned (dry-run)")
        >> need_store k "lakekeeper-bootstrap"
        >>= λ secret.
            or_stop (read_keys secret)
              (stop (
                unready "lakekeeper-bootstrap"
                  "Secret stardelt-s3-creds lacks access-key or secret-key"))
              bootstrap_with

    pub ensure_notebooks_bucket : History → Option ComponentStatus × History
    ensure_notebooks_bucket =
        let job = notebooks_job in
        only_if (is_seaweedfs t.storage) (
          stop_if t.dry_run (unready "notebooks-bucket" "planned (dry-run)")
          >> need_store k "notebooks-bucket"
          >> run_job k "notebooks-bucket" t.previous job
              (job_of "prerequisites::notebooks_bucket_job" t job) "bucket notebooks is versioned"
              "the bucket Job is running")

    -- The Job of the archive's bucket, unless it is known to have succeeded.
    pub archive_bucket : String → Run (Unit {0})
    archive_bucket job =
        if was_done "object-store-archive" job t.previous
        then return tt
        else (apply_or k "object-store-archive" (job_of "prerequisites::archive_bucket_job" t job)
              false
            >>= λ (applied : Applied).
                stop_if (not (at_least_one applied.succeeded))
                  (unready "object-store-archive" "the archive bucket Job is running"))

    abbrev pub archive_cron : Object
    archive_cron = made "prerequisites::archive_cron_job" (t.namespace ∷ t.name ∷ [])

    pub ensure_archive : History → Option ComponentStatus × History
    ensure_archive =
        let job = archive_job in
        only_if (is_seaweedfs t.storage) (
          stop_if t.dry_run (unready "object-store-archive" "planned (dry-run)")
          >> need_store k "object-store-archive"
          >> archive_bucket job
          >> apply_or k "object-store-archive" archive_cron false
          >> return (
              done_by "object-store-archive" job
                "bucket lakehouse-backup exists; archive runs at 03:15"))

    abbrev pub spark_objects : List Object
    spark_objects =
        map (λ builder. made builder (t.namespace ∷ []))
          ("spark::service_account" ∷ "spark::role" ∷ "spark::role_binding" ∷ "spark::config_map"
            ∷ "spark::service" ∷ [])

    pub ensure_spark : History → Option ComponentStatus × History
    ensure_spark = only_if t.spark_enabled (
        need_store k "spark-connect"
        >> workload k "spark-connect" t.dry_run spark_objects
            (made "spark::deployment" (t.namespace ∷ []))
            "planned (dry-run): Deployment spark-connect")

    abbrev is_lakekeeper : CatalogImpl → Bool
    is_lakekeeper lakekeeper = true
    is_lakekeeper polaris = false

    pub ensure_lakekeeper_network_policy : History → Option ComponentStatus × History
    ensure_lakekeeper_network_policy = only_if (is_lakekeeper t.catalog) (
        objects_applied k "lakekeeper-network-policy" t.dry_run
          (made "network_policy::lakekeeper_ingress" (t.namespace ∷ []) ∷ [])
          "planned (dry-run): NetworkPolicy lakekeeper-ingress" "applied: lakekeeper-ingress")

    pub ensure_openfga_network_policy : History → Option ComponentStatus × History
    ensure_openfga_network_policy = only_if true (
        objects_applied k "openfga-network-policy" t.dry_run
          (made "network_policy::openfga_ingress" (t.namespace ∷ []) ∷ [])
          "planned (dry-run): NetworkPolicy openfga-ingress" "applied: openfga-ingress")

    abbrev pub discovery_of : Bool → S3Location → Object
    discovery_of identity l = built "prerequisites::discovery_config_map" (
        bytes t.name
        ∷ bytes t.namespace
        ∷ l.endpoint
        ∷ l.bucket
        ∷ l.region
        ∷ bytes (trino_url t.namespace identity)
        ∷ [])

    pub discover : Bool → S3Location → Run ComponentStatus
    discover identity l =
        apply_or k "discovery" (discovery_of identity l) false
        >> return
            (status "discovery" true (format ("published ConfigMap " ∷ t.name ∷ "-discovery" ∷ [])))

    pub ensure_discovery : Bool → Bool → Run ComponentStatus
    ensure_discovery bootstrapped identity =
        stop_if t.dry_run (unready "discovery" "planned (dry-run)")
        >> stop_if (not bootstrapped) (unready "discovery" "waiting for the warehouse bootstrap")
        >> need_store k "discovery"
        >>= λ secret.
            or_stop (read_location secret)
              (stop
                (unready "discovery" "Secret stardelt-s3-creds lacks endpoint, bucket or region"))
              (discover identity)

    -- The step of each name, as `reconcile_lakehouse` runs it.
    pub lakehouse_step : Step → History → Option ComponentStatus × History
    lakehouse_step catalog_database h = only_if true ensure_catalog_database h
    lakehouse_step openfga_database h = only_if true ensure_openfga_database h
    lakehouse_step bootstrap h = only_if true ensure_bootstrap h
    lakehouse_step notebooks_bucket h = ensure_notebooks_bucket h
    lakehouse_step archive h = ensure_archive h
    lakehouse_step network_policy h = ensure_lakekeeper_network_policy h
    lakehouse_step openfga_policy h = ensure_openfga_network_policy h
    lakehouse_step spark h = ensure_spark h
    lakehouse_step (discovery bootstrapped identity) h =
        only_if true (ensure_discovery bootstrapped identity) h
