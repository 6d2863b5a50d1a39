-- ===== src/Secrets/Platform.antt =====
-- The steps of provision.rs that provide credentials, with the Secrets that they ask for.
use stardelt_operator.Crd.Status.{ComponentStatus}
use stardelt_operator.Crd.Status.{}
use stardelt_operator.Planner.{SecretsMode, Pillars, StorageImpl}
use stardelt_operator.Secrets.Generated.{IdentitySecret, ensure_generated_secrets}
use stardelt_operator.Secrets.ObjectStore.{bucket, ensure_s3_secrets}
use stardelt_operator.Secrets.Vault.{ensure_openbao_seal_key, ensure_openbao_init}
use stardelt_operator.Secrets.{World, Outside, gated}
use stardelt_operator.Controller.Apply.{}
use stardelt_operator.Common.{String, Bool, true, false, Option, List, [], ◌∷◌, string_eq}
pub mod Kept
mod Tests

pub data IdentityMode : Type 0 where
  no_identity keycloak external_provider : IdentityMode

-- A Secret with generated keys only.
abbrev generated_secret : String → List String → IdentitySecret
generated_secret name keys_ = record { name = name; fixed = []; generated = keys_; fernet = [] }

-- A user name and a generated password.
abbrev login : String → String → IdentitySecret
login name user = record {
  name = name;
  fixed = ("username", user) ∷ [];
  generated = "password" ∷ [];
  fernet = [];
}

-- `keycloak::IDENTITY_SECRETS`
abbrev pub identity_secrets : List IdentitySecret
identity_secrets =
    login "keycloak-admin" "admin"
    ∷ login "stardelt-realm-admin" "admin"
    ∷ generated_secret "stardelt-oidc-clients" (
        "nova" ∷ "superset" ∷ "airflow" ∷ "jupyterhub" ∷ "trino" ∷ "trino-group-sync"
        ∷ "pipeline-runner" ∷ [])
    ∷ []

-- `airflow::SECRETS`
abbrev pub airflow_secrets : List IdentitySecret
airflow_secrets =
    record { name = "airflow-fernet-key"; fixed = []; generated = []; fernet = "fernet-key" ∷ [] }
    ∷ generated_secret "airflow-webserver-key" ("webserver-secret-key" ∷ "api-secret-key" ∷ [])
    ∷ generated_secret "airflow-jwt-secret" ("jwt-secret" ∷ [])
    ∷ login "airflow-admin" "admin"
    ∷ login "airflow-nova-api" "nova-api"
    ∷ []

-- `superset::SECRETS`
abbrev pub superset_secrets : List IdentitySecret
superset_secrets =
    generated_secret "superset-secret-key" ("secret-key" ∷ []) ∷ login "superset-admin" "admin" ∷ []

-- `nova::SESSION` and `nova::EVENTS`
abbrev pub session : IdentitySecret
session = generated_secret "stardelt-nova-session" ("session" ∷ [])

abbrev pub events : IdentitySecret
events = generated_secret "nova-events" ("token" ∷ [])

-- What the steps read of the two specs.
pub record Setting : Type 0 where
  pub dry_run : Bool
  pub pillars : Pillars
  pub identity : IdentityMode
  pub secrets : SecretsMode
  pub storage : StorageImpl
  pub bucket : Option String
  pub namespace : String

abbrev runs_keycloak : IdentityMode → Bool
runs_keycloak keycloak = true
runs_keycloak external_provider = false
runs_keycloak no_identity = false

module _ (o : Outside) (s : Setting) where
  pub ensure_identity_secrets : World → Option ComponentStatus × World
  ensure_identity_secrets w =
      gated (runs_keycloak s.identity)
        (ensure_generated_secrets o s.dry_run "identity-secrets" identity_secrets w) w

  pub ensure_nova_session : World → Option ComponentStatus × World
  ensure_nova_session w =
      gated s.pillars.lakehouse
        (ensure_generated_secrets o s.dry_run "nova-session" (session ∷ []) w) w

  pub ensure_nova_events : World → Option ComponentStatus × World
  ensure_nova_events w =
      gated s.pillars.lakehouse (ensure_generated_secrets o s.dry_run "nova-events" (events ∷ []) w)
        w

  pub ensure_airflow_secrets : World → Option ComponentStatus × World
  ensure_airflow_secrets w =
      gated s.pillars.pipelines
        (ensure_generated_secrets o s.dry_run "airflow-secrets" airflow_secrets w) w

  pub ensure_superset_secrets : World → Option ComponentStatus × World
  ensure_superset_secrets w =
      gated s.pillars.dashboards
        (ensure_generated_secrets o s.dry_run "superset-secrets" superset_secrets w) w

  pub ensure_s3 : World → Option ComponentStatus × World
  ensure_s3 w = gated true (ensure_s3_secrets o s.dry_run s.namespace s.bucket s.storage w) w

-- The steps of the two reconcilers that provide credentials.
pub data Step : Type 0 where
  airflow superset seal_key store_init identity nova_session nova_events object_store : Step

pub run_step : Outside → Setting → Step → World → Option ComponentStatus × World
run_step o s airflow w = ensure_airflow_secrets o s w
run_step o s superset w = ensure_superset_secrets o s w
run_step o s seal_key w = ensure_openbao_seal_key o s.secrets s.dry_run w
run_step o s store_init w = ensure_openbao_init o s.secrets s.dry_run w
run_step o s identity w = ensure_identity_secrets o s w
run_step o s nova_session w = ensure_nova_session o s w
run_step o s nova_events w = ensure_nova_events o s w
run_step o s object_store w = ensure_s3 o s w

-- Steps one after the other, each with the specs of its time.
abbrev pub run_steps : Outside → List (Setting × Step) → World → World
run_steps o [] w = w
run_steps o ((s, step) ∷ rest) w = run_steps o rest (run_step o s step w).1
