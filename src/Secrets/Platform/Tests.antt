-- ===== src/Secrets/Platform/Tests.antt =====
-- Steps over a small store, with calls that fail and answers that are lost.
use stardelt_operator.Planner.{platform, seaweedfs}
use stardelt_operator.Secrets.Store.{value_at}
use stardelt_operator.Secrets.Platform.Kept.{credentials_are_kept, dry_step_writes_nothing}
use stardelt_operator.Secrets.Platform.{
  Setting, Step, airflow, run_step, run_steps, keycloak, seal_key, object_store,
}
use stardelt_operator.Secrets.{World, done, fails, is_lost, not_json, Outside}
use stardelt_operator.Controller.Cluster.{api_error}
use stardelt_operator.Common.{
  ◌≡◌, refl, Bool, true, false, none, some, List, [], ◌∷◌, ◌++◌, if◌then◌else◌, ◌==◌, nat_eq,
  string_eq, get, ok,
}

abbrev outside : Outside
outside = record {
  fate = λ n.
      if n == 3 then fails (api_error 500) else if n == 5 then is_lost (api_error 504) else done;
  random = λ n size. ok (n ∷ 2 ∷ []);
  show_error = λ e. "failed";
  show_number = λ n. "some";
  init_reply = λ n. not_json "no store";
  is_utf8 = λ t. true;
  show_identities = λ a b. a ++ b;
}

abbrev setting : Bool → Setting
setting dry_run = record {
  dry_run = dry_run;
  pillars = record {
    lakehouse = true;
    batch = true;
    notebooks = false;
    pipelines = true;
    dashboards = false;
    streaming = false;
    ml = false;
  };
  identity = keycloak;
  secrets = platform;
  storage = seaweedfs;
  bucket = none;
  namespace = "stardelt";
}

abbrev start : World
start = record { secrets = ("airflow-admin", ("password", 7 ∷ []) ∷ []) ∷ []; calls = 0 }

abbrev steps : List (Setting × Step)
steps =
    (setting false, airflow)
    ∷ (setting true, seal_key)
    ∷ (setting false, object_store)
    ∷ (setting false, airflow)
    ∷ []

credentials_are_kept_example :
    value_at (run_steps outside steps start) "airflow-admin" "password" ≡ some (7 ∷ [])
unfolding get
credentials_are_kept_example =
    credentials_are_kept outside steps start "airflow-admin" "password" (7 ∷ []) refl

dry_step_writes_nothing_example :
    (run_step outside (setting true) airflow start).1.secrets ≡ start.secrets
dry_step_writes_nothing_example = dry_step_writes_nothing outside (setting true) airflow start refl
