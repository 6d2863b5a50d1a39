-- ===== src/Provision/Platform/Tests.antt =====
-- Keycloak, on a server that has its Secrets and a running Deployment.
use stardelt_operator.Crd.Status.{ComponentStatus}
use stardelt_operator.Values.{null}
use stardelt_operator.Secrets.Platform.{keycloak}
use stardelt_operator.Provision.{Server, built}
use stardelt_operator.Provision.Platform.{Instance}
use stardelt_operator.Common.{true, false, none, some, [], ok, pos}

abbrev server : Server
server = record {
  on_apply = λ h o dry_run.
      ok (record { document = null; succeeded = none; available_replicas = some (pos 2) });
  on_secret = λ h name. ok (some []);
  show_error = λ e. "failed";
  is_utf8 = λ text. true;
  hash = λ parts. "0000002a";
}

abbrev platform : Instance
platform = record {
  namespace = "stardelt";
  profile = "demo";
  dry_run = false;
  identity = keycloak;
  pillars = record {
    lakehouse = true;
    batch = false;
    notebooks = false;
    pipelines = false;
    dashboards = true;
    streaming = false;
    ml = false;
  };
  realm = ok (built "keycloak::realm_config_map" []);
  env = ok (built "keycloak::env_config_map" []);
  contract = ok none;
}

abbrev running : ComponentStatus
running = record { name = "keycloak"; ready = true; message = some "running"; applied_hash = none }
