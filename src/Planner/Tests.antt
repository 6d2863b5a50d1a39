-- ===== src/Planner/Tests.antt =====
-- Plans of concrete resources.
use stardelt_operator.Common.{◌≡◌, refl, true, false, [], ◌∷◌, map, string_eq}
use stardelt_operator.Planner.{
  ComponentPlan, PlatformInstanceSpec, seaweedfs, retain, LakehouseSpec, plan_platform, platform,
  polaris,
}
use stardelt_operator.Planner.Order.{}

abbrev streaming_platform : PlatformInstanceSpec
streaming_platform = record {
  secrets_mode = platform;
  pillars = record {
    lakehouse = true;
    batch = false;
    notebooks = false;
    pipelines = true;
    dashboards = false;
    streaming = true;
    ml = false;
  };
}

abbrev polaris_lake : LakehouseSpec
polaris_lake = record {
  catalog = polaris;
  storage = seaweedfs;
  dry_run = false;
  adopt = false;
  deletion_policy = retain;
}

the_platform_is_planned :
    map (λ (c : ComponentPlan). c.name) (plan_platform streaming_platform)
    ≡ "cnpg" ∷ "external-secrets" ∷ "openbao" ∷ "airflow" ∷ "kafka" ∷ "spark-operator" ∷ []
unfolding plan_platform
the_platform_is_planned = refl
