-- ===== src/Provision/Platform/Ready.antt =====
-- What stands behind a ready status of a step for a `PlatformInstance`.
use stardelt_operator.Provision.{History, Server, Applied, Object, cluster_ready}
use stardelt_operator.Provision.Rules.{Sometime, Did, IsApplied}
use stardelt_operator.Provision.Evidence.{HasDatabase, HasWorkload, HasObjects}
use stardelt_operator.Provision.Platform.{
  Instance, Step, keycloak_pg, nova_pg, kafka_broker, keycloak_workload, pg_dumps, superset_rbac,
  superset_group_roles, airflow_rbac, airflow_group_roles, identity_contract, keycloak_secrets,
  object_of, node_pool, broker, keycloak_objects, wanted_dumps, superset_rbac_objects,
  superset_roles_objects, airflow_rbac_objects, airflow_roles_objects,
}
use stardelt_operator.Provision.Platform.Missing.{AllExist}
use stardelt_operator.Common.{String, ◌≡◌, true, false, some, map, ok}

module _ (k : Server) (s : Instance) where
  abbrev pub Evidence : Step → History → Type 0
  Evidence keycloak_pg b =
      HasDatabase k s.dry_run (object_of k s "prerequisites::keycloak_pg_cluster")
        (object_of k s "prerequisites::keycloak_pg_backup") b
  Evidence nova_pg b =
      HasDatabase k s.dry_run (object_of k s "prerequisites::nova_pg_cluster")
        (object_of k s "prerequisites::nova_pg_backup") b
  Evidence kafka_broker b =
      IsApplied k s.dry_run b (node_pool k s)
      × ((a : Applied) × Sometime k (Did k (broker k s) s.dry_run a) b
          × (cluster_ready a.document ≡ true))
  Evidence keycloak_workload b =
      AllExist k keycloak_secrets b
      × ((realm env : Object) × (s.realm ≡ ok realm)
          × (s.env ≡ ok env)
          × HasWorkload k s.dry_run (keycloak_objects k s realm env)
              (object_of k s "keycloak::deployment") b)
  Evidence pg_dumps b =
      HasObjects k s.dry_run (map (λ (d : String × Object). d.1) (wanted_dumps k s)) b
  Evidence superset_rbac b = HasObjects k s.dry_run (superset_rbac_objects k s) b
  Evidence superset_group_roles b = HasObjects k s.dry_run (superset_roles_objects k s) b
  Evidence airflow_rbac b = HasObjects k s.dry_run (airflow_rbac_objects k s) b
  Evidence airflow_group_roles b = HasObjects k s.dry_run (airflow_roles_objects k s) b
  Evidence identity_contract b =
      (s.dry_run ≡ false)
      × ((contract : Object) × (s.contract ≡ ok (some contract)) × IsApplied k false b contract)
