-- ===== src/Provision/Lakehouse/Ready.antt =====
-- What stands behind a ready status of a step for a `Lakehouse`.
use stardelt_operator.Crd.Status.{ComponentStatus}
use stardelt_operator.Secrets.{status}
use stardelt_operator.Encoding.{Text}
use stardelt_operator.Provision.{History, Server, Object, stop, unready, objects_applied}
use stardelt_operator.Provision.Rules.{
  Yields, Yields-map, and_then-Yields, Sometime, Did, apply_or-Yields, need_store-Yields,
  stop_if-Yields,
}
use stardelt_operator.Provision.Evidence.{
  Proves, only_if-Proves, database-Yields, workload-Yields, objects_applied-Yields,
}
use stardelt_operator.Provision.Lakehouse.{
  Target, Step, catalog_database, openfga_database, bootstrap, notebooks_bucket, archive,
  network_policy, openfga_policy, spark, discovery, made, S3Location, or_stop, read_location,
  catalog_cluster, catalog_backup, openfga_cluster, openfga_backup, ensure_catalog_database,
  ensure_openfga_database, ensure_bootstrap, spark_objects, ensure_spark,
  ensure_lakekeeper_network_policy, ensure_openfga_network_policy, discovery_of, discover,
  ensure_discovery, lakehouse_step,
}
use stardelt_operator.Provision.Lakehouse.Jobs.{
  Evidence, bootstrap-Yields, notebooks-Yields, archive-Yields,
}
use stardelt_operator.Common.{
  String, ◌≡◌, refl, Bool, true, false, not, arith, Option, none, some, List, [], ◌∷◌, Map,
}

module _ (k : Server) (t : Target) where
  discovery-Yields :
      (bootstrapped identity : Bool) (h : History)
      → Yields
          (Proves (Evidence k t (discovery bootstrapped identity)))
          (ensure_discovery k t bootstrapped identity h)
  unfolding ensure_discovery discover status
  discovery-Yields bootstrapped identity h =
      and_then-Yields (λ (secret : Map Text) b. (t.dry_run ≡ false) × (bootstrapped ≡ true))
        (Proves (Evidence k t (discovery bootstrapped identity))) _ _
        (and_then-Yields (λ u b. (t.dry_run ≡ false) × (bootstrapped ≡ true))
          (λ (secret : Map Text) b. (t.dry_run ≡ false) × (bootstrapped ≡ true)) _ _
          (and_then-Yields (λ u b. (t.dry_run ≡ false) × Unit {0})
            (λ u b. (t.dry_run ≡ false) × (bootstrapped ≡ true)) _ _
            (stop_if-Yields k (λ b. Unit {0}) (λ c b u. tt) t.dry_run _ h refl tt)
            (λ u b (wet, _).
              Yields-map _ (λ u b. (t.dry_run ≡ false) × (bootstrapped ≡ true))
                (λ u b (ran, dry). (dry, ground arith)) _
                (stop_if-Yields k (λ b. t.dry_run ≡ false) (λ c b e. e) (not bootstrapped) _ b refl
                  wet)))
          (λ u b known.
            need_store-Yields k (λ b. (t.dry_run ≡ false) × (bootstrapped ≡ true)) (λ c b e. e)
              "discovery" b known))
        (λ secret b known. located (read_location k secret) b known)
    where
      located :
          (l : Option S3Location) (b : History)
          → (t.dry_run ≡ false) × (bootstrapped ≡ true)
          → Yields (Proves (Evidence k t (discovery bootstrapped identity))) (
              or_stop k l
                (stop
                  (unready "discovery" "Secret stardelt-s3-creds lacks endpoint, bucket or region"))
                (discover k t identity)
                b)
      located none b known = refl
      located (some l) b (wet, ran) =
          and_then-Yields
            (λ a b. Unit {0} × Sometime k (Did k (discovery_of k t identity l) false a) b)
            (Proves (Evidence k t (discovery bootstrapped identity))) _ _
            (apply_or-Yields k (λ b. Unit {0}) (λ c b u. tt) "discovery"
              (discovery_of k t identity l) false b tt)
            (λ a b' (_, did) is_ready. (wet, ran, (l, (a, did))))

  spark-Yields :
      (h : History) (s : ComponentStatus)
      → (ensure_spark k t h).0 ≡ some s
      → Proves (Evidence k t spark) s (ensure_spark k t h).1
  unfolding ensure_spark status
  spark-Yields h = only_if-Proves (Evidence k t spark) t.spark_enabled _ h (
      and_then-Yields (λ (secret : Map Text) b. Unit {0}) (Proves (Evidence k t spark)) _ _
        (need_store-Yields k (λ b. Unit {0}) (λ c b u. tt) "spark-connect" h tt)
        (λ secret b u.
          Yields-map _ (Proves (Evidence k t spark)) (λ st b' proof is_ready. (proof is_ready).1) _
            (workload-Yields k (λ b. Unit {0}) (λ c b u. tt) "spark-connect" t.dry_run
              (spark_objects k t) _ _ b tt)))

  -- A step for a lakehouse reports ready only for no dry run and with its evidence in the trace. A database
  -- was applied and is Ready, and its backup was applied. A Job had succeeded when it was applied, or
  -- an earlier ready status has its name; the archive also has its CronJob applied. Spark's objects were
  -- applied and its Deployment has a replica. A policy was applied. Discovery was published, after the
  -- bootstrap.
  pub lakehouse_step-HasEvidence :
      (step : Step) (h : History) (s : ComponentStatus)
      → (lakehouse_step k t step h).0 ≡ some s
      → s.ready ≡ true
      → Evidence k t step (lakehouse_step k t step h).1
  unfolding lakehouse_step ensure_catalog_database ensure_openfga_database
      ensure_lakekeeper_network_policy ensure_openfga_network_policy
  lakehouse_step-HasEvidence catalog_database h =
      only_if-Proves (Evidence k t catalog_database) true (ensure_catalog_database k t) h (
        database-Yields k "catalog-database" t.dry_run (catalog_cluster k t) (catalog_backup k t)
          "planned (dry-run): Cluster lakekeeper-pg" h)
  lakehouse_step-HasEvidence openfga_database h =
      only_if-Proves (Evidence k t openfga_database) true (ensure_openfga_database k t) h (
        database-Yields k "openfga-database" t.dry_run (openfga_cluster k t) (openfga_backup k t)
          "planned (dry-run): Cluster openfga-pg" h)
  lakehouse_step-HasEvidence bootstrap h =
      only_if-Proves (Evidence k t bootstrap) true (ensure_bootstrap k t) h (bootstrap-Yields k t h)
  lakehouse_step-HasEvidence notebooks_bucket h = notebooks-Yields k t h
  lakehouse_step-HasEvidence archive h = archive-Yields k t h
  lakehouse_step-HasEvidence network_policy h =
      only_if-Proves (Evidence k t network_policy) _ _ h
        (objects_applied-Yields k _ t.dry_run _ _ _ h)
  lakehouse_step-HasEvidence openfga_policy h =
      let policies : List Object = made "network_policy::openfga_ingress" (t.namespace ∷ []) ∷ [] in
      let planned : String = "planned (dry-run): NetworkPolicy openfga-ingress" in
      only_if-Proves (Evidence k t openfga_policy) true
        (objects_applied k "openfga-network-policy" t.dry_run policies planned
          "applied: openfga-ingress")
        h
        (objects_applied-Yields k "openfga-network-policy" t.dry_run policies planned
          "applied: openfga-ingress" h)
  lakehouse_step-HasEvidence spark h = spark-Yields h
  lakehouse_step-HasEvidence (discovery bootstrapped identity) h =
      only_if-Proves (Evidence k t (discovery bootstrapped identity)) true
        (ensure_discovery k t bootstrapped identity) h (discovery-Yields bootstrapped identity h)
