-- ===== src/Provision/Lakehouse/Jobs.antt =====
-- The steps for a `Lakehouse` that run Jobs, and what stands behind a ready status of each step.
use stardelt_operator.Crd.Status.{ComponentStatus}
use stardelt_operator.Planner.{is_seaweedfs}
use stardelt_operator.Secrets.{status}
use stardelt_operator.Encoding.{Text}
use stardelt_operator.Secrets.ObjectStore.{S3Keys}
use stardelt_operator.Provision.{
  Call, History, Server, Applied, and_then, ◌>>=◌, was_done, stop, stop_if, return, at_least_one,
  unready, apply_or, need_store,
}
use stardelt_operator.Provision.Rules.{
  Yields, Yields-map, and_then-Yields, Sometime, Did, IsApplied, apply_or-Yields, need_store-Yields,
  stop_if-Yields,
}
use stardelt_operator.Provision.Evidence.{
  Proves, HasDatabase, HasWorkload, HasObjects, HasJob, only_if-Proves, run_job-Yields,
}
use stardelt_operator.Provision.Lakehouse.{
  Target, Step, catalog_database, openfga_database, bootstrap, notebooks_bucket, archive,
  network_policy, openfga_policy, spark, discovery, made, job_of, S3Location, or_stop, read_keys,
  catalog_cluster, catalog_backup, openfga_cluster, openfga_backup, bootstrap_job, notebooks_job,
  archive_job, bootstrap_with, ensure_bootstrap, ensure_notebooks_bucket, archive_bucket,
  archive_cron, ensure_archive, spark_objects, discovery_of,
}
use stardelt_operator.Common.{
  String, ◌≡◌, refl, Bool, true, false, not, inl, inr, if◌then◌else◌, arith, Option, none, some, [],
  ◌∷◌, Map,
}

module _ (k : Server) (t : Target) where
  abbrev pub Evidence : Step → History → Type 0
  Evidence catalog_database b = HasDatabase k t.dry_run (catalog_cluster k t) (catalog_backup k t) b
  Evidence openfga_database b = HasDatabase k t.dry_run (openfga_cluster k t) (openfga_backup k t) b
  Evidence bootstrap b =
      (t.dry_run ≡ false)
      × ((keys_ : S3Keys) × HasJob k "lakekeeper-bootstrap" t.previous (bootstrap_job k t keys_)
            (job_of "prerequisites::bootstrap_job" t (bootstrap_job k t keys_)) b)
  Evidence notebooks_bucket b =
      (t.dry_run ≡ false)
      × HasJob k "notebooks-bucket" t.previous (notebooks_job k t)
          (job_of "prerequisites::notebooks_bucket_job" t (notebooks_job k t)) b
  Evidence archive b =
      (t.dry_run ≡ false)
      × HasJob k "object-store-archive" t.previous (archive_job k t)
          (job_of "prerequisites::archive_bucket_job" t (archive_job k t)) b
      × IsApplied k false b (archive_cron k t)
  Evidence network_policy b =
      HasObjects k t.dry_run (made "network_policy::lakekeeper_ingress" (t.namespace ∷ []) ∷ []) b
  Evidence openfga_policy b =
      HasObjects k t.dry_run (made "network_policy::openfga_ingress" (t.namespace ∷ []) ∷ []) b
  Evidence spark b =
      HasWorkload k t.dry_run (spark_objects k t) (made "spark::deployment" (t.namespace ∷ [])) b
  Evidence (discovery bootstrapped identity) b =
      (t.dry_run ≡ false)
      × (bootstrapped ≡ true)
      × ((l : S3Location) × IsApplied k false b (discovery_of k t identity l))

  -- The refusal of a dry run, and then the Secret of the object store.
  gated :
      (name message : String) (h : History)
      → Yields
          (λ (secret : Map Text) b. t.dry_run ≡ false)
          (and_then (stop_if t.dry_run (unready name message) h) (λ u. need_store k name))
  unfolding status
  gated name message h =
      and_then-Yields (λ u b. (t.dry_run ≡ false) × Unit {0})
        (λ (secret : Map Text) b. t.dry_run ≡ false) _ _
        (stop_if-Yields k (λ b. Unit {0}) (λ c b u. tt) t.dry_run (unready name message) h refl tt)
        (λ u b (wet, _). need_store-Yields k (λ b. t.dry_run ≡ false) (λ c b e. e) name b wet)

  pub bootstrap-Yields :
      (h : History) → Yields (Proves (Evidence bootstrap)) (ensure_bootstrap k t h)
  unfolding ensure_bootstrap bootstrap_with status
  bootstrap-Yields h =
      and_then-Yields (λ (secret : Map Text) b. t.dry_run ≡ false) (Proves (Evidence bootstrap)) _ _
        (gated "lakekeeper-bootstrap" "planned (dry-run)" h)
        (λ secret b wet. with_keys (read_keys k secret) b wet)
    where
      with_keys :
          (keys_ : Option S3Keys) (b : History)
          → t.dry_run ≡ false
          → Yields (Proves (Evidence bootstrap)) (
              or_stop k keys_
                (stop (
                  unready "lakekeeper-bootstrap"
                    "Secret stardelt-s3-creds lacks access-key or secret-key"))
                (bootstrap_with k t)
                b)
      with_keys none b wet = refl
      with_keys (some keys_) b wet =
          Yields-map _ (Proves (Evidence bootstrap))
            (λ s b' proof is_ready. (wet, (keys_, proof is_ready))) _
            (run_job-Yields k "lakekeeper-bootstrap" t.previous (bootstrap_job k t keys_)
              (job_of "prerequisites::bootstrap_job" t (bootstrap_job k t keys_)) _ _ b)

  pub notebooks-Yields :
      (h : History) (s : ComponentStatus)
      → (ensure_notebooks_bucket k t h).0 ≡ some s
      → Proves (Evidence notebooks_bucket) s (ensure_notebooks_bucket k t h).1
  unfolding ensure_notebooks_bucket status
  notebooks-Yields h = only_if-Proves (Evidence notebooks_bucket) (is_seaweedfs t.storage) _ h (
      and_then-Yields (λ (secret : Map Text) b. t.dry_run ≡ false)
        (Proves (Evidence notebooks_bucket)) _ _ (gated "notebooks-bucket" "planned (dry-run)" h)
        (λ secret b wet.
          Yields-map _ (Proves (Evidence notebooks_bucket))
            (λ s b' proof is_ready. (wet, proof is_ready)) _
            (run_job-Yields k "notebooks-bucket" t.previous (notebooks_job k t)
              (job_of "prerequisites::notebooks_bucket_job" t (notebooks_job k t)) _ _ b)))

  abbrev ArchiveJob : History → Type 0
  ArchiveJob b =
      HasJob k "object-store-archive" t.previous (archive_job k t)
        (job_of "prerequisites::archive_bucket_job" t (archive_job k t)) b

  archive_bucket-Yields :
      (h : History)
      → t.dry_run ≡ false
      → Yields (λ u b. (t.dry_run ≡ false) × ArchiveJob b) (archive_bucket k t (archive_job k t) h)
  unfolding archive_bucket status
  archive_bucket-Yields h wet =
      decided (was_done "object-store-archive" (archive_job k t) t.previous) refl
    where
      decided :
          (known : Bool)
          → was_done "object-store-archive" (archive_job k t) t.previous ≡ known
          → Yields
              (λ u b. (t.dry_run ≡ false) × ArchiveJob b)
              ((if known
                  then return tt
                  else (apply_or k "object-store-archive"
                        (job_of "prerequisites::archive_bucket_job" t (archive_job k t))
                        false
                      >>= λ (applied : Applied).
                          stop_if
                            (not (at_least_one applied.succeeded))
                            (unready "object-store-archive" "the archive bucket Job is running")))
                h)
      decided true e = (wet, inl e)
      decided false e =
          let o = job_of "prerequisites::archive_bucket_job" t (archive_job k t) in
          and_then-Yields (λ a b. Unit {0} × Sometime k (Did k o false a) b)
            (λ u b. (t.dry_run ≡ false) × ArchiveJob b) _ _
            (apply_or-Yields k (λ b. Unit {0}) (λ c b u. tt) "object-store-archive" o false h tt)
            (λ a b (_, did).
              Yields-map _ (λ u b. (t.dry_run ≡ false) × ArchiveJob b)
                (λ u b (ran, sure). (wet, inr (a, sure, ground arith))) _
                (stop_if-Yields k (λ b. Sometime k (Did k o false a) b) (λ c b x. inr x)
                  (not (at_least_one a.succeeded)) _ b refl did))

  ArchiveJob-grow :
      (c : Call) (b : History)
      → (t.dry_run ≡ false) × ArchiveJob b
      → (t.dry_run ≡ false) × ArchiveJob (c ∷ b)
  ArchiveJob-grow c b (wet, inl known) = (wet, inl known)
  ArchiveJob-grow c b (wet, inr (a, did, done)) = (wet, inr (a, inr did, done))

  pub archive-Yields :
      (h : History) (s : ComponentStatus)
      → (ensure_archive k t h).0 ≡ some s
      → Proves (Evidence archive) s (ensure_archive k t h).1
  unfolding ensure_archive status
  archive-Yields h = only_if-Proves (Evidence archive) (is_seaweedfs t.storage) _ h (
      and_then-Yields
        (λ a b.
          ((t.dry_run ≡ false) × ArchiveJob b) × Sometime k (Did k (archive_cron k t) false a) b)
        (Proves (Evidence archive)) _ _
        (and_then-Yields (λ u b. (t.dry_run ≡ false) × ArchiveJob b)
          (λ a b.
            ((t.dry_run ≡ false) × ArchiveJob b) × Sometime k (Did k (archive_cron k t) false a) b)
          _ _
          (and_then-Yields (λ (secret : Map Text) b. t.dry_run ≡ false)
            (λ u b. (t.dry_run ≡ false) × ArchiveJob b) _ _
            (gated "object-store-archive" "planned (dry-run)" h)
            (λ secret b wet. archive_bucket-Yields b wet))
          (λ u b known.
            apply_or-Yields k (λ b. (t.dry_run ≡ false) × ArchiveJob b) ArchiveJob-grow
              "object-store-archive" (archive_cron k t) false b known))
        (λ a b ((wet, job), did) is_ready. (wet, job, (a, did))))
