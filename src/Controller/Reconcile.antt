-- ===== src/Controller/Reconcile.antt =====
-- `reconcile_lakehouse` of controller.rs, on the trace of its calls. The steps of provision.rs are asked
-- for by their name, and their statuses are replies.
use stardelt_operator.Crd.Status.{ComponentStatus, Condition, LakehouseStatus}
use stardelt_operator.Planner.{ComponentPlan, StorageImpl, is_seaweedfs, plan_lakehouse}
use stardelt_operator.Controller.Cluster.{
  Provision, Extra, History, KubeError, Cluster, Run, ◌>>>◌, s3_secrets, catalog_database,
  openfga_database, bootstrap, discovery, notebooks_bucket, archive, network_policy, openfga_policy,
  spark, list_lakehouses, read_identity, read_key_material, read_stamp, provide, provide_extra,
  patch_status, ask,
}
use stardelt_operator.Controller.Deletion.{
  Lakehouse, Action, namespace_of, ensure_lakehouse_finalizer, delete_lakehouse, requeue,
}
use stardelt_operator.Controller.Apply.{PlanOutcome, Surroundings, apply_plan, phase}
use stardelt_operator.Controller.Status.{ready_condition, Sibling, blocked_by, release_ready}
use stardelt_operator.Common.{
  String, Bool, true, false, not, ◌&&◌, ◌||◌, Option, none, some, List, [], ◌∷◌, ◌++◌,
  if◌then◌else◌, ◌==◌, string_eq, all, any, keep, format, Result, ok, err,
}
pub mod Steps
pub mod Protocol
pub mod Refinement
pub mod Ownership
pub mod Waiting
pub mod Backing
pub mod Readiness
mod Tests

-- What answers `reconcile_lakehouse` besides Helm and the calls of a `Cluster`, and the clock.
pub record Provisioner : Type 0 where
  pub on_lakehouses : History → String → Result KubeError (List Sibling)
  pub on_identity : History → String → Bool
  pub on_key_material : History → String → Bool
  pub on_stamp : History → String → Option String
  pub on_provide : History → Provision → String → ComponentStatus
  pub on_extra : History → Extra → String → Option ComponentStatus
  pub on_status : History → LakehouseStatus → Result KubeError (Unit {0})
  pub now : History → String

-- What decides which releases wait.
pub record Gates : Type 0 where
  pub dry_run : Bool
  pub identity_contract : Bool
  pub trino_ready : Bool
  pub database_ready : Bool
  pub openfga_ready : Bool

abbrev pub is_wanted : Gates → ComponentPlan → Bool
is_wanted g c = g.dry_run || release_ready c.name g.database_ready g.openfga_ready g.trino_ready

abbrev pub not_ready : String → String → ComponentStatus
not_ready name message = record {
  name = name;
  ready = false;
  message = some message;
  applied_hash = none;
}

abbrev pub push_if : Bool → ComponentStatus → List ComponentStatus
push_if wanted c = if wanted then c ∷ [] else []

-- The statuses of the releases that wait.
pub waiting : Gates → List ComponentStatus
waiting g =
    push_if (not g.dry_run && not g.database_ready)
      (not_ready "lakekeeper" "waiting for the catalog database")
    ++ push_if (not g.dry_run && not g.openfga_ready)
        (not_ready "openfga" "waiting for the permission store's database")
    ++ push_if (g.identity_contract && not g.trino_ready && not g.dry_run) (
        not_ready "trino"
          "waiting for the Trino key material (trino-coordinator-tls, trino-internal-secret, trino-password-db)")

-- `outcome.components.iter().any(|c| c.name == name && c.ready)`
pub is_ready_in : String → List ComponentStatus → Bool
is_ready_in name cs = any (λ (c : ComponentStatus). c.name == name && c.ready) cs

pub charts_ready : StorageImpl → List ComponentStatus → Bool
charts_ready storage cs =
    is_ready_in "lakekeeper" cs && (not (is_seaweedfs storage) || is_ready_in "seaweedfs" cs)

abbrev pub extend : Option ComponentStatus → List ComponentStatus
extend none = []
extend (some c) = c ∷ []

-- `conditions.iter().find(|c| c.type_ == "Ready")`
pub find_ready : List Condition → Option Condition
find_ready [] = none
find_ready (c ∷ cs) = let rest = find_ready cs in if c.type_ == "Ready" then some c else rest

abbrev pub previous_condition : Option LakehouseStatus → Option Condition
previous_condition none = none
previous_condition (some s) = find_ready s.conditions

abbrev pub previous_components : Option LakehouseStatus → List ComponentStatus
previous_components none = []
previous_components (some s) = s.components

pub status_with : Lakehouse → String → String → List ComponentStatus → LakehouseStatus
status_with lh phase now components = record {
  phase = phase;
  conditions = ready_condition phase lh.generation (previous_condition lh.status) now ∷ [];
  observed_generation = lh.generation;
  components = components;
}

pub blocked_status : Lakehouse → String → String → LakehouseStatus
blocked_status lh peer now = status_with lh "Blocked" now (
    not_ready "lakehouse" (
      format
        ("one Lakehouse per namespace in v1alpha1: '" ∷ peer ∷ "' is older (decision D18)" ∷ []))
    ∷ [])

module _ (p : Provisioner) where
  pub patch_lakehouse_status : LakehouseStatus → Run (Result KubeError (Unit {0}))
  patch_lakehouse_status s h = (p.on_status h s, ask (patch_status s) ∷ h)

  pub trino_ready_of : Bool → Bool → String → Run Bool
  trino_ready_of true identity ns h = (true, h)
  trino_ready_of false false ns h = (true, h)
  trino_ready_of false true ns h = (p.on_key_material h ns, ask (read_key_material ns) ∷ h)

  pub stamp_of : Bool → String → Run (Option String)
  stamp_of true ns h = (p.on_stamp h ns, ask (read_stamp ns) ∷ h)
  stamp_of false ns h = (none, h)

  pub ensure : Provision → String → Run ComponentStatus
  ensure step ns h = (p.on_provide h step ns, ask (provide step ns) ∷ h)

  pub ensure_extra : Bool → Extra → String → Run (List ComponentStatus)
  ensure_extra true step ns h = (extend (p.on_extra h step ns), ask (provide_extra step ns) ∷ h)
  ensure_extra false step ns h = ([], h)

  pub bootstrap_if : Bool → String → Run ComponentStatus
  bootstrap_if true ns h = ensure bootstrap ns h
  bootstrap_if false ns h =
      (not_ready "lakekeeper-bootstrap" "waiting for Lakekeeper and SeaweedFS", h)

  -- The steps after the releases, and the components that are reported; `first` are the
  -- prerequisites, `applied` the releases.
  pub complete :
      Gates
      → StorageImpl
      → String
      → List ComponentStatus
      → List ComponentStatus
      → Run (List ComponentStatus)
  complete g storage ns first applied h =
      let is_open = charts_ready storage applied || g.dry_run in
      let (bootstrapped, h1) = bootstrap_if is_open ns h in
      let (bucket, h2) = ensure_extra is_open notebooks_bucket ns h1 in
      let (archived, h3) = ensure_extra is_open archive ns h2 in
      let (policy, h4) = ensure_extra (bootstrapped.ready || g.dry_run) network_policy ns h3 in
      let (store_policy, h5) = ensure_extra true openfga_policy ns h4 in
      let (compute, h6) = ensure_extra true spark ns h5 in
      let (discovered, h7) =
        ensure (discovery bootstrapped.ready (g.identity_contract && g.trino_ready)) ns h6 in
      (
        first
            ++ applied
            ++ bucket
            ++ archived
            ++ policy
            ++ store_policy
            ++ bootstrapped ∷ compute
            ++ discovered ∷ [],
        h7,
      )

  -- The status of an outcome, and the action.
  pub report : Lakehouse → PlanOutcome → Run (Result KubeError Action)
  report lh outcome h =
      (patch_lakehouse_status
            (status_with lh (phase lh.spec.dry_run outcome) (p.now h) outcome.components)
          >>> λ after. (
            ok (
                requeue
                  (if all (λ (c : ComponentStatus). c.ready) outcome.components then 300 else 30)),
            after,
          ))
        h

  -- `if let Some(peer) = blocked_by`
  pub report_blocked : Lakehouse → String → Run (Result KubeError Action)
  report_blocked lh peer h =
      (patch_lakehouse_status (blocked_status lh peer (p.now h)) >>> λ after.
      (ok (requeue 30), after))
        h

module _ {V : Type 0} (k : Cluster) (p : Provisioner)
    (values_for : Bool → Option String → Surroundings V) where
  -- The releases that do not wait, and then the rest of the run.
  pub apply_gated :
      Lakehouse → Gates → Option String → List ComponentStatus → Run (Result KubeError Action)
  apply_gated lh g stamp first h =
      let ns = namespace_of lh in
      let s = values_for (g.identity_contract && g.trino_ready) stamp in
      let (outcome, h1) =
        apply_plan k s lh.spec.adopt (previous_components lh.status) lh.spec.dry_run ns
          (keep (is_wanted g) (plan_lakehouse lh.spec)) h in
      let (components, h2) =
        complete p g lh.spec.storage ns first (outcome.components ++ waiting g) h1 in
      report p lh (record { components = components; values_resolved = outcome.values_resolved }) h2

  -- From where the lakehouse owns the namespace and holds the finalizer.
  pub provision : Lakehouse → Run (Result KubeError Action)
  provision lh h =
      let ns = namespace_of lh in
      let identity = p.on_identity h ns in
      let (trino, h1) = trino_ready_of p lh.spec.dry_run identity ns (ask (read_identity ns) ∷ h) in
      let (stamp, h2) = stamp_of p (identity && trino) ns h1 in
      let (s3, h3) = ensure p s3_secrets ns h2 in
      let (database, h4) = ensure p catalog_database ns h3 in
      let (openfga, h5) = ensure p openfga_database ns h4 in
      apply_gated lh
        (record {
          dry_run = lh.spec.dry_run;
          identity_contract = identity;
          trino_ready = trino;
          database_ready = database.ready;
          openfga_ready = openfga.ready;
        })
        stamp (s3 ∷ openfga ∷ database ∷ []) h5

  pub reconcile_owned : Lakehouse → Option String → Run (Result KubeError Action)
  reconcile_owned lh (some peer) h = report_blocked p lh peer h
  reconcile_owned lh none h = (ensure_lakehouse_finalizer k lh >>> provision lh) h

  pub reconcile_listed : Lakehouse → Result KubeError (List Sibling) → Run (Result KubeError Action)
  reconcile_listed lh (err e) h = (err e, h)
  reconcile_listed lh (ok siblings) h = reconcile_owned lh (blocked_by lh.name siblings) h

  pub reconcile_present : Lakehouse → Run (Result KubeError Action)
  reconcile_present lh h =
      let ns = namespace_of lh in
      reconcile_listed lh (p.on_lakehouses h ns) (ask (list_lakehouses ns) ∷ h)

  pub reconcile_lakehouse : Lakehouse → Run (Result KubeError Action)
  reconcile_lakehouse lh h =
      if lh.is_deleted then delete_lakehouse k lh h else reconcile_present lh h
