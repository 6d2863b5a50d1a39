-- ===== src/Controller/Deletion.antt =====
-- The deletion of a `Lakehouse`: `delete_lakehouse` and what it calls.
use stardelt_operator.Crd.Status.{LakehouseStatus}
use stardelt_operator.Common.{
  ℕ, String, Bool, true, false, not, Option, none, some, List, [], ◌∷◌, ◌++◌, if◌then◌else◌, ◌==◌,
  nat_eq, string_eq, keep, contains, Result, ok, err, ℤ,
}
use stardelt_operator.Planner.{
  ComponentPlan, StorageImpl, DeletionPolicy, LakehouseSpec, is_seaweedfs, plan_lakehouse,
  chart_version, chart_repo, retain, delete,
}
use stardelt_operator.Helm.{HelmRelease, history_args, uninstall_args, is_owned}
use stardelt_operator.Controller.Cluster.{
  History, KubeError, Cluster, Run, ◌>>>◌, helm, list_volumes, delete_volume, delete_cluster,
  patch_finalizers, api_error, transport_error,
}
pub mod Calls
pub mod Facts
pub mod Uninstall
pub mod Whole
pub mod Over
pub mod Progress
mod Tests

abbrev pub lakehouse_finalizer : String
lakehouse_finalizer = "stardelt.io/lakehouse-deletion"

abbrev pub seaweedfs_volume_selector : String
seaweedfs_volume_selector = "app.kubernetes.io/instance=seaweedfs"

-- `prerequisites::CATALOG_CLUSTER`
abbrev pub catalog_cluster : String
catalog_cluster = "lakekeeper-pg"

-- A resource as the API server returns it; `is_deleted` says that it has a deletion timestamp.
pub record Lakehouse : Type 0 where
  pub name : String
  pub namespace : Option String
  pub is_deleted : Bool
  pub generation : Option ℤ
  pub finalizers : List String
  pub spec : LakehouseSpec
  pub status : Option LakehouseStatus

-- `Action::await_change()` and `Action::requeue(Duration::from_secs(n))`
pub data Action : Type 0 where
  await_change : Action
  requeue : ℕ → Action

abbrev pub release_of : String → ComponentPlan → String → HelmRelease String
release_of namespace c chart = record {
  name = c.name;
  chart = chart;
  repo = chart_repo chart;
  version = chart_version chart;
  namespace = namespace;
  dry_run = false;
  set = [];
  values = none;
}

-- `matches!(answer, Ok(history) if !is_owned(&history))`
unfoldable pub is_foreign : Result String String → Bool
is_foreign (ok history) = not (is_owned history)
is_foreign (err _) = false

-- `Err(kube::Error::Api(e)) if e.code == 404 => Ok(())`
pub ignore_not_found : Result KubeError (Unit {0}) → Result KubeError (Unit {0})
ignore_not_found (ok u) = ok tt
ignore_not_found (err (api_error code)) = if code == 404 then ok tt else err (api_error code)
ignore_not_found (err (transport_error e)) = err (transport_error e)

-- A failure keeps the finalizer, and the next reconcile retries from the top.
abbrev pub or_requeue :
    {E : Type 0}
    → Result E (Unit {0}) × History
    → Run (Result KubeError Action)
    → Result KubeError Action × History
or_requeue (ok _, h) n = n h
or_requeue (err e, h) n = (ok (requeue 30), h)

pub forget : {A : Type 0} → Result String A → Result String (Unit {0})
forget (ok _) = ok tt
forget (err e) = err e

abbrev pub namespace_of : Lakehouse → String
namespace_of lh = elim lh.namespace [ none ↦ "default" | some namespace ↦ namespace ]

unfoldable pub reverse : List ComponentPlan → List ComponentPlan
reverse [] = []
reverse (c ∷ cs) = reverse cs ++ c ∷ []

module _ (k : Cluster) where
  pub delete_one : String → String → Run (Result KubeError (Unit {0}))
  delete_one namespace name h =
      (ignore_not_found (k.on_delete_volume h namespace name), delete_volume namespace name ∷ h)

  pub delete_volumes : String → List String → Run (Result KubeError (Unit {0}))
  delete_volumes namespace [] h = (ok tt, h)
  delete_volumes namespace (name ∷ names) h =
      (delete_one namespace name >>> delete_volumes namespace names) h

  pub delete_listed : String → Result KubeError (List String) → Run (Result KubeError (Unit {0}))
  delete_listed namespace (ok names) h = delete_volumes namespace names h
  delete_listed namespace (err e) h = (err e, h)

  -- The object store's part of `delete_lakehouse_data`: `if delete_object_store`.
  pub delete_store : String → Bool → Run (Result KubeError (Unit {0}))
  delete_store namespace true h =
      delete_listed namespace (k.on_list h namespace seaweedfs_volume_selector)
        (list_volumes namespace seaweedfs_volume_selector ∷ h)
  delete_store namespace false h = (ok tt, h)

  pub delete_catalog : String → Run (Result KubeError (Unit {0}))
  delete_catalog namespace h = (
    ignore_not_found (k.on_delete_cluster h namespace catalog_cluster),
    delete_cluster namespace catalog_cluster ∷ h,
  )

  pub delete_lakehouse_data : String → Bool → Run (Result KubeError (Unit {0}))
  delete_lakehouse_data namespace delete_object_store h =
      (delete_store namespace delete_object_store >>> delete_catalog namespace) h

  pub uninstall : HelmRelease String → Run (Result String (Unit {0}))
  uninstall r h = (forget (k.on_helm h (uninstall_args r) none), helm (uninstall_args r) none ∷ h)

  -- `if foreign { continue; }` before the uninstall.
  pub uninstall_unless : Bool → HelmRelease String → Run (Result String (Unit {0}))
  uninstall_unless true r h = (ok tt, h)
  uninstall_unless false r h = uninstall r h

  -- The body of the loop, for a component with a chart; the history is read when `adopt` is off.
  pub take_down : Bool → HelmRelease String → Run (Result String (Unit {0}))
  take_down true r h = uninstall r h
  take_down false r h =
      uninstall_unless (is_foreign (k.on_helm h (history_args r) none)) r
        (helm (history_args r) none ∷ h)

  -- `let Some(chart) = component.chart else { continue; }`
  pub take_down_chart :
      Bool → String → ComponentPlan → Option String → Run (Result String (Unit {0}))
  take_down_chart adopt namespace c none h = (ok tt, h)
  take_down_chart adopt namespace c (some chart) h =
      take_down adopt (release_of namespace c chart) h

  -- The loop over the plan.
  pub take_down_all : Bool → String → List ComponentPlan → Run (Result String (Unit {0}))
  take_down_all adopt namespace [] h = (ok tt, h)
  take_down_all adopt namespace (c ∷ cs) h =
      (take_down_chart adopt namespace c c.chart >>> take_down_all adopt namespace cs) h

  -- `if !lh.finalizers().iter().any(..)` and the patch.
  unfoldable pub patch_unless : Bool → List String → Run (Result KubeError (Unit {0}))
  patch_unless true finalizers h = (ok tt, h)
  patch_unless false finalizers h = (k.on_patch h finalizers, patch_finalizers finalizers ∷ h)

  pub remove_lakehouse_finalizer : Lakehouse → Run (Result KubeError (Unit {0}))
  remove_lakehouse_finalizer lh h =
      patch_unless (not (contains lh.finalizers lakehouse_finalizer))
        (keep (λ f. not (f == lakehouse_finalizer)) lh.finalizers) h

  unfoldable pub ensure_lakehouse_finalizer : Lakehouse → Run (Result KubeError (Unit {0}))
  ensure_lakehouse_finalizer lh h =
      patch_unless (contains lh.finalizers lakehouse_finalizer)
        (lh.finalizers ++ lakehouse_finalizer ∷ []) h

  -- The end of the deletion: the finalizer, then the action.
  pub release_lakehouse : Lakehouse → Run (Result KubeError Action)
  release_lakehouse lh h = (remove_lakehouse_finalizer lh >>> λ after. (ok await_change, after)) h

  -- `if lh.spec.deletion_policy == DeletionPolicy::Delete`
  pub delete_data : DeletionPolicy → String → StorageImpl → Run (Result KubeError (Unit {0}))
  delete_data delete namespace storage h = delete_lakehouse_data namespace (is_seaweedfs storage) h
  delete_data retain namespace storage h = (ok tt, h)

  pub tear_down : Lakehouse → Run (Result KubeError Action)
  tear_down lh h =
      let namespace = namespace_of lh in
      or_requeue (take_down_all lh.spec.adopt namespace (reverse (plan_lakehouse lh.spec)) h)
        (λ after.
          or_requeue (delete_data lh.spec.deletion_policy namespace lh.spec.storage after)
            (release_lakehouse lh))

  pub delete_lakehouse : Lakehouse → Run (Result KubeError Action)
  delete_lakehouse lh h = if lh.spec.dry_run then release_lakehouse lh h else tear_down lh h
