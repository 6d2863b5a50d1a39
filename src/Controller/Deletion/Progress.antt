-- ===== src/Controller/Deletion/Progress.antt =====
-- When the deletion of a lakehouse ends.
use stardelt_operator.Common.{
  String, ◌≡◌, refl, Bool, true, false, not, Option, none, some, List, [], ◌∷◌, ◌==◌, string_eq,
  if_rule, keep, contains, Result, ok, err,
}
use stardelt_operator.Planner.{
  ComponentPlan, StorageImpl, DeletionPolicy, is_seaweedfs, plan_lakehouse, retain, delete,
}
use stardelt_operator.Helm.{HelmRelease, history_args, uninstall_args}
use stardelt_operator.Controller.Cluster.{
  History, KubeError, Cluster, Run, continue_rule, helm, list_volumes, delete_volume,
}
use stardelt_operator.Controller.Deletion.{
  lakehouse_finalizer, seaweedfs_volume_selector, catalog_cluster, Lakehouse, Action, await_change,
  release_of, is_foreign, ignore_not_found, or_requeue, forget, namespace_of, reverse, delete_one,
  delete_volumes, delete_listed, delete_store, delete_catalog, delete_lakehouse_data, uninstall,
  uninstall_unless, take_down, take_down_chart, take_down_all, patch_unless,
  remove_lakehouse_finalizer, release_lakehouse, delete_data, tear_down, delete_lakehouse,
}

-- A cluster that does what it is asked: Helm succeeds, and the API server answers a deletion with
-- success or 404 and accepts the patch.
pub record IsCooperative (k : Cluster) : Type 0 where
  pub helm_works :
      (h : History) (r : HelmRelease String) → forget (k.on_helm h (uninstall_args r) none) ≡ ok tt
  pub lists :
      (h : History) (ns label : String) → (names : List String) × (k.on_list h ns label ≡ ok names)
  pub drops_volumes :
      (h : History) (ns name : String) → ignore_not_found (k.on_delete_volume h ns name) ≡ ok tt
  pub drops_cluster :
      (h : History) (ns name : String) → ignore_not_found (k.on_delete_cluster h ns name) ≡ ok tt
  pub patches : (h : History) (left : List String) → k.on_patch h left ≡ ok tt

module _ (k : Cluster) (good : IsCooperative k) where
  uninstall_unless_works :
      (foreign : Bool) (r : HelmRelease String) (h : History)
      → (uninstall_unless k foreign r h).0 ≡ ok tt
  unfolding uninstall_unless uninstall
  uninstall_unless_works true r h = refl
  uninstall_unless_works false r h = good.helm_works h r

  patch_unless_works :
      (skip : Bool) (left : List String) (h : History) → (patch_unless k skip left h).0 ≡ ok tt
  unfolding patch_unless
  patch_unless_works true left h = refl
  patch_unless_works false left h = good.patches h left

  or_requeue_works :
      {E : Type 0} (r : Result E (Unit {0}) × History) (n : Run (Result KubeError Action))
      → r.0 ≡ ok tt
      → (n r.1).0 ≡ ok await_change
      → (or_requeue r n).0 ≡ ok await_change
  or_requeue_works (ok u, h) n e f = f
  or_requeue_works (err x, h) n e f = cc

  take_down_chart_works :
      (adopt : Bool) (ns : String) (c : ComponentPlan) (chart : Option String) (h : History)
      → (take_down_chart k adopt ns c chart h).0 ≡ ok tt
  unfolding take_down_chart take_down uninstall
  take_down_chart_works adopt ns c none h = refl
  take_down_chart_works true ns c (some chart) h = good.helm_works h (release_of ns c chart)
  take_down_chart_works false ns c (some chart) h =
      uninstall_unless_works (is_foreign (k.on_helm h (history_args (release_of ns c chart)) none))
        (release_of ns c chart) (helm (history_args (release_of ns c chart)) none ∷ h)

  take_down_all_works :
      (adopt : Bool) (ns : String) (cs : List ComponentPlan) (h : History)
      → (take_down_all k adopt ns cs h).0 ≡ ok tt
  unfolding take_down_all
  take_down_all_works adopt ns [] h = refl
  take_down_all_works adopt ns (c ∷ cs) h =
      continue_rule (λ r. r.0 ≡ ok tt) (take_down_chart k adopt ns c c.chart h)
        (take_down_all k adopt ns cs)
        (λ done. take_down_all_works adopt ns cs (take_down_chart k adopt ns c c.chart h).1)
        (λ e failed. let fine = take_down_chart_works adopt ns c c.chart h in cc)

  delete_volumes_works :
      (ns : String) (names : List String) (h : History) → (delete_volumes k ns names h).0 ≡ ok tt
  unfolding delete_volumes delete_one
  delete_volumes_works ns [] h = refl
  delete_volumes_works ns (name ∷ names) h =
      continue_rule (λ r. r.0 ≡ ok tt) (delete_one k ns name h) (delete_volumes k ns names)
        (λ done. delete_volumes_works ns names (delete_volume ns name ∷ h))
        (λ e failed. let fine = good.drops_volumes h ns name in cc)

  delete_store_works :
      (ns : String) (store : Bool) (h : History) → (delete_store k ns store h).0 ≡ ok tt
  unfolding delete_store delete_listed
  delete_store_works ns false h = refl
  delete_store_works ns true h =
      let (names, listed) = good.lists h ns seaweedfs_volume_selector in
      rw listed (delete_volumes_works ns names (list_volumes ns seaweedfs_volume_selector ∷ h))

  delete_data_works :
      (policy : DeletionPolicy) (ns : String) (storage : StorageImpl) (h : History)
      → (delete_data k policy ns storage h).0 ≡ ok tt
  unfolding delete_data delete_lakehouse_data delete_catalog
  delete_data_works retain ns storage h = refl
  delete_data_works delete ns storage h =
      continue_rule (λ r. r.0 ≡ ok tt) (delete_store k ns (is_seaweedfs storage) h)
        (delete_catalog k ns)
        (λ done.
          good.drops_cluster (delete_store k ns (is_seaweedfs storage) h).1 ns catalog_cluster)
        (λ e failed. let fine = delete_store_works ns (is_seaweedfs storage) h in cc)

  release_lakehouse_works :
      (lh : Lakehouse) (h : History) → (release_lakehouse k lh h).0 ≡ ok await_change
  unfolding release_lakehouse remove_lakehouse_finalizer
  release_lakehouse_works lh h =
      continue_rule (λ r. r.0 ≡ ok await_change) (remove_lakehouse_finalizer k lh h)
        (λ after. (ok await_change, after)) (λ done. refl)
        (λ e failed.
          let fine =
            patch_unless_works (not (contains lh.finalizers lakehouse_finalizer))
              (keep (λ f. not (f == lakehouse_finalizer)) lh.finalizers) h in
          cc)

  -- When Helm carries out every uninstall and the API server lists volumes, answers each deletion
  -- with success or 404 and accepts the patch, a deletion asks for no retry, for any lakehouse and
  -- from any trace.
  pub deletion_ends : (lh : Lakehouse) (h : History) → (delete_lakehouse k lh h).0 ≡ ok await_change
  unfolding delete_lakehouse tear_down
  deletion_ends lh h =
      let ns = namespace_of lh in
      let plan = reverse (plan_lakehouse lh.spec) in
      let gone = take_down_all k lh.spec.adopt ns plan h in
      let erased = delete_data k lh.spec.deletion_policy ns lh.spec.storage gone.1 in
      if_rule (λ r. r.0 ≡ ok await_change) lh.spec.dry_run (release_lakehouse k lh h)
        (tear_down k lh h) (λ dry. release_lakehouse_works lh h)
        (λ wet.
          or_requeue_works gone
            (λ after.
              or_requeue (delete_data k lh.spec.deletion_policy ns lh.spec.storage after)
                (release_lakehouse k lh))
            (take_down_all_works lh.spec.adopt ns plan h)
            (or_requeue_works erased (release_lakehouse k lh)
              (delete_data_works lh.spec.deletion_policy ns lh.spec.storage gone.1)
              (release_lakehouse_works lh erased.1)))
