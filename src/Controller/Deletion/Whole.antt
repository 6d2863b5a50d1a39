-- ===== src/Controller/Deletion/Whole.antt =====
-- The whole deletion of a lakehouse: why each of its calls is made.
use stardelt_operator.Common.{
  String, ◌≡◌, refl, subst, ◌⊎◌, inl, inr, Bool, true, false, not, none, List, ◌∷◌, ◌==◌, string_eq,
  if_rule, keep, contains, Result, ok, err,
}
use stardelt_operator.Planner.{DeletionPolicy, is_seaweedfs, plan_lakehouse, retain, delete}
use stardelt_operator.Helm.{HelmRelease, args, history_args, uninstall_args}
use stardelt_operator.Controller.Cluster.{
  Call, History, KubeError, Cluster, Throughout, Run, continue_rule, helm, list_volumes,
  delete_volume, delete_cluster, patch_finalizers, count_workloads, ask,
}
use stardelt_operator.Controller.Deletion.{
  lakehouse_finalizer, seaweedfs_volume_selector, catalog_cluster, Lakehouse, Action, await_change,
  requeue, is_foreign, or_requeue, namespace_of, reverse, delete_store, delete_catalog,
  delete_lakehouse_data, take_down_all, patch_unless, remove_lakehouse_finalizer, release_lakehouse,
  delete_data, tear_down, delete_lakehouse,
}
use stardelt_operator.Controller.Deletion.Facts.{
  Sometime, Checked, AllSettled, DropsCatalog, AllSettled-grow, AllSettled-reverse,
}
use stardelt_operator.Controller.Deletion.Calls.{delete_lakehouse_data-keeps}
use stardelt_operator.Controller.Deletion.Uninstall.{take_down_all-keeps, take_down_all-AllSettled}

or_requeue_rule :
    {E : Type 0} (Q : Result KubeError Action × History → Type 0)
    (r : Result E (Unit {0}) × History) (n : Run (Result KubeError Action))
    → (r.0 ≡ ok tt → Q (n r.1))
    → (Q (ok (requeue 30), r.1))
    → Q (or_requeue r n)
or_requeue_rule Q (ok u, h) n f g = f refl
or_requeue_rule Q (err e, h) n f g = g

module _ (k : Cluster) (lh : Lakehouse) where
  -- Every planned release is settled.
  abbrev pub ReleasesSettled : History → Type 0
  ReleasesSettled b = AllSettled k (namespace_of lh) (plan_lakehouse lh.spec) b

  -- Data may go: no dry run, the policy deletes, and every planned release is settled.
  abbrev pub IsDue : String → History → Type 0
  IsDue ns b =
      (lh.spec.dry_run ≡ false)
      × (lh.spec.deletion_policy ≡ delete)
      × (ns ≡ namespace_of lh)
      × ReleasesSettled b

  -- The resource may go: nothing was applied, or the releases are settled and the data is gone
  -- where the policy deletes it.
  abbrev pub IsDone : History → Type 0
  IsDone b =
      (lh.spec.dry_run ≡ true)
      ⊎ (ReleasesSettled b
          × (lh.spec.deletion_policy ≡ delete → Sometime (DropsCatalog k (namespace_of lh)) b))

  abbrev pub MayRemove : List String → History → Type 0
  MayRemove args b =
      (r : HelmRelease String) → args ≡ uninstall_args r → (lh.spec.adopt ≡ true) ⊎ Checked k r b

  abbrev pub IsJustified : Call → History → Type 0
  IsJustified (helm args stdin) b = (lh.spec.dry_run ≡ false) × MayRemove args b
  IsJustified (list_volumes ns label) b =
      IsDue ns b × (is_seaweedfs lh.spec.storage ≡ true) × (label ≡ seaweedfs_volume_selector)
  IsJustified (delete_volume ns name) b = IsDue ns b × (is_seaweedfs lh.spec.storage ≡ true)
  IsJustified (delete_cluster ns name) b = IsDue ns b × (name ≡ catalog_cluster)
  IsJustified (patch_finalizers left) b =
      (left ≡ keep (λ f. not (f == lakehouse_finalizer)) lh.finalizers) × IsDone b
  IsJustified (count_workloads ns name) b = ⊥
  IsJustified (ask r) b = ⊥

  history-MayRemove : (r : HelmRelease String) (b : History) → MayRemove (history_args r) b
  unfolding history_args uninstall_args
  history-MayRemove r b s e = cc

  uninstall-MayRemove :
      (r : HelmRelease String) (b : History)
      → (lh.spec.adopt ≡ true) ⊎ Checked k r b
      → MayRemove (uninstall_args r) b
  unfolding history_args uninstall_args
  uninstall-MayRemove r b q s e = elim q [
    | inl adopt ↦ inl adopt
    | inr (older, same, mine) ↦
        let swap : history_args r ≡ history_args s = cc in
        inr (
          older,
          subst (λ x. b ≡ helm x none ∷ older) swap same,
          subst (λ x. is_foreign (k.on_helm older x none) ≡ false) swap mine,
        )
  ]

  remove_finalizer-keeps :
      (missing : Bool) (h : History)
      → IsDone h
      → Throughout IsJustified h
      → Throughout IsJustified
          (patch_unless k missing (keep (λ f. not (f == lakehouse_finalizer)) lh.finalizers) h).1
  unfolding patch_unless
  remove_finalizer-keeps true h d t = t
  remove_finalizer-keeps false h d t = ((refl, d), t)

  release_lakehouse-keeps :
      (h : History)
      → IsDone h
      → Throughout IsJustified h
      → Throughout IsJustified (release_lakehouse k lh h).1
  unfolding release_lakehouse remove_lakehouse_finalizer
  release_lakehouse-keeps h d t =
      let removed =
        remove_finalizer-keeps (not (contains lh.finalizers lakehouse_finalizer)) h d t in
      continue_rule (λ r. Throughout IsJustified r.1) (remove_lakehouse_finalizer k lh h)
        (λ after. (ok await_change, after)) (λ done. removed) (λ e failed. removed)

  take_down_keeps :
      (h : History)
      → lh.spec.dry_run ≡ false
      → Throughout IsJustified h
      → Throughout IsJustified
          (take_down_all k lh.spec.adopt (namespace_of lh) (reverse (plan_lakehouse lh.spec)) h).1
  take_down_keeps h wet t =
      take_down_all-keeps k (Throughout IsJustified) lh.spec.adopt
        (λ r b s. ((wet, history-MayRemove r b), s))
        (λ r b q s. ((wet, uninstall-MayRemove r b q), s)) (namespace_of lh)
        (reverse (plan_lakehouse lh.spec)) h t

  data-keeps :
      (policy : DeletionPolicy) (h : History)
      → lh.spec.deletion_policy ≡ policy
      → lh.spec.dry_run ≡ false
      → Throughout IsJustified h × ReleasesSettled h
      → Throughout IsJustified (delete_data k policy (namespace_of lh) lh.spec.storage h).1
        × ReleasesSettled (delete_data k policy (namespace_of lh) lh.spec.storage h).1
  unfolding delete_data
  data-keeps retain h e wet t = t
  data-keeps delete h e wet t =
      let grow = AllSettled-grow k (namespace_of lh) (plan_lakehouse lh.spec) in
      delete_lakehouse_data-keeps k (λ b. Throughout IsJustified b × ReleasesSettled b)
        (namespace_of lh) (is_seaweedfs lh.spec.storage) h
        (λ b s. (
          (((wet, e, refl, s.1), refl), s.0),
          grow (delete_cluster (namespace_of lh) catalog_cluster) b s.1,
        ))
        (λ ours b s. (
          (((wet, e, refl, s.1), ours, refl), s.0),
          grow (list_volumes (namespace_of lh) seaweedfs_volume_selector) b s.1,
        ))
        (λ ours name b s.
          ((((wet, e, refl, s.1), ours), s.0), grow (delete_volume (namespace_of lh) name) b s.1))
        t

  delete_lakehouse_data_drops :
      (ns : String) (store : Bool) (h : History)
      → (delete_lakehouse_data k ns store h).0 ≡ ok tt
      → Sometime (DropsCatalog k ns) (delete_lakehouse_data k ns store h).1
  unfolding delete_lakehouse_data delete_catalog
  delete_lakehouse_data_drops ns store h =
      continue_rule (λ r. r.0 ≡ ok tt → Sometime (DropsCatalog k ns) r.1)
        (delete_store k ns store h) (delete_catalog k ns) (λ first done. inl (refl, done))
        (λ e failed done. cc)

  data_drops :
      (policy : DeletionPolicy) (h : History)
      → (delete_data k policy (namespace_of lh) lh.spec.storage h).0 ≡ ok tt
      → policy ≡ delete
      → Sometime
          (DropsCatalog k (namespace_of lh))
          (delete_data k policy (namespace_of lh) lh.spec.storage h).1
  unfolding delete_data
  data_drops delete h done e =
      delete_lakehouse_data_drops (namespace_of lh) (is_seaweedfs lh.spec.storage) h done
  data_drops retain h done e = cc

  -- A property of the trace and the answer that a deletion establishes, from what its end needs.
  pub tear_down_rule :
      (Q : Result KubeError Action × History → Type 0) (h : History)
      → lh.spec.dry_run ≡ false
      → Throughout IsJustified h
      → ((b : History) → Throughout IsJustified b → Q (ok (requeue 30), b))
      → ((b : History) → Throughout IsJustified b → IsDone b → Q (release_lakehouse k lh b))
      → Q (tear_down k lh h)
  unfolding tear_down
  tear_down_rule Q h wet t again done =
      let ns = namespace_of lh in
      let plan = reverse (plan_lakehouse lh.spec) in
      let gone = take_down_all k lh.spec.adopt ns plan h in
      let kept = take_down_keeps h wet t in
      let erased = delete_data k lh.spec.deletion_policy ns lh.spec.storage gone.1 in
      or_requeue_rule Q gone
        (λ after.
          or_requeue (delete_data k lh.spec.deletion_policy ns lh.spec.storage after)
            (release_lakehouse k lh))
        (λ over.
          let settled =
            AllSettled-reverse k ns gone.1 (plan_lakehouse lh.spec)
              (take_down_all-AllSettled k lh.spec.adopt ns plan h over) in
          let (calls, still) = data-keeps lh.spec.deletion_policy gone.1 refl wet (kept, settled) in
          or_requeue_rule Q erased (release_lakehouse k lh)
            (λ dropped.
              done erased.1 calls (inr (still, data_drops lh.spec.deletion_policy gone.1 dropped)))
            (again erased.1 calls))
        (again gone.1 kept)

  -- Each call of a deletion is justified where it is made. Helm is run for no dry run, and it
  -- uninstalls a release only when the lakehouse adopts releases or the call before read a history
  -- that shows no other owner. Volumes and the catalog's cluster are deleted only under the Delete
  -- policy, in the lakehouse's namespace, after every planned release is settled, and volumes only
  -- where the storage is SeaweedFS. The finalizers are patched to those left without the deletion's,
  -- for a dry run, or once every release is settled and, under the Delete policy, the cluster is gone.
  pub delete_lakehouse-IsJustified :
      (h : History) → Throughout IsJustified h → Throughout IsJustified (delete_lakehouse k lh h).1
  unfolding delete_lakehouse
  delete_lakehouse-IsJustified h t =
      if_rule (λ r. Throughout IsJustified r.1) lh.spec.dry_run (release_lakehouse k lh h)
        (tear_down k lh h) (λ dry. release_lakehouse-keeps h (inl dry) t)
        (λ wet.
          tear_down_rule (λ r. Throughout IsJustified r.1) h wet t (λ b s. s)
            (λ b s d. release_lakehouse-keeps b d s))
