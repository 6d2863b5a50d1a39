-- ===== src/Controller/Reconcile/Readiness.antt =====
-- What stands behind the phase Ready of a lakehouse: the whole of `reconcile_lakehouse`.
use stardelt_operator.Planner.{}
use stardelt_operator.Controller.Cluster.{
  Call, History, KubeError, Cluster, Throughout, continue_rule, list_lakehouses, patch_status, helm,
  list_volumes, delete_volume, delete_cluster, patch_finalizers, count_workloads, ask,
}
use stardelt_operator.Controller.Deletion.{
  lakehouse_finalizer, Lakehouse, Action, namespace_of, patch_unless, ensure_lakehouse_finalizer,
  delete_lakehouse,
}
use stardelt_operator.Controller.Deletion.Facts.{Throughout-map}
use stardelt_operator.Controller.Deletion.Whole.{IsJustified, delete_lakehouse-IsJustified}
use stardelt_operator.Controller.Apply.{Surroundings}
use stardelt_operator.Controller.Status.{Sibling, blocked_by}
use stardelt_operator.Controller.Reconcile.{
  Provisioner, status_with, blocked_status, patch_lakehouse_status, report_blocked, provision,
  reconcile_owned, reconcile_listed, reconcile_present, reconcile_lakehouse,
}
use stardelt_operator.Controller.Reconcile.Backing.{TellsTruth, True, provision-True}
use stardelt_operator.Common.{
  String, Bool, true, false, eq_iff, Option, none, some, List, [], ◌∷◌, ◌++◌, nat_eq, string_eq,
  if_rule, contains, Result, ok, err,
}

module _ {V : Type 0} (k : Cluster) (p : Provisioner)
    (values_for : Bool → Option String → Surroundings V) (lh : Lakehouse) where
  abbrev Told : History → Type 0
  Told b = True k p values_for lh b

  ensure_finalizer-Told : (h : History) → Told h → Told (ensure_lakehouse_finalizer k lh h).1
  unfolding ensure_lakehouse_finalizer patch_unless
  ensure_finalizer-Told h t = patched (contains lh.finalizers lakehouse_finalizer)
    where
      patched :
          (there : Bool)
          → Told (patch_unless k there (lh.finalizers ++ lakehouse_finalizer ∷ []) h).1
      patched true = t
      patched false = (tt, t)

  owned-Told :
      (peer : Option String) (h : History)
      → Told h
      → Told (reconcile_owned k p values_for lh peer h).1
  unfolding reconcile_owned report_blocked patch_lakehouse_status blocked_status status_with
  owned-Told none h t =
      let held = ensure_finalizer-Told h t in
      continue_rule (λ r. Told r.1) (ensure_lakehouse_finalizer k lh h)
        (provision k p values_for lh) (λ done. provision-True k p values_for lh _ held)
        (λ e failed. held)
  owned-Told (some peer) h t =
      let s = blocked_status lh peer (p.now h) in
      let told : Told (ask (patch_status s) ∷ h) =
        (λ e. let no = (eq_iff "Blocked" "Ready").1 e in cc, t) in
      continue_rule (λ r. Told r.1) (patch_lakehouse_status p s h) _ (λ done. told)
        (λ e failed. told)

  listed-Told :
      (answer : Result KubeError (List Sibling)) (h : History)
      → Told h
      → Told (reconcile_listed k p values_for lh answer h).1
  unfolding reconcile_listed
  listed-Told (err e) h t = t
  listed-Told (ok siblings) h t = owned-Told (blocked_by lh.name siblings) h t

  quiet : (c : Call) (b : History) → IsJustified k lh c b → TellsTruth k p values_for lh c b
  quiet (ask r) b e = absurd e
  quiet (patch_finalizers left) b e = tt
  quiet (helm words stdin) b e = tt
  quiet (count_workloads ns name) b e = tt
  quiet (list_volumes ns label) b e = tt
  quiet (delete_volume ns name) b e = tt
  quiet (delete_cluster ns name) b e = tt

  -- A run writes the phase Ready only for no dry run, with every reported component ready, and with a
  -- ready status for each component of the whole plan of the lakehouse, also for those that wait for
  -- a database or for key material. Each of these rests on a call of the run: the cluster reported all
  -- workloads of the release ready, at least one, or Helm reported it deployed where an earlier
  -- ready status has the same fingerprint.
  pub reconcile_lakehouse-TellsTruth :
      Throughout (TellsTruth k p values_for lh) (reconcile_lakehouse k p values_for lh []).1
  unfolding reconcile_lakehouse reconcile_present
  reconcile_lakehouse-TellsTruth =
      if_rule (λ (r : Result KubeError Action × History). Told r.1) lh.is_deleted
        (delete_lakehouse k lh []) (reconcile_present k p values_for lh [])
        (λ gone.
          Throughout-map (IsJustified k lh) (TellsTruth k p values_for lh)
            (delete_lakehouse k lh []).1 quiet (delete_lakehouse-IsJustified k lh [] tt))
        (λ there.
          let ns = namespace_of lh in
          listed-Told (p.on_lakehouses [] ns) (ask (list_lakehouses ns) ∷ []) (tt, tt))
