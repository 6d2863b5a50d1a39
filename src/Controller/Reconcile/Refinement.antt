-- ===== src/Controller/Reconcile/Refinement.antt =====
-- Each run of `reconcile_lakehouse` for a lakehouse that is not deleted follows the protocol.
use stardelt_operator.Crd.Status.{ComponentStatus}
use stardelt_operator.Planner.{plan_lakehouse}
use stardelt_operator.Helm.{}
use stardelt_operator.Controller.Cluster.{
  Request, History, KubeError, Cluster, continue, continue_rule, s3_secrets, catalog_database,
  openfga_database, list_lakehouses, read_identity, ask,
}
use stardelt_operator.Controller.Deletion.{
  lakehouse_finalizer, Lakehouse, Action, namespace_of, patch_unless, ensure_lakehouse_finalizer,
  delete_lakehouse,
}
use stardelt_operator.Controller.Apply.{PlanOutcome, Surroundings, apply_plan, phase}
use stardelt_operator.Controller.Apply.Safety.{apply_plan-keeps}
use stardelt_operator.Controller.Status.{Sibling, blocked_by}
use stardelt_operator.Controller.Reconcile.{
  Provisioner, Gates, is_wanted, waiting, previous_components, status_with, blocked_status,
  patch_lakehouse_status, trino_ready_of, stamp_of, ensure, complete, report, report_blocked,
  apply_gated, provision, reconcile_owned, reconcile_listed, reconcile_present, reconcile_lakehouse,
}
use stardelt_operator.Controller.Reconcile.Steps.{
  IsStep, trino_ready_of-keeps, stamp_of-keeps, ensure-keeps, complete-keeps,
}
use stardelt_operator.Controller.Reconcile.Protocol.{
  Reaches, Follows, held, told, failed, lists_oldest, lists_held, lists_other, listing_fails,
  adds_finalizer, patch_fails, provides, applies, tells, tells_blocked, telling_fails,
  telling_blocked_fails, begins, moves,
}
use stardelt_operator.Common.{
  String, ◌≡◌, refl, inl, inr, Bool, true, false, ◌&&◌, Option, none, some, List, [], ◌∷◌, ◌++◌,
  nat_eq, string_eq, if_rule, keep, contains, Result, ok, err,
}

module _ {V : Type 0} (k : Cluster) (p : Provisioner)
    (values_for : Bool → Option String → Surroundings V) (lh : Lakehouse) where
  abbrev Held : History → Type 0
  Held b = Reaches k p values_for lh held b

  abbrev IsFollowed : Result KubeError Action × History → Type 0
  IsFollowed r = Follows k p values_for lh r

  provided : (r : Request) (b : History) → IsStep r → Held b → Held (ask r ∷ b)
  provided r b e reached = moves reached (provides e)

  report-IsFollowed : (o : PlanOutcome) (h : History) → Held h → IsFollowed (report p lh o h)
  unfolding report patch_lakehouse_status status_with
  report-IsFollowed o h reached =
      let s = status_with lh (phase lh.spec.dry_run o) (p.now h) o.components in
      continue_rule IsFollowed (patch_lakehouse_status p s h) _
        (λ done. (told s, moves reached (tells done), refl))
        (λ e no. (failed e, moves reached (telling_fails no), refl))

  apply_gated-IsFollowed :
      (g : Gates) (stamp : Option String) (first : List ComponentStatus) (h : History)
      → Held h
      → IsFollowed (apply_gated k p values_for lh g stamp first h)
  unfolding apply_gated
  apply_gated-IsFollowed g stamp first h t =
      let ns = namespace_of lh in
      let identity = g.identity_contract && g.trino_ready in
      let s = values_for identity stamp in
      let previous = previous_components lh.status in
      let wanted = keep (is_wanted g) (plan_lakehouse lh.spec) in
      let applied = apply_plan k s lh.spec.adopt previous lh.spec.dry_run ns wanted h in
      let t1 =
        apply_plan-keeps k s lh.spec.adopt previous Held lh.spec.dry_run
          (λ words b wet what r. moves r (applies identity stamp (inl (wet, what))))
          (λ r b d may t. moves t (applies identity stamp (inr (r, refl, refl, d, may))))
          (λ ns name b wet r. moves r (applies identity stamp wet)) ns wanted h t in
      let reported = applied.0.components ++ waiting g in
      let completed = complete p g lh.spec.storage ns first reported applied.1 in
      report-IsFollowed
        (record { components = completed.0; values_resolved = applied.0.values_resolved })
        completed.1
        (complete-keeps p Held provided g lh.spec.storage ns first reported applied.1 t1)

  provision-IsFollowed : (h : History) → Held h → IsFollowed (provision k p values_for lh h)
  unfolding provision
  provision-IsFollowed h t =
      let ns = namespace_of lh in
      let dry = lh.spec.dry_run in
      let identity = p.on_identity h ns in
      let h0 = ask (read_identity ns) ∷ h in
      let (trino, h1) = trino_ready_of p dry identity ns h0 in
      let (stamp, h2) = stamp_of p (identity && trino) ns h1 in
      let (s3, h3) = ensure p s3_secrets ns h2 in
      let (database, h4) = ensure p catalog_database ns h3 in
      let (openfga, h5) = ensure p openfga_database ns h4 in
      let t0 = provided (read_identity ns) h tt t in
      let t1 = trino_ready_of-keeps p Held provided dry identity ns h0 t0 in
      let t2 = stamp_of-keeps p Held provided (identity && trino) ns h1 t1 in
      let t3 = ensure-keeps p Held provided s3_secrets ns h2 t2 in
      let t4 = ensure-keeps p Held provided catalog_database ns h3 t3 in
      apply_gated-IsFollowed _ stamp _ h5 (ensure-keeps p Held provided openfga_database ns h4 t4)

  abbrev start : History
  start = ask (list_lakehouses (namespace_of lh)) ∷ []

  module _ (siblings : List Sibling)
      (same : p.on_lakehouses [] (namespace_of lh) ≡ ok siblings) where
    oldest-IsFollowed :
        blocked_by lh.name siblings ≡ none
        → IsFollowed
            (continue (ensure_lakehouse_finalizer k lh start) (provision k p values_for lh))
    unfolding ensure_lakehouse_finalizer patch_unless
    oldest-IsFollowed mine = patched (contains lh.finalizers lakehouse_finalizer) refl
      where
        patched :
            (there : Bool)
            → contains lh.finalizers lakehouse_finalizer ≡ there
            → IsFollowed (
                continue
                  (patch_unless k there (lh.finalizers ++ lakehouse_finalizer ∷ []) start)
                  (provision k p values_for lh))
        patched true e =
            provision-IsFollowed start (moves begins (lists_held (siblings, same, mine) e))
        patched false e =
            let at_ = moves begins (lists_oldest (siblings, same, mine) e) in
            continue_rule IsFollowed
              (patch_unless k false (lh.finalizers ++ lakehouse_finalizer ∷ []) start)
              (provision k p values_for lh)
              (λ done. provision-IsFollowed _ (moves at_ (adds_finalizer done)))
              (λ e no. (failed e, moves at_ (patch_fails no), refl))

    owned-IsFollowed :
        (peer : Option String)
        → blocked_by lh.name siblings ≡ peer
        → IsFollowed (reconcile_owned k p values_for lh peer start)
    unfolding reconcile_owned report_blocked patch_lakehouse_status blocked_status status_with
    owned-IsFollowed none e = oldest-IsFollowed e
    owned-IsFollowed (some peer) e =
        let s = blocked_status lh peer (p.now start) in
        let at_ = moves begins (lists_other (siblings, same, e)) in
        continue_rule IsFollowed (patch_lakehouse_status p s start) _
          (λ done. (told s, moves at_ (tells_blocked done), refl))
          (λ e no. (failed e, moves at_ (telling_blocked_fails no), refl))

  listed-IsFollowed :
      (answer : Result KubeError (List Sibling))
      → p.on_lakehouses [] (namespace_of lh) ≡ answer
      → IsFollowed (reconcile_listed k p values_for lh answer start)
  unfolding reconcile_listed
  listed-IsFollowed (err e) same = (failed e, moves begins (listing_fails same), refl)
  listed-IsFollowed (ok siblings) same =
      owned-IsFollowed siblings same (blocked_by lh.name siblings) refl

  -- A run for a lakehouse that is not deleted follows the protocol: its calls are moves of the machine
  -- from the start to an end. It ends after a call that failed, with the error of that call; or after a
  -- status that was written, and asks to be run again after 300 seconds if every component of that
  -- status is ready and after 30 seconds if not.
  pub reconcile_lakehouse-Follows :
      lh.is_deleted ≡ false → Follows k p values_for lh (reconcile_lakehouse k p values_for lh [])
  unfolding reconcile_lakehouse reconcile_present
  reconcile_lakehouse-Follows there =
      if_rule IsFollowed lh.is_deleted (delete_lakehouse k lh [])
        (reconcile_present k p values_for lh []) (λ gone. cc)
        (λ e. listed-IsFollowed (p.on_lakehouses [] (namespace_of lh)) refl)
