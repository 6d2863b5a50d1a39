-- ===== src/Controller/Reconcile/Ownership.antt =====
-- Which lakehouse a run of `reconcile_lakehouse` acts for, and what it holds while it acts.
use stardelt_operator.Crd.Status.{ComponentStatus}
use stardelt_operator.Planner.{plan_lakehouse}
use stardelt_operator.Helm.{args, values_yaml}
use stardelt_operator.Controller.Cluster.{
  Request, Call, History, KubeError, Cluster, Throughout, continue, continue_rule, s3_secrets,
  catalog_database, openfga_database, list_lakehouses, read_identity, read_key_material, read_stamp,
  provide, provide_extra, patch_status, helm, list_volumes, delete_volume, delete_cluster,
  patch_finalizers, count_workloads, ask,
}
use stardelt_operator.Controller.Deletion.{
  lakehouse_finalizer, Lakehouse, Action, namespace_of, patch_unless, ensure_lakehouse_finalizer,
  delete_lakehouse,
}
use stardelt_operator.Controller.Deletion.Facts.{Sometime, Throughout-map}
use stardelt_operator.Controller.Deletion.Whole.{IsJustified, delete_lakehouse-IsJustified}
use stardelt_operator.Controller.Apply.{PlanOutcome, Surroundings, apply_plan, phase}
use stardelt_operator.Controller.Apply.Safety.{apply_plan-keeps, IsAllowed}
use stardelt_operator.Controller.Status.{Sibling, blocked_by}
use stardelt_operator.Controller.Reconcile.{
  Provisioner, Gates, is_wanted, waiting, previous_components, status_with, blocked_status,
  patch_lakehouse_status, trino_ready_of, stamp_of, ensure, complete, report, report_blocked,
  apply_gated, provision, reconcile_owned, reconcile_listed, reconcile_present, reconcile_lakehouse,
}
use stardelt_operator.Controller.Reconcile.Steps.{
  IsStep, trino_ready_of-keeps, stamp_of-keeps, ensure-keeps, complete-keeps,
}
use stardelt_operator.Common.{
  String, ◌≡◌, refl, ◌⊎◌, inl, inr, Bool, true, false, ◌&&◌, Option, none, some, List, [], ◌∷◌,
  ◌++◌, nat_eq, string_eq, if_rule, keep, contains, Result, ok, err,
}

module _ {V : Type 0} (k : Cluster) (p : Provisioner)
    (values_for : Bool → Option String → Surroundings V) (lh : Lakehouse) where
  -- The lakehouses of the namespace were listed, with this decision.
  abbrev pub Decides : Option String → Call → History → Type 0
  Decides peer c b =
      (siblings : List Sibling) × (c ≡ ask (list_lakehouses (namespace_of lh)))
      × (p.on_lakehouses b (namespace_of lh) ≡ ok siblings)
      × (blocked_by lh.name siblings ≡ peer)

  abbrev with_finalizer : List String
  with_finalizer = lh.finalizers ++ lakehouse_finalizer ∷ []

  abbrev Patches : Call → History → Type 0
  Patches c b = (c ≡ patch_finalizers with_finalizer) × (k.on_patch b with_finalizer ≡ ok tt)

  -- The lakehouse is the oldest of its namespace, and its finalizer is on.
  abbrev pub IsHeld : History → Type 0
  IsHeld b =
      Sometime (Decides none) b
      × ((contains lh.finalizers lakehouse_finalizer ≡ true) ⊎ Sometime Patches b)

  abbrev IsAsked : Request → History → Type 0
  IsAsked (list_lakehouses ns) b = ns ≡ namespace_of lh
  IsAsked (patch_status s) b =
      IsHeld b
      ⊎ ((peer : String) × Sometime (Decides (some peer)) b
          × (s ≡ blocked_status lh peer (p.now b)))
  IsAsked (read_identity ns) b = IsHeld b
  IsAsked (read_key_material ns) b = IsHeld b
  IsAsked (read_stamp ns) b = IsHeld b
  IsAsked (provide step ns) b = IsHeld b
  IsAsked (provide_extra step ns) b = IsHeld b

  abbrev Applies : Call → History → Type 0
  Applies c b =
      IsHeld b
      × (identity : Bool) × (stamp : Option String) × IsAllowed k (values_for identity stamp)
          lh.spec.adopt (previous_components lh.status) lh.spec.dry_run c b

  -- A call of a run for a lakehouse that is not deleted.
  abbrev pub IsOwned : Call → History → Type 0
  IsOwned (ask r) b = IsAsked r b
  IsOwned (patch_finalizers left) b =
      (left ≡ with_finalizer)
      × (contains lh.finalizers lakehouse_finalizer ≡ false)
      × Sometime (Decides none) b
  IsOwned (helm words stdin) b = Applies (helm words stdin) b
  IsOwned (count_workloads ns name) b = Applies (count_workloads ns name) b
  IsOwned (list_volumes ns label) b = ⊥
  IsOwned (delete_volume ns name) b = ⊥
  IsOwned (delete_cluster ns name) b = ⊥

  abbrev Calls : History → Type 0
  Calls b = Throughout IsOwned b × IsHeld b

  later : (c : Call) (b : History) → IsHeld b → IsHeld (c ∷ b)
  later c b (owns, inl there) = (inr owns, inl there)
  later c b (owns, inr patched) = (inr owns, inr (inr patched))

  step-IsAsked : (r : Request) (b : History) → IsStep r → IsHeld b → IsAsked r b
  step-IsAsked (list_lakehouses ns) b e held = absurd e
  step-IsAsked (patch_status s) b e held = absurd e
  step-IsAsked (read_identity ns) b e held = held
  step-IsAsked (read_key_material ns) b e held = held
  step-IsAsked (read_stamp ns) b e held = held
  step-IsAsked (provide step ns) b e held = held
  step-IsAsked (provide_extra step ns) b e held = held

  step_called : (r : Request) (b : History) → IsStep r → Calls b → Calls (ask r ∷ b)
  step_called r b e (t, held) = ((step-IsAsked r b e held, t), later (ask r) b held)

  report-IsOwned :
      (o : PlanOutcome) (h : History) → Calls h → Throughout IsOwned (report p lh o h).1
  unfolding report patch_lakehouse_status
  report-IsOwned o h (t, held) =
      let s = status_with lh (phase lh.spec.dry_run o) (p.now h) o.components in
      continue_rule (λ r. Throughout IsOwned r.1) (patch_lakehouse_status p s h) _
        (λ done. (inl held, t)) (λ e failed. (inl held, t))

  apply_gated-IsOwned :
      (g : Gates) (stamp : Option String) (first : List ComponentStatus) (h : History)
      → Calls h
      → Throughout IsOwned (apply_gated k p values_for lh g stamp first h).1
  unfolding apply_gated
  apply_gated-IsOwned g stamp first h t =
      let ns = namespace_of lh in
      let identity = g.identity_contract && g.trino_ready in
      let s = values_for identity stamp in
      let previous = previous_components lh.status in
      let wanted = keep (is_wanted g) (plan_lakehouse lh.spec) in
      let applied = apply_plan k s lh.spec.adopt previous lh.spec.dry_run ns wanted h in
      let t1 =
        apply_plan-keeps k s lh.spec.adopt previous Calls lh.spec.dry_run
          (λ words b wet what (t, held).
            (((held, identity, stamp, inl (wet, what)), t), later (helm words none) b held))
          (λ r b d may (t, held). (
            ((held, identity, stamp, inr (r, refl, refl, d, may)), t),
            later (helm (args r) (values_yaml s.print r)) b held,
          ))
          (λ ns' name b wet (t, held).
            (((held, identity, stamp, wet), t), later (count_workloads ns' name) b held))
          ns wanted h t in
      let reported = applied.0.components ++ waiting g in
      let completed = complete p g lh.spec.storage ns first reported applied.1 in
      report-IsOwned
        (record { components = completed.0; values_resolved = applied.0.values_resolved })
        completed.1
        (complete-keeps p Calls step_called g lh.spec.storage ns first reported applied.1 t1)

  provision-IsOwned : (h : History) → Calls h → Throughout IsOwned (provision k p values_for lh h).1
  unfolding provision
  provision-IsOwned h t =
      let ns = namespace_of lh in
      let dry = lh.spec.dry_run in
      let identity = p.on_identity h ns in
      let h0 = ask (read_identity ns) ∷ h in
      let (trino, h1) = trino_ready_of p dry identity ns h0 in
      let (stamp, h2) = stamp_of p (identity && trino) ns h1 in
      let (s3, h3) = ensure p s3_secrets ns h2 in
      let (database, h4) = ensure p catalog_database ns h3 in
      let (openfga, h5) = ensure p openfga_database ns h4 in
      let t0 = step_called (read_identity ns) h tt t in
      let t1 = trino_ready_of-keeps p Calls step_called dry identity ns h0 t0 in
      let t2 = stamp_of-keeps p Calls step_called (identity && trino) ns h1 t1 in
      let t3 = ensure-keeps p Calls step_called s3_secrets ns h2 t2 in
      let t4 = ensure-keeps p Calls step_called catalog_database ns h3 t3 in
      apply_gated-IsOwned _ stamp _ h5 (ensure-keeps p Calls step_called openfga_database ns h4 t4)

  held-IsOwned :
      (h : History)
      → Throughout IsOwned h
      → Sometime (Decides none) h
      → Throughout IsOwned
          (continue (ensure_lakehouse_finalizer k lh h) (provision k p values_for lh)).1
  unfolding ensure_lakehouse_finalizer patch_unless
  held-IsOwned h t owns = patched (contains lh.finalizers lakehouse_finalizer) refl
    where
      patched :
          (there : Bool)
          → contains lh.finalizers lakehouse_finalizer ≡ there
          → Throughout IsOwned
              (continue (patch_unless k there with_finalizer h) (provision k p values_for lh)).1
      patched true e = provision-IsOwned h (t, (owns, inl e))
      patched false e =
          let patch = patch_finalizers with_finalizer in
          let own : IsOwned patch h = (refl, e, owns) in
          continue_rule (λ r. Throughout IsOwned r.1) (k.on_patch h with_finalizer, patch ∷ h)
            (provision k p values_for lh)
            (λ done. provision-IsOwned (patch ∷ h) ((own, t), (inr owns, inr (inl (refl, done)))))
            (λ e failed. (own, t))

  present-IsOwned :
      (h : History)
      → Throughout IsOwned h
      → Throughout IsOwned (reconcile_present k p values_for lh h).1
  unfolding reconcile_present reconcile_listed reconcile_owned report_blocked patch_lakehouse_status
  present-IsOwned h t = listed (p.on_lakehouses h (namespace_of lh)) refl
    where
      before : History
      before = ask (list_lakehouses (namespace_of lh)) ∷ h

      owned :
          (peer : Option String)
          → Sometime (Decides peer) before
          → Throughout IsOwned (reconcile_owned k p values_for lh peer before).1
      owned none known = held-IsOwned before (refl, t) known
      owned (some peer) known =
          let s = blocked_status lh peer (p.now before) in
          let told : Throughout IsOwned (ask (patch_status s) ∷ before) =
            (inr (peer, known, refl), (refl, t)) in
          continue_rule (λ r. Throughout IsOwned r.1) (patch_lakehouse_status p s before) _
            (λ done. told) (λ e failed. told)

      listed :
          (answer : Result KubeError (List Sibling))
          → p.on_lakehouses h (namespace_of lh) ≡ answer
          → Throughout IsOwned (reconcile_listed k p values_for lh answer before).1
      listed (err e) same = (refl, t)
      listed (ok siblings) same =
          owned (blocked_by lh.name siblings) (inl (siblings, refl, same, refl))

  abbrev pub IsRightful : Call → History → Type 0
  IsRightful c b =
      (lh.is_deleted ≡ true → IsJustified k lh c b) × (lh.is_deleted ≡ false → IsOwned c b)

  -- Each call of a run is rightful where it is made. For a lakehouse that is being deleted, it is a
  -- justified call of the deletion. For another, it is the listing of the lakehouses of its namespace;
  -- or the Blocked status that names an older one, after a listing that shows it; or the patch that adds
  -- the finalizer where it is missing, after a listing that shows this one as the oldest; or a read, a
  -- step of the provisioning, an allowed call of an apply, or a status, after such a listing and with
  -- the finalizer on the resource or added in this run.
  pub reconcile_lakehouse-IsRightful :
      Throughout IsRightful (reconcile_lakehouse k p values_for lh []).1
  unfolding reconcile_lakehouse
  reconcile_lakehouse-IsRightful =
      if_rule (λ (r : Result KubeError Action × History). Throughout IsRightful r.1) lh.is_deleted
        (delete_lakehouse k lh []) (reconcile_present k p values_for lh [])
        (λ gone.
          Throughout-map (IsJustified k lh) IsRightful (delete_lakehouse k lh []).1
            (λ c b call. (λ e. call, λ e. cc)) (delete_lakehouse-IsJustified k lh [] tt))
        (λ there.
          Throughout-map IsOwned IsRightful (reconcile_present k p values_for lh []).1
            (λ c b call. (λ e. cc, λ e. call)) (present-IsOwned [] tt))
