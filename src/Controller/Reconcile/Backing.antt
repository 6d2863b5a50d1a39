-- ===== src/Controller/Reconcile/Backing.antt =====
-- What an apply and the steps around it leave behind a status with the phase Ready.
use stardelt_operator.Crd.Status.{ComponentStatus, LakehouseStatus}
use stardelt_operator.Planner.{ComponentPlan, StorageImpl, plan_lakehouse}
use stardelt_operator.Helm.{}
use stardelt_operator.Controller.Cluster.{
  Request, Call, History, Cluster, Throughout, continue_rule, s3_secrets, catalog_database,
  openfga_database, list_lakehouses, read_identity, read_key_material, read_stamp, provide,
  provide_extra, patch_status, helm, list_volumes, delete_volume, delete_cluster, patch_finalizers,
  count_workloads, ask,
}
use stardelt_operator.Controller.Deletion.{Lakehouse, namespace_of}
use stardelt_operator.Controller.Deletion.Facts.{Sometime}
use stardelt_operator.Controller.Deletion.Whole.{}
use stardelt_operator.Controller.Apply.{PlanOutcome, Surroundings, apply_plan, phase}
use stardelt_operator.Controller.Apply.Safety.{apply_plan-keeps}
use stardelt_operator.Controller.Apply.Evidence.{
  ReportsReady, StillDeployed, HasEvidence, apply_plan-HasEvidence,
}
use stardelt_operator.Controller.Apply.Phase.{phase-Ready_iff}
use stardelt_operator.Controller.Status.{}
use stardelt_operator.Controller.Reconcile.{
  Provisioner, Gates, is_wanted, waiting, previous_components, status_with, patch_lakehouse_status,
  trino_ready_of, stamp_of, ensure, complete, report, apply_gated, provision,
}
use stardelt_operator.Controller.Reconcile.Steps.{
  IsStep, trino_ready_of-keeps, stamp_of-keeps, ensure-keeps, complete-keeps,
}
use stardelt_operator.Controller.Reconcile.Waiting.{
  AllReady, Within, AllReady-Within, Within-left, Within-right, waiting-AllReady, is_wanted_all,
  keep_all,
}
use stardelt_operator.Common.{
  String, ◌≡◌, refl, sym, ap, subst, ◌∙◌, ◌⊎◌, inl, inr, Bool, true, false, ◌&&◌, Option, List, [],
  ◌∷◌, ◌++◌, map, nat_eq, string_eq, keep, All, In, All-In, In-All, All-map, all_iff,
}

-- Each planned component has its status, where the names agree.
paired :
    (P : ComponentStatus → Type 0) (cs : List ComponentPlan) (ss : List ComponentStatus)
    → map (λ (s : ComponentStatus). s.name) ss ≡ map (λ (c : ComponentPlan). c.name) cs
    → All P ss
    → All (λ c. (s : ComponentStatus) × In s ss × (s.name ≡ c.name) × P s) cs
paired P [] [] e h = tt
paired P [] (s ∷ ss) e h = tt
paired P (c ∷ cs) [] e h = cc
paired P (c ∷ cs) (s ∷ ss) e (q, h) =
    let rest : map (λ (s : ComponentStatus). s.name) ss ≡ map (λ (c : ComponentPlan). c.name) cs =
      cc in
    (
      (s, inl refl, cc, q),
      All-map (λ d (t, i, same, r). (t, inr i, same, r)) cs (paired P cs ss rest h),
    )

module _ {V : Type 0} (k : Cluster) (p : Provisioner)
    (values_for : Bool → Option String → Surroundings V) (lh : Lakehouse) where
  -- The release is ready in the cluster, or Helm reports it deployed as it was applied.
  abbrev pub IsProved : String → History → Type 0
  IsProved name b =
      (identity : Bool) × (stamp : Option String) × Sometime
        (λ c before.
          ReportsReady k (values_for identity stamp) lh.spec.adopt (previous_components lh.status)
            (namespace_of lh) name c before
          ⊎ StillDeployed k (values_for identity stamp) lh.spec.adopt
              (previous_components lh.status) (namespace_of lh) name c before)
        b

  abbrev pub IsBacked : LakehouseStatus → History → ComponentPlan → Type 0
  IsBacked s b c =
      (status : ComponentStatus) × In status s.components
      × (status.name ≡ c.name)
      × (status.ready ≡ true)
      × IsProved c.name b

  -- What a status says with the phase Ready.
  abbrev pub IsComplete : LakehouseStatus → History → Type 0
  IsComplete s b =
      (lh.spec.dry_run ≡ false)
      × AllReady s.components
      × All (IsBacked s b) (plan_lakehouse lh.spec)

  abbrev pub TellsTruth : Call → History → Type 0
  TellsTruth (ask (patch_status s)) b = s.phase ≡ "Ready" → IsComplete s b
  TellsTruth (ask (list_lakehouses ns)) b = Unit
  TellsTruth (ask (read_identity ns)) b = Unit
  TellsTruth (ask (read_key_material ns)) b = Unit
  TellsTruth (ask (read_stamp ns)) b = Unit
  TellsTruth (ask (provide step ns)) b = Unit
  TellsTruth (ask (provide_extra step ns)) b = Unit
  TellsTruth (patch_finalizers left) b = Unit
  TellsTruth (helm words stdin) b = Unit
  TellsTruth (count_workloads ns name) b = Unit
  TellsTruth (list_volumes ns label) b = Unit
  TellsTruth (delete_volume ns name) b = Unit
  TellsTruth (delete_cluster ns name) b = Unit

  abbrev pub True : History → Type 0
  True b = Throughout TellsTruth b

  step-True : (r : Request) (b : History) → IsStep r → True b → True (ask r ∷ b)
  step-True (list_lakehouses ns) b e t = absurd e
  step-True (patch_status s) b e t = absurd e
  step-True (read_identity ns) b e t = (tt, t)
  step-True (read_key_material ns) b e t = (tt, t)
  step-True (read_stamp ns) b e t = (tt, t)
  step-True (provide step ns) b e t = (tt, t)
  step-True (provide_extra step ns) b e t = (tt, t)

  -- The components that are reported hold the releases and those that wait.
  complete-Within :
      (g : Gates) (storage : StorageImpl) (ns : String) (first applied : List ComponentStatus)
      (h : History)
      → Within applied (complete p g storage ns first applied h).0
  unfolding complete
  complete-Within g storage ns first applied h c i =
      let both = Within-right first applied c i in
      Within-left _ _ c (
        Within-left _ _ c
          (Within-left _ _ c (Within-left _ _ c (Within-left _ _ c (Within-left _ _ c both)))))

  report-True :
      (o : PlanOutcome) (h : History)
      → True h
      → (lh.spec.dry_run ≡ false
          → AllReady o.components
          → (s : LakehouseStatus) → s.components ≡ o.components
          → All (IsBacked s h) (plan_lakehouse lh.spec))
      → True (report p lh o h).1
  unfolding report patch_lakehouse_status status_with
  report-True o h t backs =
      let s = status_with lh (phase lh.spec.dry_run o) (p.now h) o.components in
      let told : True (ask (patch_status s) ∷ h) = (
        λ e.
            let (resolved, wet, every) = (phase-Ready_iff lh.spec.dry_run o).0 e in
            let ready : AllReady o.components =
              (all_iff (λ (c : ComponentStatus). c.ready) o.components (λ c. (λ e. e, λ e. e))).0
                every in
            (wet, ready, backs wet ready s refl),
        t,
      ) in
      continue_rule (λ r. True r.1) (patch_lakehouse_status p s h) _ (λ done. told)
        (λ e failed. told)

  abbrev Proofs : Bool → Option String → List ComponentStatus → History → Type 0
  Proofs identity stamp ss b =
      All
        (HasEvidence k (values_for identity stamp) lh.spec.adopt (previous_components lh.status)
          lh.spec.dry_run (namespace_of lh) b)
        ss

  Proofs-grow :
      (identity : Bool) (stamp : Option String) (ss : List ComponentStatus) (c : Call) (b : History)
      → Proofs identity stamp ss b
      → Proofs identity stamp ss (c ∷ b)
  Proofs-grow identity stamp ss c b known =
      All-map (λ s t e. let (wet, sure) = t e in (wet, inr sure)) ss known

  -- A ready status of the apply backs its component.
  backed :
      (identity : Bool) (stamp : Option String) (ss : List ComponentStatus) (b : History)
      (s : LakehouseStatus)
      → map (λ (s : ComponentStatus). s.name) ss
        ≡ map (λ (c : ComponentPlan). c.name) (plan_lakehouse lh.spec)
      → Within ss s.components
      → AllReady ss
      → Proofs identity stamp ss b
      → All (IsBacked s b) (plan_lakehouse lh.spec)
  backed identity stamp ss b s names sub ready known =
      All-map
        (λ c (t, i, same, (j, is_ready, proof)).
          (t, j, same, is_ready, subst (λ name. IsProved name b) same proof))
        (plan_lakehouse lh.spec)
        (paired (λ t. In t s.components × (t.ready ≡ true) × IsProved t.name b)
          (plan_lakehouse lh.spec) ss names
          (In-All ss (λ t i.
            let is_ready = All-In _ t ss ready i in
            let (wet, proof) = All-In _ t ss known i is_ready in
            (sub t i, is_ready, (identity, stamp, proof)))))

  apply_gated-True :
      (g : Gates) (stamp : Option String) (first : List ComponentStatus) (h : History)
      → g.dry_run ≡ lh.spec.dry_run
      → (g.identity_contract ≡ false → g.trino_ready ≡ true)
      → True h
      → True (apply_gated k p values_for lh g stamp first h).1
  unfolding apply_gated
  apply_gated-True g stamp first h same safe t =
      let ns = namespace_of lh in
      let dry = lh.spec.dry_run in
      let identity = g.identity_contract && g.trino_ready in
      let values = values_for identity stamp in
      let previous = previous_components lh.status in
      let wanted = keep (is_wanted g) (plan_lakehouse lh.spec) in
      let applied = apply_plan k values lh.spec.adopt previous dry ns wanted h in
      let ss = applied.0.components in
      let completed = complete p g lh.spec.storage ns first (ss ++ waiting g) applied.1 in
      let (names, known) = apply_plan-HasEvidence k values lh.spec.adopt previous dry ns wanted h in
      let t1 =
        apply_plan-keeps k values lh.spec.adopt previous True dry (λ words b wet what t. (tt, t))
          (λ r b d may t. (tt, t)) (λ ns name b wet t. (tt, t)) ns wanted h t in
      let t2 =
        complete-keeps p True step-True g lh.spec.storage ns first (ss ++ waiting g) applied.1 t1 in
      let still =
        complete-keeps p (Proofs identity stamp ss)
          (λ r b e u. Proofs-grow identity stamp ss (ask r) b u) g lh.spec.storage ns first
          (ss ++ waiting g) applied.1 known in
      report-True (record { components = completed.0; values_resolved = applied.0.values_resolved })
        completed.1 t2
        (λ wet ready s listed.
          let within = complete-Within g lh.spec.storage ns first (ss ++ waiting g) applied.1 in
          let both = AllReady-Within _ _ within ready in
          let open_ =
            waiting-AllReady g (same ∙ wet) safe
              (AllReady-Within _ _ (Within-right ss (waiting g)) both) in
          let whole = keep_all (is_wanted g) (plan_lakehouse lh.spec) (is_wanted_all g open_) in
          backed identity stamp ss completed.1 s
            (names ∙ ap (map (λ (c : ComponentPlan). c.name)) whole)
            (λ c i. subst (λ cs. In c cs) (sym listed) (within c (Within-left ss (waiting g) c i)))
            (AllReady-Within _ _ (Within-left ss (waiting g)) both) still)

  trino_opens :
      (dry identity : Bool) (ns : String) (h : History)
      → identity ≡ false
      → (trino_ready_of p dry identity ns h).0 ≡ true
  unfolding trino_ready_of
  trino_opens true identity ns h e = refl
  trino_opens false false ns h e = refl
  trino_opens false true ns h e = cc

  pub provision-True : (h : History) → True h → True (provision k p values_for lh h).1
  unfolding provision
  provision-True h t =
      let ns = namespace_of lh in
      let dry = lh.spec.dry_run in
      let identity = p.on_identity h ns in
      let h0 = ask (read_identity ns) ∷ h in
      let (trino, h1) = trino_ready_of p dry identity ns h0 in
      let (stamp, h2) = stamp_of p (identity && trino) ns h1 in
      let (s3, h3) = ensure p s3_secrets ns h2 in
      let (database, h4) = ensure p catalog_database ns h3 in
      let (openfga, h5) = ensure p openfga_database ns h4 in
      let t1 = trino_ready_of-keeps p True step-True dry identity ns h0 (tt, t) in
      let t2 = stamp_of-keeps p True step-True (identity && trino) ns h1 t1 in
      let t3 = ensure-keeps p True step-True s3_secrets ns h2 t2 in
      let t4 = ensure-keeps p True step-True catalog_database ns h3 t3 in
      apply_gated-True _ stamp _ h5 refl (trino_opens dry identity ns h0)
        (ensure-keeps p True step-True openfga_database ns h4 t4)
