-- ===== src/Controller/Apply/Evidence.antt =====
-- What the statuses of an apply claim, and what stands behind them.
use stardelt_operator.Crd.Status.{ComponentStatus}
use stardelt_operator.Common.{
  ℕ, ◌<◌, String, ◌≡◌, refl, subst, ◌⊎◌, inl, inr, Bool, true, false, Option, none, some, List, [],
  ◌∷◌, map, arith, nat_eq, string_eq, any, All, Result, ok, err,
}
use stardelt_operator.Planner.{ComponentPlan}
use stardelt_operator.Helm.{HelmRelease, args, history_args, status_args, values_yaml}
use stardelt_operator.Controller.Cluster.{Call, History, KubeError, Cluster, helm, count_workloads}
use stardelt_operator.Controller.Deletion.{is_foreign}
use stardelt_operator.Controller.Deletion.Facts.{Sometime}
use stardelt_operator.Controller.Apply.Safety.{is_unchanged_says, apply_plan-keeps}
use stardelt_operator.Controller.Apply.{
  Surroundings, ready_from_counts, unready, is_deployed, was_applied, is_unchanged, counted,
  installed, install, install_unless, guard, guards, skip_if, apply_release, planned_release,
  apply_values, apply_component, apply_plan,
}

ready_from_counts_iff : (n m : ℕ) → ready_from_counts n m ≡ true → (0 < m) × (n ≡ m)
unfolding ready_from_counts
ready_from_counts_iff n m e = (ground arith, ground arith)

module _ {V : Type 0} (k : Cluster) (s : Surroundings V) (adopt : Bool)
    (previous : List ComponentStatus) where
  -- The cluster reported every workload of the release ready, and at least one.
  abbrev pub ReportsReady : String → String → Call → History → Type 0
  ReportsReady ns name c b =
      (n : ℕ) × (0 < n) × (c ≡ count_workloads ns name) × (k.on_count b ns name ≡ ok (n, n))

  -- Helm reported the release deployed, and an earlier ready status has the same fingerprint.
  abbrev pub StillDeployed : String → String → Call → History → Type 0
  StillDeployed ns name c b =
      (r : HelmRelease V) × (r.name ≡ name)
      × (r.namespace ≡ ns)
      × (any (was_applied k s adopt previous r) previous ≡ true)
      × (c ≡ helm (status_args r) none)
      × (is_deployed k s adopt previous (k.on_helm b (status_args r) none) ≡ true)

  -- What a status that reports ready rests on: a call of the trace, and no dry run.
  abbrev pub HasEvidence : Bool → String → History → ComponentStatus → Type 0
  HasEvidence dry_run ns h status =
      status.ready ≡ true
      → (dry_run ≡ false)
        × Sometime (λ c b. ReportsReady ns status.name c b ⊎ StillDeployed ns status.name c b) h

  abbrev IsTrue : HelmRelease V → ComponentStatus × History → Type 0
  IsTrue r p = (p.0.name ≡ r.name) × HasEvidence r.dry_run r.namespace p.1 p.0

  counted-IsTrue :
      (r : HelmRelease V) (n : Result KubeError (ℕ × ℕ)) (h : History)
      → r.dry_run ≡ false
      → k.on_count h r.namespace r.name ≡ n
      → IsTrue r (counted k s adopt previous r n, count_workloads r.namespace r.name ∷ h)
  unfolding counted unready
  counted-IsTrue r (err e) h d same = (refl, λ yes. cc)
  counted-IsTrue r (ok n) h d same = (
    refl,
    λ yes.
        let (some_, all_) = ready_from_counts_iff n.0 n.1 yes in
        (
          d,
          inl (
              inl (
                n.1,
                some_,
                refl,
                subst (λ x. k.on_count h r.namespace r.name ≡ ok (x, n.1)) all_ same,
              )),
        ),
  )

  installed-IsTrue :
      (r : HelmRelease V) (dry : Bool) (answer : Result String String) (h : History)
      → r.dry_run ≡ dry
      → IsTrue r (installed k s adopt previous r dry answer h)
  unfolding installed unready
  installed-IsTrue r dry (err e) h d = (refl, λ yes. cc)
  installed-IsTrue r true (ok out) h d = (refl, λ yes. cc)
  installed-IsTrue r false (ok out) h d =
      counted-IsTrue r (k.on_count h r.namespace r.name) h d refl

  install-IsTrue : (r : HelmRelease V) (h : History) → IsTrue r (install k s adopt previous r h)
  unfolding install
  install-IsTrue r h =
      installed-IsTrue r r.dry_run (k.on_helm h (args r) (values_yaml s.print r))
        (helm (args r) (values_yaml s.print r) ∷ h) refl

  install_unless-IsTrue :
      (r : HelmRelease V) (foreign : Bool) (h : History)
      → IsTrue r (install_unless k s adopt previous foreign r h)
  unfolding install_unless unready
  install_unless-IsTrue r true h = (refl, λ yes. cc)
  install_unless-IsTrue r false h = install-IsTrue r h

  guard-IsTrue :
      (r : HelmRelease V) (on : Bool) (h : History) → IsTrue r (guard k s adopt previous on r h)
  unfolding guard
  guard-IsTrue r false h = install-IsTrue r h
  guard-IsTrue r true h =
      install_unless-IsTrue r (is_foreign (k.on_helm h (history_args r) none))
        (helm (history_args r) none ∷ h)

  skip-IsTrue :
      (r : HelmRelease V) (deployed : Bool) (h : History)
      → is_unchanged k s adopt previous r ≡ true
      → is_deployed k s adopt previous (k.on_helm h (status_args r) none) ≡ deployed
      → IsTrue r (skip_if k s adopt previous deployed r (helm (status_args r) none ∷ h))
  unfolding skip_if
  skip-IsTrue r false h e d =
      guard-IsTrue r (guards k s adopt previous r) (helm (status_args r) none ∷ h)
  skip-IsTrue r true h e d = (
    refl,
    λ yes.
        let (wet, known) = is_unchanged_says k s adopt previous r e in
        (wet, inl (inr (r, refl, refl, known, refl, d))),
  )

  apply_release-IsTrue :
      (r : HelmRelease V) (unchanged : Bool) (h : History)
      → is_unchanged k s adopt previous r ≡ unchanged
      → IsTrue r (apply_release k s adopt previous unchanged r h)
  unfolding apply_release
  apply_release-IsTrue r false h e = guard-IsTrue r (guards k s adopt previous r) h
  apply_release-IsTrue r true h e =
      skip-IsTrue r (is_deployed k s adopt previous (k.on_helm h (status_args r) none)) h e refl

  abbrev IsTrueFor : Bool → String → String → (ComponentStatus × Bool) × History → Type 0
  IsTrueFor dry_run ns name p = (p.0.0.name ≡ name) × HasEvidence dry_run ns p.1 p.0.0

  apply_values-IsTrueFor :
      (dry_run : Bool) (ns name chart : String) (values : Result String V) (h : History)
      → IsTrueFor dry_run ns name (apply_values k s adopt previous dry_run ns name chart values h)
  unfolding apply_values unready
  apply_values-IsTrueFor dry_run ns name chart (err message) h = (refl, λ yes. cc)
  apply_values-IsTrueFor dry_run ns name chart (ok values) h =
      let r = planned_release k s adopt previous dry_run ns name chart values in
      apply_release-IsTrue r (is_unchanged k s adopt previous r) h refl

  apply_component-IsTrueFor :
      (dry_run : Bool) (ns name : String) (chart : Option String) (h : History)
      → IsTrueFor dry_run ns name (apply_component k s adopt previous dry_run ns name chart h)
  unfolding apply_component unready
  apply_component-IsTrueFor dry_run ns name none h = (refl, λ yes. cc)
  apply_component-IsTrueFor dry_run ns name (some chart) h =
      apply_values-IsTrueFor dry_run ns name chart (s.resolve name) h

  HasEvidence-grow :
      (dry_run : Bool) (ns : String) (status : ComponentStatus) (h : History)
      (cs : List ComponentPlan)
      → HasEvidence dry_run ns h status
      → HasEvidence dry_run ns (apply_plan k s adopt previous dry_run ns cs h).1 status
  HasEvidence-grow dry_run ns status h cs known =
      apply_plan-keeps k s adopt previous (λ b. HasEvidence dry_run ns b status) dry_run
        (λ words b wet what t yes. let (w, e) = t yes in (w, inr e))
        (λ r b d may t yes. let (w, e) = t yes in (w, inr e))
        (λ n m b wet t yes. let (w, e) = t yes in (w, inr e)) ns cs h known

  -- An apply reports one status for each component, in the order of the plan, and no status reports
  -- ready in a dry run or without evidence in the trace: the cluster reported all workloads of that
  -- release ready, at least one, or Helm reported a release deployed that an earlier ready status
  -- with the same fingerprint records.
  pub apply_plan-HasEvidence :
      (dry_run : Bool) (ns : String) (cs : List ComponentPlan) (h : History)
      → (map
            (λ (c : ComponentStatus). c.name)
            (apply_plan k s adopt previous dry_run ns cs h).0.components
          ≡ map (λ (c : ComponentPlan). c.name) cs)
        × All
            (HasEvidence dry_run ns (apply_plan k s adopt previous dry_run ns cs h).1)
            (apply_plan k s adopt previous dry_run ns cs h).0.components
  unfolding apply_plan
  apply_plan-HasEvidence dry_run ns [] h = (refl, tt)
  apply_plan-HasEvidence dry_run ns (c ∷ cs) h =
      let one = apply_component k s adopt previous dry_run ns c.name c.chart h in
      let (name, known) = apply_component-IsTrueFor dry_run ns c.name c.chart h in
      let (names, rest) = apply_plan-HasEvidence dry_run ns cs one.1 in
      (cc, (HasEvidence-grow dry_run ns one.0.0 one.1 cs known, rest))
