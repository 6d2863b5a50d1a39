-- ===== src/Controller/Deletion/Uninstall.antt =====
-- The loop that uninstalls a lakehouse's releases.
use stardelt_operator.Common.{
  String, ◌≡◌, refl, subst, ◌⊎◌, inl, inr, Bool, true, false, Option, none, some, List, [], ◌∷◌,
  string_eq, some-injective, ok,
}
use stardelt_operator.Planner.{ComponentPlan}
use stardelt_operator.Helm.{HelmRelease, history_args, uninstall_args}
use stardelt_operator.Controller.Cluster.{History, Cluster, continue_rule, helm}
use stardelt_operator.Controller.Deletion.{
  release_of, is_foreign, uninstall, uninstall_unless, take_down, take_down_chart, take_down_all,
}
use stardelt_operator.Controller.Deletion.Facts.{Sometime, Checked, Settles, AllSettled}

module _ (k : Cluster) where
  module _ (S : History → Type 0) (adopt : Bool)
      (asks : (r : HelmRelease String) (b : History) → S b → S (helm (history_args r) none ∷ b))
      (removes : (r : HelmRelease String) (b : History)
        → (adopt ≡ true) ⊎ Checked k r b
        → S b
        → S (helm (uninstall_args r) none ∷ b)) where
    uninstall_unless-keeps :
        (r : HelmRelease String) (h : History) (foreign : Bool)
        → is_foreign (k.on_helm h (history_args r) none) ≡ foreign
        → S h
        → S (uninstall_unless k foreign r (helm (history_args r) none ∷ h)).1
    unfolding uninstall_unless uninstall
    uninstall_unless-keeps r h true e t = asks r h t
    uninstall_unless-keeps r h false e t =
        removes r (helm (history_args r) none ∷ h) (inr (h, refl, e)) (asks r h t)

    take_down_chart-keeps :
        (ns : String) (c : ComponentPlan) (chart : Option String) (h : History) (b : Bool)
        → adopt ≡ b
        → S h
        → S (take_down_chart k b ns c chart h).1
    unfolding take_down_chart take_down uninstall
    take_down_chart-keeps ns c none h b e t = t
    take_down_chart-keeps ns c (some chart) h true e t = removes (release_of ns c chart) h (inl e) t
    take_down_chart-keeps ns c (some chart) h false e t =
        uninstall_unless-keeps (release_of ns c chart) h
          (is_foreign (k.on_helm h (history_args (release_of ns c chart)) none)) refl t

    pub take_down_all-keeps :
        (ns : String) (cs : List ComponentPlan) (h : History)
        → S h
        → S (take_down_all k adopt ns cs h).1
    unfolding take_down_all
    take_down_all-keeps ns [] h t = t
    take_down_all-keeps ns (c ∷ cs) h t =
        let one = take_down_chart-keeps ns c c.chart h adopt refl t in
        continue_rule (λ r. S r.1) (take_down_chart k adopt ns c c.chart h)
          (take_down_all k adopt ns cs)
          (λ done. take_down_all-keeps ns cs (take_down_chart k adopt ns c c.chart h).1 one)
          (λ e failed. one)

  uninstall_unless-Settles :
      (r : HelmRelease String) (h : History) (foreign : Bool)
      → is_foreign (k.on_helm h (history_args r) none) ≡ foreign
      → (uninstall_unless k foreign r (helm (history_args r) none ∷ h)).0 ≡ ok tt
      → Sometime (Settles k r) (uninstall_unless k foreign r (helm (history_args r) none ∷ h)).1
  unfolding uninstall_unless uninstall
  uninstall_unless-Settles r h true e done = inl (inr (refl, e))
  uninstall_unless-Settles r h false e done = inl (inl (refl, done))

  take_down-Settles :
      (adopt : Bool) (r : HelmRelease String) (h : History)
      → (take_down k adopt r h).0 ≡ ok tt
      → Sometime (Settles k r) (take_down k adopt r h).1
  unfolding take_down uninstall
  take_down-Settles true r h done = inl (inl (refl, done))
  take_down-Settles false r h done =
      uninstall_unless-Settles r h (is_foreign (k.on_helm h (history_args r) none)) refl done

  take_down_chart-Settles :
      (adopt : Bool) (ns : String) (c : ComponentPlan) (h : History) (chart : Option String)
      → (take_down_chart k adopt ns c chart h).0 ≡ ok tt
      → (x : String) → chart ≡ some x
      → Sometime (Settles k (release_of ns c x)) (take_down_chart k adopt ns c chart h).1
  unfolding take_down_chart
  take_down_chart-Settles adopt ns c h none done x e = cc
  take_down_chart-Settles adopt ns c h (some chart) done x e =
      subst
        (λ y.
          Sometime (Settles k (release_of ns c y)) (take_down k adopt (release_of ns c chart) h).1)
        (some-injective e) (take_down-Settles adopt (release_of ns c chart) h done)

  -- Once the loop is through, each component's release is settled.
  pub take_down_all-AllSettled :
      (adopt : Bool) (ns : String) (cs : List ComponentPlan) (h : History)
      → (take_down_all k adopt ns cs h).0 ≡ ok tt
      → AllSettled k ns cs (take_down_all k adopt ns cs h).1
  unfolding take_down_all
  take_down_all-AllSettled adopt ns [] h done = tt
  take_down_all-AllSettled adopt ns (c ∷ cs) h done =
      continue_rule (λ r. r.0 ≡ ok tt → AllSettled k ns (c ∷ cs) r.1)
        (take_down_chart k adopt ns c c.chart h) (take_down_all k adopt ns cs)
        (λ first rest. (
          λ x e.
              take_down_all-keeps (Sometime (Settles k (release_of ns c x))) adopt (λ r b s. inr s)
                (λ r b q s. inr s) ns cs (take_down_chart k adopt ns c c.chart h).1
                (take_down_chart-Settles adopt ns c h c.chart first x e),
          take_down_all-AllSettled adopt ns cs (take_down_chart k adopt ns c c.chart h).1 rest,
        ))
        (λ e failed ended. cc) done
