-- ===== src/Controller/Apply/Safety.antt =====
-- What an apply asks of Helm.
use stardelt_operator.Crd.Status.{ComponentStatus}
use stardelt_operator.Common.{
  String, ◌≡◌, refl, sym, ap, ◌∙◌, ◌⊎◌, inl, inr, Bool, true, false, not, ◌&&◌, Option, none, some,
  List, [], ◌∷◌, arith, nat_eq, string_eq, and-true_iff, any, Result, ok, err,
}
use stardelt_operator.Planner.{ComponentPlan}
use stardelt_operator.Helm.{HelmRelease, args, history_args, status_args, values_yaml}
use stardelt_operator.Controller.Cluster.{
  Call, History, Cluster, Throughout, helm, list_volumes, delete_volume, delete_cluster,
  patch_finalizers, count_workloads, ask,
}
use stardelt_operator.Controller.Deletion.{is_foreign}
use stardelt_operator.Controller.Deletion.Facts.{Checked}
use stardelt_operator.Controller.Apply.{
  Surroundings, is_deployed, was_applied, is_unchanged, installed, install, install_unless, guard,
  guards, skip_if, apply_release, planned_release, apply_values, apply_component, apply_plan,
}

-- Where the guard is off.
unguarded : (dry adopts : Bool) → (not dry && not adopts) ≡ false → (dry ≡ true) ⊎ (adopts ≡ true)
unguarded true adopts e = inl refl
unguarded false true e = inr refl
unguarded false false e = cc

pub not-true : (b : Bool) → not b ≡ true → b ≡ false
not-true false e = refl
not-true true e = cc

module _ {V : Type 0} (k : Cluster) (s : Surroundings V) (adopt : Bool)
    (previous : List ComponentStatus) where
  -- An upgrade is allowed for a dry run, with `adopt`, or right after the history was read.
  abbrev pub MayInstall : Bool → HelmRelease V → History → Type 0
  MayInstall dry_run r b = (dry_run ≡ true) ⊎ ((adopt ≡ true) ⊎ Checked k r b)

  pub is_unchanged_says :
      (r : HelmRelease V)
      → is_unchanged k s adopt previous r ≡ true
      → (r.dry_run ≡ false) × (any (was_applied k s adopt previous r) previous ≡ true)
  unfolding is_unchanged
  is_unchanged_says r e =
      let (wet, known) =
        (and-true_iff (not r.dry_run) (any (was_applied k s adopt previous r) previous)).0 e in
      (ground arith, known)

  module _ (S : History → Type 0) (dry_run : Bool)
      (reads : (words : List String) (b : History)
        → dry_run ≡ false
        → (r : HelmRelease V) × ((words ≡ status_args r) ⊎ (words ≡ history_args r))
        → S b
        → S (helm words none ∷ b))
      (upgrades : (r : HelmRelease V) (b : History)
        → r.dry_run ≡ dry_run
        → MayInstall dry_run r b
        → S b
        → S (helm (args r) (values_yaml s.print r) ∷ b))
      (counts : (ns name : String) (b : History)
        → dry_run ≡ false
        → S b
        → S (count_workloads ns name ∷ b)) where
    installed-keeps :
        (r : HelmRelease V) (dry : Bool) (answer : Result String String) (h : History)
        → dry_run ≡ dry
        → S h
        → S (installed k s adopt previous r dry answer h).1
    unfolding installed
    installed-keeps r dry (err e) h d t = t
    installed-keeps r true (ok out) h d t = t
    installed-keeps r false (ok out) h d t = counts r.namespace r.name h d t

    install-keeps :
        (r : HelmRelease V) (h : History)
        → r.dry_run ≡ dry_run
        → MayInstall dry_run r h
        → S h
        → S (install k s adopt previous r h).1
    unfolding install
    install-keeps r h d may t =
        installed-keeps r r.dry_run (k.on_helm h (args r) (values_yaml s.print r))
          (helm (args r) (values_yaml s.print r) ∷ h) (sym d) (upgrades r h d may t)

    install_unless-keeps :
        (r : HelmRelease V) (h : History) (foreign : Bool)
        → r.dry_run ≡ dry_run
        → is_foreign (k.on_helm h (history_args r) none) ≡ foreign
        → S (helm (history_args r) none ∷ h)
        → S (install_unless k s adopt previous foreign r (helm (history_args r) none ∷ h)).1
    unfolding install_unless
    install_unless-keeps r h true d e t = t
    install_unless-keeps r h false d e t =
        install-keeps r (helm (history_args r) none ∷ h) d (inr (inr (h, refl, e))) t

    guard-keeps :
        (r : HelmRelease V) (h : History) (on : Bool)
        → r.dry_run ≡ dry_run
        → (not dry_run && not adopt) ≡ on
        → S h
        → S (guard k s adopt previous on r h).1
    unfolding guard
    guard-keeps r h true d e t =
        install_unless-keeps r h (is_foreign (k.on_helm h (history_args r) none)) d refl
          (reads (history_args r) h (ground arith) (r, inr refl) t)
    guard-keeps r h false d e t =
        install-keeps r h d
          (elim (unguarded dry_run adopt e) [ inl dry ↦ inl dry | inr adopts ↦ inr (inl adopts) ]) t

    skip_if-keeps :
        (r : HelmRelease V) (h : History) (deployed : Bool)
        → r.dry_run ≡ dry_run
        → S h
        → S (skip_if k s adopt previous deployed r h).1
    unfolding skip_if
    skip_if-keeps r h true d t = t
    skip_if-keeps r h false d t =
        guard-keeps r h (guards k s adopt previous r) d (ap (λ x. not x && not adopt) (sym d)) t

    apply_release-keeps :
        (r : HelmRelease V) (h : History) (unchanged : Bool)
        → r.dry_run ≡ dry_run
        → is_unchanged k s adopt previous r ≡ unchanged
        → S h
        → S (apply_release k s adopt previous unchanged r h).1
    unfolding apply_release
    apply_release-keeps r h true d e t =
        skip_if-keeps r (helm (status_args r) none ∷ h)
          (is_deployed k s adopt previous (k.on_helm h (status_args r) none)) d
          (reads (status_args r) h (sym d ∙ (is_unchanged_says r e).0) (r, inl refl) t)
    apply_release-keeps r h false d e t =
        guard-keeps r h (guards k s adopt previous r) d (ap (λ x. not x && not adopt) (sym d)) t

    apply_values-keeps :
        (ns name chart : String) (values : Result String V) (h : History)
        → S h
        → S (apply_values k s adopt previous dry_run ns name chart values h).1
    unfolding apply_values
    apply_values-keeps ns name chart (err message) h t = t
    apply_values-keeps ns name chart (ok values) h t =
        let r = planned_release k s adopt previous dry_run ns name chart values in
        apply_release-keeps r h (is_unchanged k s adopt previous r) refl refl t

    apply_component-keeps :
        (ns name : String) (chart : Option String) (h : History)
        → S h
        → S (apply_component k s adopt previous dry_run ns name chart h).1
    unfolding apply_component
    apply_component-keeps ns name none h t = t
    apply_component-keeps ns name (some chart) h t =
        apply_values-keeps ns name chart (s.resolve name) h t

    pub apply_plan-keeps :
        (ns : String) (cs : List ComponentPlan) (h : History)
        → S h
        → S (apply_plan k s adopt previous dry_run ns cs h).1
    unfolding apply_plan
    apply_plan-keeps ns [] h t = t
    apply_plan-keeps ns (c ∷ cs) h t =
        apply_plan-keeps ns cs (apply_component k s adopt previous dry_run ns c.name c.chart h).1
          (apply_component-keeps ns c.name c.chart h t)

  -- A call that an apply may make.
  abbrev pub IsAllowed : Bool → Call → History → Type 0
  IsAllowed dry_run (helm words stdin) b =
      ((dry_run ≡ false)
        × ((r : HelmRelease V) × ((words ≡ status_args r) ⊎ (words ≡ history_args r))))
      ⊎ ((r : HelmRelease V) × (words ≡ args r)
          × (stdin ≡ values_yaml s.print r)
          × (r.dry_run ≡ dry_run)
          × MayInstall dry_run r b)
  IsAllowed dry_run (count_workloads ns name) b = dry_run ≡ false
  IsAllowed dry_run (list_volumes ns label) b = ⊥
  IsAllowed dry_run (delete_volume ns name) b = ⊥
  IsAllowed dry_run (delete_cluster ns name) b = ⊥
  IsAllowed dry_run (patch_finalizers left) b = ⊥
  IsAllowed dry_run (ask r) b = ⊥

  -- An apply makes allowed calls only: it reads statuses, histories and workloads for no dry run, and
  -- it upgrades a release with the dry-run mode of the resource, and then for a dry run, with `adopt`
  -- on, or when the call before read a history that shows no other owner or could not be read.
  pub apply_plan-IsAllowed :
      (dry_run : Bool) (ns : String) (cs : List ComponentPlan) (h : History)
      → Throughout (IsAllowed dry_run) h
      → Throughout (IsAllowed dry_run) (apply_plan k s adopt previous dry_run ns cs h).1
  apply_plan-IsAllowed dry_run ns cs h t =
      apply_plan-keeps (Throughout (IsAllowed dry_run)) dry_run
        (λ words b wet what t. (inl (wet, what), t))
        (λ r b d may t. (inr (r, refl, refl, d, may), t)) (λ ns name b wet t. (wet, t)) ns cs h t
