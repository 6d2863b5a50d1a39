-- ===== src/Controller/Deletion/Facts.antt =====
-- What the trace of a deletion says: which releases are settled and whether the data is gone.
use stardelt_operator.Common.{
  String, ◌≡◌, ◌⊎◌, inr, true, false, none, some, List, [], ◌∷◌, ◌++◌, string_eq, All, ok,
}
use stardelt_operator.Planner.{ComponentPlan}
use stardelt_operator.Helm.{HelmRelease, history_args, uninstall_args}
use stardelt_operator.Controller.Cluster.{Call, History, Cluster, Throughout, helm, delete_cluster}
use stardelt_operator.Controller.Deletion.{
  catalog_cluster, release_of, is_foreign, ignore_not_found, forget, reverse,
}

-- Some call of the trace, with the calls before it.
abbrev pub Sometime : (Call → History → Type 0) → History → Type 0
Sometime Q [] = ⊥
Sometime Q (c ∷ before) = Q c before ⊎ Sometime Q before

pub Throughout-map :
    (P Q : Call → History → Type 0) (h : History)
    → ((c : Call) (b : History) → P c b → Q c b)
    → Throughout P h
    → Throughout Q h
Throughout-map P Q [] f t = tt
Throughout-map P Q (c ∷ h) f (p, t) = (f c h p, Throughout-map P Q h f t)

module _ (k : Cluster) where
  -- The last call read the release's history and it is not another owner's, or cannot be read.
  abbrev pub Checked : {V : Type 0} → HelmRelease V → History → Type 0
  Checked r b =
      (older : History) × (b ≡ helm (history_args r) none ∷ older)
      × (is_foreign (k.on_helm older (history_args r) none) ≡ false)

  -- Helm uninstalled the release, or its history shows another owner.
  abbrev pub Settles : HelmRelease String → Call → History → Type 0
  Settles r c b =
      ((c ≡ helm (uninstall_args r) none) × (forget (k.on_helm b (uninstall_args r) none) ≡ ok tt))
      ⊎ ((c ≡ helm (history_args r) none) × (is_foreign (k.on_helm b (history_args r) none) ≡ true))

  abbrev pub IsSettled : String → History → ComponentPlan → Type 0
  IsSettled ns h c =
      (chart : String) → c.chart ≡ some chart → Sometime (Settles (release_of ns c chart)) h

  abbrev pub AllSettled : String → List ComponentPlan → History → Type 0
  AllSettled ns cs h = All (IsSettled ns h) cs

  -- The API server deleted the catalog's database cluster, or does not have it.
  abbrev pub DropsCatalog : String → Call → History → Type 0
  DropsCatalog ns c b =
      (c ≡ delete_cluster ns catalog_cluster)
      × (ignore_not_found (k.on_delete_cluster b ns catalog_cluster) ≡ ok tt)

  pub AllSettled-grow :
      (ns : String) (cs : List ComponentPlan) (c : Call) (h : History)
      → AllSettled ns cs h
      → AllSettled ns cs (c ∷ h)
  AllSettled-grow ns [] c h s = tt
  AllSettled-grow ns (d ∷ cs) c h (s, t) = (λ chart e. inr (s chart e), AllSettled-grow ns cs c h t)

  AllSettled-last :
      (ns : String) (h : History) (c : ComponentPlan) (cs : List ComponentPlan)
      → AllSettled ns (cs ++ c ∷ []) h
      → IsSettled ns h c × AllSettled ns cs h
  AllSettled-last ns h c [] s = (s.0, tt)
  AllSettled-last ns h c (d ∷ cs) (s, t) =
      let (last, rest) = AllSettled-last ns h c cs t in (last, (s, rest))

  pub AllSettled-reverse :
      (ns : String) (h : History) (cs : List ComponentPlan)
      → AllSettled ns (reverse cs) h
      → AllSettled ns cs h
  unfolding reverse
  AllSettled-reverse ns h [] s = tt
  AllSettled-reverse ns h (c ∷ cs) s =
      let (last, rest) = AllSettled-last ns h c (reverse cs) s in
      (last, AllSettled-reverse ns h cs rest)
