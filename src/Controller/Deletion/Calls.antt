-- ===== src/Controller/Deletion/Calls.antt =====
-- The calls that each step of a deletion adds to the trace.
use stardelt_operator.Common.{
  String, ◌≡◌, refl, Bool, true, false, List, [], ◌∷◌, nat_eq, string_eq, Result, ok, err,
}
use stardelt_operator.Planner.{}
use stardelt_operator.Helm.{}
use stardelt_operator.Controller.Cluster.{
  History, KubeError, Cluster, continue_rule, list_volumes, delete_volume, delete_cluster,
}
use stardelt_operator.Controller.Deletion.{
  seaweedfs_volume_selector, catalog_cluster, delete_one, delete_volumes, delete_listed,
  delete_store, delete_catalog, delete_lakehouse_data,
}

module _ (k : Cluster) (S : History → Type 0) where
  -- A property of the trace that a loop over the volumes keeps.
  delete_volumes-keeps :
      (ns : String) (names : List String) (h : History)
      → ((name : String) (b : History) → S b → S (delete_volume ns name ∷ b))
      → S h
      → S (delete_volumes k ns names h).1
  unfolding delete_volumes delete_one
  delete_volumes-keeps ns [] h f t = t
  delete_volumes-keeps ns (name ∷ names) h f t =
      continue_rule (λ r. S r.1) (delete_one k ns name h) (delete_volumes k ns names)
        (λ done. delete_volumes-keeps ns names (delete_volume ns name ∷ h) f (f name h t))
        (λ e failed. (f name h t))

  delete_listed-keeps :
      (ns : String) (answer : Result KubeError (List String)) (h : History)
      → ((name : String) (b : History) → S b → S (delete_volume ns name ∷ b))
      → S h
      → S (delete_listed k ns answer h).1
  unfolding delete_listed
  delete_listed-keeps ns (ok names) h f t = delete_volumes-keeps ns names h f t
  delete_listed-keeps ns (err e) h f t = t

  delete_store-keeps :
      (ns : String) (store : Bool) (h : History)
      → (store ≡ true → (b : History) → S b → S (list_volumes ns seaweedfs_volume_selector ∷ b))
      → (store ≡ true → (name : String) (b : History) → S b → S (delete_volume ns name ∷ b))
      → S h
      → S (delete_store k ns store h).1
  unfolding delete_store
  delete_store-keeps ns true h l v t =
      delete_listed-keeps ns (k.on_list h ns seaweedfs_volume_selector)
        (list_volumes ns seaweedfs_volume_selector ∷ h) (v refl) (l refl h t)
  delete_store-keeps ns false h l v t = t

  pub delete_lakehouse_data-keeps :
      (ns : String) (store : Bool) (h : History)
      → ((b : History) → S b → S (delete_cluster ns catalog_cluster ∷ b))
      → (store ≡ true → (b : History) → S b → S (list_volumes ns seaweedfs_volume_selector ∷ b))
      → (store ≡ true → (name : String) (b : History) → S b → S (delete_volume ns name ∷ b))
      → S h
      → S (delete_lakehouse_data k ns store h).1
  unfolding delete_lakehouse_data delete_catalog
  delete_lakehouse_data-keeps ns store h c l v t =
      let kept = delete_store-keeps ns store h l v t in
      continue_rule (λ r. S r.1) (delete_store k ns store h) (delete_catalog k ns)
        (λ done. c (delete_store k ns store h).1 kept) (λ e failed. kept)
