-- ===== src/Controller/Reconcile/Steps.antt =====
-- The calls that the steps of `reconcile_lakehouse` add to the trace.
use stardelt_operator.Crd.Status.{ComponentStatus}
use stardelt_operator.Planner.{StorageImpl}
use stardelt_operator.Controller.Cluster.{
  Provision, Extra, Request, History, bootstrap, discovery, notebooks_bucket, archive,
  network_policy, openfga_policy, spark, list_lakehouses, read_identity, read_key_material,
  read_stamp, provide, provide_extra, patch_status, ask,
}
use stardelt_operator.Controller.Deletion.{}
use stardelt_operator.Controller.Apply.{}
use stardelt_operator.Controller.Reconcile.{
  Provisioner, Gates, charts_ready, trino_ready_of, stamp_of, ensure, ensure_extra, bootstrap_if,
  complete,
}
use stardelt_operator.Common.{String, Bool, true, false, ◌&&◌, ◌||◌, List, ◌∷◌}

-- A request of a step, neither the listing nor a status.
abbrev pub IsStep : Request → Type 0
IsStep (list_lakehouses ns) = ⊥
IsStep (patch_status s) = ⊥
IsStep (read_identity ns) = Unit
IsStep (read_key_material ns) = Unit
IsStep (read_stamp ns) = Unit
IsStep (provide step ns) = Unit
IsStep (provide_extra step ns) = Unit

module _ (p : Provisioner) (S : History → Type 0)
    (asks : (r : Request) (b : History) → IsStep r → S b → S (ask r ∷ b)) where
  pub trino_ready_of-keeps :
      (dry identity : Bool) (ns : String) (h : History)
      → S h
      → S (trino_ready_of p dry identity ns h).1
  unfolding trino_ready_of
  trino_ready_of-keeps true identity ns h t = t
  trino_ready_of-keeps false false ns h t = t
  trino_ready_of-keeps false true ns h t = asks (read_key_material ns) h tt t

  pub stamp_of-keeps :
      (wanted : Bool) (ns : String) (h : History) → S h → S (stamp_of p wanted ns h).1
  unfolding stamp_of
  stamp_of-keeps true ns h t = asks (read_stamp ns) h tt t
  stamp_of-keeps false ns h t = t

  pub ensure-keeps : (step : Provision) (ns : String) (h : History) → S h → S (ensure p step ns h).1
  unfolding ensure
  ensure-keeps step ns h t = asks (provide step ns) h tt t

  ensure_extra-keeps :
      (wanted : Bool) (step : Extra) (ns : String) (h : History)
      → S h
      → S (ensure_extra p wanted step ns h).1
  unfolding ensure_extra
  ensure_extra-keeps true step ns h t = asks (provide_extra step ns) h tt t
  ensure_extra-keeps false step ns h t = t

  bootstrap_if-keeps :
      (wanted : Bool) (ns : String) (h : History) → S h → S (bootstrap_if p wanted ns h).1
  unfolding bootstrap_if
  bootstrap_if-keeps true ns h t = ensure-keeps bootstrap ns h t
  bootstrap_if-keeps false ns h t = t

  pub complete-keeps :
      (g : Gates) (storage : StorageImpl) (ns : String) (first applied : List ComponentStatus)
      (h : History)
      → S h
      → S (complete p g storage ns first applied h).1
  unfolding complete
  complete-keeps g storage ns first applied h t =
      let is_open = charts_ready storage applied || g.dry_run in
      let (bootstrapped, h1) = bootstrap_if p is_open ns h in
      let ready = bootstrapped.ready in
      let h2 = (ensure_extra p is_open notebooks_bucket ns h1).1 in
      let h3 = (ensure_extra p is_open archive ns h2).1 in
      let h4 = (ensure_extra p (ready || g.dry_run) network_policy ns h3).1 in
      let h5 = (ensure_extra p true openfga_policy ns h4).1 in
      let h6 = (ensure_extra p true spark ns h5).1 in
      let t1 = bootstrap_if-keeps is_open ns h t in
      let t2 = ensure_extra-keeps is_open notebooks_bucket ns h1 t1 in
      let t3 = ensure_extra-keeps is_open archive ns h2 t2 in
      let t4 = ensure_extra-keeps (ready || g.dry_run) network_policy ns h3 t3 in
      let t5 = ensure_extra-keeps true openfga_policy ns h4 t4 in
      let t6 = ensure_extra-keeps true spark ns h5 t5 in
      ensure-keeps (discovery ready (g.identity_contract && g.trino_ready)) ns h6 t6
