-- ===== src/Controller/Reconcile/Tests.antt =====
-- Two lakehouses of a namespace: the older one is installed, the younger one is blocked.
use stardelt_operator.Crd.Status.{}
use stardelt_operator.Planner.{plan_lakehouse, lakekeeper, byo_s3, retain}
use stardelt_operator.Helm.{}
use stardelt_operator.Controller.Cluster.{
  History, Cluster, Throughout, list_lakehouses, patch_status, ask,
}
use stardelt_operator.Controller.Deletion.{
  Lakehouse, patch_unless, ensure_lakehouse_finalizer, requeue,
}
use stardelt_operator.Controller.Apply.{
  Surroundings, ready_from_counts, is_unchanged, counted, installed, install, guard, apply_release,
  apply_values, apply_component, apply_plan, phase,
}
use stardelt_operator.Controller.Status.{is_older, least, blocked_by, release_ready}
use stardelt_operator.Controller.Reconcile.{
  Provisioner, waiting, is_ready_in, charts_ready, status_with, blocked_status,
  patch_lakehouse_status, trino_ready_of, stamp_of, ensure, ensure_extra, bootstrap_if, complete,
  report, report_blocked, apply_gated, provision, reconcile_owned, reconcile_listed,
  reconcile_present, reconcile_lakehouse,
}
use stardelt_operator.Controller.Reconcile.Protocol.{Follows}
use stardelt_operator.Controller.Reconcile.Refinement.{reconcile_lakehouse-Follows}
use stardelt_operator.Controller.Reconcile.Ownership.{IsRightful, reconcile_lakehouse-IsRightful}
use stardelt_operator.Controller.Reconcile.Backing.{TellsTruth}
use stardelt_operator.Controller.Reconcile.Readiness.{reconcile_lakehouse-TellsTruth}
use stardelt_operator.Common.{
  String, ◌≡◌, refl, Bool, true, false, Option, none, some, [], ◌∷◌, nat_eq, string_eq, contains,
  format, ok,
}

abbrev lake_named : String → Lakehouse
lake_named name = record {
  name = name;
  namespace = some "analytics";
  is_deleted = false;
  generation = none;
  finalizers = [];
  status = none;
  spec = record {
    catalog = lakekeeper;
    storage = byo_s3;
    dry_run = false;
    adopt = true;
    deletion_policy = retain;
  };
}

abbrev healthy : Cluster
healthy = record {
  on_helm = λ h words stdin. ok "";
  on_list = λ h ns label. ok [];
  on_delete_volume = λ h ns name. ok tt;
  on_delete_cluster = λ h ns name. ok tt;
  on_patch = λ h left. ok tt;
  on_count = λ h ns name. ok (1, 1);
}

abbrev steady : Provisioner
steady = record {
  on_lakehouses = λ h ns. ok ((some 5, "young") ∷ (some 3, "old") ∷ []);
  on_identity = λ h ns. false;
  on_key_material = λ h ns. false;
  on_stamp = λ h ns. none;
  on_provide =
      λ h step ns. record { name = "step"; ready = true; message = none; applied_hash = none };
  on_extra = λ h step ns. none;
  on_status = λ h s. ok tt;
  now = λ h. "08:00";
}

abbrev plain_values : Bool → Option String → Surroundings String
plain_values identity stamp = record {
  resolve = λ name. ok "{}";
  overrides = λ name. [];
  print = λ document. document;
  hash = λ words document. format words;
  read_status = λ out. none;
  show_count = λ n. "counted";
  show_error = λ e. "failed";
  profile_name = "demo";
}

the_younger_is_blocked : reconcile_lakehouse healthy steady plain_values (lake_named "young") [] ≡ (
  ok (requeue 30),
  ask (patch_status (blocked_status (lake_named "young") "old" "08:00"))
      ∷ ask (list_lakehouses "analytics")
      ∷ [],
)
unfolding reconcile_lakehouse reconcile_present reconcile_listed reconcile_owned report_blocked
    patch_lakehouse_status blocked_by least is_older
the_younger_is_blocked = refl

reconcile_lakehouse-IsRightful_example :
    Throughout
      (IsRightful healthy steady plain_values (lake_named "old"))
      (reconcile_lakehouse healthy steady plain_values (lake_named "old") []).1
reconcile_lakehouse-IsRightful_example =
    reconcile_lakehouse-IsRightful healthy steady plain_values (lake_named "old")

reconcile_lakehouse-TellsTruth_example :
    Throughout
      (TellsTruth healthy steady plain_values (lake_named "old"))
      (reconcile_lakehouse healthy steady plain_values (lake_named "old") []).1
reconcile_lakehouse-TellsTruth_example =
    reconcile_lakehouse-TellsTruth healthy steady plain_values (lake_named "old")

-- The phase of the last call, where it writes a status.
abbrev last_phase : History → Option String
last_phase [] = none
last_phase (ask (patch_status s) ∷ h) = some s.phase
last_phase (other ∷ h) = none

-- The older one is applied, and its status is the last call.
the_older_is_ready :
    last_phase (reconcile_lakehouse healthy steady plain_values (lake_named "old") []).1
    ≡ some "Ready"
unfolding reconcile_lakehouse reconcile_present reconcile_listed reconcile_owned blocked_by least
    is_older ensure_lakehouse_finalizer patch_unless contains provision apply_gated complete report
    patch_lakehouse_status trino_ready_of stamp_of ensure ensure_extra bootstrap_if status_with
    plan_lakehouse release_ready apply_plan apply_component apply_values apply_release is_unchanged
    guard install installed counted ready_from_counts phase waiting charts_ready is_ready_in
the_older_is_ready = refl

reconcile_lakehouse-Follows_example :
    Follows healthy steady plain_values
      (lake_named "old")
      (reconcile_lakehouse healthy steady plain_values (lake_named "old") [])
reconcile_lakehouse-Follows_example =
    reconcile_lakehouse-Follows healthy steady plain_values (lake_named "old") refl
