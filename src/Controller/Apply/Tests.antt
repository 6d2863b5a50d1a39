-- ===== src/Controller/Apply/Tests.antt =====
-- Applies on concrete clusters.
use stardelt_operator.Crd.Status.{ComponentStatus}
use stardelt_operator.Common.{
  String, ◌≡◌, refl, true, false, none, some, List, [], ◌∷◌, map, if◌then◌else◌, nat_eq, string_eq,
  All, contains, get, bytes, starts, contains_bytes, format, ok,
}
use stardelt_operator.Planner.{ComponentPlan, chart_version, chart_repo}
use stardelt_operator.Helm.{owner_marker, args, history_args, is_owned}
use stardelt_operator.Controller.Cluster.{History, Cluster, Throughout}
use stardelt_operator.Controller.Deletion.{is_foreign}
use stardelt_operator.Controller.Deletion.Facts.{}
use stardelt_operator.Controller.Apply.{
  PlanOutcome, Surroundings, ready_from_counts, unready, is_unchanged, counted, installed, install,
  install_unless, guard, apply_release, apply_values, apply_component, apply_plan,
}
use stardelt_operator.Controller.Apply.Safety.{IsAllowed, apply_plan-IsAllowed}
use stardelt_operator.Controller.Apply.Evidence.{HasEvidence, apply_plan-HasEvidence}
use stardelt_operator.Controller.Apply.Phase.{}

-- Another owner's `trino`; every other release is this operator's, with two workloads ready.
abbrev shared : Cluster
shared = record {
  on_helm =
      λ h words stdin. if contains words "trino" then ok "installed by hand" else ok owner_marker;
  on_list = λ h ns label. ok [];
  on_delete_volume = λ h ns name. ok tt;
  on_delete_cluster = λ h ns name. ok tt;
  on_patch = λ h left. ok tt;
  on_count = λ h ns name. ok (2, 2);
}

abbrev plain : Surroundings String
plain = record {
  resolve = λ name. ok "{}";
  overrides = λ name. [];
  print = λ document. document;
  hash = λ words document. format words;
  read_status = λ out. none;
  show_count = λ n. "counted";
  show_error = λ e. "failed";
  profile_name = "demo";
}

abbrev two : List ComponentPlan
two =
    record { name = "openfga"; chart = some "openfga/openfga" }
    ∷ record { name = "trino"; chart = some "trino/trino" }
    ∷ []

abbrev applied : PlanOutcome × History
applied = apply_plan shared plain false [] false "analytics" two []

the_foreign_release_is_refused :
    map (λ (c : ComponentStatus). c.ready) applied.0.components ≡ true ∷ false ∷ []
unfolding apply_plan apply_component apply_values apply_release is_unchanged guard install_unless
    is_foreign is_owned contains_bytes starts bytes install installed counted ready_from_counts
    unready history_args args contains chart_repo get chart_version
the_foreign_release_is_refused = refl

apply_plan-IsAllowed_example : Throughout (IsAllowed shared plain false [] false) applied.1
apply_plan-IsAllowed_example =
    apply_plan-IsAllowed shared plain false [] false "analytics" two [] tt

apply_plan-HasEvidence_example :
    (map (λ (c : ComponentStatus). c.name) applied.0.components
      ≡ map (λ (c : ComponentPlan). c.name) two)
    × All (HasEvidence shared plain false [] false "analytics" applied.1) applied.0.components
apply_plan-HasEvidence_example =
    apply_plan-HasEvidence shared plain false [] false "analytics" two []
