-- ===== src/Controller/Apply.antt =====
-- The apply of a plan: `apply_plan`. The values of a component (`resolve_component_values` and the
-- namespace put in) come from a parameter, and so do serde_json's reading of `helm status`, the hash
-- and the printers.
use stardelt_operator.Crd.Status.{ComponentStatus}
use stardelt_operator.Common.{
  ℕ, String, Bool, true, false, not, ◌&&◌, Option, none, some, List, [], ◌∷◌, ltb, if◌then◌else◌,
  ◌==◌, nat_eq, string_eq, all, any, Map, format, Result, ok, err,
}
use stardelt_operator.Planner.{ComponentPlan, chart_version, chart_repo}
use stardelt_operator.Helm.{HelmRelease, args, history_args, status_args, values_yaml, fingerprint}
use stardelt_operator.Controller.Cluster.{KubeError, Cluster, Run, helm, count_workloads}
use stardelt_operator.Controller.Deletion.{is_foreign}
pub mod Safety
pub mod Evidence
pub mod Phase
mod Tests

pub record PlanOutcome : Type 0 where
  pub components : List ComponentStatus
  pub values_resolved : Bool

-- What the code around `apply_plan` answers: values documents of type `V`.
pub record Surroundings (V : Type 0) : Type 0 where
  pub resolve : String → Result String V
  pub overrides : String → Map String
  pub print : V → String
  pub hash : List String → Option String → String
  -- `v["info"]["status"]` of the answer to `helm status`, where it is a string.
  pub read_status : String → Option String
  pub show_count : ℕ × ℕ → String
  pub show_error : KubeError → String
  pub profile_name : String

-- `total > 0 && ready == total`
unfoldable pub ready_from_counts : ℕ → ℕ → Bool
ready_from_counts ready total = ltb 0 total && ready == total

pub unready : String → String → ComponentStatus
unready name message = record {
  name = name;
  ready = false;
  message = some message;
  applied_hash = none;
}

abbrev pub foreign_message : String
foreign_message =
    "release exists and is not owned by this operator — set spec.adopt: true to take it over"

module _ {V : Type 0} (k : Cluster) (s : Surroundings V) (adopt : Bool)
    (previous : List ComponentStatus) where
  abbrev pub fingerprint_of : HelmRelease V → String
  fingerprint_of r = fingerprint s.print s.hash r

  -- `matches!(answer, Ok(out) if is_deployed(&out))`
  pub is_deployed : Result String String → Bool
  is_deployed (ok out) = elim (s.read_status out) [
    | none ↦ false
    | some status ↦ status == "deployed"
  ]
  is_deployed (err _) = false

  -- An earlier status with the same fingerprint.
  abbrev pub was_applied : HelmRelease V → ComponentStatus → Bool
  was_applied r p =
      p.name == r.name
      && p.ready
      && elim p.applied_hash [ none ↦ false | some f ↦ f == fingerprint_of r ]

  unfoldable pub is_unchanged : HelmRelease V → Bool
  is_unchanged r = not r.dry_run && any (was_applied r) previous

  -- After the upgrade, the count of the workloads that it left.
  unfoldable pub counted : HelmRelease V → Result KubeError (ℕ × ℕ) → ComponentStatus
  counted r (ok n) = record {
    name = r.name;
    ready = ready_from_counts n.0 n.1;
    message = some (s.show_count n);
    applied_hash = some (fingerprint_of r);
  }
  counted r (err e) = unready r.name (s.show_error e)

  unfoldable pub installed : HelmRelease V → Bool → Result String String → Run ComponentStatus
  installed r dry_run (err e) h = (unready r.name e, h)
  installed r true (ok _) h =
      (unready r.name (format ("planned (dry-run, profile=" ∷ s.profile_name ∷ ")" ∷ [])), h)
  installed r false (ok _) h =
      (counted r (k.on_count h r.namespace r.name), count_workloads r.namespace r.name ∷ h)

  unfoldable pub install : HelmRelease V → Run ComponentStatus
  install r h =
      installed r r.dry_run (k.on_helm h (args r) (values_yaml s.print r))
        (helm (args r) (values_yaml s.print r) ∷ h)

  pub install_unless : Bool → HelmRelease V → Run ComponentStatus
  install_unless true r h = (unready r.name foreign_message, h)
  install_unless false r h = install r h

  -- The adopt guard, where it is on: no dry run and no `adopt`.
  unfoldable pub guard : Bool → HelmRelease V → Run ComponentStatus
  guard true r h =
      install_unless (is_foreign (k.on_helm h (history_args r) none)) r
        (helm (history_args r) none ∷ h)
  guard false r h = install r h

  abbrev pub guards : HelmRelease V → Bool
  guards r = not r.dry_run && not adopt

  pub skip_if : Bool → HelmRelease V → Run ComponentStatus
  skip_if true r h = (
    record {
      name = r.name;
      ready = true;
      message = some "unchanged";
      applied_hash = some (fingerprint_of r);
    },
    h,
  )
  skip_if false r h = guard (guards r) r h

  -- An unchanged component that Helm still reports as deployed is left alone.
  unfoldable pub apply_release : Bool → HelmRelease V → Run ComponentStatus
  apply_release true r h =
      skip_if (is_deployed (k.on_helm h (status_args r) none)) r (helm (status_args r) none ∷ h)
  apply_release false r h = guard (guards r) r h

  abbrev pub planned_release : Bool → String → String → String → V → HelmRelease V
  planned_release dry_run namespace name chart values = record {
    name = name;
    chart = chart;
    repo = chart_repo chart;
    version = chart_version chart;
    namespace = namespace;
    dry_run = dry_run;
    set = s.overrides name;
    values = some values;
  }

  -- The status of a component and whether its values were resolved.
  unfoldable pub apply_values :
      Bool → String → String → String → Result String V → Run (ComponentStatus × Bool)
  apply_values dry_run namespace name chart (err message) h = ((unready name message, false), h)
  apply_values dry_run namespace name chart (ok values) h =
      let r = planned_release dry_run namespace name chart values in
      let (status, after) = apply_release (is_unchanged r) r h in ((status, true), after)

  unfoldable pub apply_component :
      Bool → String → String → Option String → Run (ComponentStatus × Bool)
  apply_component dry_run namespace name none h = ((unready name "no adapter yet", true), h)
  apply_component dry_run namespace name (some chart) h =
      apply_values dry_run namespace name chart (s.resolve name) h

  unfoldable pub apply_plan : Bool → String → List ComponentPlan → Run PlanOutcome
  apply_plan dry_run namespace [] h = (record { components = []; values_resolved = true }, h)
  apply_plan dry_run namespace (c ∷ cs) h =
      let ((status, resolved), after) = apply_component dry_run namespace c.name c.chart h in
      let (rest, last) = apply_plan dry_run namespace cs after in
      (
        record {
          components = status ∷ rest.components;
          values_resolved = resolved && rest.values_resolved;
        },
        last,
      )

unfoldable pub phase : Bool → PlanOutcome → String
phase dry_run outcome =
    if not outcome.values_resolved
    then "Degraded"
    else if dry_run
    then "Planned"
    else if all (λ (c : ComponentStatus). c.ready) outcome.components
    then "Ready"
    else "Progressing"
