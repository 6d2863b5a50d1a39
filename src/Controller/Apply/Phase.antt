-- ===== src/Controller/Apply/Phase.antt =====
-- The phase that a status reports.
use stardelt_operator.Crd.Status.{ComponentStatus}
use stardelt_operator.Common.{
  String, ◌≡◌, refl, ◌↔◌, Bool, true, false, not, if◌then◌else◌, string_eq, all,
}
use stardelt_operator.Controller.Apply.{PlanOutcome, phase}

from_tests :
    (dry resolved every : Bool)
    → (◌≡◌ {A = String}
        (if not resolved
          then "Degraded"
          else if dry
          then "Planned"
          else if every
          then "Ready"
          else "Progressing")
        "Ready")
      ↔ ((resolved ≡ true) × (dry ≡ false) × (every ≡ true))
from_tests true true true = (λ e. cc, λ e. cc)
from_tests true true false = (λ e. cc, λ e. cc)
from_tests false true true = (λ e. (refl, refl, refl), λ e. refl)
from_tests false true false = (λ e. cc, λ e. cc)
from_tests true false true = (λ e. cc, λ e. cc)
from_tests true false false = (λ e. cc, λ e. cc)
from_tests false false true = (λ e. cc, λ e. cc)
from_tests false false false = (λ e. cc, λ e. cc)

-- The phase is Ready exactly when this is no dry run, every component's values were resolved and
-- every component is ready.
pub phase-Ready_iff :
    (dry_run : Bool) (o : PlanOutcome)
    → (phase dry_run o ≡ "Ready") ↔ (
        (o.values_resolved ≡ true)
        × (dry_run ≡ false)
        × (all (λ (c : ComponentStatus). c.ready) o.components ≡ true))
unfolding phase
phase-Ready_iff dry_run o =
    from_tests dry_run o.values_resolved (all (λ (c : ComponentStatus). c.ready) o.components)
