-- ===== src/Controller/Status.antt =====
-- The decisions around an apply: which lakehouse owns a namespace, which releases wait, when a release's
-- workloads are ready, and the Ready condition of a status.
use Prim.Native.String.{compare}
use text.Mathlib.Text.{is_lt}
use stardelt_operator.Crd.Status.{Condition}
use stardelt_operator.Common.{
  ℕ, ◌+◌, String, Bool, true, false, ◌&&◌, ◌||◌, Option, none, some, List, [], ◌∷◌, ltb,
  if◌then◌else◌, ◌==◌, nat_eq, string_eq, ℤ, leb_ℤ, pos,
}
use stardelt_operator.Controller.Apply.{phase}
pub mod Transition
pub mod Owner
pub mod Workloads
mod Tests

abbrev pub status_of : String → String
status_of phase = if phase == "Ready" then "True" else "False"

-- `Some(p) if p.status == status`
pub transition_time : String → Option Condition → String → Option String
transition_time status none now = some now
transition_time status (some p) now =
    if p.status == status then p.last_transition_time else some now

pub ready_condition : String → Option ℤ → Option Condition → String → Condition
ready_condition phase generation previous now = record {
  type_ = "Ready";
  status = status_of phase;
  reason = some phase;
  message = none;
  last_transition_time = transition_time (status_of phase) previous now;
  observed_generation = generation;
}

-- A lakehouse of the namespace: its creation time, where it has one, and its name.
abbrev pub Sibling : Type 0
Sibling = Option ℕ × String

-- The order of `(Option<Time>, String)`.
abbrev older_name : String → String → Bool
older_name a b = is_lt (compare a b)

unfoldable pub is_older : Sibling → Sibling → Bool
is_older (none, a) (none, b) = older_name a b
is_older (none, a) (some t, b) = true
is_older (some s, a) (none, b) = false
is_older (some s, a) (some t, b) = ltb s t || (s == t && older_name a b)

-- `iter().min()`, from the least so far.
unfoldable pub least : Sibling → List Sibling → Sibling
least best [] = best
least best (x ∷ xs) = least (if is_older x best then x else best) xs

-- `Some((_, oldest)) if oldest != name => Some(oldest)`
unfoldable pub blocked_by : String → List Sibling → Option String
blocked_by name [] = none
blocked_by name (x ∷ xs) =
    let oldest = (least x xs).1 in if oldest == name then none else some oldest

-- `match component`
unfoldable pub release_ready : String → Bool → Bool → Bool → Bool
release_ready component database_ready openfga_ready trino_ready =
    if component == "lakekeeper"
    then database_ready
    else if component == "openfga"
    then openfga_ready
    else if component == "trino"
    then trino_ready
    else true

abbrev unwrap_or : ℤ → Option ℤ → ℤ
unwrap_or d none = d
unwrap_or d (some n) = n

pub workload_ready : Option ℤ → Option ℤ → Bool
workload_ready desired ready = leb_ℤ (unwrap_or (pos 1) desired) (unwrap_or (pos 0) ready)

-- The loop of `workloads_ready` over the workloads that were listed.
pub count_ready : ℕ × ℕ → List (Option ℤ × Option ℤ) → ℕ × ℕ
count_ready (ready, total) [] = (ready, total)
count_ready (ready, total) (w ∷ ws) =
    count_ready ((if workload_ready w.0 w.1 then ready + 1 else ready), total + 1) ws
