-- ===== src/Controller/Status/Tests.antt =====
-- Decisions on concrete statuses.
use stardelt_operator.Crd.Status.{Condition}
use stardelt_operator.Common.{
  ◌≡◌, refl, true, Option, none, some, List, [], ◌∷◌, nat_eq, string_eq, ℤ, pos,
}
use stardelt_operator.Controller.Apply.{ready_from_counts}
use stardelt_operator.Controller.Status.{
  Sibling, is_older, least, blocked_by, workload_ready, count_ready,
}
use stardelt_operator.Controller.Status.Transition.{after, transition_time_lem}

abbrev lakes : List Sibling
lakes = (some 20, "a") ∷ (some 10, "b") ∷ []

the_older_lake_owns : blocked_by "a" ((some 30, "z") ∷ lakes) ≡ some "b"
unfolding blocked_by least is_older
the_older_lake_owns = refl

abbrev loads : List (Option ℤ × Option ℤ)
loads = (none, some (pos 1)) ∷ (some (pos 0), none) ∷ []

loads_are_ready : ready_from_counts (count_ready (0, 0) loads).0 (count_ready (0, 0) loads).1 ≡ true
unfolding ready_from_counts count_ready workload_ready
loads_are_ready = refl

abbrev start : Condition
start = record {
  type_ = "Ready";
  status = "False";
  reason = some "Progressing";
  message = none;
  last_transition_time = some "08:00";
  observed_generation = none;
}

transition_time_lem_example :
    ((after none start (("Progressing", "08:01") ∷ [])).last_transition_time ≡ some "08:00")
    × ((after none start (
          ("Progressing", "08:01")
          ∷ ("Ready", "08:02")
          ∷ ("Ready", "08:03")
          ∷ [])).last_transition_time
        ≡ some "08:02")
transition_time_lem_example =
    transition_time_lem none start (("Progressing", "08:01") ∷ []) "Ready" "08:02"
      (("Ready", "08:03") ∷ []) (refl, tt) (λ e. cc) (refl, tt)
