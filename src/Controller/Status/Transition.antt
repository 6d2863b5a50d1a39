-- ===== src/Controller/Status/Transition.antt =====
-- The transition time of the Ready condition over a run of reconciles.
use stardelt_operator.Crd.Status.{Condition}
use stardelt_operator.Common.{
  String, ◌≡◌, refl, sym, ap, ◌∙◌, ◌≢◌, eq_iff, Option, some, List, [], ◌∷◌, ◌++◌, ◌==◌, nat_eq,
  string_eq, false_iff, All, All-map, ℤ,
}
use stardelt_operator.Controller.Status.{status_of, transition_time, ready_condition}

-- The conditions of successive reconciles, each with its phase and its time.
abbrev pub after : Option ℤ → Condition → List (String × String) → Condition
after generation c [] = c
after generation c ((phase, now) ∷ rest) =
    after generation (ready_condition phase generation (some c) now) rest

kept :
    (generation : Option ℤ) (c : Condition) (phase now : String)
    → status_of phase ≡ c.status
    → (ready_condition phase generation (some c) now).last_transition_time ≡ c.last_transition_time
unfolding ready_condition transition_time
kept generation c phase now e = rw ((eq_iff c.status (status_of phase)).1 (sym e)) refl

moved :
    (generation : Option ℤ) (c : Condition) (phase now : String)
    → status_of phase ≢ c.status
    → (ready_condition phase generation (some c) now).last_transition_time ≡ some now
unfolding ready_condition transition_time
moved generation c phase now n =
    rw
      ((false_iff (c.status == status_of phase) (eq_iff c.status (status_of phase))).1
        (λ e. n (sym e)))
      refl

says :
    (generation : Option ℤ) (c : Condition) (phase now : String)
    → (ready_condition phase generation (some c) now).status ≡ status_of phase
unfolding ready_condition
says generation c phase now = refl

after_same :
    (generation : Option ℤ) (c : Condition) (run : List (String × String))
    → All (λ (p : String × String). status_of p.0 ≡ c.status) run
    → ((after generation c run).last_transition_time ≡ c.last_transition_time)
      × ((after generation c run).status ≡ c.status)
after_same generation c [] s = (refl, refl)
after_same generation c ((phase, now) ∷ rest) (e, s) =
    let next = ready_condition phase generation (some c) now in
    let stays = says generation c phase now ∙ e in
    let (time, status) =
      after_same generation next rest
        (All-map (λ p (q : status_of p.0 ≡ c.status). q ∙ sym stays) rest s) in
    (time ∙ kept generation c phase now e, status ∙ stays)

after-append :
    (generation : Option ℤ) (c : Condition) (run more : List (String × String))
    → after generation c (run ++ more) ≡ after generation (after generation c run) more
after-append generation c [] more = refl
after-append generation c ((phase, now) ∷ rest) more =
    after-append generation (ready_condition phase generation (some c) now) rest more

-- As long as the phases of successive reconciles keep the status of the condition, it keeps its
-- transition time; a phase that changes the status sets it to the time of its reconcile, and it
-- stays while the later phases keep the new status.
pub transition_time_lem :
    (generation : Option ℤ) (c : Condition) (same : List (String × String)) (phase now : String)
    (later : List (String × String))
    → All (λ (p : String × String). status_of p.0 ≡ c.status) same
    → status_of phase ≢ c.status
    → All (λ (p : String × String). status_of p.0 ≡ status_of phase) later
    → ((after generation c same).last_transition_time ≡ c.last_transition_time)
      × ((after generation c (same ++ ((phase, now) ∷ later))).last_transition_time ≡ some now)
transition_time_lem generation c same phase now later s change l =
    let (time, status) = after_same generation c same s in
    let last = after generation c same in
    let next = ready_condition phase generation (some last) now in
    let turned = moved generation last phase now (λ e. change (e ∙ status)) in
    let (later_time, _) = after_same generation next later (
      All-map (λ p (q : status_of p.0 ≡ status_of phase). q ∙ sym (says generation last phase now))
        later l) in
    (
      time,
      ap (λ (x : Condition). x.last_transition_time)
            (after-append generation c same ((phase, now) ∷ later))
          ∙ later_time
          ∙ turned,
    )
