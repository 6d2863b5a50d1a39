-- ===== src/Crd/Pipeline/Kahn/Acyclic.antt =====
-- The algorithm counts every task exactly when the tasks can be ordered.
use stardelt_operator.Common.{
  ℕ, zero, suc, ◌≤◌, ◌<◌, String, ◌≡◌, sym, ap, subst, ◌∙◌, ◌≢◌, ◌↔◌, inl, inr, eq_iff, some, List,
  [], ◌∷◌, arith, if◌then◌else◌, ◌==◌, string_eq, some-injective, length, All, length-map, In,
  Distinct, All-In, In-All, In-map, In-map_back, Map, length-le_of_subset, In-length, Distinct-hits,
  hits_full,
}
use stardelt_operator.Crd.Pipeline.Task.{PipelineTask, names, IsAcyclic}
use stardelt_operator.Crd.Pipeline.Kahn.{collect_waiting, free, kahn}
use stardelt_operator.Crd.Pipeline.Kahn.Relax.{Settled}
use stardelt_operator.Crd.Pipeline.Kahn.Order.{Runs, Inv, run_lem}
use stardelt_operator.Crd.Pipeline.Kahn.Start.{start_Inv}

-- The place of a task, counted from the first that was taken.
place_in : List String → String → ℕ
place_in [] k = 0
place_in (p ∷ taken) k = if p == k then suc (length taken) else place_in taken k

place_le : (taken : List String) (k : String) → place_in taken k ≤ length taken
unfolding place_in
place_le [] k = omega arith
place_le (p ∷ taken) k = ground (arith, place_le taken k)

place_behind :
    (p k : String) (taken : List String) → p ≢ k → place_in (p ∷ taken) k ≡ place_in taken k
unfolding place_in
place_behind p k taken ne = ground (arith, eq_iff p k)

place_first : (p : String) (taken : List String) → place_in (p ∷ taken) p ≡ suc (length taken)
unfolding place_in
place_first p taken = ground (arith, eq_iff p p)

-- Every dependency names a task.
abbrev pub HasKnownDeps : List PipelineTask → Type 0
HasKnownDeps tasks =
    (t : PipelineTask) (d : String) → In t tasks → In d t.depends_on → In d (names tasks)

-- No task lists a dependency twice.
abbrev pub HasDistinctDeps : List PipelineTask → Type 0
HasDistinctDeps tasks = All (λ t. Distinct t.depends_on) tasks

module _ (tasks : List PipelineTask) where
  module _ (t : PipelineTask) (d : String) (i : In t tasks) (dep : In d t.depends_on) where
    Runs-In : (taken : List String) → Runs tasks taken → In t.name taken → In d taken
    Runs-In [] r j = absurd j
    Runs-In (p ∷ taken) (r, rs) (inl e) = inr (r t d i e dep)
    Runs-In (p ∷ taken) (r, rs) (inr j) = inr (Runs-In taken rs j)

    Runs-lt :
        (taken : List String)
        → Runs tasks taken
        → Distinct taken
        → In t.name taken
        → place_in taken d < place_in taken t.name
    Runs-lt [] r dt j = absurd j
    Runs-lt (p ∷ taken) (r, rs) (np, dt) (inl e) =
        let d_in = r t d i e dep in
        let d_place = place_behind p d taken (λ e'. np (subst (λ x. In x taken) (sym e') d_in)) in
        let t_place : place_in (p ∷ taken) t.name ≡ suc (length taken) =
          subst (λ x. place_in (p ∷ taken) x ≡ suc (length taken)) (sym e) (place_first p taken) in
        let low = place_le taken d in omega arith
    Runs-lt (p ∷ taken) (r, rs) (np, dt) (inr j) =
        let ih = Runs-lt taken rs dt j in
        let d_in = Runs-In taken rs j in
        let d_place = place_behind p d taken (λ e'. np (subst (λ x. In x taken) (sym e') d_in)) in
        let t_place = place_behind p t.name taken (λ e'. np (subst (λ x. In x taken) (sym e') j)) in
        omega arith

  module _ (once : Distinct (names tasks)) where
    -- The algorithm always ends without a panic.
    pub kahn_total :
        (order : List String) × (w : Map ℕ) × (kahn tasks ≡ some (length order))
        × Inv tasks order (w, [])
    unfolding kahn
    kahn_total =
        run_lem tasks once (length tasks) []
          (collect_waiting [] tasks, free [] (collect_waiting [] tasks)) (start_Inv tasks once)
          (omega arith)

    module _ (order : List String) (w : Map ℕ) (i : Inv tasks order (w, [])) where
      length-names : length (names tasks) ≡ length tasks
      length-names = length-map (λ (t : PipelineTask). t.name) tasks

      full_sound : length order ≡ length tasks → IsAcyclic tasks × HasDistinctDeps tasks
      full_sound e =
          let all_in : (k : String) → In k (names tasks) → In k order =
            In-length order (names tasks) i.distinct i.known (omega (arith, length-names)) in
          let taken : (t : PipelineTask) → In t tasks → In t.name order =
            λ t j. all_in t.name (In-map (λ (t : PipelineTask). t.name) t tasks j) in
          (
            (place_in order, λ t d j dep. Runs-lt t d j dep order i.runs i.distinct (taken t j)),
            In-All tasks λ t j.
                let st = All-In (Settled order w order) t tasks i.settled j in
                Distinct-hits t.depends_on order i.distinct (st.queued_full (taken t j)),
          )

      module _ (known : HasKnownDeps tasks) (acyclic : IsAcyclic tasks)
          (deps : HasDistinctDeps tasks) where
        all_taken :
            (bound : ℕ) (t : PipelineTask) → In t tasks → acyclic.0 t.name < bound → In t.name order
        all_taken zero t j b = absurd (omega arith)
        all_taken (suc bound) t j b =
            let st = All-In (Settled order w order) t tasks i.settled j in
            let dd = All-In (λ (t : PipelineTask). Distinct t.depends_on) t tasks deps j in
            st.full_queued (
              hits_full t.depends_on order i.distinct dd λ d dep.
                let (u, ju, e) =
                  In-map_back (λ (t : PipelineTask). t.name) d tasks (known t d j dep) in
                let less = acyclic.1 t d j dep in
                subst (λ x. In x order) (sym e)
                  (all_taken bound u ju (let same = ap acyclic.0 e in omega arith)))

        full_complete : length order ≡ length tasks
        full_complete =
            let low = length-le_of_subset (names tasks) order once (λ k j.
              let (u, ju, e) = In-map_back (λ (t : PipelineTask). t.name) k tasks j in
              subst (λ x. In x order) (sym e)
                (all_taken (suc (acyclic.0 u.name)) u ju (omega arith))) in
            let high = length-le_of_subset order (names tasks) i.distinct i.known in
            omega (arith, length-names)

    -- Among tasks with distinct names and known dependencies, all are counted exactly when they
    -- can be ordered and none lists a dependency twice.
    pub kahn_iff :
        HasKnownDeps tasks
        → (kahn tasks ≡ some (length tasks)) ↔ (IsAcyclic tasks × HasDistinctDeps tasks)
    kahn_iff known =
        let (order, w, ran, i) = kahn_total in
        (
          λ h. full_sound order w i (some-injective (sym ran ∙ h)),
          λ h. ran ∙ ap some (full_complete order w i known h.0 h.1),
        )
