-- ===== src/Crd/Pipeline/Kahn/Order.antt =====
-- The loop as a whole: it ends without a panic, in an order of the tasks that it counted.
use stardelt_operator.Common.{
  ℕ, zero, suc, ◌+◌, ◌≤◌, String, ◌≡◌, refl, subst, inl, inr, some, List, [], ◌∷◌, ◌++◌, arith,
  string_eq, Bool-cases, length, All, length-append, length-map, In, Distinct, In-middle_iff,
  Distinct-middle, Distinct-tail_append, All-In, In-All, contains, contains_iff, not-contains_iff,
  Map, length-le_of_subset, In-hits,
}
use stardelt_operator.Crd.Pipeline.Task.{PipelineTask, names}
use stardelt_operator.Crd.Pipeline.Kahn.{State, relax, run}
use stardelt_operator.Crd.Pipeline.Kahn.Relax.{Settled, Settled-transfer, relax_lem}

module _ (tasks : List PipelineTask) where
  -- The last taken stands first, and all that it depends on stands behind it.
  abbrev pub Runs : List String → Type 0
  Runs [] = Unit
  Runs (p ∷ taken) =
      ((t : PipelineTask) (d : String) → In t tasks → t.name ≡ p → In d t.depends_on → In d taken)
      × Runs taken

  pub record Inv (taken : List String) (s : State) : Type 0 where
    pub settled : All (Settled taken s.0 (s.1 ++ taken)) tasks
    pub distinct : Distinct (s.1 ++ taken)
    pub known : (k : String) → In k (s.1 ++ taken) → In k (names tasks)
    pub runs : Runs taken

  module _ (once : Distinct (names tasks)) where
    Inv-length :
        (taken : List String) (s : State) → Inv taken s → length (s.1 ++ taken) ≤ length tasks
    Inv-length taken s i = omega (
      arith,
      length-map (λ (t : PipelineTask). t.name) tasks,
      length-le_of_subset (s.1 ++ taken) (names tasks) i.distinct i.known,
    )

    -- One turn of the `while` loop.
    run_step :
        (taken : List String) (w : Map ℕ) (name : String) (ready : List String)
        → Inv taken (w, name ∷ ready)
        → (s' : State) × (relax name tasks (w, ready) ≡ some s') × Inv (name ∷ taken) s'
    run_step taken w name ready i =
        let moved = Distinct-middle name ready taken i.distinct in
        let once' : Distinct (name ∷ taken) = Distinct-tail_append ready (name ∷ taken) moved in
        let start = In-All {P = Settled taken w (ready ++ (name ∷ taken))} tasks λ t j.
          Settled-transfer refl (In-middle_iff name t.name ready taken)
            (All-In (Settled taken w ((name ∷ ready) ++ taken)) t tasks i.settled j) in
        let (s', relaxed, r) =
          relax_lem name taken (name ∷ taken) tasks (w, ready) once once' start moved in
        (
          s',
          relaxed,
          record {
            settled = r.settled;
            distinct = r.distinct;
            known = λ k j. elim (Bool-cases (contains (names tasks) k)) [
              | inl old ↦ (contains_iff (names tasks) k).0 old
              | inr new ↦
                  let f = r.frame k ((not-contains_iff (names tasks) k).0 new) in
                  i.known k ((In-middle_iff name k ready taken).0 (f.member.0 j))
            ];
            runs = (
              λ t d j e dep.
                  let st = All-In (Settled taken w ((name ∷ ready) ++ taken)) t tasks i.settled j in
                  In-hits t.depends_on taken once'.1 (st.queued_full (inl e)) d dep,
              i.runs,
            );
          },
        )

    -- With fuel for the tasks that are left the loop ends, and nothing is ready any more.
    pub run_lem :
        (fuel : ℕ) (taken : List String) (s : State)
        → Inv taken s
        → length tasks ≤ fuel + length taken
        → (taken' : List String) × (w : Map ℕ) × (run fuel tasks s (length taken)
            ≡ some (length taken'))
          × Inv taken' (w, [])
    unfolding run
    run_lem fuel taken (w, []) i f = (taken, w, run_done fuel, i)
      where
        run_done : (fuel : ℕ) → run fuel tasks (w, []) (length taken) ≡ some (length taken)
        run_done zero = refl
        run_done (suc n) = refl
    run_lem zero taken (w, name ∷ ready) i f =
        absurd (omega (arith, Inv-length taken (w, name ∷ ready) i, length-append ready taken))
    run_lem (suc fuel) taken (w, name ∷ ready) i f =
        let (s', relaxed, i') = run_step taken w name ready i in
        let (taken', w', ran, final) = run_lem fuel (name ∷ taken) s' i' (omega arith) in
        (taken', w', rw (relaxed, run) (step_to fuel s' taken' ran), final)
      where
        step_to :
            (fuel : ℕ) (s : State) (taken' : List String)
            → run fuel tasks s (length (name ∷ taken)) ≡ some (length taken')
            → run fuel tasks s (length taken + 1) ≡ some (length taken')
        step_to fuel s taken' e =
            subst (λ n. run fuel tasks s n ≡ some (length taken')) (omega arith) e
