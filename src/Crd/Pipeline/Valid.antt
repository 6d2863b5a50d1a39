-- ===== src/Crd/Pipeline/Valid.antt =====
-- What an accepted pipeline is, and that `validate` accepts nothing else.
use stardelt_operator.Common.{
  ℕ, String, ◌≡◌, refl, sym, ap, subst, ◌∙◌, ◌≢◌, ◌↔◌, ◌⊎◌, inl, inr, true, false, not, ◌&&◌, ◌||◌,
  false≢true, eq_iff, Option, none, some, List, [], ◌∷◌, arith, ◌==◌, nat_eq, string_eq, Bool-cases,
  some-injective, false_iff, is_some, length, All, In, Distinct, All-In, In-All, contains,
  contains_iff, All-fresh, All-fresh_back, All-not-In-nil, not-contains_iff, Map, ◌>>◌, reject,
  reject_then_iff, then_iff, not-false_iff, Validated, Result-cases, ok, err,
}
use stardelt_operator.Crd.Names.{group_name_ok}
use stardelt_operator.Crd.Names.Shape.{IsGroupName, group_name_ok_iff}
use stardelt_operator.Crd.Pipeline.Task.{
  TaskKind, PipelineTask, names, IsAcyclic, sql_task, notebook_task, python_task, dbt_task,
  quality_task,
}
use stardelt_operator.Crd.Pipeline.Notebook.{}
use stardelt_operator.Crd.Pipeline.Notebook.Valid.{IsNotebookTask, validate_notebook_task_iff}
use stardelt_operator.Crd.Pipeline.Kahn.{kahn}
use stardelt_operator.Crd.Pipeline.Kahn.Acyclic.{
  HasKnownDeps, HasDistinctDeps, kahn_total, kahn_iff,
}
use stardelt_operator.Crd.Pipeline.{
  PipelineSpec, bad_group, is_sql, is_notebook, circle_message, check_deps, check_all_deps, finish,
  and_then, check_kind, check_tasks, validate,
}

abbrev pub HasGoodGroup : Option String → Type 0
HasGoodGroup o = (group : String) → o ≡ some group → IsGroupName group

bad_group_iff : (o : Option String) → (bad_group o ≡ false) ↔ HasGoodGroup o
unfolding bad_group
bad_group_iff none = (λ h g e. cc, λ f. refl)
bad_group_iff (some group) =
    let (there, back) = not-false_iff (group_name_ok group) (group_name_ok_iff group) in
    (λ h g e. subst IsGroupName (some-injective e) (there h), λ f. back (f group refl))

-- A sql task has a statement.
abbrev pub HasStatement : PipelineTask → Type 0
HasStatement t = t.kind ≡ sql_task → t.sql ≢ none

needs_sql_iff :
    (k : TaskKind) (sql : Option String)
    → ((is_sql k && not (is_some sql)) ≡ false) ↔ (k ≡ sql_task → sql ≢ none)
unfolding is_sql
needs_sql_iff sql_task none = (λ h. cc, λ f. absurd (f refl refl))
needs_sql_iff sql_task (some s) = (λ h e n. cc, λ f. refl)
needs_sql_iff notebook_task sql = (λ h e. cc, λ f. refl)
needs_sql_iff python_task sql = (λ h e. cc, λ f. refl)
needs_sql_iff dbt_task sql = (λ h e. cc, λ f. refl)
needs_sql_iff quality_task sql = (λ h e. cc, λ f. refl)

is_notebook_iff : (k : TaskKind) → (is_notebook k ≡ true) ↔ (k ≡ notebook_task)
unfolding is_notebook
is_notebook_iff k = (λ h. ground arith, λ h. ground arith)

check_deps_iff :
    (known : List String) (name : String) (deps : List String)
    → (check_deps known name deps ≡ ok tt) ↔ All (λ d. (d ≢ name) × In d known) deps
unfolding check_deps
check_deps_iff known name [] = (λ h. tt, λ h. refl)
check_deps_iff known name (d ∷ deps) =
    reject_then_iff _ _ _ (dep_iff d) (check_deps_iff known name deps)
  where
    dep_iff :
        (d : String) → ((d == name || not (contains known d)) ≡ false) ↔ ((d ≢ name) × In d known)
    dep_iff d =
        let (same, same') = false_iff (d == name) (eq_iff d name) in
        let (old, old') = contains_iff known d in
        (
          λ h. (same (ground arith), old (ground arith)),
          λ h. let x = same' h.0 in let y = old' h.1 in ground arith,
        )

check_all_deps_iff :
    (known : List String) (ts : List PipelineTask)
    → (check_all_deps known ts ≡ ok tt)
      ↔ All (λ t. All (λ d. (d ≢ t.name) × In d known) t.depends_on) ts
unfolding check_all_deps
check_all_deps_iff known [] = (λ h. tt, λ h. refl)
check_all_deps_iff known (t ∷ ts) =
    then_iff _ _ (check_deps_iff known t.name t.depends_on) (check_all_deps_iff known ts)

module _ (parse_object : String → Option (Map String)) where
  abbrev pub IsTask : PipelineTask → Type 0
  IsTask t = HasStatement t × (t.kind ≡ notebook_task → IsNotebookTask parse_object t)

  -- Distinct names, sound tasks, dependencies on tasks of the pipeline, each listed once, and an
  -- order in which they can run.
  pub record IsValid (p : PipelineSpec) : Type 0 where
    pub group : HasGoodGroup p.owner_group
    pub distinct : Distinct (names p.tasks)
    pub sound : All IsTask p.tasks
    pub known : HasKnownDeps p.tasks
    pub acyclic : IsAcyclic p.tasks
    pub once : HasDistinctDeps p.tasks

  check_kind_iff :
      (t : PipelineTask)
      → (check_kind parse_object t ≡ ok tt)
        ↔ (t.kind ≡ notebook_task → IsNotebookTask parse_object t)
  unfolding check_kind
  check_kind_iff t =
      let (nb, nb') = is_notebook_iff t.kind in
      let (there, back) = validate_notebook_task_iff parse_object t in
      elim (Bool-cases (is_notebook t.kind)) [
        | inl is_nb ↦ rw (is_nb, check_kind) (λ h e. there h, λ f. back (f (nb is_nb)))
        | inr other ↦
            rw (other, check_kind) (λ h e. absurd (false≢true (sym other ∙ nb' e)), λ f. refl)
      ]

  check_tasks_iff :
      (seen : List String) (ts : List PipelineTask)
      → (check_tasks parse_object seen ts ≡ ok tt)
        ↔ ((All (λ n. ¬ (In n seen)) (names ts) × Distinct (names ts)) × All IsTask ts)
  unfolding check_tasks
  check_tasks_iff seen [] = (λ h. ((tt, tt), tt), λ h. refl)
  check_tasks_iff seen (t ∷ ts) =
      let (there, back) = reject_then_iff _ _ _ (not-contains_iff seen t.name) (
        reject_then_iff _ _ _ (needs_sql_iff t.kind t.sql)
          (then_iff _ _ (check_kind_iff t) (check_tasks_iff (t.name ∷ seen) ts))) in
      (
        λ h.
            let (new, (sql, (kind, ((fresh, d), sound)))) = there h in
            let (g, nx) = All-fresh_back t.name seen (names ts) fresh in
            (((new, g), (nx, d)), ((sql, kind), sound)),
        λ (((new, g), (nx, d)), ((sql, kind), sound)).
            back (new, (sql, (kind, ((All-fresh t.name seen (names ts) g nx, d), sound)))),
      )

  abbrev IsChecked : PipelineSpec → Type 0
  IsChecked p =
      HasGoodGroup p.owner_group
      × (((All (λ n. ¬ (In n [])) (names p.tasks) × Distinct (names p.tasks)) × All IsTask p.tasks)
          × All (λ t. All (λ d. (d ≢ t.name) × In d (names p.tasks)) t.depends_on) p.tasks)

  -- The part before Kahn's algorithm.
  abbrev checks : PipelineSpec → Validated
  checks p = do
    reject (bad_group p.owner_group) "ownerGroup must be a valid group name"
    check_tasks parse_object [] p.tasks
    check_all_deps (names p.tasks) p.tasks

  checks_iff : (p : PipelineSpec) → (checks p ≡ ok tt) ↔ IsChecked p
  checks_iff p =
      reject_then_iff _ _ _ (bad_group_iff p.owner_group)
        (then_iff _ _ (check_tasks_iff [] p.tasks) (check_all_deps_iff (names p.tasks) p.tasks))

  known_of_checked : (p : PipelineSpec) → IsChecked p → HasKnownDeps p.tasks
  known_of_checked p (_, (_, deps)) t d i dep =
      (All-In (λ d. (d ≢ t.name) × In d (names p.tasks)) d t.depends_on
        (All-In (λ (t : PipelineTask). All (λ d. (d ≢ t.name) × In d (names p.tasks)) t.depends_on)
          t p.tasks deps i)
        dep).1

  checks-IsChecked :
      (p : PipelineSpec)
      → HasGoodGroup p.owner_group
      → Distinct (names p.tasks)
      → All IsTask p.tasks
      → HasKnownDeps p.tasks
      → IsAcyclic p.tasks
      → IsChecked p
  checks-IsChecked p group distinct sound known acyclic = (
    group,
    (
      ((All-not-In-nil (names p.tasks), distinct), sound),
      In-All p.tasks λ t i. In-All t.depends_on λ d dep. (
        λ e. let less = acyclic.1 t d i dep in let same = ap acyclic.0 e in absurd (omega arith),
        known t d i dep,
      ),
    ),
  )

  -- What `validate` returns once the checks have passed.
  ending :
      (p : PipelineSpec) (checked : IsChecked p)
      → (n : ℕ) × (kahn p.tasks ≡ some n)
        × (validate parse_object p ≡ some (reject (not (n == length p.tasks)) circle_message))
  unfolding validate and_then finish
  ending p checked =
      let (order, w, ran, i) = kahn_total p.tasks checked.1.0.0.1 in
      let passed = (checks_iff p).1 checked in
      (
        length order,
        ran,
        ap (λ r. and_then r (finish (kahn p.tasks) (length p.tasks))) passed
            ∙ ap (λ k. finish k (length p.tasks)) ran,
      )

  refused :
      (p : PipelineSpec) (e : String) → checks p ≡ err e → validate parse_object p ≡ some (err e)
  unfolding validate and_then
  refused p e h = ap (λ r. and_then r (finish (kahn p.tasks) (length p.tasks))) h

  -- `validate` returns a result on every pipeline: it never panics and its loop ends.
  pub validate_total : (p : PipelineSpec) → (r : Validated) × (validate parse_object p ≡ some r)
  validate_total p = elim (Result-cases (checks p)) [
    | inl passed ↦
        let (n, _, e) = ending p ((checks_iff p).0 passed) in
        (reject (not (n == length p.tasks)) circle_message, e)
    | inr (e, failed) ↦ (err e, refused p e failed)
  ]

  counted_all :
      (n count : ℕ) → some (reject (not (n == count)) circle_message) ≡ some (ok tt) → n ≡ count
  counted_all n count h = ground arith

  -- `validate` accepts exactly the pipelines whose owner group, if any, is a group name, whose
  -- task names are distinct, whose sql and notebook tasks have what they need, whose dependencies
  -- are other tasks of the pipeline, each listed once by a task, and whose dependencies have no
  -- cycle.
  pub pipeline_validate_iff :
      (p : PipelineSpec) → (validate parse_object p ≡ some (ok tt)) ↔ IsValid p
  pipeline_validate_iff p = (there (Result-cases (checks p)), back)
    where
      there :
          ((checks p ≡ ok tt) ⊎ ((e : String) × (checks p ≡ err e)))
          → validate parse_object p ≡ some (ok tt)
          → IsValid p
      there (inr (e, failed)) h = let clash = sym (refused p e failed) ∙ h in absurd (cc)
      there (inl passed) h =
          let checked = (checks_iff p).0 passed in
          let (n, ran, e) = ending p checked in
          let known = known_of_checked p checked in
          let full = counted_all n (length p.tasks) (sym e ∙ h) in
          let (acyclic, once) = (kahn_iff p.tasks checked.1.0.0.1 known).0 (ran ∙ ap some full) in
          record {
            group = checked.0;
            distinct = checked.1.0.0.1;
            sound = checked.1.0.1;
            known = known;
            acyclic = acyclic;
            once = once;
          }

      passes :
          (n count : ℕ) → n ≡ count → some (reject (not (n == count)) circle_message) ≡ some (ok tt)
      passes n count e = ground arith

      back : IsValid p → validate parse_object p ≡ some (ok tt)
      back v =
          let checked = checks-IsChecked p v.group v.distinct v.sound v.known v.acyclic in
          let (n, ran, e) = ending p checked in
          let full = (kahn_iff p.tasks v.distinct v.known).1 (v.acyclic, v.once) in
          let same = some-injective (sym ran ∙ full) in e ∙ passes n (length p.tasks) same

  -- A pipeline that passes every other check and has no cycle, but in which a task lists a
  -- dependency twice, is refused as a circle: the count has the dependency twice and is reduced
  -- for it once.
  pub repeated_dependency_is_refused :
      (p : PipelineSpec)
      → HasGoodGroup p.owner_group
      → Distinct (names p.tasks)
      → All IsTask p.tasks
      → HasKnownDeps p.tasks
      → IsAcyclic p.tasks
      → ¬ (HasDistinctDeps p.tasks)
      → validate parse_object p ≡ some (err circle_message)
  repeated_dependency_is_refused p group distinct sound known acyclic twice =
      let (n, ran, e) = ending p (checks-IsChecked p group distinct sound known acyclic) in
      let short : n ≢ length p.tasks =
        λ full. twice ((kahn_iff p.tasks distinct known).0 (ran ∙ ap some full)).1 in
      e ∙ refuses n (length p.tasks) short
    where
      refuses :
          (n count : ℕ)
          → n ≢ count
          → some (reject (not (n == count)) circle_message) ≡ some (err circle_message)
      refuses n count ne = ground arith
