-- ===== src/Crd/Pipeline/Tests.antt =====
-- Pipelines with a chain, a circle and a dependency that is listed twice.
use stardelt_operator.Common.{
  ℕ, ◌<◌, String, ◌≡◌, refl, sym, subst, ◌≢◌, ◌↔◌, inl, inr, false, eq_iff, Option, none, some,
  List, [], ◌∷◌, arith, if◌then◌else◌, ◌==◌, string_eq, false_iff, All, In, Distinct, All-In,
  contains, Map, Validated, ok, err,
}
use stardelt_operator.Crd.Pipeline.Task.{PipelineTask, names, IsAcyclic, python_task}
use stardelt_operator.Crd.Pipeline.Kahn.{kahn}
use stardelt_operator.Crd.Pipeline.Kahn.Acyclic.{HasKnownDeps, HasDistinctDeps}
use stardelt_operator.Crd.Pipeline.Valid.{
  IsTask, IsValid, validate_total, pipeline_validate_iff, repeated_dependency_is_refused,
}
use stardelt_operator.Crd.Pipeline.{
  PipelineEngine, PipelineConcurrency, PipelineSpec, bad_group, is_sql, is_notebook, circle_message,
  check_deps, check_all_deps, finish, and_then, check_kind, check_tasks, validate,
}

abbrev task : String → List String → PipelineTask
task name deps = record {
  name = name;
  kind = python_task;
  depends_on = deps;
  sql = none;
  warehouse = none;
  config = [];
}

abbrev pipeline : List PipelineTask → PipelineSpec
pipeline tasks = record {
  tasks = tasks;
  schedule = none;
  owner_group = none;
  run_as = none;
  params = [];
  retries = none;
  timeout = none;
  concurrency = PipelineConcurrency.forbid;
  engine = PipelineEngine.airflow;
}

abbrev no_params : String → Option (Map String)
no_params s = none

abbrev chain : PipelineSpec
chain =
    pipeline
      (task "load" [] ∷ task "clean" ("load" ∷ []) ∷ task "report" ("clean" ∷ "load" ∷ []) ∷ [])

abbrev circle : PipelineSpec
circle = pipeline (task "a" ("b" ∷ []) ∷ task "b" ("a" ∷ []) ∷ [])

-- "b" lists "a" twice.
abbrev doubled : PipelineSpec
doubled = pipeline (task "a" [] ∷ task "b" ("a" ∷ "a" ∷ []) ∷ [])

chain_is_accepted : validate no_params chain ≡ some (ok tt)
unfolding validate and_then finish check_tasks check_kind check_all_deps check_deps is_sql
    is_notebook bad_group kahn contains
chain_is_accepted = refl

circle_is_refused : validate no_params circle ≡ some (err circle_message)
unfolding validate and_then finish check_tasks check_kind check_all_deps check_deps is_sql
    is_notebook bad_group kahn contains
circle_is_refused = refl

chain_order : kahn chain.tasks ≡ some 3
unfolding kahn
chain_order = refl

pipeline_validate_iff_example : (validate no_params chain ≡ some (ok tt)) ↔ IsValid no_params chain
pipeline_validate_iff_example = pipeline_validate_iff no_params chain

validate_total_example : (r : Validated) × (validate no_params circle ≡ some r)
validate_total_example = validate_total no_params circle

differ : (s t : String) → (s == t) ≡ false → s ≢ t
differ s t e = (false_iff (s == t) (eq_iff s t)).0 e

doubled_names : Distinct (names doubled.tasks)
doubled_names = (λ i. elim i [ inl e ↦ differ "a" "b" refl e | inr j ↦ j ], (λ i. i, tt))

abbrev second : String → ℕ
second k = if k == "b" then 1 else 0

abbrev RunsLater : PipelineTask → Type 0
RunsLater t = (d : String) → In d t.depends_on → second d < second t.name

after_a : (d : String) → In d ("a" ∷ "a" ∷ []) → second d < second "b"
after_a d dep = elim dep [
  | inl e ↦ subst (λ x. second x < 1) (sym e) (omega arith)
  | inr more ↦ elim more [
    | inl e ↦ subst (λ x. second x < 1) (sym e) (omega arith)
    | inr j ↦ absurd j
  ]
]

doubled_order : All RunsLater doubled.tasks
doubled_order = (λ d dep. absurd dep, (after_a, tt))

doubled-IsAcyclic : IsAcyclic doubled.tasks
doubled-IsAcyclic = (second, λ t d i dep. All-In RunsLater t doubled.tasks doubled_order i d dep)

abbrev HasDeps : PipelineTask → Type 0
HasDeps t = (d : String) → In d t.depends_on → In d (names doubled.tasks)

is_a : (d : String) → In d ("a" ∷ "a" ∷ []) → In d (names doubled.tasks)
is_a d dep = elim dep [ inl e ↦ inl e | inr more ↦ elim more [ inl e ↦ inl e | inr j ↦ absurd j ] ]

doubled_known : HasKnownDeps doubled.tasks
doubled_known t d i dep = All-In HasDeps t doubled.tasks (λ d dep. absurd dep, (is_a, tt)) i d dep

doubled_repeats : ¬ (HasDistinctDeps doubled.tasks)
doubled_repeats h = h.1.0.0 (inl refl)

plain_task : (name : String) (deps : List String) → IsTask no_params (task name deps)
plain_task name deps = (λ e n. cc, λ e. absurd (cc))

repeated_dependency_is_refused_example : validate no_params doubled ≡ some (err circle_message)
repeated_dependency_is_refused_example =
    repeated_dependency_is_refused no_params doubled (λ g e. cc) doubled_names
      (plain_task "a" [], (plain_task "b" ("a" ∷ "a" ∷ []), tt)) doubled_known doubled-IsAcyclic
      doubled_repeats
