-- ===== src/Crd/Pipeline.antt =====
-- `PipelineSpec` of crd.rs: tasks with dependencies, and `validate`. The result is `none` where
-- the code would panic or not end; `Valid` proves that it never is.
pub mod Task
pub mod Notebook
pub mod Kahn
pub mod Valid
mod Tests
use stardelt_operator.Common.{
  ℕ, String, Bool, true, false, not, ◌&&◌, ◌||◌, Option, none, some, List, [], ◌∷◌, if◌then◌else◌,
  ◌==◌, nat_eq, string_eq, is_some, length, contains, Map, format, ◌>>=◌, ◌>>◌, reject, Validated,
  ok, err, ℤ,
}
use stardelt_operator.Crd.Names.{group_name_ok}
use stardelt_operator.Crd.Pipeline.Task.{TaskKind, PipelineTask, names, sql_task, notebook_task}
use stardelt_operator.Crd.Pipeline.Notebook.{validate_notebook_task}
use stardelt_operator.Crd.Pipeline.Kahn.{kahn}

pub data PipelineEngine : Type 0 where
  airflow spark : PipelineEngine

pub record PipelineSchedule : Type 0 where
  pub cron : String
  pub timezone : Option String

pub record PipelineRetries : Type 0 where
  pub attempts : ℤ
  pub backoff : Option String

pub data PipelineConcurrency : Type 0 where
  allow forbid replace : PipelineConcurrency

pub record PipelineSpec : Type 0 where
  pub tasks : List PipelineTask
  pub schedule : Option PipelineSchedule
  pub owner_group : Option String
  pub run_as : Option String
  pub params : Map String
  pub retries : Option PipelineRetries
  pub timeout : Option String
  pub concurrency : PipelineConcurrency
  pub engine : PipelineEngine

bad_group : Option String → Bool
bad_group none = false
bad_group (some group) = not (group_name_ok group)

is_sql : TaskKind → Bool
is_sql sql_task = true
is_sql _ = false

is_notebook : TaskKind → Bool
is_notebook notebook_task = true
is_notebook _ = false

abbrev pub circle_message : String
circle_message = "the tasks depend on each other in a circle"

-- The loop over `task.depends_on`; the test is `dep == &task.name || !names.contains(dep)`.
check_deps : List String → String → List String → Validated
check_deps known name [] = ok tt
check_deps known name (dep ∷ deps) =
    reject (dep == name || not (contains known dep)) (
      format (
        "task `" ∷ name ∷ "` depends on `" ∷ dep ∷ "`, which is not another task of this pipeline"
        ∷ []))
    >> check_deps known name deps

check_all_deps : List String → List PipelineTask → Validated
check_all_deps known [] = ok tt
check_all_deps known (t ∷ ts) = check_deps known t.name t.depends_on >> check_all_deps known ts

-- `if done != self.tasks.len()`
finish : Option ℕ → ℕ → Option Validated
finish none count = none
finish (some done) count = some (reject (not (done == count)) circle_message)

-- `?` before the part that could panic.
and_then : Validated → Option Validated → Option Validated
and_then (ok u) k = k
and_then (err e) k = some (err e)

module _ (parse_object : String → Option (Map String)) where
  check_kind : PipelineTask → Validated
  check_kind t = if is_notebook t.kind then validate_notebook_task parse_object t else ok tt

  -- The first loop over the tasks; `seen` is the set `names`.
  check_tasks : List String → List PipelineTask → Validated
  check_tasks seen [] = ok tt
  check_tasks seen (t ∷ ts) =
      let rest = check_tasks (t.name ∷ seen) ts in
      do
        reject (contains seen t.name) (format ("task name `" ∷ t.name ∷ "` is used twice" ∷ []))
        reject (is_sql t.kind && not (is_some t.sql))
            (format ("sql task `" ∷ t.name ∷ "` needs a sql statement" ∷ []))
        check_kind t
        rest

  pub validate : PipelineSpec → Option Validated
  validate p =
      and_then
        (do
          reject (bad_group p.owner_group) "ownerGroup must be a valid group name"
          check_tasks [] p.tasks
          check_all_deps (names p.tasks) p.tasks)
        (finish (kahn p.tasks) (length p.tasks))
