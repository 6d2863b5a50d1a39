-- ===== src/Crd/Pipeline/Task.antt =====
-- A task of a pipeline.
use stardelt_operator.Common.{ℕ, ◌<◌, String, Option, List, map, In, Map}

pub data TaskKind : Type 0 where
  sql_task notebook_task python_task dbt_task quality_task : TaskKind

-- `config` is a map of texts.
pub record PipelineTask : Type 0 where
  pub name : String
  pub kind : TaskKind
  pub depends_on : List String
  pub sql : Option String
  pub warehouse : Option String
  pub config : Map String

abbrev pub names : List PipelineTask → List String
names ts = map (λ t. t.name) ts

-- Each task runs after the tasks that it depends on.
abbrev pub IsAcyclic : List PipelineTask → Type 0
IsAcyclic tasks =
    (rank : String → ℕ) × ((t : PipelineTask) (d : String)
      → In t tasks
      → In d t.depends_on
      → rank d < rank t.name)
