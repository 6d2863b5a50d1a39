-- ===== src/Crd/Pipeline/Kahn.antt =====
-- The last part of `PipelineSpec::validate`: Kahn's algorithm counts the tasks that can be ordered.
-- `ready` is the Vec with its end, where `push` and `pop` work, at the head of the list. The result
-- is `none` where the code would panic (`expect("known task")`, or `*n -= 1` at zero), and where
-- the fuel of the `while` runs out.
pub mod Relax
pub mod Order
pub mod Start
pub mod Acyclic
use stardelt_operator.Common.{
  ℕ, zero, suc, ◌+◌, String, Option, none, some, List, [], ◌∷◌, nat_beq, if◌then◌else◌, string_eq,
  length, contains, Map, get, insert,
}
use stardelt_operator.Crd.Pipeline.Task.{PipelineTask}

-- `self.tasks.iter().map(|t| (t.name, t.depends_on.len())).collect()`
pub collect_waiting : Map ℕ → List PipelineTask → Map ℕ
collect_waiting w [] = w
collect_waiting w (t ∷ ts) = collect_waiting (insert t.name (length t.depends_on) w) ts

-- The keys with a count of 0, pushed in key order.
pub free : List String → Map ℕ → List String
free ready [] = ready
free ready ((k, n) ∷ w) = free (if nat_beq n 0 then k ∷ ready else ready) w

abbrev pub State : Type 0
State = Map ℕ × List String

-- `let n = waiting.get_mut(name).expect(..); *n -= 1; if *n == 0 { ready.push(name) }`
decrement : String → Option ℕ → State → Option State
decrement k none s = none
decrement k (some zero) s = none
decrement k (some (suc n)) (w, ready) =
    some (insert k n w, if nat_beq n 0 then k ∷ ready else ready)

pub touch : String → PipelineTask → State → Option State
touch name t s = if contains t.depends_on name then decrement t.name (get t.name s.0) s else some s

-- The `for` loop over the tasks that depend on `name`.
pub relax : String → List PipelineTask → State → Option State
relax name [] s = some s
relax name (t ∷ ts) s = elim (touch name t s) [ none ↦ none | some s' ↦ relax name ts s' ]

-- The `while` loop; the result is `done`.
pub run : ℕ → List PipelineTask → State → ℕ → Option ℕ
run fuel tasks (w, []) done = some done
run zero tasks (w, name ∷ ready) done = none
run (suc fuel) tasks (w, name ∷ ready) done = elim (relax name tasks (w, ready)) [
  | none ↦ none
  | some s ↦ run fuel tasks s (done + 1)
]

unfoldable pub kahn : List PipelineTask → Option ℕ
unfolding collect_waiting free decrement touch relax run insert get contains
kahn tasks = let w = collect_waiting [] tasks in run (length tasks) tasks (w, free [] w) 0
