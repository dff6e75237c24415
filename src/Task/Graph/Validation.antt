-- ===== src/Task/Graph/Validation.antt =====
-- agora/coordinator/task_gen/validation.py: the checks on a task graph. The search for a cycle
-- recurs on fuel, one unit for each task.
use hermes_agora.Base.{
  ℕ, zero, suc, String, not, ◌==◌, Option, none, some, List, [], ◌∷◌, if◌then◌else◌, mem, set_add,
  keep, length,
}
use hermes_agora.Task.Graph.{TaskNode, find_task, ids}

-- What the validation comes to; the last one stands for an exception other than ValueError.
pub data Verdict : Type 0 where
  valid : Verdict
  self_dependency : String → Verdict
  unknown_dependency : String → String → Verdict
  cycle : Verdict
  crashed : Verdict

-- How `has_cycle` ends: it returns false with the marks, it returns true, StopIteration, or the
-- fuel is used up.
pub data Search : Type 0 where
  clear : List String → List String → Search
  cyclic stopped no_fuel : Search

unfoldable pub check_deps : String → List String → List String → Option Verdict
check_deps task known [] = none
check_deps task known (d ∷ deps) =
    let rest = check_deps task known deps in
    if mem d known then rest else some (unknown_dependency task d)

-- the loop over the tasks before the search
unfoldable pub check_refs : List String → List TaskNode → Option Verdict
unfolding check_deps
check_refs known [] = none
check_refs known (t ∷ tasks) =
    let rest = check_refs known tasks in
    if mem t.id t.depends_on
    then some (self_dependency t.id)
    else elim (check_deps t.id known t.depends_on) [ none ↦ rest | some v ↦ some v ]

-- `s.remove(x)` of a set
abbrev pub discard : String → List String → List String
discard x s = keep (λ y. not (x == y)) s

abbrev pub Step : Type 0
Step = String → List String → List String → Search

-- what becomes of one dependency
abbrev pub visit : Step → Step
visit call d visited rec_stack =
    if mem d visited
    then (if mem d rec_stack then cyclic else clear visited rec_stack)
    else call d visited rec_stack

-- what becomes of one task of the outer loop
abbrev pub visit_root : Step → Step
visit_root call task_id visited rec_stack =
    if mem task_id visited then clear visited rec_stack else call task_id visited rec_stack

abbrev pub and_then : Search → (List String → List String → Search) → Search
and_then (clear visited rec_stack) next = next visited rec_stack
and_then cyclic next = cyclic
and_then stopped next = stopped
and_then no_fuel next = no_fuel

-- A loop over ids that ends early with the step's first answer that is not `clear`.
unfoldable pub walk : Step → List String → List String → List String → Search
walk step [] visited rec_stack = clear visited rec_stack
walk step (d ∷ rest) visited rec_stack =
    and_then (step d visited rec_stack) (λ v s. walk step rest v s)

unfoldable pub has_cycle : List TaskNode → ℕ → Step
unfolding walk find_task set_add
has_cycle tasks zero task_id visited rec_stack = no_fuel
has_cycle tasks (suc n) task_id visited rec_stack = elim (find_task task_id tasks) [
  | none ↦ stopped
  | some task ↦
      and_then
        (walk (visit (has_cycle tasks n)) task.depends_on (set_add task_id visited)
          (set_add task_id rec_stack))
        (λ v s. clear v (discard task_id s))
]

abbrev pub verdict : Search → Verdict
verdict (clear visited rec_stack) = valid
verdict cyclic = cycle
verdict stopped = crashed
verdict no_fuel = crashed

-- `_validate_graph`
unfoldable pub validate_graph : List TaskNode → Verdict
unfolding check_refs has_cycle walk
validate_graph tasks = elim (check_refs (ids tasks) tasks) [
  | some error ↦ error
  | none ↦ verdict (walk (visit_root (has_cycle tasks (length tasks))) (ids tasks) [] [])
]
