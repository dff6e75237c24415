-- ===== src/Examples/Graphs.antt =====
-- Graphs of tasks that are generated, validated, assigned and run.
use Prim.Native.String.{count, ◌++◌ as joined}
use text.Mathlib.TextLemmas.{length-append as count-joined}
use hermes_agora.Base.{
  max, ◌≤◌, some, ℕ, zero, suc, String, ◌≡◌, refl, sym, ap, ◌∙◌, ◌≢◌, true, none, List, [], ◌∷◌,
  arith, ◌==◌, if◌then◌else◌,
}
use hermes_agora.Base.Int.{pos}
use hermes_agora.Task.Status.{pending}
use hermes_agora.Task.Graph.{TaskNode}
use hermes_agora.Task.Graph.Validation.{valid, crashed, validate_graph}
use hermes_agora.Task.Graph.Exact.{validate_exact, validate_total}
use hermes_agora.Task.Graph.Generate.{
  Motion, plain, RawTask, tasks, failed, generate_task_graph, heuristic_generate,
}
use hermes_agora.Task.Store.{Task, get_task, get_agent_task_count}
use hermes_agora.Task.World.{Agent}
use hermes_agora.Task.Assign.{assign_tasks, Desk}
use hermes_agora.Task.Assign.Loads.{assign_tasks_within}
use hermes_agora.Task.Parallel.{Coordinator}
use hermes_agora.Task.Parallel.Run.{execute_graph}
use hermes_agora.Task.Parallel.Order.{IsStartedInOrder}
use hermes_agora.Task.Parallel.Safety.{dependencies_first}
use hermes_agora.Task.Graph.Generated.{IsFresh, IsAcyclic, generated-IsAcyclic}

abbrev node : String → List String → TaskNode
node id deps = record {
  id = id;
  graph_id = "g";
  motion_id = "m1";
  title = "";
  description = "";
  status = pending;
  assigned_to = none;
  required_capabilities = "code" ∷ [];
  depends_on = deps;
  artifact_paths = [];
}

abbrev loop : List TaskNode
loop = node "t1" ("t2" ∷ []) ∷ node "t2" ("t1" ∷ []) ∷ []

abbrev row : List TaskNode
row = node "t1" [] ∷ node "t2" ("t1" ∷ []) ∷ []

abbrev place : String → ℕ
place x = if x == "t2" then 1 else 0

validate_exact_example : validate_graph row ≡ valid
validate_exact_example =
    (validate_exact row (refl, (refl, tt))).1
      ((tt, ((refl, tt), tt)), (place, (tt, ((omega arith, tt), tt))))

validate_total_example : validate_graph loop ≢ crashed
validate_total_example = validate_total loop

-- ids of growing length
abbrev uuid4 : ℕ → String
uuid4 zero = ""
uuid4 (suc n) = joined "x" (uuid4 n)

count-uuid4 : (n : ℕ) → count (uuid4 n) ≡ n
count-uuid4 zero = refl
count-uuid4 (suc n) = omega (arith, count-joined "x" (uuid4 n), count-uuid4 n)

uuid4-IsFresh : IsFresh uuid4
uuid4-IsFresh i j h = sym (count-uuid4 i) ∙ ap count h ∙ count-uuid4 j

abbrev numbered : ℕ → String
numbered n = "Task"

abbrev motion : Motion
motion = record { id = "m1"; action_items = plain "write" ∷ plain "test" ∷ [] }

generated-IsAcyclic_example : IsAcyclic (heuristic_generate uuid4 motion 2).tasks
unfolding generate_task_graph
generated-IsAcyclic_example =
    generated-IsAcyclic uuid4 numbered "llm" motion 1 failed (heuristic_generate uuid4 motion 2)
      uuid4-IsFresh refl

abbrev answer : List RawTask
answer =
    record { title = none; description = none; required_capabilities = none; depends_on = [] }
    ∷ record {
      title = none;
      description = none;
      required_capabilities = none;
      depends_on = pos 0 ∷ [];
    }
    ∷ []

abbrev ann : Agent
ann = record { agent_id = "ann"; capabilities = "code" ∷ []; max_concurrent_tasks = 2 }

abbrev row_in : String → Task
row_in id = record {
  id = id;
  graph_id = "g";
  motion_id = "m1";
  title = "";
  description = "";
  status = "pending";
  assigned_to = none;
  required_capabilities = "code" ∷ [];
  depends_on = [];
  artifact_paths = [];
  error_message = none;
  started_at = none;
  completed_at = none;
}

abbrev two_rows : List Task
two_rows = row_in "t1" ∷ row_in "t2" ∷ []

assign_tasks_within_example :
    (desk : Desk) × (assign_tasks 7 ("ann" ∷ []) (ann ∷ []) row two_rows ≡ some desk)
    × ((a : String)
        → get_agent_task_count a true desk.rows ≤ max 5 (get_agent_task_count a true two_rows))
unfolding get_task
assign_tasks_within_example =
    assign_tasks_within 7 ("ann" ∷ []) (ann ∷ []) row two_rows (refl, (refl, tt))

abbrev idle : List (ℕ × String) → Coordinator
idle queue = record {
  graph_tasks = row;
  runqueue = queue;
  agent_slots = [];
  locks = [];
  running = [];
  completed = [];
  failed = [];
  result_completed = [];
  result_failed = [];
  result_blocked = [];
  rows = two_rows;
  sent = [];
}

-- the run in which the message of the first task is sent before the second task starts
abbrev done : Coordinator
done = execute_graph 7 ("ann" ∷ []) (ann ∷ []) row ((("t1", true) ∷ []) ∷ []) (idle [])

dependencies_first_example : IsStartedInOrder done.completed done.graph_tasks
dependencies_first_example =
    dependencies_first 7 ("ann" ∷ []) (ann ∷ []) row ((("t1", true) ∷ []) ∷ []) (idle [])
      (refl, (refl, tt)) (refl, (refl, tt)) refl
