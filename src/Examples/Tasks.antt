-- ===== src/Examples/Tasks.antt =====
-- Tasks, reports and failures on concrete tables.
use hermes_agora.Base.{ℕ, String, refl, Bool, false, none, some, List, [], ◌∷◌}
use hermes_agora.Base.Int.{pos}
use hermes_agora.Task.Store.{Task, get_task}
use hermes_agora.Task.Store.Updates.{status}
use hermes_agora.Task.World.{World}
use hermes_agora.Task.Exec.{StatusReport, Handled}
use hermes_agora.Task.Status.{TaskStatus, assigned, pending}
use hermes_agora.Task.Graph.{TaskNode}
use hermes_agora.Task.Parallel.{Coordinator}
use hermes_agora.Task.Exec.Terminal.{IsKept, handle_reports, accepted_is_final}
use hermes_agora.Task.Retry.{RetryPolicy, exponential}

abbrev task_in : String → List String → String → Task
task_in id depends status = record {
  id = id;
  graph_id = "g";
  motion_id = "m1";
  title = "";
  description = "";
  status = status;
  assigned_to = some "ann";
  required_capabilities = "code" ∷ [];
  depends_on = depends;
  artifact_paths = [];
  error_message = none;
  started_at = none;
  completed_at = none;
}

abbrev world_of : List Task → World
world_of tasks = record {
  tasks = tasks;
  agents = [];
  online = [];
  reviewer_index = 0;
  sent = [];
  events = [];
  published = [];
}

abbrev two_tasks : World
two_tasks = world_of (task_in "t1" [] "failed" ∷ task_in "t2" ("t1" ∷ []) "pending" ∷ [])

abbrev report_of : String → String → StatusReport
report_of k s = record { task_id = some k; status = some s; error = none; artifact_paths = none }

abbrev no_files : String → Bool
no_files _ = false

-- A task that is accepted, and one that waits for it in the coordinator.
abbrev node_of : String → List String → TaskStatus → TaskNode
node_of id depends s = record {
  id = id;
  graph_id = "g";
  motion_id = "m1";
  title = "";
  description = "";
  status = s;
  assigned_to = some "ann";
  required_capabilities = [];
  depends_on = depends;
  artifact_paths = [];
}

abbrev coordinator : Coordinator
coordinator = record {
  graph_tasks = node_of "t1" [] assigned ∷ node_of "t2" ("t1" ∷ []) pending ∷ [];
  runqueue = [];
  agent_slots = [];
  locks = [];
  running = [];
  completed = [];
  failed = [];
  result_completed = [];
  result_failed = [];
  result_blocked = [];
  rows = [];
  sent = [];
}

abbrev accepted_world : Handled
accepted_world = (
  world_of (task_in "t1" [] "accepted" ∷ task_in "t2" ("t1" ∷ []) "running" ∷ []),
  some coordinator,
)

abbrev reports : List (ℕ × String × StatusReport)
reports = (5, "ann", report_of "t1" "running") ∷ (6, "bob", report_of "t2" "done") ∷ []

accepted_is_final_example : IsKept "t1" (handle_reports no_files reports accepted_world)
unfolding get_task
accepted_is_final_example = accepted_is_final no_files reports accepted_world "t1" (refl, refl)

abbrev policy : RetryPolicy
policy = record { max_retries = pos 3; backoff_strategy = exponential; initial_delay = 1000 }
