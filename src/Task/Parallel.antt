-- ===== src/Task/Parallel.antt =====
-- agora/coordinator/task_parallel*.py: the tasks of a graph, run by several agents at once. The state of
-- the coordinator is a record; the futures that `asyncio.wait` returns, each with whether the send
-- succeeded, are an argument of the run. The time of the statements is the argument `now`.
pub mod Run
pub mod Order
pub mod Safety
pub mod Fuel
use hermes_agora.Base.{
  ℕ, String, ◌≡◌, Bool, true, false, ◌&&◌, ◌||◌, Option, none, some, List, [], ◌∷◌, ◌++◌, ◌==◌, ltb,
  eqb, if◌then◌else◌, is_empty, set_add,
}
use Prim.Native.String.{compare}
use Prim.Native.Nat.{Ordering}
use hermes_agora.Base.Int.{ℤ, pos, negsuc, is_negative, nat_ltb, sub_ℕ, inc, dec}
use hermes_agora.Base.Dict
use hermes_agora.Base.Dict.{Dict}
use hermes_agora.Task.Status.{pending, assigned, value}
use hermes_agora.Task.Store.{Task, update_task_status, get_agent_task_count}
use hermes_agora.Task.World.{Agent}
use hermes_agora.Task.Graph.{TaskNode, find_task}
use hermes_agora.Task.Resource.{Locks, write, acquire, release, release_all}
use hermes_agora.Task.Assign.{capable_agents, to_agent, is_pending}

-- `ParallelExecutionCoordinator`, with the table of tasks and the messages that it sends
pub record Coordinator : Type 0 where
  pub graph_tasks : List TaskNode
  pub runqueue : List (ℕ × String)
  pub agent_slots : Dict ℤ
  pub locks : Locks
  pub running : List String
  pub completed : List String
  pub failed : List String
  pub result_completed : List String
  pub result_failed : List String
  pub result_blocked : List String
  pub rows : List Task
  pub sent : List (String × String)

-- a task has no priority, so `getattr(task, "priority", "normal")` is "normal"
abbrev pub priority_value : TaskNode → ℕ
priority_value task = 2

-- `runqueue.put`
abbrev pub enqueue : TaskNode → List (ℕ × String) → List (ℕ × String)
enqueue task queue = queue ++ (priority_value task, task.id) ∷ []

-- whether an entry comes out before another
abbrev pub is_before : ℕ × String → ℕ × String → Bool
is_before (p, a) (q, b) =
    ltb p q || (eqb p q && elim (compare a b) [ Ordering.gt ↦ false | _ ↦ true ])

-- `runqueue.get`: the least entry, and the others
unfoldable pub dequeue : ℕ × String → List (ℕ × String) → (ℕ × String) × List (ℕ × String)
dequeue x [] = (x, [])
dequeue x (y ∷ ys) =
    let (least, rest) = dequeue (if is_before x y then x else y) ys in
    (least, (if is_before x y then y else x) ∷ rest)

abbrev pub slots : String → Dict ℤ → ℤ
slots agent table = Dict.get_or agent (pos 0) table

-- the free slots of a candidate, counted again where none are known
abbrev pub count_slots : Agent → List Task → Dict ℤ → Dict ℤ
count_slots a rows table =
    if nat_ltb 0 (slots a.agent_id table)
    then table
    else Dict.put a.agent_id
        (sub_ℕ a.max_concurrent_tasks (get_agent_task_count a.agent_id true rows)) table

unfoldable pub pick_among : List Agent → List Task → Dict ℤ → Dict ℤ × Option String
unfolding get_agent_task_count Dict.get Dict.put
pick_among [] rows table = (table, none)
pick_among (a ∷ candidates) rows table =
    let counted = count_slots a rows table in
    let rest = pick_among candidates rows counted in
    if nat_ltb 0 (slots a.agent_id counted) then (counted, some a.agent_id) else rest

-- the paths before `path` are released
unfoldable pub roll_back : String → String → List String → Locks → Locks
roll_back task path [] locks = locks
roll_back task path (prev ∷ paths) locks =
    let rest = roll_back task path paths (release task prev locks).0 in
    if prev == path then locks else rest

-- the loop of `acquire_resources` over the rest of the paths
unfoldable pub acquire_rest : String → List String → List String → Locks → Locks × Bool
unfolding roll_back
acquire_rest task paths [] locks = (locks, true)
acquire_rest task paths (path ∷ rest) locks =
    let (after, ok) = acquire task path write locks in
    let more = acquire_rest task paths rest after in
    if ok then more else (roll_back task path paths after, false)

-- `acquire_resources`
unfoldable pub acquire_resources : String → List String → Locks → Locks × Bool
unfolding acquire_rest
acquire_resources task paths locks = acquire_rest task paths paths locks

-- `task.status = TaskStatus.ASSIGNED; task.assigned_to = agent_id`
unfoldable pub mark_assigned : String → String → List TaskNode → List TaskNode
mark_assigned k agent [] = []
mark_assigned k agent (t ∷ tasks) =
    (if t.id == k then record t { status = assigned; assigned_to = some agent } else t)
    ∷ mark_assigned k agent tasks

-- `assign_task` after the locks, with the message of `_run_task`
abbrev pub start_task : ℕ → TaskNode → String → Coordinator → Coordinator
start_task now task agent c = record c {
  graph_tasks = mark_assigned task.id agent c.graph_tasks;
  rows = update_task_status now task.id "assigned" (to_agent agent) c.rows;
  agent_slots = Dict.put agent (dec (slots agent c.agent_slots)) c.agent_slots;
  running = set_add task.id c.running;
  sent = c.sent ++ (agent, task.id) ∷ [];
}

abbrev pub with_locks : Locks → Coordinator → Coordinator
with_locks locks c = record c { locks = locks }

-- `assign_task`
unfoldable pub assign_task : ℕ → TaskNode → String → Coordinator → Coordinator
unfolding acquire_resources mark_assigned update_task_status set_add Dict.get Dict.put
assign_task now task agent c =
    if is_empty task.artifact_paths
    then start_task now task agent c
    else let (locks, ok) = acquire_resources task.id task.artifact_paths c.locks in
      if ok
      then start_task now task agent (with_locks locks c)
      else record c { locks = locks; result_blocked = c.result_blocked ++ task.id ∷ [] }
