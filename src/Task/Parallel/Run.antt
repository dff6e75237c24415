-- ===== src/Task/Parallel/Run.antt =====
-- The loops of agora/coordinator/task_parallel_dispatch.py, task_parallel_events.py and
-- task_parallel.py.
use hermes_agora.Base.{
  ℕ, zero, suc, String, Bool, true, false, not, ◌&&◌, ◌||◌, Option, none, some, List, [], ◌∷◌, ◌++◌,
  map, ◌==◌, if◌then◌else◌, length, is_empty, keep, all_of, mem, set_add, remove_first,
}
use hermes_agora.Base.Int.{ℤ, inc}
use hermes_agora.Base.Dict
use hermes_agora.Base.Dict.{Dict}
use hermes_agora.Task.World.{Agent}
use hermes_agora.Task.Graph.{TaskNode, find_task}
use hermes_agora.Task.Resource.{release_all}
use hermes_agora.Task.Assign.{capable_agents, is_pending}
use hermes_agora.Task.Parallel.{Coordinator, enqueue, dequeue, pick_among, slots, assign_task}

-- `not agent_id`
abbrev pub truthy : Option String → Option String
truthy none = none
truthy (some s) = if s == "" then none else some s

-- `_deps_met`
abbrev pub deps_met : List String → TaskNode → Bool
deps_met completed t = all_of (λ d. mem d completed) t.depends_on

abbrev pub hand_out : ℕ → TaskNode → Dict ℤ × Option String → Coordinator → Coordinator × Bool
hand_out now task (table, none) c =
    (record c { agent_slots = table; runqueue = enqueue task c.runqueue }, false)
hand_out now task (table, some agent) c =
    (assign_task now task agent (record c { agent_slots = table }), true)

abbrev pub truthy_pick : Dict ℤ × Option String → Dict ℤ × Option String
truthy_pick (table, agent) = (table, truthy agent)

module _ (now : ℕ) (online : List String) (agents : List Agent) where
  -- one round of the loop, with whether it goes on
  unfoldable pub dispatch_entry : String → Coordinator → Coordinator × Bool
  unfolding find_task pick_among capable_agents assign_task
  dispatch_entry k c = elim (find_task k c.graph_tasks) [
    | none ↦ (c, true)
    | some task ↦
        if is_pending task
        then hand_out now task
            (truthy_pick (
              pick_among (capable_agents task.required_capabilities online agents) c.rows
                c.agent_slots))
            c
        else (c, true)
  ]

  -- The next entry leaves the queue.
  abbrev pub dispatch_step : List (ℕ × String) → Coordinator → Coordinator × Bool
  dispatch_step [] c = (c, false)
  dispatch_step (x ∷ queue) c =
      let (entry, rest) = dequeue x queue in dispatch_entry entry.1 (record c { runqueue = rest })

  -- `dispatch_ready`; as many rounds as the queue has entries are enough
  unfoldable pub dispatch_rounds : ℕ → Coordinator → Coordinator
  unfolding dispatch_entry dequeue
  dispatch_rounds zero c = c
  dispatch_rounds (suc n) c =
      let (after, goes_on) = dispatch_step c.runqueue c in
      let rest = dispatch_rounds n after in if goes_on then rest else after

  abbrev pub dispatch_ready : Coordinator → Coordinator
  dispatch_ready c = dispatch_rounds (length c.runqueue) c

-- the slot of the agent of a task is free again
abbrev pub free_slot : Option TaskNode → Dict ℤ → Dict ℤ
free_slot none table = table
free_slot (some t) table = elim (truthy t.assigned_to) [
  | none ↦ table
  | some agent ↦ Dict.put agent (inc (slots agent table)) table
]

unfoldable pub requeue :
    List String → List String → List TaskNode → List (ℕ × String) → List (ℕ × String)
requeue completed failed [] queue = queue
requeue completed failed (t ∷ tasks) queue = requeue completed failed tasks (
    if not (mem t.id completed) && (not (mem t.id failed) && (is_pending t && deps_met completed t))
    then enqueue t queue
    else queue)

unfoldable pub on_task_complete : String → Coordinator → Coordinator
unfolding requeue release_all find_task set_add Dict.get Dict.put
on_task_complete k c =
    let completed = set_add k c.completed in
    record c {
      completed = completed;
      result_completed = c.result_completed ++ k ∷ [];
      agent_slots = free_slot (find_task k c.graph_tasks) c.agent_slots;
      locks = (release_all k c.locks).0;
      runqueue = requeue completed c.failed c.graph_tasks c.runqueue;
    }

-- the failed tasks and their report, with the direct dependents of `k`
unfoldable pub cascade :
    String → List TaskNode → List String → List String → List String × List String
unfolding set_add
cascade k [] failed report = (failed, report)
cascade k (t ∷ tasks) failed report =
    let hit = mem k t.depends_on && not (mem t.id failed) in
    cascade k tasks (if hit then set_add t.id failed else failed)
      (if hit then report ++ t.id ∷ [] else report)

unfoldable pub on_task_failed : String → Coordinator → Coordinator
unfolding cascade release_all find_task set_add Dict.get Dict.put
on_task_failed k c =
    let (failed, report) =
      cascade k c.graph_tasks (set_add k c.failed) (c.result_failed ++ k ∷ []) in
    record c {
      failed = failed;
      result_failed = report;
      agent_slots = free_slot (find_task k c.graph_tasks) c.agent_slots;
      locks = (release_all k c.locks).0;
    }

-- `_process_future`: the task whose message was sent, or failed to be sent
unfoldable pub process_future : String × Bool → Coordinator → Coordinator
unfolding on_task_complete on_task_failed
process_future (k, sent) c =
    let c' = record c { running = remove_first k c.running } in
    if mem k c.running then (if sent then on_task_complete k c' else on_task_failed k c') else c

unfoldable pub process_batch : List (String × Bool) → Coordinator → Coordinator
unfolding process_future
process_batch [] c = c
process_batch (f ∷ done) c = process_batch done (process_future f c)

-- `_all_done`
abbrev pub all_done : Coordinator → Bool
all_done c = all_of (λ t. mem t.id c.completed || mem t.id c.failed) c.graph_tasks

-- `_mark_blocked`
abbrev pub mark_blocked : Coordinator → Coordinator
mark_blocked c = record c {
  result_blocked =
      c.result_blocked
      ++ map (λ t. t.id)
          (keep (λ t. not (mem t.id c.completed) && not (mem t.id c.failed)) c.graph_tasks);
}

unfoldable pub first_queue : List TaskNode → List (ℕ × String) → List (ℕ × String)
first_queue [] queue = queue
first_queue (t ∷ tasks) queue =
    first_queue tasks (if is_empty t.depends_on then enqueue t queue else queue)

-- the coordinator at the start of `execute_graph`
abbrev pub start_of : List TaskNode → Coordinator → Coordinator
start_of tasks c = record c {
  graph_tasks = tasks;
  completed = [];
  failed = [];
  running = [];
  result_completed = [];
  result_failed = [];
  result_blocked = [];
  runqueue = first_queue tasks c.runqueue;
}

module _ (now : ℕ) (online : List String) (agents : List Agent) where
  -- the loop of `execute_graph`, on the futures that each wait returns; it waits where there are none
  unfoldable pub execute_loop : List (List (String × Bool)) → Coordinator → Coordinator
  unfolding dispatch_rounds process_batch
  execute_loop [] c =
      let d = dispatch_ready now online agents c in
      if all_done c then c else if is_empty d.running then mark_blocked d else d
  execute_loop (done ∷ waits) c =
      let d = dispatch_ready now online agents c in
      let rest = execute_loop waits (process_batch done d) in
      if all_done c then c else if is_empty d.running then mark_blocked d else rest

  -- `execute_graph`; the queue, the slots, the locks and the table are those of the coordinator
  unfoldable pub execute_graph :
      List TaskNode → List (List (String × Bool)) → Coordinator → Coordinator
  unfolding execute_loop first_queue
  execute_graph tasks waits c = execute_loop waits (start_of tasks c)
