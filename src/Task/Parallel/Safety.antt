-- ===== src/Task/Parallel/Safety.antt =====
-- The order in which task_parallel.py starts the tasks of a graph.
use hermes_agora.Base.{
  arith, remove_first, All, mem-set_add, length, set_add, Bool, mem, ℕ, zero, suc, String, ◌≡◌,
  subst, inl, inr, true, Option, none, some, List, [], ◌∷◌, Bool-cases, Option-cases, text-cases,
  is_empty,
}
use hermes_agora.Base.Int.{ℤ}
use hermes_agora.Base.Dict.{Dict}
use hermes_agora.Task.World.{Agent}
use hermes_agora.Task.Graph.{TaskNode, find_task, ids}
use hermes_agora.Task.Graph.Order.{IsDistinct, IsDistinct-IsFound}
use hermes_agora.Task.Assign.{is_pending, capable_agents}
use hermes_agora.Task.Parallel.{
  Coordinator, dequeue, mark_assigned, assign_task, acquire_resources, pick_among,
}
use hermes_agora.Task.Parallel.Run.{
  dispatch_ready, all_done, on_task_failed, on_task_complete, process_future, execute_graph,
  process_batch, execute_loop, start_of, hand_out, truthy_pick, dispatch_entry, dispatch_step,
  dispatch_rounds,
}
use hermes_agora.Task.Parallel.Order.{
  requeue-IsQueued, first_queue-IsQueued, met-grows, IsStartedInOrder, IsQueued, IsOrdered, deps_of,
  met, ids-mark_assigned, marked_in_order, IsQueued-mark, dequeue-All, append-All,
}

-- the parts of a coordinator that the order depends on
abbrev Holds : List TaskNode → List String → List (ℕ × String) → Type 0
Holds tasks completed queue =
    IsDistinct (ids tasks) × IsStartedInOrder completed tasks × IsQueued completed tasks queue

Holds-mark :
    (tasks : List TaskNode) (completed : List String) (queue : List (ℕ × String)) (k agent : String)
    → met completed (deps_of k tasks) ≡ true
    → Holds tasks completed queue
    → Holds (mark_assigned k agent tasks) completed queue
Holds-mark tasks completed queue k agent m (distinct, started, queued) = (
  rw (ids-mark_assigned k agent tasks) distinct,
  marked_in_order completed k agent tasks tasks m (IsDistinct-IsFound tasks distinct) started,
  IsQueued-mark completed k agent tasks queue queued,
)

assign_task-IsOrdered :
    (now : ℕ) (t : TaskNode) (agent : String) (c : Coordinator)
    → met c.completed (deps_of t.id c.graph_tasks) ≡ true
    → IsOrdered c
    → IsOrdered (assign_task now t agent c)
unfolding assign_task
assign_task-IsOrdered now t agent c m h =
    let marked = Holds-mark c.graph_tasks c.completed c.runqueue t.id agent m h in
    elim (Bool-cases (is_empty t.artifact_paths)) [
      | inl e ↦ rw e marked
      | inr e ↦ elim (Bool-cases (acquire_resources t.id t.artifact_paths c.locks).1) [
        | inl f ↦ rw (e, f) marked
        | inr f ↦ rw (e, f) h
      ]
    ]

found-deps :
    (k : String) (t : TaskNode) (tasks : List TaskNode) → find_task k tasks ≡ some t → t.id ≡ k
unfolding find_task
found-deps k t [] h = cc
found-deps k t (u ∷ tasks) h = elim (text-cases u.id k) [
  | inl (e, same) ↦ let one : u ≡ t = cc (rw e at h) in subst (λ x. x.id ≡ k) one same
  | inr (e, _) ↦ found-deps k t tasks (rw e at h)
]

hand_out-IsOrdered :
    (now : ℕ) (t : TaskNode) (r : Dict ℤ × Option String) (c : Coordinator)
    → met c.completed (deps_of t.id c.graph_tasks) ≡ true
    → IsOrdered c
    → IsOrdered (hand_out now t r c).0
hand_out-IsOrdered now t (table, none) c m (distinct, started, queued) = (
  distinct,
  started,
  append-All (λ q. met c.completed (deps_of q.1 c.graph_tasks) ≡ true) c.runqueue (2, t.id) queued
      m,
)
hand_out-IsOrdered now t (table, some agent) c m h =
    assign_task-IsOrdered now t agent (record c { agent_slots = table }) m h

module _ (now : ℕ) (online : List String) (agents : List Agent) where
  dispatch_entry-IsOrdered :
      (k : String) (c : Coordinator)
      → met c.completed (deps_of k c.graph_tasks) ≡ true
      → IsOrdered c
      → IsOrdered (dispatch_entry now online agents k c).0
  unfolding dispatch_entry
  dispatch_entry-IsOrdered k c m h = elim (Option-cases (find_task k c.graph_tasks)) [
    | inl e ↦ rw (dispatch_entry, e) h
    | inr (t, e) ↦
        let same = found-deps k t c.graph_tasks e in
        let m' : met c.completed (deps_of t.id c.graph_tasks) ≡ true = rw same m in
        elim (Bool-cases (is_pending t)) [
          | inl f ↦
              rw (dispatch_entry, e, f)
                (hand_out-IsOrdered now t
                  (truthy_pick (
                    pick_among (capable_agents t.required_capabilities online agents) c.rows
                      c.agent_slots))
                  c m' h)
          | inr f ↦ rw (dispatch_entry, e, f) h
        ]
  ]

  dispatch_step-IsOrdered :
      (queue : List (ℕ × String)) (c : Coordinator)
      → IsOrdered c
      → IsQueued c.completed c.graph_tasks queue
      → IsOrdered (dispatch_step now online agents queue c).0
  dispatch_step-IsOrdered [] c h q = h
  dispatch_step-IsOrdered (x ∷ queue) c (distinct, started, _) q =
      let P : ℕ × String → Type 0 = λ e. met c.completed (deps_of e.1 c.graph_tasks) ≡ true in
      let (least, rest) = dequeue-All P x queue q.0 q.1 in
      dispatch_entry-IsOrdered (dequeue x queue).0.1 (record c { runqueue = (dequeue x queue).1 })
        least (distinct, started, rest)

  dispatch_rounds-IsOrdered :
      (n : ℕ) (c : Coordinator) → IsOrdered c → IsOrdered (dispatch_rounds now online agents n c)
  unfolding dispatch_rounds
  dispatch_rounds-IsOrdered zero c h = h
  dispatch_rounds-IsOrdered (suc n) c h =
      let after = dispatch_step-IsOrdered c.runqueue c h h.2 in
      elim (Bool-cases (dispatch_step now online agents c.runqueue c).1) [
        | inl e ↦
            rw e
              (dispatch_rounds-IsOrdered n (dispatch_step now online agents c.runqueue c).0 after)
        | inr e ↦ rw e after
      ]

started_grows :
    (completed later : List String) (tasks : List TaskNode)
    → ((x : String) → mem x completed ≡ true → mem x later ≡ true)
    → IsStartedInOrder completed tasks
    → IsStartedInOrder later tasks
started_grows completed later [] sub h = tt
started_grows completed later (t ∷ tasks) sub h = elim h.0 [
  | inl e ↦ (inl e, started_grows completed later tasks sub h.1)
  | inr e ↦ (
    inr (met-grows completed later t.depends_on sub e),
    started_grows completed later tasks sub h.1,
  )
]

IsQueued-grows :
    (completed later : List String) (tasks : List TaskNode) (queue : List (ℕ × String))
    → ((x : String) → mem x completed ≡ true → mem x later ≡ true)
    → IsQueued completed tasks queue
    → IsQueued later tasks queue
IsQueued-grows completed later tasks [] sub h = tt
IsQueued-grows completed later tasks (q ∷ queue) sub h = (
  met-grows completed later (deps_of q.1 tasks) sub h.0,
  IsQueued-grows completed later tasks queue sub h.1,
)

on_task_complete-IsOrdered :
    (k : String) (c : Coordinator) → IsOrdered c → IsOrdered (on_task_complete k c)
unfolding on_task_complete
on_task_complete-IsOrdered k c (distinct, started, queued) =
    let later = set_add k c.completed in
    let sub : (x : String) → mem x c.completed ≡ true → mem x later ≡ true =
      λ x m. rw (mem-set_add x k c.completed) (ground (arith, m)) in
    (
      distinct,
      started_grows c.completed later c.graph_tasks sub started,
      requeue-IsQueued later c.failed c.graph_tasks c.graph_tasks c.runqueue
          (IsDistinct-IsFound c.graph_tasks distinct)
          (IsQueued-grows c.completed later c.graph_tasks c.runqueue sub queued),
    )

process_future-IsOrdered :
    (f : String × Bool) (c : Coordinator) → IsOrdered c → IsOrdered (process_future f c)
unfolding process_future on_task_failed
process_future-IsOrdered (k, sent) c h =
    let c' = record c { running = remove_first k c.running } in
    elim (Bool-cases (mem k c.running)) [
      | inr e ↦ rw e h
      | inl e ↦ elim (Bool-cases sent) [
        | inl f ↦ rw (e, f) (on_task_complete-IsOrdered k c' h)
        | inr f ↦ rw (e, f) h
      ]
    ]

process_batch-IsOrdered :
    (done : List (String × Bool)) (c : Coordinator) → IsOrdered c → IsOrdered (process_batch done c)
unfolding process_batch
process_batch-IsOrdered [] c h = h
process_batch-IsOrdered (f ∷ done) c h =
    process_batch-IsOrdered done (process_future f c) (process_future-IsOrdered f c h)

module _ (now : ℕ) (online : List String) (agents : List Agent) where
  execute_loop-IsOrdered :
      (waits : List (List (String × Bool))) (c : Coordinator)
      → IsOrdered c
      → IsOrdered (execute_loop now online agents waits c)
  unfolding execute_loop
  execute_loop-IsOrdered [] c h =
      let d = dispatch_rounds-IsOrdered now online agents (length c.runqueue) c h in
      elim (Bool-cases (all_done c)) [
        | inl e ↦ rw e h
        | inr e ↦ elim (Bool-cases (is_empty (dispatch_ready now online agents c).running)) [
          | inl f ↦ rw (e, f) d
          | inr f ↦ rw (e, f) d
        ]
      ]
  execute_loop-IsOrdered (done ∷ waits) c h =
      let d = dispatch_rounds-IsOrdered now online agents (length c.runqueue) c h in
      elim (Bool-cases (all_done c)) [
        | inl e ↦ rw e h
        | inr e ↦ elim (Bool-cases (is_empty (dispatch_ready now online agents c).running)) [
          | inl f ↦ rw (e, f) d
          | inr f ↦
              rw (e, f)
                (execute_loop-IsOrdered waits
                  (process_batch done (dispatch_ready now online agents c))
                  (process_batch-IsOrdered done (dispatch_ready now online agents c) d))
        ]
      ]

  -- In the parallel run of tasks with distinct ids, all pending at its start and on an empty
  -- queue, whatever messages succeed or fail in whatever order, a task that is no longer pending
  -- has all its dependencies among the completed tasks.
  pub dependencies_first :
      (tasks : List TaskNode) (waits : List (List (String × Bool))) (c : Coordinator)
      → IsDistinct (ids tasks)
      → All (λ t. is_pending t ≡ true) tasks
      → c.runqueue ≡ []
      → let after = execute_graph now online agents tasks waits c in
        IsStartedInOrder after.completed after.graph_tasks
  unfolding execute_graph
  dependencies_first tasks waits c distinct fresh empty =
      (execute_loop-IsOrdered waits (start_of tasks c) (
        distinct,
        all_pending [] tasks fresh,
        rw empty (first_queue-IsQueued [] tasks tasks [] (IsDistinct-IsFound tasks distinct) tt),
      )).1
    where
      all_pending :
          (completed : List String) (ts : List TaskNode)
          → All (λ t. is_pending t ≡ true) ts
          → IsStartedInOrder completed ts
      all_pending completed [] h = tt
      all_pending completed (t ∷ ts) h = (inl h.0, all_pending completed ts h.1)
