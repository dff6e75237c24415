-- ===== src/Task/Exec/Settled.antt =====
-- What the dispatching of the parallel coordinator does to the row of a task that is not pending.
use hermes_agora.Base.{
  ℕ, zero, suc, String, ◌≡◌, refl, ◌∙◌, subst, inl, inr, Bool, true, false, not, ◌&&◌, Option, none,
  some, List, [], ◌∷◌, arith, ◌==◌, Bool-cases, Option-cases, is_empty, all_of,
}
use hermes_agora.Task.Store.Updates.{status, status-update}
use hermes_agora.Task.World.{Agent}
use hermes_agora.Base.Int.{ℤ}
use hermes_agora.Base.Dict.{Dict}
use hermes_agora.Task.Graph.{TaskNode, find_task}
use hermes_agora.Task.Assign.{is_pending, to_agent, capable_agents}
use hermes_agora.Task.Parallel.{
  Coordinator, mark_assigned, start_task, assign_task, with_locks, acquire_resources, dequeue,
  pick_among,
}
use hermes_agora.Task.Parallel.Run.{
  hand_out, truthy_pick, dispatch_entry, dispatch_step, dispatch_rounds,
}

-- No task of the coordinator with the id is pending.
abbrev is_not : String → TaskNode → Bool
is_not j t = not (t.id == j && is_pending t)

abbrev pub holds_none : String → List TaskNode → Bool
holds_none j = all_of (is_not j)

abbrev pub IsSettled : String → Option Coordinator → Type 0
IsSettled j none = Unit
IsSettled j (some c) = holds_none j c.graph_tasks ≡ true

holds_none-find :
    (j k : String) (tasks : List TaskNode) (t : TaskNode)
    → holds_none j tasks ≡ true
    → find_task k tasks ≡ some t
    → is_not j t ≡ true
unfolding find_task
holds_none-find j k [] t h e = cc
holds_none-find j k (u ∷ tasks) t h e = elim (Bool-cases (u.id == k)) [
  | inl f ↦
      let same : u ≡ t = cc (rw f at e) in subst (λ x. is_not j x ≡ true) same (ground (arith, h))
  | inr f ↦ holds_none-find j k tasks t (ground (arith, h)) (rw f at e)
]

holds_none-mark_assigned :
    (j k agent : String) (tasks : List TaskNode)
    → holds_none j tasks ≡ true
    → holds_none j (mark_assigned k agent tasks) ≡ true
unfolding mark_assigned
holds_none-mark_assigned j k agent [] h = refl
holds_none-mark_assigned j k agent (t ∷ tasks) h =
    let rest = holds_none-mark_assigned j k agent tasks (ground (arith, h)) in
    elim (Bool-cases (t.id == k)) [
      | inl e ↦ rw (mark_assigned, e) (ground (arith, rest))
      | inr e ↦ rw (mark_assigned, e) (ground (arith, h, rest))
    ]

-- The tasks of the coordinator stay settled for `j`, and its row is untouched.
abbrev pub Leaves : String → Coordinator → Coordinator → Type 0
Leaves j before after =
    (holds_none j after.graph_tasks ≡ true) × (status j after.rows ≡ status j before.rows)

module _ (j : String) (now : ℕ) where
  start_task-Leaves :
      (task : TaskNode) (agent : String) (c : Coordinator)
      → (task.id == j) ≡ false
      → holds_none j c.graph_tasks ≡ true
      → Leaves j c (start_task now task agent c)
  start_task-Leaves task agent c other h = (
    holds_none-mark_assigned j task.id agent c.graph_tasks h,
    ground (arith, other, status-update now task.id j "assigned" (to_agent agent) c.rows),
  )

  assign_task-Leaves :
      (task : TaskNode) (agent : String) (c : Coordinator)
      → (task.id == j) ≡ false
      → holds_none j c.graph_tasks ≡ true
      → Leaves j c (assign_task now task agent c)
  unfolding assign_task
  assign_task-Leaves task agent c other h = elim (Bool-cases (is_empty task.artifact_paths)) [
    | inl e ↦ rw (assign_task, e) (start_task-Leaves task agent c other h)
    | inr e ↦ elim (Bool-cases (acquire_resources task.id task.artifact_paths c.locks).1) [
      | inl f ↦
          rw (assign_task, e, f)
            (start_task-Leaves task agent
              (with_locks (acquire_resources task.id task.artifact_paths c.locks).0 c) other h)
      | inr f ↦ rw (assign_task, e, f) (h, refl)
    ]
  ]

  hand_out-Leaves :
      (task : TaskNode) (pick : Dict ℤ × Option String) (c : Coordinator)
      → (task.id == j) ≡ false
      → holds_none j c.graph_tasks ≡ true
      → Leaves j c (hand_out now task pick c).0
  hand_out-Leaves task (table, none) c other h = (h, refl)
  hand_out-Leaves task (table, some agent) c other h =
      assign_task-Leaves task agent (record c { agent_slots = table }) other h

  module _ (online : List String) (agents : List Agent) where
    dispatch_entry-Leaves :
        (k : String) (c : Coordinator)
        → holds_none j c.graph_tasks ≡ true
        → Leaves j c (dispatch_entry now online agents k c).0
    unfolding dispatch_entry
    dispatch_entry-Leaves k c h = elim (Option-cases (find_task k c.graph_tasks)) [
      | inl e ↦ rw (dispatch_entry, e) (h, refl)
      | inr (task, e) ↦ elim (Bool-cases (is_pending task)) [
        | inr f ↦ rw (dispatch_entry, e, f) (h, refl)
        | inl f ↦
            let other : (task.id == j) ≡ false =
              ground (arith, f, holds_none-find j k c.graph_tasks task h e) in
            rw (dispatch_entry, e, f)
              (hand_out-Leaves task
                (truthy_pick (
                  pick_among (capable_agents task.required_capabilities online agents) c.rows
                    c.agent_slots))
                c other h)
      ]
    ]

    dispatch_step-Leaves :
        (queue : List (ℕ × String)) (c : Coordinator)
        → holds_none j c.graph_tasks ≡ true
        → Leaves j c (dispatch_step now online agents queue c).0
    dispatch_step-Leaves [] c h = (h, refl)
    dispatch_step-Leaves (x ∷ queue) c h =
        dispatch_entry-Leaves (dequeue x queue).0.1 (record c { runqueue = (dequeue x queue).1 }) h

    pub dispatch_rounds-Leaves :
        (n : ℕ) (c : Coordinator)
        → holds_none j c.graph_tasks ≡ true
        → Leaves j c (dispatch_rounds now online agents n c)
    unfolding dispatch_rounds
    dispatch_rounds-Leaves zero c h = (h, refl)
    dispatch_rounds-Leaves (suc n) c h =
        let after = (dispatch_step now online agents c.runqueue c).0 in
        let (settled, same) = dispatch_step-Leaves c.runqueue c h in
        let (later, still) = dispatch_rounds-Leaves n after settled in
        elim (Bool-cases (dispatch_step now online agents c.runqueue c).1) [
          | inl e ↦ rw (dispatch_rounds, e) (later, still ∙ same)
          | inr e ↦ rw (dispatch_rounds, e) (settled, same)
        ]
