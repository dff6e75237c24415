-- ===== src/Task/Parallel/Fuel.antt =====
-- The fuel of the dispatch loop: one round for each entry of the queue.
use hermes_agora.Base.{
  ℕ, zero, suc, ◌≤◌, String, ◌≡◌, refl, ap, ◌∙◌, inl, inr, true, Option, none, some, List, [], ◌∷◌,
  arith, if◌then◌else◌, Bool-cases, Option-cases, length, is_empty,
}
use hermes_agora.Base.Int.{ℤ}
use hermes_agora.Base.Dict.{Dict}
use hermes_agora.Task.World.{Agent}
use hermes_agora.Task.Graph.{TaskNode, find_task}
use hermes_agora.Task.Assign.{is_pending, capable_agents}
use hermes_agora.Task.Parallel.{
  Coordinator, dequeue, is_before, assign_task, acquire_resources, pick_among,
}
use hermes_agora.Task.Parallel.Run.{
  hand_out, truthy_pick, dispatch_entry, dispatch_step, dispatch_rounds,
}

length-dequeue : (x : ℕ × String) (ys : List (ℕ × String)) → length (dequeue x ys).1 ≡ length ys
unfolding dequeue
length-dequeue x [] = refl
length-dequeue x (y ∷ ys) = ap suc (length-dequeue (if is_before x y then x else y) ys)

runqueue-assign_task :
    (now : ℕ) (t : TaskNode) (agent : String) (c : Coordinator)
    → (assign_task now t agent c).runqueue ≡ c.runqueue
unfolding assign_task
runqueue-assign_task now t agent c = elim (Bool-cases (is_empty t.artifact_paths)) [
  | inl e ↦ rw e refl
  | inr e ↦ elim (Bool-cases (acquire_resources t.id t.artifact_paths c.locks).1) [
    | inl f ↦ rw (e, f) refl
    | inr f ↦ rw (e, f) refl
  ]
]

runqueue-hand_out :
    (now : ℕ) (t : TaskNode) (r : Dict ℤ × Option String) (c : Coordinator)
    → (hand_out now t r c).1 ≡ true
    → (hand_out now t r c).0.runqueue ≡ c.runqueue
runqueue-hand_out now t (table, none) c h = cc
runqueue-hand_out now t (table, some agent) c h =
    runqueue-assign_task now t agent (record c { agent_slots = table })

no_entries : (queue : List (ℕ × String)) → length queue ≤ 0 → queue ≡ []
no_entries [] h = refl
no_entries (x ∷ queue) h = absurd (omega (arith, h))

module _ (now : ℕ) (online : List String) (agents : List Agent) where
  runqueue-dispatch_entry :
      (k : String) (c : Coordinator)
      → (dispatch_entry now online agents k c).1 ≡ true
      → (dispatch_entry now online agents k c).0.runqueue ≡ c.runqueue
  unfolding dispatch_entry
  runqueue-dispatch_entry k c h = elim (Option-cases (find_task k c.graph_tasks)) [
    | inl e ↦ rw (dispatch_entry, e) refl
    | inr (t, e) ↦ elim (Bool-cases (is_pending t)) [
      | inr f ↦ rw (dispatch_entry, e, f) refl
      | inl f ↦
          let r = truthy_pick (
            pick_among (capable_agents t.required_capabilities online agents) c.rows
              c.agent_slots) in
          rw (dispatch_entry, e, f) (runqueue-hand_out now t r c (rw (dispatch_entry, e, f) at h))
    ]
  ]

  runqueue-dispatch_step :
      (queue : List (ℕ × String)) (c : Coordinator)
      → (dispatch_step now online agents queue c).1 ≡ true
      → suc (length (dispatch_step now online agents queue c).0.runqueue) ≡ length queue
  runqueue-dispatch_step [] c h = cc
  runqueue-dispatch_step (x ∷ queue) c h =
      let same =
        runqueue-dispatch_entry (dequeue x queue).0.1 (record c { runqueue = (dequeue x queue).1 })
          h in
      ap (λ (q : List (ℕ × String)). suc (length q)) same ∙ ap suc (length-dequeue x queue)

  -- One round of dispatching for each entry of the queue is enough: more rounds change nothing.
  pub dispatch_enough :
      (n : ℕ) (c : Coordinator)
      → length c.runqueue ≤ n
      → dispatch_rounds now online agents (suc n) c ≡ dispatch_rounds now online agents n c
  unfolding dispatch_rounds
  dispatch_enough zero c h = rw (no_entries c.runqueue h) refl
  dispatch_enough (suc n) c h =
      let after = (dispatch_step now online agents c.runqueue c).0 in
      elim (Bool-cases (dispatch_step now online agents c.runqueue c).1) [
        | inr e ↦ rw e refl
        | inl e ↦
            let fewer = runqueue-dispatch_step c.runqueue c e in
            let rest = dispatch_enough n after (omega (arith, h, fewer)) in rw e rest
      ]
