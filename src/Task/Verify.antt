-- ===== src/Task/Verify.antt =====
-- agora/coordinator/task_verify: what happens to a task that an agent reports as done.
-- `exists` is os.path.exists.
use hermes_agora.Base.{
  ℕ, ◌+◌, ◌%◌, String, Bool, true, false, ◌&&◌, Option, none, some, List, [], ◌∷◌, ◌==◌, ltb,
  if◌then◌else◌, length, get_elem?, is_empty, keep, all_of, mem,
}
use hermes_agora.Task.Store.{Task, get_task, update_task_status, no_changes}
use hermes_agora.Task.World.{Agent, World, send, task_verify}

-- auto_check.py, without the reason text
unfoldable pub auto_verify : (String → Bool) → Task → Bool
auto_verify exists task = all_of exists task.artifact_paths

abbrev safe_caps : List String
safe_caps = "docs" ∷ "code" ∷ []

-- the loop over the dependencies: a missing dependency does not matter
abbrev pub dep_accepted : List Task → String → Bool
dep_accepted tasks d = elim (get_task d tasks) [ none ↦ true | some t ↦ t.status == "accepted" ]

-- simple_check.py
unfoldable pub is_simple_task : Task → List Task → Bool
is_simple_task task tasks =
    if ltb 1 (length task.artifact_paths)
    then false
    else if is_empty task.required_capabilities
    then false
    else if all_of (λ c. mem c safe_caps) task.required_capabilities
    then all_of (dep_accepted tasks) task.depends_on
    else false

abbrev pub reviewers : World → List Agent
reviewers w = keep (λ a. mem a.agent_id w.online && mem "review" a.capabilities) w.agents

-- delegate.py: the next reviewer in turn, with the index of the whole process
unfoldable pub delegate_review : Task → World → World
delegate_review task w =
    let n = length (reviewers w) in
    elim (get_elem? (reviewers w) (w.reviewer_index % n)) [
      | none ↦ w
      | some r ↦
          send (task_verify r.agent_id task.id) (record w { reviewer_index = w.reviewer_index + 1 })
    ]

unfoldable pub verify_found : (String → Bool) → ℕ → String → Option Task → World → World
unfolding auto_verify is_simple_task delegate_review
verify_found exists now task_id none w = w
verify_found exists now task_id (some task) w =
    if task.status == "done"
    then if auto_verify exists task && is_simple_task task w.tasks
      then record w { tasks = update_task_status now task_id "accepted" no_changes w.tasks }
      else delegate_review task w
    else w

unfoldable pub verify_task : (String → Bool) → ℕ → String → World → World
unfolding verify_found
verify_task exists now task_id w = verify_found exists now task_id (get_task task_id w.tasks) w

-- accept_result.py
unfoldable pub accept_found : ℕ → String → Bool → String → Option Task → World → World
accept_found now task_id accept feedback none w = w
accept_found now task_id accept feedback (some task) w =
    if accept
    then record w { tasks = update_task_status now task_id "accepted" no_changes w.tasks }
    else record w {
      tasks = update_task_status now task_id "pending" no_changes (
          update_task_status now task_id "rejected"
            (record { assigned_to = none; error_message = some feedback; artifact_paths = none })
            w.tasks);
    }

unfoldable pub handle_task_accept_result : ℕ → String → Bool → String → World → World
unfolding accept_found
handle_task_accept_result now task_id accept feedback w =
    accept_found now task_id accept feedback (get_task task_id w.tasks) w
