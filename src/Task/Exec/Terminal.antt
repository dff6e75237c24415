-- ===== src/Task/Exec/Terminal.antt =====
-- Accepted tasks: final for reports, and not for the verdicts of reviewers, which skip the table.
use hermes_agora.Base.{
  ℕ, String, ◌≡◌, refl, ap, ◌∙◌, subst, inl, inr, Bool, true, false, false≢true, Option, none, some,
  List, [], ◌∷◌, ◌++◌, arith, ◌==◌, eq_refl, Bool-cases, Option-cases, text-cases, length,
}
use hermes_agora.Task.Status
use hermes_agora.Task.Status.{TaskStatus, value}
use hermes_agora.Task.Status.Diagram.{
  StepBetween, is_valid_transition_exact, is_valid_transition_sound,
}
use hermes_agora.Task.Store.{Task, Changes, get_task, update_task_status, no_changes}
use hermes_agora.Task.Store.Updates.{status, status-update}
use hermes_agora.Task.World.{World, log_event}
use hermes_agora.Task.Parallel.Run.{on_task_complete, on_task_failed}
use hermes_agora.Task.Status.{is_valid_transition}
use hermes_agora.Task.Verify.{verify_task}
use hermes_agora.Task.Verify.{handle_task_accept_result}
use hermes_agora.Task.Exec.Settled.{IsSettled, dispatch_rounds-Leaves}
use hermes_agora.Task.Exec.{
  StatusReport, Handled, on_table, parallel_on_done, parallel_on_fail, after_update, status_found,
  status_for, handle_task_status,
}
use hermes_agora.Task.Exec.Transitions.{Reach, here, next, verify_task-Follows}

StepBetween-accepted : (next : String) → ¬ StepBetween "accepted" next
StepBetween-accepted n h =
    false≢true (unfold Status.is_valid_transition in (is_valid_transition_exact "accepted" n).1 h)

Reach-accepted : {s t : String} → s ≡ "accepted" → Reach s t → t ≡ "accepted"
Reach-accepted e here = e
Reach-accepted e (next {t = t} {u = u} r edge) =
    absurd (StepBetween-accepted u (subst (λ x. StepBetween x u) (Reach-accepted e r) edge))

-- The task is accepted, and the coordinator does not hold it as pending.
abbrev pub IsKept : String → Handled → Type 0
IsKept j s = (status j s.0.tasks ≡ some "accepted") × IsSettled j s.1

parallel_on_done-IsKept :
    (j : String) (now : ℕ) (k : String) (s : Handled)
    → IsKept j s
    → IsKept j (parallel_on_done now k s)
unfolding parallel_on_done on_task_complete
parallel_on_done-IsKept j now k (w, none) h = h
parallel_on_done-IsKept j now k (w, some c) (h, settled) =
    let before = on_task_complete k (on_table w c) in
    let (later, same) =
      dispatch_rounds-Leaves j now w.online w.agents (length before.runqueue) before settled in
    (same ∙ h, later)

parallel_on_fail-IsKept :
    (j k : String) (s : Handled) → IsKept j s → IsKept j (parallel_on_fail k s)
unfolding parallel_on_fail on_task_failed
parallel_on_fail-IsKept j k (w, none) h = h
parallel_on_fail-IsKept j k (w, some c) h = h

module _ (exists : String → Bool) (now : ℕ) (agent j : String) where
  after_update-IsKept :
      (k new : String) (task : Task) (s : Handled)
      → IsKept j s
      → IsKept j (after_update exists now agent k new task s)
  unfolding after_update
  after_update-IsKept k new task (w, coord) (h, settled) =
      let published = record w { published = w.published ++ (k, new) ∷ [] } in
      elim (Bool-cases (new == "done")) [
        | inl d ↦
            let (t, at, r) = verify_task-Follows exists now k published j "accepted" h in
            rw (after_update, d)
              (parallel_on_done-IsKept j now k (verify_task exists now k published, coord)
                (at ∙ ap some (Reach-accepted refl r), settled))
        | inr d ↦ elim (Bool-cases (new == "failed")) [
          | inl f ↦
              rw (after_update, d, f)
                (parallel_on_fail-IsKept j k
                  (log_event "task.failed" (some task.motion_id) agent published, coord)
                  (h, settled))
          | inr f ↦ rw (after_update, d, f) (h, settled)
        ]
      ]

  status_found-IsKept :
      (report : StatusReport) (new k : String) (o : Option Task) (s : Handled)
      → get_task k s.0.tasks ≡ o
      → IsKept j s
      → IsKept j (status_found exists now agent report new k o s)
  unfolding status_found
  status_found-IsKept report new k none (w, coord) e h = h
  status_found-IsKept report new k (some task) (w, coord) e (h, settled) =
      elim (Bool-cases (is_valid_transition task.status new)) [
        | inr v ↦ rw v (h, settled)
        | inl v ↦
            let changes : Changes = record {
              assigned_to = none;
              error_message = report.error;
              artifact_paths = report.artifact_paths;
            } in
            let moved = update_task_status now k new changes w.tasks in
            rw v (
              after_update-IsKept k new task (record w { tasks = moved }, coord)
                (
                  elim (text-cases k j) [
                    | inr (f, _) ↦ ground (arith, f, h, status-update now k j new changes w.tasks)
                    | inl (f, same) ↦
                        let was : task.status ≡ "accepted" =
                          let here : status j w.tasks ≡ some task.status = rw⁻¹ same (rw e refl) in
                          cc (here, h) in
                        absurd (
                          StepBetween-accepted new (
                            subst (λ x. StepBetween x new) was
                              (is_valid_transition_sound task.status new v)))
                  ],
                  settled,
                ))
      ]

  status_for-IsKept :
      (report : StatusReport) (new : String) (o : Option String) (s : Handled)
      → IsKept j s
      → IsKept j (status_for exists now agent report new o s)
  unfolding status_for
  status_for-IsKept report new none (w, coord) h = h
  status_for-IsKept report new (some k) (w, coord) h =
      status_found-IsKept report new k (get_task k w.tasks) (w, coord) refl h

  handle_task_status-IsKept :
      (report : StatusReport) (s : Handled)
      → IsKept j s
      → IsKept j (handle_task_status exists now agent report s)
  unfolding handle_task_status
  handle_task_status-IsKept report (w, coord) h = elim (Option-cases report.status) [
    | inl e ↦ rw (handle_task_status, e) h
    | inr (new, e) ↦ elim (Bool-cases (new == "")) [
      | inl b ↦ rw (handle_task_status, e, b) h
      | inr b ↦
          rw (handle_task_status, e, b) (status_for-IsKept report new report.task_id (w, coord) h)
    ]
  ]

module _ (exists : String → Bool) where
  -- The reports that arrive one after another, with their times and senders.
  unfoldable pub handle_reports : List (ℕ × String × StatusReport) → Handled → Handled
  handle_reports [] s = s
  handle_reports ((now, agent, report) ∷ reports) s =
      handle_reports reports (handle_task_status exists now agent report s)

  -- An accepted task that the parallel coordinator, where one is given, does not hold as pending
  -- stays accepted, and not pending in the coordinator, through every sequence of status reports,
  -- of any senders and at any times, with the verification and the dispatching that the reports
  -- lead to.
  pub accepted_is_final :
      (reports : List (ℕ × String × StatusReport)) (s : Handled) (j : String)
      → IsKept j s
      → IsKept j (handle_reports reports s)
  unfolding handle_reports
  accepted_is_final [] s j h = h
  accepted_is_final ((now, agent, report) ∷ reports) s j h =
      accepted_is_final reports (handle_task_status exists now agent report s) j
        (handle_task_status-IsKept exists now agent j report s h)

-- The verdict of a reviewer applies to a task of any status: accepted after a positive verdict,
-- pending after a negative one.
pub accept_result_unconditional :
    (now : ℕ) (k feedback s : String) (w : World)
    → status k w.tasks ≡ some s
    → (status k (handle_task_accept_result now k true feedback w).tasks ≡ some "accepted")
      × (status k (handle_task_accept_result now k false feedback w).tasks ≡ some "pending")
accept_result_unconditional now k feedback s w at = go (get_task k w.tasks) refl
  where
    reason : Changes
    reason = record { assigned_to = none; error_message = some feedback; artifact_paths = none }

    go :
        (o : Option Task)
        → get_task k w.tasks ≡ o
        → (status k (handle_task_accept_result now k true feedback w).tasks ≡ some "accepted")
          × (status k (handle_task_accept_result now k false feedback w).tasks ≡ some "pending")
    go none e = absurd (false≢true (ground (arith, e, at)))
    go (some t) e =
        unfold handle_task_accept_result in
        (
          ground (arith, e, eq_refl k, status-update now k k "accepted" no_changes w.tasks),
          ground (
            arith,
            e,
            eq_refl k,
            status-update now k k "rejected" reason w.tasks,
            status-update now k k "pending" no_changes
                (update_task_status now k "rejected" reason w.tasks),
          ),
        )
