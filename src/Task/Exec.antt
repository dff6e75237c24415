-- ===== src/Task/Exec.antt =====
-- agora/coordinator/task_exec.py: the handlers of the task messages of an agent, with the
-- parallel coordinator (`parallel_coord`) where one is given.
pub mod Transitions
pub mod Settled
pub mod Terminal
use hermes_agora.Base.{
  ℕ, String, ◌≡◌, Bool, not, Option, none, some, List, [], ◌∷◌, ◌++◌, ◌==◌, if◌then◌else◌, mem,
}
use hermes_agora.Task.Status.{is_valid_transition}
use hermes_agora.Task.Store.{Task, get_task, update_task_status, Changes, no_changes}
use hermes_agora.Task.World.{World, Message, error, send, log_event}
use hermes_agora.Base.Int.{dec}
use hermes_agora.Base.Dict
use hermes_agora.Task.Parallel.{Coordinator, slots}
use hermes_agora.Task.Parallel.Run.{
  dispatch_rounds, dispatch_ready, on_task_complete, on_task_failed,
}
use hermes_agora.Task.Verify.{verify_task}

-- the payload of TASK_STATUS
pub record StatusReport : Type 0 where
  pub task_id : Option String
  pub status : Option String
  pub error : Option String
  pub artifact_paths : Option (List String)

abbrev pub send_error : String → String → World → World
send_error agent code w = send (error agent code) w

-- What the handlers change: the world, and the parallel coordinator where one is given.
abbrev pub Handled : Type 0
Handled = World × Option Coordinator

-- The coordinator works on the table of tasks of the world.
abbrev pub on_table : World → Coordinator → Coordinator
on_table w c = record c { rows = w.tasks }

-- `if parallel_coord: await _parallel_on_done(…)`
unfoldable pub parallel_on_done : ℕ → String → Handled → Handled
unfolding dispatch_rounds on_task_complete
parallel_on_done now k (w, none) = (w, none)
parallel_on_done now k (w, some c) =
    let after = dispatch_ready now w.online w.agents (on_task_complete k (on_table w c)) in
    (record w { tasks = after.rows }, some after)

-- `if parallel_coord: await _parallel_on_fail(…)`
unfoldable pub parallel_on_fail : String → Handled → Handled
unfolding on_task_failed
parallel_on_fail k (w, none) = (w, none)
parallel_on_fail k (w, some c) = (w, some (on_task_failed k (on_table w c)))

module _ (exists : String → Bool) (now : ℕ) (agent : String) where
  -- what follows the update of the status
  pub after_update : String → String → Task → Handled → Handled
  unfolding parallel_on_done parallel_on_fail
  after_update task_id new_status task (w, coord) =
      let published = record w { published = w.published ++ (task_id, new_status) ∷ [] } in
      if new_status == "done"
      then parallel_on_done now task_id (verify_task exists now task_id published, coord)
      else if new_status == "failed"
      then parallel_on_fail task_id
          (log_event "task.failed" (some task.motion_id) agent published, coord)
      else (published, coord)

  pub status_found : StatusReport → String → String → Option Task → Handled → Handled
  unfolding after_update
  status_found report new_status task_id none (w, coord) =
      (send_error agent "task_not_found" w, coord)
  status_found report new_status task_id (some task) (w, coord) =
      if is_valid_transition task.status new_status
      then after_update task_id new_status task (
        record w {
          tasks =
              update_task_status now task_id new_status
                (record {
                  assigned_to = none;
                  error_message = report.error;
                  artifact_paths = report.artifact_paths;
                })
                w.tasks;
        },
        coord,
      )
      else (send_error agent "invalid_transition" w, coord)

  -- no row has the id None
  pub status_for : StatusReport → String → Option String → Handled → Handled
  unfolding status_found
  status_for report new_status none (w, coord) = (send_error agent "task_not_found" w, coord)
  status_for report new_status (some task_id) (w, coord) =
      status_found report new_status task_id (get_task task_id w.tasks) (w, coord)

  unfoldable pub handle_task_status : StatusReport → Handled → Handled
  unfolding status_for
  handle_task_status report (w, coord) =
      let new_status : String = elim report.status [ none ↦ "" | some s ↦ s ] in
      if new_status == ""
      then (send_error agent "missing_status" w, coord)
      else status_for report new_status report.task_id (w, coord)

module _ (now : ℕ) (agent : String) where
  -- `if parallel_coord and task_id in parallel_coord._running_futures`
  abbrev track_slot : String → Option Coordinator → Option Coordinator
  track_slot k none = none
  track_slot k (some c) =
      if mem k c.running
      then some (record c {
        agent_slots = Dict.put agent (dec (slots agent c.agent_slots)) c.agent_slots;
      })
      else some c

  pub started_found : String → Option Task → Handled → Handled
  unfolding Dict.get Dict.put
  started_found task_id none (w, coord) = (send_error agent "task_not_found" w, coord)
  started_found task_id (some task) (w, coord) = (
    log_event "task.started" (some task.motion_id) agent
        (record w { tasks = update_task_status now task_id "running" no_changes w.tasks }),
    track_slot task_id coord,
  )

  -- `if not task_id` holds of None and of the empty text
  unfoldable pub handle_task_started : Option String → Handled → Handled
  unfolding started_found
  handle_task_started none (w, coord) = (send_error agent "missing_task_id" w, coord)
  handle_task_started (some k) (w, coord) =
      if k == ""
      then (send_error agent "missing_task_id" w, coord)
      else started_found k (get_task k w.tasks) (w, coord)

unfoldable pub handle_task_progress : String → Option String → World → World
handle_task_progress agent none w = send_error agent "missing_task_id" w
handle_task_progress agent (some k) w =
    if k == "" then send_error agent "missing_task_id" w else log_event "task.progress" none agent w
