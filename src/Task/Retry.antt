-- ===== src/Task/Retry.antt =====
-- agora/coordinator/task_retry_policy.py, task_retry.py and task_retry_helpers.py: what happens
-- when a task fails. Delays are in milliseconds.
pub mod Policy
pub mod Decisions
use hermes_agora.Base.{
  ℕ, ◌+◌, ◌*◌, ◌^◌, min, String, ◌≡◌, Bool, true, Option, none, some, List, [], ◌==◌, if◌then◌else◌,
}
use hermes_agora.Base.Int.{ℤ, is_negative, nat_ltb}
use hermes_agora.Task.Store.{Task, get_task, update_task_status, Changes}
use hermes_agora.Task.World.{World, send, task_retry, graph_aborted}

pub data BackoffStrategy : Type 0 where
  fixed exponential : BackoffStrategy

pub record RetryPolicy : Type 0 where
  pub max_retries : ℤ
  pub backoff_strategy : BackoffStrategy
  pub initial_delay : ℕ

pub data FailureDecision : Type 0 where
  retry abort_task abort_graph : FailureDecision

abbrev delay_by : BackoffStrategy → ℕ → ℕ → ℕ
delay_by fixed initial attempt = initial
delay_by exponential initial attempt = min (initial * 2 ^ attempt) 60000

unfoldable pub get_delay : RetryPolicy → ℕ → ℕ
get_delay policy attempt = delay_by policy.backoff_strategy policy.initial_delay attempt

unfoldable pub can_retry : RetryPolicy → ℕ → Bool
can_retry policy current_retries =
    if is_negative policy.max_retries then true else nat_ltb current_retries policy.max_retries

abbrev pub with_error : String → Changes
with_error e = record { assigned_to = none; error_message = some e; artifact_paths = none }

-- `_get_graph_id`; an empty id is treated as a missing one
abbrev pub graph_id_of : Option Task → String
graph_id_of none = ""
graph_id_of (some t) = t.graph_id

-- The helpers call `storage.get_tasks_by_graph`, which no class of the repository defines: none
-- stands for the AttributeError, and what follows the call is never reached.

-- the ids of the blocked tasks
unfoldable pub cascade_block_dependents : String → World → Option (List String)
cascade_block_dependents k w = if graph_id_of (get_task k w.tasks) == "" then some [] else none

unfoldable pub abort_whole_graph : String → World → Option World
abort_whole_graph k w = if graph_id_of (get_task k w.tasks) == "" then some w else none

-- How the handling of a failure ends.
pub data Handling : Type 0 where
  handled : FailureDecision → Handling
  attribute_error : Handling

unfoldable pub handle_task_failure :
    ℕ → String → String → RetryPolicy → Bool → ℕ → World → World × Handling
unfolding can_retry get_delay cascade_block_dependents abort_whole_graph
handle_task_failure now k reason policy abort_on_failure retry_count w =
    if can_retry policy retry_count
    then (
      send (task_retry k reason (retry_count + 1) (get_delay policy retry_count))
          (record w { tasks = update_task_status now k "pending" (with_error reason) w.tasks }),
      handled retry,
    )
    else if abort_on_failure
    then elim (abort_whole_graph k w) [
      | none ↦ (w, attribute_error)
      | some after ↦ (after, handled abort_graph)
    ]
    else elim (cascade_block_dependents k w) [
      | none ↦ (w, attribute_error)
      | some blocked ↦ (w, handled abort_task)
    ]
