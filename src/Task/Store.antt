-- ===== src/Task/Store.antt =====
-- agora/coordinator/storage/tasks.py: the rows of the table `tasks`, and the statements on them.
-- A time stamp is a number, given by the caller; the JSON columns are their decoded lists.
pub mod Updates
use hermes_agora.Base.{
  ℕ, ◌*◌, String, ◌≡◌, Bool, true, false, not, ◌&&◌, ◌||◌, Option, none, some, List, [], ◌∷◌, ◌==◌,
  if◌then◌else◌, take, drop, keep, count_if,
}

pub record Task : Type 0 where
  pub id : String
  pub graph_id : String
  pub motion_id : String
  pub title : String
  pub description : String
  pub status : String
  pub assigned_to : Option String
  pub required_capabilities : List String
  pub depends_on : List String
  pub artifact_paths : List String
  pub error_message : Option String
  pub started_at : Option ℕ
  pub completed_at : Option ℕ

-- SELECT * FROM tasks WHERE id = ?
unfoldable pub get_task : String → List Task → Option Task
get_task k [] = none
get_task k (t ∷ tasks) = if t.id == k then some t else get_task k tasks

-- A column that is set only where the argument is not None.
abbrev pub or_keep {ℓ} : {A : Type ℓ} → Option A → Option A → Option A
or_keep none old = old
or_keep (some a) old = some a

abbrev pub list_or_keep : Option (List String) → List String → List String
list_or_keep none old = old
list_or_keep (some a) old = a

-- The optional arguments of `update_task_status`.
pub record Changes : Type 0 where
  pub assigned_to : Option String
  pub error_message : Option String
  pub artifact_paths : Option (List String)

abbrev pub no_changes : Changes
no_changes = record { assigned_to = none; error_message = none; artifact_paths = none }

abbrev pub completes : String → Bool
completes s = s == "done" || s == "accepted" || s == "rejected" || s == "failed"

-- the SET clause on one row
unfoldable pub set_status : ℕ → String → Changes → Task → Task
set_status now status changes t = record t {
  status = status;
  assigned_to = or_keep changes.assigned_to t.assigned_to;
  error_message = or_keep changes.error_message t.error_message;
  artifact_paths = list_or_keep changes.artifact_paths t.artifact_paths;
  started_at = if status == "running" then some now else t.started_at;
  completed_at = if completes status then some now else t.completed_at;
}

-- UPDATE tasks SET … WHERE id = ?
unfoldable pub update_task_status : ℕ → String → String → Changes → List Task → List Task
unfolding set_status
update_task_status now k status changes [] = []
update_task_status now k status changes (t ∷ tasks) =
    (if t.id == k then set_status now status changes t else t)
    ∷ update_task_status now k status changes tasks

-- SELECT COUNT(*) FROM tasks WHERE assigned_to = ? AND status IN ('assigned', 'running')
abbrev is_assigned_to : String → Task → Bool
is_assigned_to agent t = elim t.assigned_to [ none ↦ false | some a ↦ a == agent ]

unfoldable pub get_agent_task_count : String → Bool → List Task → ℕ
get_agent_task_count agent active_only tasks =
    if active_only
    then count_if (λ t. is_assigned_to agent t && (t.status == "assigned" || t.status == "running"))
        tasks
    else count_if (is_assigned_to agent) tasks

-- the WHERE clause of `list_tasks`: an empty or missing filter is no condition
abbrev matches : Option String → String → Bool
matches none column = true
matches (some f) column = f == "" || column == f

unfoldable pub list_tasks :
    Option String → Option String → Option String → ℕ → ℕ → List Task → List Task
list_tasks graph agent status limit offset tasks = take limit (
    drop offset (
      keep (λ t. matches graph t.graph_id && assigned_matches agent t && matches status t.status)
        tasks))
  where
    assigned_matches : Option String → Task → Bool
    assigned_matches none t = true
    assigned_matches (some a) t = a == "" || is_assigned_to a t
