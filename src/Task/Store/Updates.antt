-- ===== src/Task/Store/Updates.antt =====
-- What an update of a status changes.
use hermes_agora.Base.{
  ℕ, suc, String, ◌≡◌, refl, ap, Option, none, some, List, [], ◌∷◌, arith, ◌==◌, eq_iff,
  if◌then◌else◌, length,
}
use hermes_agora.Task.Store.{Task, Changes, get_task, set_status, update_task_status}

-- The row of another task is untouched; the row of the task has the new columns.
pub get_task-update :
    (now : ℕ) (k j status : String) (changes : Changes) (tasks : List Task)
    → get_task j (update_task_status now k status changes tasks) ≡ elim (get_task j tasks) [
      | none ↦ none
      | some t ↦ if k == j then some (set_status now status changes t) else some t
    ]
unfolding get_task update_task_status
get_task-update now k j status changes [] = refl
get_task-update now k j status changes (t ∷ tasks) =
    ground (
      arith,
      eq_iff t.id k,
      eq_iff t.id j,
      eq_iff k j,
      get_task-update now k j status changes tasks,
    )

-- No row comes or goes.
pub length-update :
    (now : ℕ) (k status : String) (changes : Changes) (tasks : List Task)
    → length (update_task_status now k status changes tasks) ≡ length tasks
unfolding update_task_status
length-update now k status changes [] = refl
length-update now k status changes (t ∷ tasks) = ap suc (length-update now k status changes tasks)

abbrev pub status_of : Option Task → Option String
status_of none = none
status_of (some t) = some t.status

-- The status that a task has in the table.
abbrev pub status : String → List Task → Option String
status k tasks = status_of (get_task k tasks)

pub status-update :
    (now : ℕ) (k j new : String) (changes : Changes) (tasks : List Task)
    → status j (update_task_status now k new changes tasks)
      ≡ elim (status j tasks) [ none ↦ none | some s ↦ if k == j then some new else some s ]
unfolding set_status
status-update now k j new changes tasks = ground (arith, get_task-update now k j new changes tasks)

-- No two rows have the same id, as the primary key of the table demands.
abbrev pub HasUniqueIds : List Task → Type 0
HasUniqueIds [] = Unit
HasUniqueIds (t ∷ tasks) = (get_task t.id tasks ≡ none) × HasUniqueIds tasks
