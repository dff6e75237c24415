-- ===== src/Task/Status.antt =====
-- agora/coordinator/task_models.py: the statuses of a task; task_exec.py: VALID_TRANSITIONS.
pub mod Diagram
use hermes_agora.Base.{String, ◌≡◌, Bool, List, [], ◌∷◌, ◌==◌, if◌then◌else◌, mem}

pub data TaskStatus : Type 0 where
  pending assigned running done accepted rejected failed : TaskStatus

abbrev pub value : TaskStatus → String
value pending = "pending"
value assigned = "assigned"
value running = "running"
value done = "done"
value accepted = "accepted"
value rejected = "rejected"
value failed = "failed"

-- `VALID_TRANSITIONS.get(current, set())`
unfoldable pub valid_transitions : String → List String
valid_transitions current =
    if current == "pending"
    then "assigned" ∷ []
    else if current == "assigned"
    then "running" ∷ "failed" ∷ []
    else if current == "running"
    then "done" ∷ "failed" ∷ []
    else if current == "done"
    then "accepted" ∷ "rejected" ∷ []
    else if current == "rejected"
    then "pending" ∷ []
    else if current == "failed"
    then "pending" ∷ []
    else []

unfoldable pub is_valid_transition : String → String → Bool
unfolding valid_transitions
is_valid_transition current next_status = mem next_status (valid_transitions current)
