-- ===== src/Task/World.antt =====
-- What the handlers of the task engine read and write: the table, the agents that are registered
-- and connected, and what was sent, logged and published, oldest first.
use hermes_agora.Base.{ℕ, String, Option, List, [], ◌∷◌, ◌++◌}
use hermes_agora.Task.Store.{Task}

pub record Agent : Type 0 where
  pub agent_id : String
  pub capabilities : List String
  pub max_concurrent_tasks : ℕ

-- The messages of the coordinator, with the fields that the engine decides.
pub data Message : Type 0 where
  error : (agent code : String) → Message
  task_verify : (agent task : String) → Message
  task_assigned : (agent task : String) → Message
  task_retry : (task reason : String) (attempt delay : ℕ) → Message
  graph_aborted : (graph task : String) → Message

-- `storage.log_event`, without the detail text.
pub record Event : Type 0 where
  pub kind : String
  pub motion_id : Option String
  pub agent_id : String

pub record World : Type 0 where
  pub tasks : List Task
  pub agents : List Agent
  pub online : List String
  pub reviewer_index : ℕ
  pub sent : List Message
  pub events : List Event
  pub published : List (String × String)

abbrev pub send : Message → World → World
send m w = record w { sent = w.sent ++ m ∷ [] }

abbrev pub log_event : String → Option String → String → World → World
log_event kind motion agent w = record w {
  events = w.events ++ record { kind = kind; motion_id = motion; agent_id = agent } ∷ [];
}
