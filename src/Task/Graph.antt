-- ===== src/Task/Graph.antt =====
-- agora/coordinator/task_models.py: the nodes of a task graph, as far as its generation and its
-- assignment set them; time stamps and the parallel settings of a graph are left out.
pub mod Validation
pub mod Search
pub mod Order
pub mod References
pub mod Exact
pub mod Generate
pub mod Sequence
pub mod Generated
use hermes_agora.Base.{String, Option, none, some, List, [], ◌∷◌, ◌==◌, if◌then◌else◌}
use hermes_agora.Task.Status.{TaskStatus}

pub record TaskNode : Type 0 where
  pub id : String
  pub graph_id : String
  pub motion_id : String
  pub title : String
  pub description : String
  pub status : TaskStatus
  pub assigned_to : Option String
  pub required_capabilities : List String
  pub depends_on : List String
  pub artifact_paths : List String

pub record TaskGraph : Type 0 where
  pub id : String
  pub motion_id : String
  pub tasks : List TaskNode

-- `next(t for t in tasks if t.id == task_id)`: none for StopIteration
unfoldable pub find_task : String → List TaskNode → Option TaskNode
find_task k [] = none
find_task k (t ∷ tasks) = if t.id == k then some t else find_task k tasks

-- `{t.id for t in tasks}`, as the list of the ids
abbrev pub ids : List TaskNode → List String
ids [] = []
ids (t ∷ tasks) = t.id ∷ ids tasks
