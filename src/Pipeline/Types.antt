-- ===== src/Pipeline/Types.antt =====
-- agora/coordinator/pipeline_models.py, pipeline_review_models.py and pipeline_errors.py, and the interface
-- of the components that the orchestrator is given. Texts of errors are left out. Each operation of
-- a component may raise, and acts on a world that it alone knows.
use hermes_agora.Base.{ℕ, String, Bool, Option, some, List}

pub data PipelinePhase : Type 0 where
  discussing decomposing executing reviewing releasing completed failed : PipelinePhase

-- A PipelineError with its phase, or, without one, another exception.
pub record Raised : Type 0 where
  pub phase : Option PipelinePhase
  pub retryable : Bool

pub data ReviewOutcome : Type 0 where
  approved changes_requested : ReviewOutcome

pub record PipelineRun : Type 0 where
  pub id : String
  pub project_id : String
  pub idea : String
  pub motion_id : Option String
  pub graph_id : Option String
  pub phase : PipelinePhase
  pub completed_at : Option ℕ
  pub tasks_total : ℕ
  pub tasks_completed : ℕ
  pub tasks_failed : ℕ
  pub review_outcome : Option ReviewOutcome
  pub release_version : Option String
  pub error : Option Raised

pub record ReviewIssue : Type 0 where
  pub file : String
  pub line : Option ℕ
  pub severity : String
  pub description : String

pub record ReviewResult : Type 0 where
  pub pipeline_id : String
  pub reviewer_id : String
  pub outcome : ReviewOutcome
  pub issues : List ReviewIssue
  pub summary : String

pub record PipelineRetryPolicy : Type 0 where
  pub max_retries : ℕ
  pub retry_delay : ℕ

-- A graph of tasks, as a dict.
pub record Graph : Type 0 where
  pub id : String
  pub motion_id : String
  pub task_ids : List String

pub record FixTask : Type 0 where
  pub file : String
  pub line : Option ℕ
  pub severity : String
  pub description : String
  pub reviewer_id : String

-- The completed and the failed tasks of an execution.
pub record Execution : Type 0 where
  pub completed : List String
  pub failed : List String

pub data Outcome (A : Type 0) : Type 0 where
  returns : A → Outcome A
  raises : Raised → Outcome A

-- The message of a request to review. Its results of tasks and tests are empty.
pub record Request : Type 0 where
  pub pipeline_id : String
  pub changed_files : List String

-- The message of a request to release.
pub record ReleaseRequest : Type 0 where
  pub pipeline_id : String
  pub project_id : String
  pub graph_id : String
  pub changed_files : List String
  pub review_summary : String

-- What a discussion came to. Its confidence, its assessment of the risks and its time are left out.
pub record DiscussionResult : Type 0 where
  pub motion_id : String
  pub decision : String
  pub recommended_actions : List (List (String × String))
  pub rationale : String

-- The components: the bootstrap engine, the parallel coordinator, the storage, the hub of the
-- agents, the manager of notifications, the clock and the texts of Python. `hub.send` is one field for
-- each kind of request.
pub record Services (W : Type 0) : Type 0 where
  pub start_dev_discussion : String → W → Outcome String × W
  pub wait_for_result : String → W → Outcome DiscussionResult × W
  pub from_discussion_result : DiscussionResult → W → Outcome (List String) × W
  pub execute_graph : Graph → W → Outcome Execution × W
  pub execute_fix_tasks : Graph → List FixTask → W → Outcome Execution × W
  pub list_artifacts : String → W → Outcome (List (List String)) × W
  pub get_online_agents : W → Outcome (List String) × W
  pub capabilities : W → String → List String
  pub contains : String → String → Bool
  pub lower : String → String
  pub send : String → Request → W → Outcome Bool × W
  pub send_release : String → ReleaseRequest → W → Outcome Bool × W
  pub sleep : ℕ → W → W
  pub notify_completed : PipelineRun → W → W
  pub notify_failed : PipelineRun → W → W
  pub clock : W → ℕ

-- The run and the world of the components.
pub record State (W : Type 0) : Type 0 where
  pub run : PipelineRun
  pub world : W

-- A coroutine: it returns or raises, and leaves a state.
abbrev pub Act : Type 0 → Type 0 → Type 0
Act W A = State W → Outcome A × State W

module _ {W : Type 0} where
  abbrev pub give : {A : Type 0} → A → Act W A
  give a s = (returns a, s)

  abbrev pub throw : {A : Type 0} → Raised → Act W A
  throw e s = (raises e, s)

  abbrev pub and_go : {A B : Type 0} → Outcome A × State W → (A → Act W B) → Outcome B × State W
  and_go (returns a, s) f = f a s
  and_go (raises e, s) f = (raises e, s)

  abbrev pub bind : {A B : Type 0} → Act W A → (A → Act W B) → Act W B
  bind m f s = and_go (m s) f

  -- a call of a component
  abbrev pub call : {A : Type 0} → (W → Outcome A × W) → Act W A
  call op s = let (out, w) = op s.world in (out, record s { world = w })

  -- an assignment to fields of the run
  abbrev pub assign : (PipelineRun → PipelineRun) → Act W Unit
  assign f s = (returns tt, record s { run = f s.run })

  -- `except Exception as exc: raise Error(...)`
  abbrev pub as_error :
      {A : Type 0} → PipelinePhase → Bool → Outcome A × State W → Outcome A × State W
  as_error phase retryable (returns a, s) = (returns a, s)
  as_error phase retryable (raises e, s) =
      (raises (record { phase = some phase; retryable = retryable }), s)
