-- ===== src/Pipeline/Release.antt =====
-- agora/coordinator/pipeline_phase_discuss.py, pipeline_phase_release.py, pipeline_release_agent.py and
-- pipeline_phase_record.py: the other phases of a run.
use Prim.Native.String.{◌++◌ as ◌<>◌}
use hermes_agora.Base.{
  String, Bool, true, false, ◌||◌, Option, none, some, List, [], ◌==◌, if◌then◌else◌, is_empty, mem,
}
use hermes_agora.Pipeline.Types.{
  discussing, decomposing, releasing, completed, Graph, ReleaseRequest, Services, Act, give, throw,
  bind, call, assign, as_error,
}
use hermes_agora.Pipeline.Review.{first_with, or_else}

unfoldable pub build_graph_from_tasks : String → List String → Graph
build_graph_from_tasks motion_id task_ids = record {
  id = "graph-" <> motion_id;
  motion_id = motion_id;
  task_ids = task_ids;
}

module _ {W : Type 0} (sv : Services W) where
  unfoldable pub create_and_run_discussion : String → Act W String
  create_and_run_discussion idea s = as_error discussing false (
      bind (call (sv.start_dev_discussion idea))
        (λ motion_id. bind (call (sv.wait_for_result motion_id)) (λ result.
          if result.decision == "adopted"
          then give motion_id
          else throw (record { phase = some discussing; retryable = false })))
        s)

  unfoldable pub generate_task_graph : String → Act W Graph
  unfolding build_graph_from_tasks
  generate_task_graph motion_id s = as_error decomposing false (
      bind (call (sv.wait_for_result motion_id))
        (λ result. bind (call (sv.from_discussion_result result)) (λ task_ids.
          if is_empty task_ids
          then throw (record { phase = some decomposing; retryable = false })
          else give (build_graph_from_tasks motion_id task_ids)))
        s)

  unfoldable pub find_release_agent : Act W (Option String)
  find_release_agent = bind (call sv.get_online_agents) (λ agents s.
      give
        (or_else (first_with (λ a. mem "release" (sv.capabilities s.world a)) agents) (
          first_with
            (λ a. sv.contains "releaser" (sv.lower a) || sv.contains "release" (sv.lower a))
            agents))
        s)

  abbrev pub released : Graph → Bool → Act W String
  released graph true = give ("release-" <> graph.id)
  released graph false = throw (record { phase = some releasing; retryable = true })

  -- `_build_request`; the dict of a graph has no changed files
  abbrev pub build_request : Graph → String → String → ReleaseRequest
  build_request graph project_id review_summary = record {
    pipeline_id = graph.id;
    project_id = project_id;
    graph_id = graph.id;
    changed_files = [];
    review_summary = review_summary;
  }

  unfoldable pub release_by : Graph → String → String → Option String → Act W String
  release_by graph project_id review_summary none =
      throw (record { phase = some releasing; retryable = true })
  release_by graph project_id review_summary (some releaser) =
      if releaser == ""
      then throw (record { phase = some releasing; retryable = true })
      else bind (call (sv.send_release releaser (build_request graph project_id review_summary)))
          (released graph)

  unfoldable pub trigger_release : Graph → String → String → Act W String
  unfolding find_release_agent release_by
  trigger_release graph project_id review_summary s =
      as_error releasing true
        (bind find_release_agent (release_by graph project_id review_summary) s)

  unfoldable pub record_pipeline_session : Act W Unit
  record_pipeline_session s =
      assign (λ r. record r { phase = completed; completed_at = some (sv.clock s.world) }) s
