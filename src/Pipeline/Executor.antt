-- ===== src/Pipeline/Executor.antt =====
-- agora/coordinator/pipeline_executor.py and pipeline.py: the phases of a run in their order, the loop of
-- review and repair, and the exceptions that fail a run. The dict of the runs is left out.
use hermes_agora.Base.{
  ℕ, zero, suc, ◌+◌, String, Bool, true, false, not, Option, none, some, if◌then◌else◌, length,
  is_empty,
}
use hermes_agora.Pipeline.Types.{
  Execution, PipelinePhase, discussing, decomposing, executing, reviewing, releasing, failed,
  PipelineRun, ReviewOutcome, approved, changes_requested, ReviewResult, PipelineRetryPolicy, Graph,
  Outcome, returns, raises, Services, State, Act, give, throw, bind, call, assign,
}
use hermes_agora.Pipeline.Retry.{retryable}
use hermes_agora.Pipeline.Review.{trigger_code_review, process_review_response}
use hermes_agora.Pipeline.Release.{
  create_and_run_discussion, generate_task_graph, trigger_release, record_pipeline_session,
}

unfoldable pub new_run : (id idea project_id : String) → PipelineRun
new_run id idea project_id = record {
  id = id;
  project_id = project_id;
  idea = idea;
  motion_id = none;
  graph_id = none;
  phase = discussing;
  completed_at = none;
  tasks_total = 0;
  tasks_completed = 0;
  tasks_failed = 0;
  review_outcome = none;
  release_version = none;
  error = none;
}

abbrev pub enter : {W : Type 0} → PipelinePhase → Act W Unit
enter phase = assign (λ r. record r { phase = phase })

abbrev pub is_approved : ReviewOutcome → Bool
is_approved approved = true
is_approved changes_requested = false

module _ {W : Type 0} (sv : Services W) (policy : PipelineRetryPolicy) where
  -- The rounds that are left; `assert` fails where there was no review.
  unfoldable pub review_loop : ℕ → Option ReviewResult → Graph → Act W ReviewResult
  unfolding retryable trigger_code_review process_review_response
  review_loop zero none graph = throw (record { phase = none; retryable = false })
  review_loop zero (some last) graph = give last
  review_loop (suc left) last graph =
      bind (retryable sv (trigger_code_review sv graph) policy) (λ review.
        let fix_tasks = process_review_response review in
        let rest = review_loop left (some review) graph in
        if is_approved review.outcome
        then give review
        else if is_empty fix_tasks
        then give review
        else bind (enter executing) (λ _.
          bind (call (sv.execute_fix_tasks graph fix_tasks)) (λ result.
            bind
              (assign (λ r. record r {
                tasks_completed = r.tasks_completed + length result.completed;
                tasks_failed = r.tasks_failed + length result.failed;
                phase = reviewing;
              }))
              (λ _. rest))))

  -- the notification of a completed run, which drops exceptions
  unfoldable pub notify_completed : Act W Unit
  notify_completed s = (returns tt, record s { world = sv.notify_completed s.run s.world })

  -- the phases after the review
  unfoldable pub finish : Graph → ReviewResult → Act W Unit
  unfolding retryable trigger_release record_pipeline_session notify_completed
  finish graph review = bind (assign (λ r. record r { review_outcome = some review.outcome })) (λ _.
      if not (is_approved review.outcome)
      then give tt
      else bind (enter releasing) (λ _.
        bind (λ s. retryable sv (trigger_release sv graph s.run.project_id review.summary) policy s)
          (λ release_id.
            bind (assign (λ r. record r { release_version = some release_id }))
              (λ _. bind (record_pipeline_session sv) (λ _. notify_completed)))))

  -- from the review on
  abbrev pub executed : Execution → PipelineRun → PipelineRun
  executed results r = record r {
    tasks_completed = length results.completed;
    tasks_failed = length results.failed;
    phase = reviewing;
  }

  unfoldable pub review_phase : Graph → Execution → Act W Unit
  unfolding review_loop finish
  review_phase graph results =
      bind (assign (executed results))
        (λ _. bind (review_loop policy.max_retries none graph) (finish graph))

  -- from the execution on
  abbrev pub decomposed : Graph → PipelineRun → PipelineRun
  decomposed graph r = record r {
    graph_id = some graph.id;
    tasks_total = length graph.task_ids;
    phase = executing;
  }

  unfoldable pub execute_phase : Graph → Act W Unit
  unfolding retryable review_phase
  execute_phase graph =
      bind (assign (decomposed graph))
        (λ _. bind (retryable sv (call (sv.execute_graph graph)) policy) (review_phase graph))

  -- from the decomposition on
  abbrev pub discussed : String → PipelineRun → PipelineRun
  discussed motion_id r = record r { motion_id = some motion_id; phase = decomposing }

  unfoldable pub decompose_phase : String → Act W Unit
  unfolding generate_task_graph execute_phase
  decompose_phase motion_id =
      bind (assign (discussed motion_id))
        (λ _. bind (generate_task_graph sv motion_id) execute_phase)

  unfoldable pub execute_phases : Act W Unit
  unfolding create_and_run_discussion decompose_phase
  execute_phases s =
      bind (enter discussing) (λ _. bind (create_and_run_discussion sv s.run.idea) decompose_phase)
        s

  -- what `run` does with an exception, and the notification of a failed run
  abbrev pub settle : Outcome Unit × State W → State W
  settle (returns a, s) = s
  settle (raises e, s) =
      let run = record s.run { phase = failed; error = some e } in
      record { run = run; world = sv.notify_failed run s.world }

  unfoldable pub run_pipeline : (id idea project_id : String) → W → State W
  unfolding new_run execute_phases
  run_pipeline id idea project_id world =
      settle (execute_phases (record { run = new_run id idea project_id; world = world }))
