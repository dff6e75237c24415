-- ===== src/Examples/Pipelines.antt =====
-- A pipeline over components that answer at once, and a phase that fails.
use hermes_agora.Base.{ℕ, suc, String, refl, ◌⊎◌, true, false, none, [], ◌∷◌}
use hermes_agora.Pipeline.Types.{
  executing, PipelineRetryPolicy, returns, raises, DiscussionResult, Services, State, Act,
  Execution,
}
use hermes_agora.Pipeline.Executor.{new_run, run_pipeline}
use hermes_agora.Pipeline.Outcomes.{IsReleased, IsFailed, run_pipeline_ends}
use hermes_agora.Pipeline.Retry.{retry_with_backoff}
use hermes_agora.Pipeline.Retry.Calls.{Within, retry_with_backoff-Within}

abbrev all_done : Execution
all_done = record { completed = "t1" ∷ []; failed = [] }

abbrev adopted_result : String → DiscussionResult
adopted_result motion = record {
  motion_id = motion;
  decision = "adopted";
  recommended_actions = [];
  rationale = "";
}

-- The world counts the calls.
abbrev prompt : Services ℕ
prompt = record {
  start_dev_discussion = λ idea w. (returns "m1", suc w);
  wait_for_result = λ motion w. (returns (adopted_result motion), suc w);
  from_discussion_result = λ result w. (returns ("t1" ∷ []), suc w);
  execute_graph = λ graph w. (returns all_done, suc w);
  execute_fix_tasks = λ graph fixes w. (returns all_done, suc w);
  list_artifacts = λ graph w. (returns [], suc w);
  get_online_agents = λ w. (returns ("rel" ∷ []), suc w);
  capabilities = λ w agent. "release" ∷ [];
  contains = λ part whole. false;
  lower = λ s. s;
  send = λ agent request w. (returns true, suc w);
  send_release = λ agent request w. (returns true, suc w);
  sleep = λ n w. w;
  notify_completed = λ run w. w;
  notify_failed = λ run w. w;
  clock = λ w. w;
}

abbrev three_tries : PipelineRetryPolicy
three_tries = record { max_retries = 3; retry_delay = 30 }

run_pipeline_ends_example :
    let run = (run_pipeline prompt three_tries "p1" "an idea" "proj" 0).run in
    IsReleased run ⊎ IsFailed run
run_pipeline_ends_example = run_pipeline_ends prompt three_tries "p1" "an idea" "proj" 0

abbrev broken : Act ℕ ℕ
broken s = (raises (record { phase = none; retryable = false }), record s { world = suc s.world })

abbrev start : State ℕ
start = record { run = new_run "p1" "an idea" "proj"; world = 0 }

retry_with_backoff-Within_example :
    Within (λ w. w) executing 3 (retry_with_backoff prompt broken executing three_tries start)
retry_with_backoff-Within_example =
    retry_with_backoff-Within prompt three_tries (λ w. w) (λ n w. refl) broken executing (λ s. refl)
      start refl
