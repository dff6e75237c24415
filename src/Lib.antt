-- ===== src/Lib.antt =====
-- The Agora coordinator: agents hold discussions on motions, vote on them, and carry out the tasks
-- that a motion leads to. Paths below are relative to agora/coordinator/.
--
-- A motion runs through the state machine of state.py; the votes of the agents arrive through
-- ws_vote.py, are stored by storage/votes.py, and are counted by voting/. The tasks of a motion
-- are rows of storage/tasks.py; agents report on them (task_exec.py), finished tasks are verified
-- (task_verify/), failed ones are retried or block others (task_retry*.py), and tasks that run in
-- parallel lock the paths they write (task_resource*.py). rate_limiter.py bounds how often an
-- agent speaks and votes, and token_rate_limiter.py how many tokens it spends; token_manager.py
-- issues and revokes the access tokens of agents. A speech on a motion (ws_handlers.py) may
-- complete a round, which is then assessed (ws_smart.py, assessment.py). The tasks of a motion are
-- generated as a graph (task_gen/), assigned to agents (task_assign.py) or run in parallel
-- (task_parallel*.py).
--
-- Base holds what the parts share: Python's dict and set of strings as lists in the order of
-- insertion (Base/Dict, Base/Sets), Counter (Base/Counter), Boolean tests and lists measured by
-- native numbers, and integers with a sign (Base/Int). Voting/Types: models/_models.py.
-- Voting/Binary: voting/factory.py. Voting/Ranked: voting/ranked_choice.py. Voting/Choice:
-- voting/multiple_choice.py, with Voting/Leader for its `max`. Voting/Approval:
-- voting/approval_voting.py. Voting/Weighted: voting/weighted.py, voting/weight_manager.py, and
-- the weighted count of voting/manager.py. Task/Status: the transition table of task_exec.py.
-- Task/Store: storage/tasks.py. Task/World: what the handlers read and write. Task/Verify:
-- task_verify/. Task/Exec: the handlers of task_exec.py, with the hooks that call the parallel
-- coordinator where one is given. Task/Retry: task_retry_policy.py, task_retry.py and
-- task_retry_helpers.py, whose `abort_graph` is `abort_whole_graph` here. Task/Resource:
-- task_resource.py and task_resource_compat.py. Task/Graph: task_gen/, the validation in
-- Task/Graph/Validation with its search for a cycle. Task/Assign: task_assign.py. Task/Parallel:
-- task_parallel_helpers.py and task_parallel_dispatch.py, with the loops of
-- task_parallel_events.py and task_parallel.py in Task/Parallel/Run. Motion/Store:
-- storage/motions.py and storage/votes.py. Motion/State: state.py. Motion/Ballot: ws_vote.py.
-- Motion/Closing: close_voting of voting/manager.py. Access: rbac.py. RateLimit: the class
-- RateLimiter of rate_limiter.py. RateLimit/Bucket: its class TokenBucket. RateLimit/Tokens:
-- token_rate_limiter.py. Tokens: token_manager.py, with the library jwt as a parameter.
-- Smart/Messages: storage/messages.py. Smart/Assess: assessment.py and quality_scorer.py.
-- Smart/Guard: quality_guard*.py. Smart/Advocate: devils_advocate.py. Smart/Deadlock:
-- deadlock_prevention.py. Smart/Rounds: ws_smart.py. Smart/Speaking: handle_speak of
-- ws_handlers.py. Smart/Dynamic, Smart/Jump and Smart/Realtime: dynamic_rounds.py,
-- consensus_jump.py and realtime_evaluator.py. Smart/Scheduler: smart_scheduler.py. Pipeline:
-- pipeline.py and the pipeline_*.py files: Pipeline/Types their models and the interface of the
-- components, Pipeline/Retry, Pipeline/Review, Pipeline/Release and Pipeline/Executor the files of
-- these names, with the discussion and the record of a run in Pipeline/Release. Examples: the
-- theorems applied to concrete data.
--
-- A handler is a function from the state before it to the state after it; one that may raise
-- returns an Option or a result type. Messages, log entries and published events are lists in the
-- state, in the order in which they are sent. Calls are atomic: each handler runs to its end
-- before the next, which for handlers that await between statements is one of the orders that the
-- event loop allows. A time is an argument, the reading of the clock at that point. Four loops run
-- on fuel: the instant runoff gets one unit for each option and one more, and each of its rounds
-- that goes on eliminates an option; the search for a cycle gets one for each task, and each call
-- visits a task for the first time; the assignment gets one for each pending task, and each round
-- takes one at least; the dispatch gets one for each entry of the queue. A threshold of a float
-- quotient is compared as a product of integers, which agrees with the float for fewer than 2^52
-- votes.
--
-- A confidence in a vote is a number of millionths, and sums of weights are exact, where the code
-- rounds floats and takes negative confidences. A key of a vote payload that is there with the
-- value null is not told from a missing one, and the constraints NOT NULL of the table of votes
-- are left out.
--
-- Not modelled: range voting, tenants and sessions, texts of rationales and log lines, the file
-- system (a parameter of Task/Verify), the review of a closed motion beyond the request for it,
-- the loops of task_retry_helpers.py behind the call of a storage method that no class defines,
-- the prompt and the decoding of JSON, wait events, routers, dashboard, plugins, the review
-- results of a pipeline that arrive later, the comparison of texts in focus.py, history_pattern.py
-- and similar_topic.py, and the client libraries.
pub mod Base
pub mod Voting
pub mod Task
pub mod Motion
pub mod RateLimit
pub mod Access
pub mod Tokens
pub mod Smart
pub mod Pipeline
pub mod Examples
