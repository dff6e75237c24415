-- ===== src/Pipeline/Outcomes.antt =====
-- In which phases a run of the pipeline ends.
pub mod Logic
use hermes_agora.Base.{
  ℕ, zero, suc, String, ◌≡◌, refl, sym, ap, ◌∙◌, ◌⊎◌, inl, inr, Bool, true, false, false≢true, not,
  Option, none, some, List, [], ◌==◌, if◌then◌else◌, Bool-cases,
}
use hermes_agora.Pipeline.Types.{
  Execution, discussing, PipelinePhase, completed, failed, reviewing, releasing, Raised,
  PipelineRun, ReviewOutcome, approved, ReviewResult, PipelineRetryPolicy, Graph, Outcome, returns,
  raises, Services, State, Act, bind, call, give, throw, assign, as_error,
}
use hermes_agora.Pipeline.Retry.{retryable}
use hermes_agora.Pipeline.Review.{
  answered, trigger_code_review, review_by, collect_files, find_review_agent,
}
use hermes_agora.Pipeline.Release.{
  create_and_run_discussion, generate_task_graph, released, trigger_release, build_request,
  find_release_agent, release_by, record_pipeline_session,
}
use hermes_agora.Pipeline.Executor.{
  new_run, is_approved, enter, review_loop, notify_completed, finish, executed, decomposed,
  discussed, review_phase, execute_phase, decompose_phase, execute_phases, settle, run_pipeline,
}
use hermes_agora.Pipeline.Outcomes.Logic.{
  Ensures, Steady, bind-Ensures, any-Ensures, same_run-Ensures, retryable-Ensures, as_error-Ensures,
  bind-Steady, call-Steady, as_error-Steady, retryable-Steady,
}

-- A completed run was approved and has a release.
abbrev pub IsReleased : PipelineRun → Type 0
IsReleased r =
    (r.phase ≡ completed)
    × (r.review_outcome ≡ some approved)
    × (v : String) × (r.release_version ≡ some v)

-- A failed run has its error.
abbrev pub IsFailed : PipelineRun → Type 0
IsFailed r = (r.phase ≡ failed) × (e : Raised) × (r.error ≡ some e)

module _ {W : Type 0} (sv : Services W) (policy : PipelineRetryPolicy) where
  -- A review that returns approves.
  Approves : ReviewResult → State W → Type 0
  Approves r s = r.outcome ≡ approved

  answered-Approves :
      (graph : Graph) (reviewer : String) (sent : Bool) (s : State W)
      → Ensures Approves (answered sv graph reviewer sent s)
  unfolding Approves
  answered-Approves graph reviewer true s = refl
  answered-Approves graph reviewer false s = tt

  -- The branch of a condition that holds.
  chosen :
      {A : Type 0} (Q : A → State W → Type 0) (b : Bool) (m n : Act W A) (s : State W)
      → b ≡ true
      → Ensures Q (m s)
      → Ensures Q ((if b then m else n) s)
  chosen Q true m n s e h = h
  chosen Q false m n s e h = absurd (false≢true e)

  passed :
      {A : Type 0} (Q : A → State W → Type 0) (b : Bool) (m n : Act W A) (s : State W)
      → b ≡ false
      → Ensures Q (n s)
      → Ensures Q ((if b then m else n) s)
  passed Q true m n s e h = absurd (false≢true (sym e))
  passed Q false m n s e h = h

  review_by-Approves :
      (graph : Graph) (changed : List String) (o : Option String) (s : State W)
      → Ensures Approves (review_by sv graph changed o s)
  unfolding review_by Approves
  review_by-Approves graph changed none s = refl
  review_by-Approves graph changed (some reviewer) s = elim (Bool-cases (reviewer == "")) [
    | inl e ↦ rw (review_by, e) refl
    | inr e ↦
        rw (review_by, e)
          (any-Ensures Approves
            (call (sv.send reviewer (record { pipeline_id = graph.id; changed_files = changed })))
            (answered sv graph reviewer) s (answered-Approves graph reviewer))
  ]

  trigger_code_review-Approves :
      (graph : Graph) (s : State W) → Ensures Approves (trigger_code_review sv graph s)
  unfolding trigger_code_review
  trigger_code_review-Approves graph s =
      as_error-Ensures Approves reviewing true
        (bind (collect_files sv graph)
          (λ changed. bind (find_review_agent sv) (review_by sv graph changed)) s)
        (any-Ensures Approves (collect_files sv graph) _ s λ changed t.
          any-Ensures Approves (find_review_agent sv) (review_by sv graph changed) t
            λ o u. review_by-Approves graph changed o u)

  review_loop-Approves :
      (n : ℕ) (graph : Graph) (s : State W)
      → Ensures Approves (review_loop sv policy n none graph s)
  unfolding review_loop Approves
  review_loop-Approves zero graph s = tt
  review_loop-Approves (suc n) graph s =
      bind-Ensures Approves Approves (retryable sv (trigger_code_review sv graph) policy) _ s
        (retryable-Ensures sv policy (trigger_code_review sv graph) Approves s
          (trigger_code_review-Approves graph))
        λ review t ok.
          chosen Approves (is_approved review.outcome) (give review) _ t (ap is_approved ok) ok

  released-Steady : (graph : Graph) (sent : Bool) → Steady (released sv graph sent)
  released-Steady graph true s = refl
  released-Steady graph false s = refl

  release_by-Steady :
      (graph : Graph) (project_id summary : String) (o : Option String)
      → Steady (release_by sv graph project_id summary o)
  unfolding release_by
  release_by-Steady graph project_id summary none s = refl
  release_by-Steady graph project_id summary (some releaser) s =
      elim (Bool-cases (releaser == "")) [
        | inl e ↦ rw (release_by, e) refl
        | inr e ↦
            rw (release_by, e)
              (let sends =
                  call (sv.send_release releaser (build_request sv graph project_id summary)) in
                bind-Steady sends (released sv graph) (λ t. refl) (released-Steady graph) s)
      ]

  trigger_release-Steady :
      (graph : Graph) (project_id summary : String)
      → Steady (trigger_release sv graph project_id summary)
  unfolding trigger_release find_release_agent
  trigger_release-Steady graph project_id summary s =
      as_error-Steady releasing true
        (bind (find_release_agent sv) (release_by sv graph project_id summary) s)
      ∙ bind-Steady (find_release_agent sv) (release_by sv graph project_id summary)
          (bind-Steady (call sv.get_online_agents) _ (λ t. refl) (λ agents t. refl))
          (release_by-Steady graph project_id summary) s

  Released : Unit {0} → State W → Type 0
  Released a s = IsReleased s.run

  IsApproved : PipelineRun → Type 0
  IsApproved r = r.review_outcome ≡ some approved

  -- The phases after the release was sent.
  rest_Released :
      (release_id : String) (s : State W)
      → IsApproved s.run
      → Ensures Released (
          bind
            (assign (λ r. record r { release_version = some release_id }))
            (λ _. bind (record_pipeline_session sv) (λ _. notify_completed sv policy))
            s)
  unfolding Released IsApproved record_pipeline_session notify_completed
  rest_Released release_id s h = (refl, h, release_id, refl)

  finish-Released :
      (graph : Graph) (review : ReviewResult) (s : State W)
      → review.outcome ≡ approved
      → Ensures Released (finish sv policy graph review s)
  unfolding finish IsApproved
  finish-Released graph review s ok =
      let releases =
        retryable sv (trigger_release sv graph s.run.project_id review.summary) policy in
      let at = record s {
        run = record s.run { review_outcome = some review.outcome; phase = releasing };
      } in
      let kept =
        retryable-Steady sv policy (trigger_release sv graph s.run.project_id review.summary)
          (trigger_release-Steady graph s.run.project_id review.summary) at in
      passed Released (not (is_approved review.outcome)) (give tt) _ _
        (ap (λ o. not (is_approved o)) ok)
        (bind-Ensures (λ _ t. IsApproved t.run) Released releases _ at
          (same_run-Ensures IsApproved (releases at) at.run kept (ap some ok))
          (λ release_id t h. rest_Released release_id t h))

  review_phase-Released :
      (graph : Graph) (results : Execution) (s : State W)
      → Ensures Released (review_phase sv policy graph results s)
  unfolding review_phase Approves
  review_phase-Released graph results s =
      let at = record s { run = executed sv policy results s.run } in
      bind-Ensures Approves Released (review_loop sv policy policy.max_retries none graph)
        (finish sv policy graph) at (review_loop-Approves policy.max_retries graph at)
        (λ review t ok. finish-Released graph review t ok)

  execute_phase-Released :
      (graph : Graph) (s : State W) → Ensures Released (execute_phase sv policy graph s)
  unfolding execute_phase
  execute_phase-Released graph s =
      any-Ensures Released (retryable sv (call (sv.execute_graph graph)) policy)
        (review_phase sv policy graph) (record s { run = decomposed sv policy graph s.run })
        (review_phase-Released graph)

  decompose_phase-Released :
      (motion_id : String) (s : State W) → Ensures Released (decompose_phase sv policy motion_id s)
  unfolding decompose_phase
  decompose_phase-Released motion_id s =
      any-Ensures Released (generate_task_graph sv motion_id) (execute_phase sv policy)
        (record s { run = discussed sv policy motion_id s.run }) execute_phase-Released

  execute_phases-Released : (s : State W) → Ensures Released (execute_phases sv policy s)
  unfolding execute_phases
  execute_phases-Released s =
      any-Ensures Released (create_and_run_discussion sv s.run.idea) (decompose_phase sv policy)
        (record s { run = record s.run { phase = discussing } }) decompose_phase-Released

settled :
    {W : Type 0} (sv : Services W) (policy : PipelineRetryPolicy) (o : Outcome Unit × State W)
    → Ensures (Released sv policy) o
    → IsReleased (settle sv policy o).run ⊎ IsFailed (settle sv policy o).run
unfolding Released
settled sv policy (returns a, s) h = inl h
settled sv policy (raises e, s) h = inr (refl, e, refl)

-- Whatever the components answer or raise, a run of the pipeline ends completed, approved by the
-- review and with a release, or failed with its error: no exception leaves it, and it never ends
-- in another phase.
pub run_pipeline_ends :
    {W : Type 0} (sv : Services W) (policy : PipelineRetryPolicy) (id idea project_id : String)
    → (world : W)
    → let run = (run_pipeline sv policy id idea project_id world).run in
      IsReleased run ⊎ IsFailed run
unfolding run_pipeline
run_pipeline_ends {W = W} sv policy id idea project_id world =
    let start : State W = record { run = new_run id idea project_id; world = world } in
    settled sv policy (execute_phases sv policy start) (execute_phases-Released sv policy start)
