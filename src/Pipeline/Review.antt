-- ===== src/Pipeline/Review.antt =====
-- agora/coordinator/pipeline_phase_review.py, pipeline_review.py and pipeline_review_agent.py: the review of
-- the changed files. The two forms in which a hub gives its agents are one here.
use hermes_agora.Base.{
  String, Bool, true, false, not, ◌&&◌, Option, none, some, List, [], ◌∷◌, ◌++◌, map, ◌==◌,
  if◌then◌else◌, mem,
}
use hermes_agora.Pipeline.Types.{
  reviewing, approved, changes_requested, ReviewResult, Graph, FixTask, Outcome, returns, raises,
  Services, State, Act, give, throw, bind, call, as_error,
}

-- the loop over the paths of one task
abbrev pub add_paths : List String → List String → List String
add_paths files [] = files
add_paths files (p ∷ paths) =
    add_paths (if not (p == "") && not (mem p files) then files ++ p ∷ [] else files) paths

unfoldable pub changed_files : List String → List (List String) → List String
changed_files files [] = files
changed_files files (t ∷ tasks) = changed_files (add_paths files t) tasks

-- the first element that passes a test
abbrev pub first_with : (String → Bool) → List String → Option String
first_with p [] = none
first_with p (x ∷ xs) = if p x then some x else first_with p xs

abbrev pub or_else {ℓ} : {A : Type ℓ} → Option A → Option A → Option A
or_else none o = o
or_else (some a) o = some a

unfoldable pub build_fix_tasks : ReviewResult → List FixTask
build_fix_tasks r =
    map
      (λ i. record {
        file = i.file;
        line = i.line;
        severity = i.severity;
        description = i.description;
        reviewer_id = r.reviewer_id;
      })
      r.issues

unfoldable pub process_review_response : ReviewResult → List FixTask
unfolding build_fix_tasks
process_review_response r = elim r.outcome [ approved ↦ [] | changes_requested ↦ build_fix_tasks r ]

module _ {W : Type 0} (sv : Services W) where
  unfoldable pub collect_changed_files : String → Act W (List String)
  unfolding changed_files
  collect_changed_files graph_id =
      bind (call (sv.list_artifacts graph_id)) (λ tasks. give (changed_files [] tasks))

  -- Where the storage raises, the files of the graph are taken; the graphs of the pipeline have none.
  unfoldable pub collect_files : Graph → Act W (List String)
  unfolding collect_changed_files
  collect_files graph s = or_empty (collect_changed_files graph.id s)
    where
      or_empty : Outcome (List String) × State W → Outcome (List String) × State W
      or_empty (returns files, after) = (returns files, after)
      or_empty (raises e, after) = (returns [], after)

  unfoldable pub find_review_agent : Act W (Option String)
  find_review_agent = bind (call sv.get_online_agents) (λ agents s.
      give
        (or_else (first_with (λ a. mem "code-review" (sv.capabilities s.world a)) agents)
          (first_with (λ a. sv.contains "review" (sv.lower a)) agents))
        s)

  -- a review that is taken as approved
  abbrev pub approval : Graph → String → String → ReviewResult
  approval graph reviewer summary = record {
    pipeline_id = graph.id;
    reviewer_id = reviewer;
    outcome = approved;
    issues = [];
    summary = summary;
  }

  abbrev pub answered : Graph → String → Bool → Act W ReviewResult
  answered graph reviewer true =
      give (approval graph reviewer "Review dispatched — auto-confirmed (async)")
  answered graph reviewer false = throw (record { phase = some reviewing; retryable = true })

  unfoldable pub review_by : Graph → List String → Option String → Act W ReviewResult
  review_by graph changed none = give (approval graph "auto" "Auto-approved")
  review_by graph changed (some reviewer) =
      if reviewer == ""
      then give (approval graph "auto" "Auto-approved")
      else bind
          (call (sv.send reviewer (record { pipeline_id = graph.id; changed_files = changed })))
          (answered graph reviewer)

  unfoldable pub trigger_code_review : Graph → Act W ReviewResult
  unfolding collect_files find_review_agent review_by
  trigger_code_review graph s =
      as_error reviewing true
        (bind (collect_files graph) (λ changed. bind find_review_agent (review_by graph changed)) s)
