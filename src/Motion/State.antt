-- ===== src/Motion/State.antt =====
-- agora/coordinator/state.py: the state machine of the discussion.
pub mod Effects
pub mod Lifecycle
pub mod Runs
pub mod Permissions
use hermes_agora.Base.{
  ℕ, String, ◌≡◌, Bool, true, false, not, ◌&&◌, ◌||◌, Option, none, some, List, [], ◌∷◌, ◌==◌, leb,
  if◌then◌else◌,
}
use hermes_agora.Motion.Store.{
  MotionStatus, draft, discussing, assessing, devils_advocate, voting, closed, value, Motion,
  VoteRow, AgentRow, get_motion, update_motion_status, has_voted, get_agent,
}

-- a row of _TRANSITIONS: the status, the event, the new status
abbrev pub Row : Type 0
Row = MotionStatus × String × MotionStatus

abbrev pub transitions : List Row
transitions =
    (draft, "start", discussing)
    ∷ (discussing, "round_complete", discussing)
    ∷ (discussing, "start_voting", voting)
    ∷ (discussing, "assess", assessing)
    ∷ (assessing, "needs_devils_advocate", devils_advocate)
    ∷ (assessing, "start_voting", voting)
    ∷ (assessing, "continue_discussion", discussing)
    ∷ (assessing, "assessment_done", discussing)
    ∷ (devils_advocate, "devils_advocate_done", discussing)
    ∷ (devils_advocate, "start_voting", voting)
    ∷ (voting, "all_voted", closed)
    ∷ (voting, "force_close", closed)
    ∷ []

abbrev pub lookup : String → String → List Row → Option MotionStatus
lookup status event [] = none
lookup status event (r ∷ rows) =
    if value r.0 == status && r.1 == event then some r.2 else lookup status event rows

-- The new status of a motion, where the event is allowed.
unfoldable pub next_status : Motion → String → Option MotionStatus
next_status m event =
    if m.status == "discussing" && event == "round_complete"
    then some (if leb m.rounds m.current_round then voting else discussing)
    else lookup m.status event transitions

pub data Outcome : Type 0 where
  -- ValueError
  not_found : Outcome
  -- InvalidTransitionError
  invalid_transition : Outcome
  moved : MotionStatus → List Motion → Outcome

unfoldable pub transition : ℕ → String → String → List Motion → Outcome
unfolding get_motion update_motion_status next_status
transition now k event motions = elim (get_motion k motions) [
  | none ↦ not_found
  | some m ↦ elim (next_status m event) [
    | none ↦ invalid_transition
    | some s ↦ moved s (update_motion_status now k (value s) none none motions)
  ]
]

unfoldable pub can_speak : String → String → List Motion → List AgentRow → Bool
unfolding get_motion get_agent
can_speak k a motions agents = elim (get_motion k motions) [
  | none ↦ false
  | some m ↦
      if m.status == "discussing" || m.status == "assessing" || m.status == "devils_advocate"
      then elim (get_agent a agents) [ none ↦ false | some _ ↦ true ]
      else false
]

unfoldable pub can_vote : String → String → List Motion → List AgentRow → List VoteRow → Bool
unfolding get_motion get_agent has_voted
can_vote k a motions agents votes = elim (get_motion k motions) [
  | none ↦ false
  | some m ↦
      if not (m.status == "voting")
      then false
      else elim (get_agent a agents) [ none ↦ false | some _ ↦ not (has_voted k a votes) ]
]
