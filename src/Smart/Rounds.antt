-- ===== src/Smart/Rounds.antt =====
-- agora/coordinator/ws_smart.py: the assessment of a round in which every agent has spoken, and what
-- follows from it. The broadcasts are a log. Reading a clock twice in one call gives the same time
-- here.
pub mod Steps
pub mod Ending
use hermes_agora.Base.{
  ℕ, String, ◌≡◌, Bool, not, Option, none, some, List, [], ◌∷◌, ◌++◌, map, ◌==◌, leb, eqb,
  if◌then◌else◌, is_empty, take, all_of, mem, to_set,
}
use hermes_agora.Motion.Store.{Motion, AgentRow, get_motion, update_motion_status, increment_round}
use hermes_agora.Motion.State.{
  Outcome, not_found, invalid_transition, moved, next_status, transition,
}
use hermes_agora.Smart.Deadlock.{Detector}
use hermes_agora.Smart.Messages.{MessageRow, get_messages}
use hermes_agora.Smart.Assess.{
  ConsensusLevel, AssessmentResult, consensus_reached, sufficient, needs_more, off_topic,
  devils_advocate, Assessment, assess,
}
use hermes_agora.Smart.Guard.{agent_of, default_config}
use hermes_agora.Smart.Advocate.{Request, agent_ids, default_advocate, should_trigger, trigger}

-- a row of the table `assessments`
pub record AssessmentRow : Type 0 where
  pub motion_id : String
  pub round : ℕ
  pub result : AssessmentResult
  pub consensus_level : ConsensusLevel

-- What is sent to the agents.
pub data Notice : Type 0 where
  assessed : String → AssessmentResult → Notice
  topic_redirect : String → (focus unresolved : List String) → Notice
  challenge : List Request → Notice
  request_vote : String → Notice
  round_over : String → (round next : ℕ) → Notice
  speech_added : (k agent : String) → Notice
  refused : (agent code : String) → Notice
  break_signal : (one other : String) → Notice
  consensus_found : String → Notice

-- The tables, the detector of deadlocks and the log.
pub record Room : Type 0 where
  pub motions : List Motion
  pub messages : List MessageRow
  pub agents : List AgentRow
  pub assessments : List AssessmentRow
  pub detector : Detector
  pub sent : List Notice

abbrev pub send : Notice → Room → Room
send n room = record room { sent = room.sent ++ n ∷ [] }

unfoldable pub save_assessment : String → ℕ → Assessment → Room → Room
save_assessment k round a room = record room {
  assessments =
      room.assessments
      ++ record {
        motion_id = k;
        round = round;
        result = a.result;
        consensus_level = a.consensus_level;
      }
        ∷ [];
}

-- An exception of the transition is logged and dropped.
unfoldable pub transition_to_voting : ℕ → String → Room → Room
unfolding transition
transition_to_voting now k room = elim (transition now k "start_voting" room.motions) [
  | moved s after ↦ send (request_vote k) (record room { motions = after })
  | _ ↦ room
]

unfoldable pub continue_next_round : ℕ → String → Room → Room
unfolding get_motion transition transition_to_voting increment_round
continue_next_round now k room = elim (get_motion k room.motions) [
  | none ↦ room
  | some m ↦
      if leb m.rounds m.current_round
      then transition_to_voting now k room
      else elim (transition now k "round_complete" room.motions) [
        | moved s after ↦
            let (motions, new_round) = increment_round now k after in
            send (round_over k m.current_round new_round) (record room { motions = motions })
        | _ ↦ room
      ]
]

-- whether all agents have spoken in a round
unfoldable pub round_done : String → ℕ → Room → Bool
unfolding get_messages to_set
round_done k round room =
    let spoken = to_set (map agent_of (get_messages k (some round) none room.messages)) in
    all_of (λ a. mem a spoken) (agent_ids room.agents)

module _ (hash : String → ℕ) (strip : String → String) (first : List String → Option String) where
  -- A fresh manager, with no earlier trigger, decides on the request.
  unfoldable pub challenge_one : String → Room → Room
  unfolding should_trigger trigger
  challenge_one k room =
      elim (should_trigger hash strip first default_config default_advocate [] k room.messages
        room.agents).1 [
          | none ↦ room
          | some target ↦
              if target == ""
              then room
              else send (challenge (trigger k target room.motions []).1) room
        ]

  unfoldable pub act_on_assessment : ℕ → String → Assessment → Room → Room
  unfolding transition_to_voting continue_next_round challenge_one
  act_on_assessment now k a room = elim a.result [
    | consensus_reached ↦ transition_to_voting now k room
    | sufficient ↦ transition_to_voting now k room
    | off_topic ↦ continue_next_round now k (
        send
          (topic_redirect k (take 3 a.metrics.key_points_identified)
            (take 3 a.metrics.unresolved_points))
          room)
    | devils_advocate ↦ continue_next_round now k (challenge_one k room)
    | needs_more ↦ continue_next_round now k room
  ]

  unfoldable pub maybe_assess_round : ℕ → String → Room → Room
  unfolding get_motion round_done assess save_assessment act_on_assessment
  maybe_assess_round now k room = elim (get_motion k room.motions) [
    | none ↦ room
    | some m ↦
        if not (m.status == "discussing")
        then room
        else if eqb m.current_round 0
        then room
        else if is_empty room.agents
        then room
        else if not (round_done k m.current_round room)
        then room
        else let a = assess k room.messages in
          act_on_assessment now k a
            (send (assessed k a.result) (save_assessment k m.current_round a room))
  ]
