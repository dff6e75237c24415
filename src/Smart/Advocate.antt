-- ===== src/Smart/Advocate.antt =====
-- agora/coordinator/devils_advocate.py: when an agent is asked to argue the other side. The first element
-- of a Python set, `next(iter(s))`, is a parameter, as are the functions of the quality guard.
pub mod Triggers
use hermes_agora.Base.{
  ℕ, suc, ◌*◌, String, ◌≡◌, Bool, true, false, not, Option, none, some, List, [], ◌∷◌, map, ◌==◌,
  ltb, leb, if◌then◌else◌, length, is_empty, keep, mem, to_set,
}
use hermes_agora.Base.Dict
use hermes_agora.Base.Dict.{Dict}
use hermes_agora.Base.Counter.{count_by, bump}
use hermes_agora.Motion.Store.{Motion, AgentRow, get_motion}
use hermes_agora.Smart.Messages.{MessageRow, get_messages}
use hermes_agora.Smart.Guard.{
  QualityIssue, low_argument_quality, evidence_sparse, repetitive_arguments, single_perspective,
  weak_rebuttal, QualityAlert, QualityGuardConfig, check_quality,
}

pub record DevilsAdvocateConfig : Type 0 where
  pub enabled : Bool
  pub trigger_threshold : ℕ
  pub max_triggers_per_motion : ℕ
  pub quality_trigger_severity : ℕ

abbrev pub default_advocate : DevilsAdvocateConfig
default_advocate = record {
  enabled = true;
  trigger_threshold = 7;
  max_triggers_per_motion = 2;
  quality_trigger_severity = 7;
}

-- `a.issue in trigger_issues`
abbrev pub is_trigger_issue : QualityIssue → Bool
is_trigger_issue single_perspective = true
is_trigger_issue weak_rebuttal = true
is_trigger_issue evidence_sparse = true
is_trigger_issue _ = false

abbrev pub agent_ids : List AgentRow → List String
agent_ids agents = to_set (map (λ a. a.agent_id) agents)

-- The message to the agent; the texts of the motion are left out.
pub record Request : Type 0 where
  pub target : String
  pub round : ℕ

module _ (hash : String → ℕ) (strip : String → String) (first : List String → Option String)
    (guard : QualityGuardConfig) (config : DevilsAdvocateConfig) where
  unfoldable pub check_quality_triggers :
      String → List MessageRow → List AgentRow → Option (Bool × Option String)
  unfolding check_quality to_set
  check_quality_triggers k rows agents =
      let alerts = check_quality hash strip guard k rows in
      let high_severity = keep (λ a. leb config.quality_trigger_severity a.severity) alerts in
      let matched = keep (λ a. is_trigger_issue a.issue) high_severity in
      if is_empty high_severity
      then none
      else if is_empty matched
      then none
      else elim (first (agent_ids agents)) [ none ↦ none | some a ↦ some (true, some a) ]

  -- the test on the share of the support
  unfoldable pub check_support : String → List MessageRow → List AgentRow → Bool × Option String
  unfolding get_messages count_by to_set Dict.get
  check_support k rows agents =
      let messages = get_messages k none none rows in
      let support = Dict.get_or "support" 0 (count_by (λ m. some m.stance) messages) in
      let opposed = to_set (map (λ m. m.agent_id) (keep (λ m. m.stance == "oppose") messages)) in
      let potential = keep (λ a. not (mem a opposed)) (agent_ids agents) in
      if ltb (length messages) 3
      then (false, none)
      else if ltb (10 * support) (config.trigger_threshold * length messages)
      then (false, none)
      else elim (first potential) [ none ↦ (false, none) | some a ↦ (true, some a) ]

  unfoldable pub should_trigger :
      Dict ℕ → String → List MessageRow → List AgentRow → Bool × Option String
  unfolding check_quality_triggers check_support Dict.get
  should_trigger trigger_count k rows agents =
      if not config.enabled
      then (false, none)
      else if leb config.max_triggers_per_motion (Dict.get_or k 0 trigger_count)
      then (false, none)
      else elim (check_quality_triggers k rows agents) [
        | some hit ↦ hit
        | none ↦ check_support k rows agents
      ]

-- The count is raised also where the motion is missing.
unfoldable pub trigger : String → String → List Motion → Dict ℕ → Dict ℕ × List Request
unfolding bump get_motion
trigger k target motions trigger_count = (
  bump k trigger_count,
  elim (get_motion k motions) [
    | none ↦ []
    | some m ↦ record { target = target; round = suc m.current_round } ∷ []
  ],
)
