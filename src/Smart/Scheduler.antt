-- ===== src/Smart/Scheduler.antt =====
-- agora/coordinator/smart_scheduler.py: the scheduler of a discussion. Its methods raise what the state
-- machine raises; what was written before stays written.
pub mod Turns
pub mod Ending
use hermes_agora.Base.{
  ℕ, suc, String, ◌≡◌, Bool, false, not, ◌&&◌, ◌||◌, Option, none, some, List, [], ◌++◌, map, ◌==◌,
  leb, eqb, if◌then◌else◌, length, is_empty, take, keep, to_set,
}
use hermes_agora.Base.Dict.{Dict}
use hermes_agora.Motion.Store.{Motion, get_motion, increment_round}
use hermes_agora.Motion.State.{Outcome, not_found, invalid_transition, moved, transition}
use hermes_agora.Smart.Messages.{MessageRow, get_messages}
use hermes_agora.Smart.Assess.{
  Ratio, AssessmentResult, consensus_reached, sufficient, needs_more, off_topic, devils_advocate,
  Assessment, assess,
}
use hermes_agora.Smart.Guard.{agent_of, default_config}
use hermes_agora.Smart.Advocate.{agent_ids, default_advocate, should_trigger, trigger}
use hermes_agora.Smart.Dynamic.{RoundConfig, should_continue}
use hermes_agora.Smart.Jump.{Cache, get_focus_topics, get_consensus_topics}
use hermes_agora.Smart.Realtime.{Heard, EvalResult, instant_consensus, early_termination, evaluate}
use hermes_agora.Smart.Rounds.{
  Room, assessed, topic_redirect, challenge, round_over, consensus_found, send,
}

-- The settings that the scheduler reads.
pub record Settings : Type 0 where
  pub smart_discussion_enabled : Bool
  pub dynamic_rounds_enabled : Bool
  pub max_rounds : ℕ
  pub consensus_jump_ratio : Ratio
  pub realtime_consensus_threshold : Ratio
  pub realtime_min_messages : ℕ
  pub rounds : RoundConfig

-- The tables, the cache of the topics and the triggers of each motion.
pub record Desk : Type 0 where
  pub room : Room
  pub cache : Cache
  pub trigger_count : Dict ℕ

-- A method returns, or raises ValueError or InvalidTransitionError.
pub data Ran : Type 0 where
  returned raised : Desk → Ran

abbrev pub and_then : Ran → (Desk → Ran) → Ran
and_then (returned d) f = f d
and_then (raised d) f = raised d

abbrev pub broadcast : Desk → Room → Desk
broadcast d room = record d { room = room }

-- an event of the state machine
unfoldable pub fire : ℕ → String → String → Desk → Ran
unfolding transition
fire now k event d = elim (transition now k event d.room.motions) [
  | moved s after ↦ returned (record d { room = record d.room { motions = after } })
  | _ ↦ raised d
]

-- The text of each focus once, in the order of the first.
abbrev pub combined : List String → List String → List String → List String
unfolding to_set
combined focus key_points unresolved = to_set (focus ++ take 3 key_points ++ take 3 unresolved)

module _ (settings : Settings) where
  -- the last lines of `_continue_next_round`
  unfoldable pub next_round : ℕ → String → Motion → Desk → Ran
  unfolding increment_round
  next_round now k m d =
      let motions = (increment_round now k d.room.motions).0 in
      returned (
        broadcast d (
          send (round_over k m.current_round (suc m.current_round))
            (record d.room { motions = motions })))

  -- the branch on the settings
  unfoldable pub by_rounds : ℕ → String → Motion → Desk → Ran
  unfolding assess should_continue fire next_round
  by_rounds now k m d =
      let a = assess k d.room.messages in
      let answer =
        should_continue settings.rounds k d.room.motions a.metrics.quality_score.overall
          a.consensus_level in
      if settings.dynamic_rounds_enabled
      then (if answer.0 then next_round now k m d else fire now k "start_voting" d)
      else if leb settings.max_rounds m.current_round
      then fire now k "start_voting" d
      else next_round now k m d

  unfoldable pub continue_next_round : ℕ → String → Desk → Ran
  unfolding get_motion get_consensus_topics get_focus_topics fire by_rounds
  continue_next_round now k d = elim (get_motion k d.room.motions) [
    | none ↦ returned d
    | some m ↦
        let (agreed, cache) =
          get_consensus_topics settings.consensus_jump_ratio k d.room.messages d.cache in
        let (focus, cache') =
          get_focus_topics settings.consensus_jump_ratio k d.room.messages cache in
        let jumped = record d { cache = cache' } in
        if not settings.smart_discussion_enabled
        then by_rounds now k m d
        else if not (is_empty agreed) && is_empty focus
        then fire now k "start_voting" jumped
        else by_rounds now k m jumped
  ]

  unfoldable pub redirect_discussion : ℕ → String → Assessment → Desk → Ran
  unfolding get_focus_topics fire continue_next_round
  redirect_discussion now k a d =
      let (focus, cache) =
        get_focus_topics settings.consensus_jump_ratio k d.room.messages d.cache in
      let areas = combined focus a.metrics.key_points_identified a.metrics.unresolved_points in
      let told = record d {
        room = send (topic_redirect k (take 5 areas) []) d.room;
        cache = cache;
      } in
      and_then (fire now k "assessment_done" told) (continue_next_round now k)

  unfoldable pub complete_devils_advocate : ℕ → String → Desk → Ran
  unfolding fire continue_next_round
  complete_devils_advocate now k d =
      and_then (fire now k "devils_advocate_done" d) (continue_next_round now k)

  unfoldable pub on_message : ℕ → String → Heard → Desk → Option EvalResult × Ran
  unfolding evaluate fire
  on_message now k message d =
      if not settings.smart_discussion_enabled
      then (none, returned d)
      else elim (evaluate settings.realtime_consensus_threshold settings.realtime_min_messages k
          message d.room.messages) [
            | none ↦ (none, returned d)
            | some instant_consensus ↦
                (some instant_consensus, returned (broadcast d (send (consensus_found k) d.room)))
            | some early_termination ↦ (some early_termination, fire now k "start_voting" d)
          ]

  -- A row has no key `round`, since its column is named `round_num`.
  abbrev pub round_key : MessageRow → Option ℕ
  round_key m = none

  unfoldable pub should_assess : String → ℕ → Room → Bool
  unfolding get_messages to_set
  should_assess k current_round room =
      let is_current : MessageRow → Bool =
        λ m. elim (round_key m) [ none ↦ false | some r ↦ eqb r current_round ] in
      let round_msgs = keep is_current (get_messages k none none room.messages) in
      settings.smart_discussion_enabled
      && leb (length room.agents) (length (to_set (map agent_of round_msgs)))

  module _ (hash : String → ℕ) (strip : String → String) (first : List String → Option String) where
    unfoldable pub trigger_devils_advocate : ℕ → String → Desk → Ran
    unfolding should_trigger trigger fire continue_next_round
    trigger_devils_advocate now k d =
        let (should, target) =
          should_trigger hash strip first default_config default_advocate d.trigger_count k
            d.room.messages d.room.agents in
        let go_on = and_then (fire now k "assessment_done" d) (continue_next_round now k) in
        elim target [
          | none ↦ go_on
          | some agent ↦
              if not should || agent == ""
              then go_on
              else and_then (fire now k "needs_devils_advocate" d) (λ e.
                let (counts, requests) = trigger k agent e.room.motions e.trigger_count in
                returned (record e {
                  room = if is_empty requests then e.room else send (challenge requests) e.room;
                  trigger_count = counts;
                }))
        ]

    unfoldable pub act_on_assessment : ℕ → String → Assessment → Desk → Ran
    unfolding fire redirect_discussion trigger_devils_advocate continue_next_round
    act_on_assessment now k a d = elim a.result [
      | consensus_reached ↦ fire now k "start_voting" d
      | sufficient ↦ fire now k "start_voting" d
      | off_topic ↦ redirect_discussion now k a d
      | devils_advocate ↦ trigger_devils_advocate now k d
      | needs_more ↦ continue_next_round now k d
    ]

    unfoldable pub run_assessment : ℕ → String → Desk → Ran
    unfolding assess act_on_assessment
    run_assessment now k d =
        let a = assess k d.room.messages in
        act_on_assessment now k a (broadcast d (send (assessed k a.result) d.room))
