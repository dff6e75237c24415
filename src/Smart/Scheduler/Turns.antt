-- ===== src/Smart/Scheduler/Turns.antt =====
-- How the assessments of the scheduler take a discussion to its end.
use hermes_agora.Base.{
  ℕ, suc, ◌<◌, max, String, ◌≡◌, refl, ◌⊎◌, inl, inr, true, false, not, ◌&&◌, Option, none, some,
  List, arith, ◌==◌, eq_refl, leb, if◌then◌else◌, Bool-cases, is_empty, All, keep,
}
use hermes_agora.Motion.Store.{
  Motion, voting, get_motion, set_status, update_motion_status, increment_round,
}
use hermes_agora.Motion.Store.Rows.{get_motion-update, get_motion-increment}
use hermes_agora.Motion.State.Lifecycle.{call_vote, next_status_exact}
use hermes_agora.Motion.State.Effects.{transition-allowed}
use hermes_agora.Smart.Messages.{MessageRow}
use hermes_agora.Smart.Assess.{Ratio, ConsensusLevel, assess}
use hermes_agora.Smart.Assess.Decision.{HasText, assess_exact}
use hermes_agora.Smart.Dynamic.{should_continue, should_continue_exact}
use hermes_agora.Smart.Jump.{get_consensus_topics, get_focus_topics}
use hermes_agora.Smart.Rounds.{send, assessed}
use hermes_agora.Smart.Rounds.Steps.{expected-cases}
use hermes_agora.Smart.Scheduler.{
  Settings, Desk, Ran, returned, broadcast, fire, next_round, by_rounds, continue_next_round,
  act_on_assessment, run_assessment,
}

-- The round in which no setting lets a discussion go on.
unfoldable pub last_round : Settings → ℕ
last_round s =
    if s.dynamic_rounds_enabled then max s.rounds.min_rounds s.rounds.max_rounds else s.max_rounds

-- The method returns, with the motion called to the vote or in its next round.
abbrev pub Goes : ℕ → String → Motion → List MessageRow → Ran → Type 0
Goes last k m messages ran =
    (after : Desk) × (ran ≡ returned after)
    × (after.room.messages ≡ messages)
    × (n : Motion) × (get_motion k after.room.motions ≡ some n)
    × ((n.status ≡ "voting")
        ⊎ ((n.status ≡ "discussing")
            × (n.current_round ≡ suc m.current_round)
            × (m.current_round < last)))

module _ (s : Settings) (last : ℕ) (is_last : last ≡ last_round s) (now : ℕ) (k : String)
    (m : Motion) (talks : m.status ≡ "discussing") where
  fire-Goes :
      (d : Desk)
      → get_motion k d.room.motions ≡ some m
      → Goes last k m d.room.messages (fire now k "start_voting" d)
  unfolding fire set_status
  fire-Goes d at =
      let called =
        transition-allowed now k "start_voting" d.room.motions m voting at
          ((next_status_exact m "start_voting" voting).1 (call_vote (inl talks) refl)) in
      let row : get_motion k (update_motion_status now k "voting" none none d.room.motions)
          ≡ some (set_status now "voting" none none m) =
        rw (get_motion-update now k k "voting" none none d.room.motions, at, eq_refl k) refl in
      rw (fire, called) (_, refl, refl, set_status now "voting" none none m, row, inl refl)

  next_round-Goes :
      (d : Desk)
      → get_motion k d.room.motions ≡ some m
      → m.current_round < last
      → Goes last k m d.room.messages (next_round s now k m d)
  unfolding next_round
  next_round-Goes d at h =
      let row : get_motion k (increment_round now k d.room.motions).0
          ≡ some (record m { current_round = suc m.current_round; updated_at = now }) =
        rw (get_motion-increment now k k d.room.motions, at, eq_refl k) refl in
      (_, refl, refl, _, row, inr (talks, refl, h))

  -- The dynamic rounds let a discussion go on below the last round only.
  continues_below :
      (d : Desk) (quality : Ratio) (level : ConsensusLevel)
      → get_motion k d.room.motions ≡ some m
      → s.dynamic_rounds_enabled ≡ true
      → (should_continue s.rounds k d.room.motions quality level).0 ≡ true
      → m.current_round < last
  unfolding last_round
  continues_below d quality level at e h =
      elim ((should_continue_exact s.rounds k d.room.motions quality level m at).0 h) [
        | inl low ↦ omega (arith, low, rw e at is_last)
        | inr (_, _, low) ↦ omega (arith, low, rw e at is_last)
      ]

  fixed_below :
      s.dynamic_rounds_enabled ≡ false
      → leb s.max_rounds m.current_round ≡ false
      → m.current_round < last
  unfolding last_round
  fixed_below e f = ground (arith, f, rw e at is_last)

  by_rounds-Goes :
      (d : Desk)
      → get_motion k d.room.motions ≡ some m
      → Goes last k m d.room.messages (by_rounds s now k m d)
  unfolding by_rounds
  by_rounds-Goes d at =
      let a = assess k d.room.messages in
      let quality = a.metrics.quality_score.overall in
      elim (Bool-cases s.dynamic_rounds_enabled) [
        | inl e ↦
            elim (Bool-cases
              (should_continue s.rounds k d.room.motions quality a.consensus_level).0) [
                | inl f ↦
                    rw (by_rounds, e, f)
                      (next_round-Goes d at (continues_below d quality a.consensus_level at e f))
                | inr f ↦ rw (by_rounds, e, f) (fire-Goes d at)
              ]
        | inr e ↦ elim (Bool-cases (leb s.max_rounds m.current_round)) [
          | inl f ↦ rw (by_rounds, e, f) (fire-Goes d at)
          | inr f ↦ rw (by_rounds, e, f) (next_round-Goes d at (fixed_below e f))
        ]
      ]

  continue-Goes :
      (d : Desk)
      → get_motion k d.room.motions ≡ some m
      → Goes last k m d.room.messages (continue_next_round s now k d)
  unfolding continue_next_round
  continue-Goes d at =
      let agreed = get_consensus_topics s.consensus_jump_ratio k d.room.messages d.cache in
      let focus = get_focus_topics s.consensus_jump_ratio k d.room.messages agreed.1 in
      let jumped = record d { cache = focus.1 } in
      elim (Bool-cases s.smart_discussion_enabled) [
        | inr e ↦ rw (continue_next_round, at, e) (by_rounds-Goes d at)
        | inl e ↦ elim (Bool-cases (not (is_empty agreed.0) && is_empty focus.0)) [
          | inl f ↦ rw (continue_next_round, at, e, f) (fire-Goes jumped at)
          | inr f ↦ rw (continue_next_round, at, e, f) (by_rounds-Goes jumped at)
        ]
      ]

  module _ (hash : String → ℕ) (strip : String → String) (first : List String → Option String) where
    -- x
    pub run_assessment-Goes :
        (d : Desk)
        → get_motion k d.room.motions ≡ some m
        → All HasText d.room.messages
        → Goes last k m d.room.messages (run_assessment s hash strip first now k d)
    unfolding run_assessment act_on_assessment
    run_assessment-Goes d at texts =
        let a = assess k d.room.messages in
        let told = broadcast d (send (assessed k a.result) d.room) in
        let found = assess_exact k d.room.messages texts in
        elim (expected-cases (keep (λ x. x.motion_id == k) d.room.messages)) [
          | inl (c, inl e) ↦ rw (run_assessment, act_on_assessment, found, e) (fire-Goes told at)
          | inl (c, inr e) ↦ rw (run_assessment, act_on_assessment, found, e) (fire-Goes told at)
          | inr (c, e) ↦ rw (run_assessment, act_on_assessment, found, e) (continue-Goes told at)
        ]
