-- ===== src/Smart/Rounds/Steps.antt =====
-- What the assessment of a completed round does to the motion.
use hermes_agora.Base.{
  ◌≢◌, text-cases, ℕ, suc, ◌<◌, String, ◌≡◌, refl, ◌∙◌, ◌⊎◌, inl, inr, Bool, true, false, ◌||◌,
  Option, none, some, List, arith, ◌==◌, eq_refl, leb, eqb, if◌then◌else◌, Bool-cases, length,
  is_empty, All, keep,
}
use hermes_agora.Motion.Store.{
  Motion, voting, discussing, get_motion, set_status, update_motion_status, increment_round,
}
use hermes_agora.Motion.Store.Rows.{get_motion-update, get_motion-increment}
use hermes_agora.Motion.State.{transition, moved}
use hermes_agora.Motion.State.Lifecycle.{call_vote, another_round, next_status_exact}
use hermes_agora.Motion.State.Effects.{transition-allowed}
use hermes_agora.Smart.Messages.{MessageRow}
use hermes_agora.Smart.Assess.{consensus_reached, sufficient, needs_more, Assessment, assess}
use hermes_agora.Smart.Assess.Decision.{is_agreed, expected, HasText, assess_exact}
use hermes_agora.Smart.Rounds.{
  Room, assessed, send, save_assessment, transition_to_voting, continue_next_round,
  act_on_assessment, round_done, maybe_assess_round,
}

-- How a motion that was discussed comes out of a round: called to the vote, or in the next round.
abbrev pub Moved : String → Motion → Bool → Room → Room → Type 0
Moved k m over room after =
    (n : Motion) × (get_motion k after.motions ≡ some n)
    × (n.rounds ≡ m.rounds)
    × (n.status ≡ (if over then "voting" else "discussing"))
    × (n.current_round ≡ (if over then m.current_round else suc m.current_round))
    × (after.messages ≡ room.messages)
    × (after.agents ≡ room.agents)

module _ (now : ℕ) (k : String) (room : Room) (m : Motion) (at : get_motion k room.motions ≡ some m)
    (talks : m.status ≡ "discussing") where
  calls :
      transition now k "start_voting" room.motions
      ≡ moved voting (update_motion_status now k "voting" none none room.motions)
  calls =
      transition-allowed now k "start_voting" room.motions m voting at
        ((next_status_exact m "start_voting" voting).1 (call_vote (inl talks) refl))

  called :
      get_motion k (update_motion_status now k "voting" none none room.motions)
      ≡ some (set_status now "voting" none none m)
  called = rw (get_motion-update now k k "voting" none none room.motions, at, eq_refl k) refl

  pub transition_to_voting-Moved : Moved k m true room (transition_to_voting now k room)
  unfolding transition_to_voting set_status
  transition_to_voting-Moved =
      rw (transition_to_voting, calls)
        (set_status now "voting" none none m, called, refl, refl, refl, refl, refl)

  turns :
      m.current_round < m.rounds
      → transition now k "round_complete" room.motions
        ≡ moved discussing (update_motion_status now k "discussing" none none room.motions)
  turns h =
      transition-allowed now k "round_complete" room.motions m discussing at
        ((next_status_exact m "round_complete" discussing).1 (another_round talks refl h))

  advanced_row : Motion
  advanced_row =
      let n = set_status now "discussing" none none m in
      record n { current_round = suc n.current_round; updated_at = now }

  advanced :
      get_motion k
        (increment_round now k (update_motion_status now k "discussing" none none room.motions)).0
      ≡ some advanced_row
  unfolding advanced_row
  advanced =
      let before = update_motion_status now k "discussing" none none room.motions in
      rw
        (
          get_motion-increment now k k before,
          get_motion-update now k k "discussing" none none room.motions,
          at,
          eq_refl k,
          eq_refl k,
        )
        refl

  pub continue_next_round-Moved :
      Moved k m (leb m.rounds m.current_round) room (continue_next_round now k room)
  unfolding continue_next_round increment_round set_status advanced_row
  continue_next_round-Moved = elim (Bool-cases (leb m.rounds m.current_round)) [
    | inl e ↦ rw (continue_next_round, at, e) transition_to_voting-Moved
    | inr e ↦
        rw (continue_next_round, at, e, turns (ground (arith, e)))
          (advanced_row, advanced, refl, refl, refl, refl, refl)
  ]

-- What the assessment of the messages calls for, beside the limit of the rounds.
abbrev pub calls_vote : List MessageRow → Bool
calls_vote messages = is_agreed messages || leb 6 (length messages)

pub expected-cases :
    (ms : List MessageRow)
    → ((calls_vote ms ≡ true) × ((expected ms ≡ consensus_reached) ⊎ (expected ms ≡ sufficient)))
      ⊎ ((calls_vote ms ≡ false) × (expected ms ≡ needs_more))
expected-cases ms = elim (Bool-cases (is_agreed ms)) [
  | inl e ↦ inl (rw e refl, inl (rw e refl))
  | inr e ↦ elim (Bool-cases (leb 6 (length ms))) [
    | inl f ↦ inl (rw (e, f) refl, inr (rw (e, f) refl))
    | inr f ↦ inr (rw (e, f) refl, rw (e, f) refl)
  ]
]

-- What keeps a motion from being assessed.
abbrev pub IsIdle : String → Motion → Room → Type 0
IsIdle k m room =
    (m.status ≢ "discussing")
    ⊎ (m.current_round ≡ 0)
    ⊎ (is_empty room.agents ≡ true)
    ⊎ (round_done k m.current_round room ≡ false)

-- A motion is discussed after round zero, and every agent, of at least one, has spoken.
abbrev pub IsComplete : String → Motion → Room → Type 0
IsComplete k m room =
    (m.status ≡ "discussing")
    × (0 < m.current_round)
    × (is_empty room.agents ≡ false)
    × (round_done k m.current_round room ≡ true)

module _ (hash : String → ℕ) (strip : String → String) (first : List String → Option String)
    (now : ℕ) (k : String) where
  act-consensus :
      (a : Assessment) (room : Room)
      → (a.result ≡ consensus_reached) ⊎ (a.result ≡ sufficient)
      → act_on_assessment hash strip first now k a room ≡ transition_to_voting now k room
  unfolding act_on_assessment
  act-consensus a room (inl e) = rw (act_on_assessment, e) refl
  act-consensus a room (inr e) = rw (act_on_assessment, e) refl

  act-more :
      (a : Assessment) (room : Room)
      → a.result ≡ needs_more
      → act_on_assessment hash strip first now k a room ≡ continue_next_round now k room
  unfolding act_on_assessment
  act-more a room e = rw (act_on_assessment, e) refl

  -- The assessment of a round that is complete.
  pub completed_round :
      (room : Room) (m : Motion)
      → get_motion k room.motions ≡ some m
      → m.status ≡ "discussing"
      → 0 < m.current_round
      → is_empty room.agents ≡ false
      → round_done k m.current_round room ≡ true
      → All HasText room.messages
      → Moved k m
          (calls_vote (keep (λ x. x.motion_id == k) room.messages) || leb m.rounds m.current_round)
          room
          (maybe_assess_round hash strip first now k room)
  unfolding maybe_assess_round save_assessment
  completed_round room m at talks positive someone done texts =
      let a = assess k room.messages in
      let before = send (assessed k a.result) (save_assessment k m.current_round a room) in
      let found = assess_exact k room.messages texts in
      let nonzero : eqb m.current_round 0 ≡ false = ground (arith, positive) in
      rw (maybe_assess_round, at, talks, nonzero, someone, done)
        elim (expected-cases (keep (λ x. x.motion_id == k) room.messages)) [
          | inl (c, inl e) ↦
              rw (c, act-consensus a before (inl (found ∙ e)))
                (transition_to_voting-Moved now k before m at talks)
          | inl (c, inr e) ↦
              rw (c, act-consensus a before (inr (found ∙ e)))
                (transition_to_voting-Moved now k before m at talks)
          | inr (c, e) ↦
              rw (c, act-more a before (found ∙ e))
                (continue_next_round-Moved now k before m at talks)
        ]

  -- Where the column of the evidence is never empty, assessing a motion of any smart_mode either
  -- changes nothing, which is so where it is not discussed, or is in round zero, or there is no
  -- agent, or an agent has not spoken in the round; or, where none of these holds, it calls the
  -- motion to the vote if seven tenths of the stances support it, if it has six messages, or if it
  -- is in its last round, and else leaves it discussed, in the next round, with the messages and
  -- the agents as they are.
  pub assessed_round :
      (room : Room) (m : Motion)
      → get_motion k room.motions ≡ some m
      → All HasText room.messages
      → (IsIdle k m room × (maybe_assess_round hash strip first now k room ≡ room))
        ⊎ (IsComplete k m room
            × Moved k m
                (calls_vote (keep (λ x. x.motion_id == k) room.messages)
                  || leb m.rounds m.current_round)
                room
                (maybe_assess_round hash strip first now k room))
  unfolding maybe_assess_round
  assessed_round room m at texts = elim (text-cases m.status "discussing") [
    | inr (e, other) ↦ inl (inl other, rw (maybe_assess_round, at, e) refl)
    | inl (e, talks) ↦ elim (Bool-cases (eqb m.current_round 0)) [
      | inl z ↦ inl (inr (inl (ground (arith, z))), rw (maybe_assess_round, at, e, z) refl)
      | inr z ↦ elim (Bool-cases (is_empty room.agents)) [
        | inl n ↦ inl (inr (inr (inl n)), rw (maybe_assess_round, at, e, z, n) refl)
        | inr n ↦ elim (Bool-cases (round_done k m.current_round room)) [
          | inr d ↦ inl (inr (inr (inr d)), rw (maybe_assess_round, at, e, z, n, d) refl)
          | inl d ↦
              let positive : 0 < m.current_round = ground (arith, z) in
              inr ((talks, positive, n, d), completed_round room m at talks positive n d texts)
        ]
      ]
    ]
  ]
