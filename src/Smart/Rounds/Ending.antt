-- ===== src/Smart/Rounds/Ending.antt =====
-- How long the rounds of a discussion go on.
use hermes_agora.Base.{
  eqb, ◌⊎◌, ℕ, suc, ◌+◌, ◌≤◌, ◌<◌, max, String, ◌≡◌, refl, sym, ap, ◌∙◌, subst, inl, inr, true,
  false, ◌||◌, Option, some, List, [], ◌∷◌, arith, ◌==◌, leb, Bool-cases, length, is_empty, All,
  keep,
}
use hermes_agora.Motion.Store.{Motion, get_motion}
use hermes_agora.Smart.Assess.Decision.{HasText}
use hermes_agora.Smart.Rounds.{Room, round_done, maybe_assess_round}
use hermes_agora.Smart.Rounds.Steps.{calls_vote, completed_round}

module _ (hash : String → ℕ) (strip : String → String) (first : List String → Option String)
    (k : String) where
  -- The assessments at a sequence of times.
  unfoldable pub assess_at : List ℕ → Room → Room
  unfolding maybe_assess_round
  assess_at [] room = room
  assess_at (now ∷ times) room = assess_at times (maybe_assess_round hash strip first now k room)

  closed_to_rounds :
      (now : ℕ) (room : Room) (m : Motion)
      → get_motion k room.motions ≡ some m
      → m.status ≡ "voting"
      → maybe_assess_round hash strip first now k room ≡ room
  unfolding maybe_assess_round
  closed_to_rounds now room m at s = rw (maybe_assess_round, at, s) refl

  stays_called :
      (times : List ℕ) (room : Room) (m : Motion)
      → get_motion k room.motions ≡ some m
      → m.status ≡ "voting"
      → assess_at times room ≡ room
  unfolding assess_at
  stays_called [] room m at s = refl
  stays_called (now ∷ times) room m at s =
      ap (assess_at times) (closed_to_rounds now room m at s) ∙ stays_called times room m at s

  -- Every agent has spoken in the rounds from one on, up to the last.
  abbrev HasSpoken : ℕ → ℕ → Room → Type 0
  HasSpoken from last room = (r : ℕ) → from ≤ r → r ≤ max from last → round_done k r room ≡ true

  round_done-same :
      (r : ℕ) (room after : Room)
      → after.messages ≡ room.messages
      → after.agents ≡ room.agents
      → round_done k r room ≡ true
      → round_done k r after ≡ true
  unfolding round_done
  round_done-same r room after same_messages same_agents h = rw (same_messages, same_agents) h

  -- The rounds after round zero.
  later_rounds_end :
      (times : List ℕ) (room : Room) (m : Motion)
      → get_motion k room.motions ≡ some m
      → m.status ≡ "discussing"
      → 0 < m.current_round
      → is_empty room.agents ≡ false
      → All HasText room.messages
      → ((r : ℕ)
          → m.current_round ≤ r
          → r ≤ max m.current_round m.rounds
          → round_done k r room ≡ true)
      → 0 < length times
      → m.rounds < m.current_round + length times
      → (n : Motion) × (get_motion k (assess_at times room).motions ≡ some n)
        × (n.status ≡ "voting")
  unfolding assess_at
  later_rounds_end [] room m at talks positive someone texts spoken some_time enough =
      absurd (omega (arith, some_time))
  later_rounds_end (now ∷ times) room m at talks positive someone texts spoken some_time enough =
      let over =
        calls_vote (keep (λ x. x.motion_id == k) room.messages) || leb m.rounds m.current_round in
      let next = maybe_assess_round hash strip first now k room in
      let (n, there, same_rounds, status, round, same_messages, same_agents) =
        completed_round hash strip first now k room m at talks positive someone
          (spoken m.current_round (omega arith) (omega arith)) texts in
      elim (Bool-cases over) [
        | inl e ↦
            let s : n.status ≡ "voting" = rw e at status in
            (n, rw (stays_called times next n there s) there, s)
        | inr e ↦
            let s : n.status ≡ "discussing" = rw e at status in
            let c : n.current_round ≡ suc m.current_round = rw e at round in
            let more : m.current_round < m.rounds = ground (arith, e) in
            later_rounds_end times next n there s (omega (arith, c)) (rw same_agents someone)
              (subst (All HasText) (sym same_messages) texts)
              (λ r low high.
                round_done-same r room next same_messages same_agents
                  (spoken r (omega (arith, c, low)) (omega (arith, c, high, same_rounds, more))))
              (omega (arith, enough, more)) (omega (arith, enough, c, same_rounds))
      ]

  never_assessed :
      (times : List ℕ) (room : Room) (m : Motion)
      → get_motion k room.motions ≡ some m
      → m.current_round ≡ 0
      → assess_at times room ≡ room
  unfolding assess_at maybe_assess_round
  never_assessed [] room m at zeroth = refl
  never_assessed (now ∷ times) room m at zeroth =
      let same : maybe_assess_round hash strip first now k room ≡ room =
        elim (Bool-cases (m.status == "discussing")) [
          | inl e ↦ rw (maybe_assess_round, at, e, zeroth) refl
          | inr e ↦ rw (maybe_assess_round, at, e) refl
        ] in
      ap (assess_at times) same ∙ never_assessed times room m at zeroth

  -- Where a motion is discussed, whatever its smart_mode, there are agents, every one of which has
  -- spoken in each round from the current one on, and the column of the evidence is never empty,
  -- assessing it once more often than rounds are left either changes nothing, which is so in round
  -- zero, or brings it to the vote, which is so in every later round.
  pub rounds_end_in_vote :
      (times : List ℕ) (room : Room) (m : Motion)
      → get_motion k room.motions ≡ some m
      → m.status ≡ "discussing"
      → is_empty room.agents ≡ false
      → All HasText room.messages
      → ((r : ℕ)
          → m.current_round ≤ r
          → r ≤ max m.current_round m.rounds
          → round_done k r room ≡ true)
      → 0 < length times
      → m.rounds < m.current_round + length times
      → ((m.current_round ≡ 0) × (assess_at times room ≡ room))
        ⊎ ((0 < m.current_round)
            × (n : Motion) × (get_motion k (assess_at times room).motions ≡ some n)
            × (n.status ≡ "voting"))
  rounds_end_in_vote times room m at talks someone texts spoken some_time enough =
      elim (Bool-cases (eqb m.current_round 0)) [
        | inl z ↦
            let zeroth : m.current_round ≡ 0 = ground (arith, z) in
            inl (zeroth, never_assessed times room m at zeroth)
        | inr z ↦
            let positive : 0 < m.current_round = ground (arith, z) in
            let (n, there, called) =
              later_rounds_end times room m at talks positive someone texts spoken some_time
                enough in
            inr (positive, n, there, called)
      ]
