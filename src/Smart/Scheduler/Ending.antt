-- ===== src/Smart/Scheduler/Ending.antt =====
-- How long the scheduler keeps a discussion going: the assessments of a caller that goes on while the
-- motion is discussed.
use hermes_agora.Base.{
  ℕ, ◌+◌, ◌<◌, String, ◌≡◌, refl, sym, subst, inl, inr, Bool, false, Option, none, some, List, [],
  ◌∷◌, arith, ◌==◌, if◌then◌else◌, length, All,
}
use hermes_agora.Motion.Store.{Motion, get_motion}
use hermes_agora.Smart.Assess.Decision.{HasText}
use hermes_agora.Smart.Scheduler.{Settings, Desk, Ran, returned, and_then, run_assessment}
use hermes_agora.Smart.Scheduler.Turns.{last_round, run_assessment-Goes}

unfoldable pub is_discussed : String → Desk → Bool
is_discussed k d = elim (get_motion k d.room.motions) [
  | none ↦ false
  | some m ↦ m.status == "discussing"
]

is_discussed-at :
    (k : String) (d : Desk) (m : Motion)
    → get_motion k d.room.motions ≡ some m
    → is_discussed k d ≡ (m.status == "discussing")
unfolding is_discussed
is_discussed-at k d m at = rw (is_discussed, at) refl

module _ (s : Settings) (hash : String → ℕ) (strip : String → String)
    (first : List String → Option String) (k : String) where
  -- One assessment at each of the times, while the motion is discussed.
  unfoldable pub assess_while : List ℕ → Desk → Ran
  unfolding run_assessment is_discussed
  assess_while [] d = returned d
  assess_while (now ∷ times) d =
      if is_discussed k d
      then and_then (run_assessment s hash strip first now k d) (assess_while times)
      else returned d

  abbrev Called : Ran → Type 0
  Called ran =
      (after : Desk) × (ran ≡ returned after)
      × (n : Motion) × (get_motion k after.room.motions ≡ some n)
      × (n.status ≡ "voting")

  rest-Called :
      (times : List ℕ) (d : Desk) (n : Motion)
      → get_motion k d.room.motions ≡ some n
      → n.status ≡ "voting"
      → Called (assess_while times d)
  unfolding assess_while
  rest-Called [] d n at v = (d, refl, n, at, v)
  rest-Called (now ∷ times) d n at v =
      rw (assess_while, is_discussed-at k d n at, v) (d, refl, n, at, v)

  -- Where the column of the evidence is never empty, the scheduler that assesses a discussed
  -- motion again while it is discussed, at more times than rounds are left to the last one that
  -- the settings allow, never raises and brings the motion to the vote.
  pub scheduled_ends_in_vote :
      (times : List ℕ) (d : Desk) (m : Motion)
      → get_motion k d.room.motions ≡ some m
      → m.status ≡ "discussing"
      → All HasText d.room.messages
      → 0 < length times
      → last_round s < m.current_round + length times
      → (after : Desk) × (assess_while times d ≡ returned after)
        × (n : Motion) × (get_motion k after.room.motions ≡ some n)
        × (n.status ≡ "voting")
  unfolding assess_while
  scheduled_ends_in_vote [] d m at talks texts some_time enough = absurd (omega (arith, some_time))
  scheduled_ends_in_vote (now ∷ times) d m at talks texts some_time enough =
      let (after, ran, same, n, there, went) =
        run_assessment-Goes s (last_round s) refl now k m talks hash strip first d at texts in
      rw (assess_while, is_discussed-at k d m at, talks, ran)
        elim went [
          | inl v ↦ rest-Called times after n there v
          | inr (again, next, low) ↦
              scheduled_ends_in_vote times after n there again
                (subst (All HasText) (sym same) texts) (omega (arith, enough, low))
                (omega (arith, enough, next))
        ]
