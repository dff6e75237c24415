-- ===== src/Motion/State/Runs.antt =====
-- What no run of events does to a motion; an event that raises leaves the rows as they are.
use hermes_agora.Base.{
  ◌∙◌, sym, ap, false≢true, eq_refl, eq_iff, arith, false, ◌||◌, refl, subst, ◌==◌, inl, inr, none,
  ℕ, String, ◌≡◌, ◌⊎◌, some, List, [], ◌∷◌,
}
use hermes_agora.Motion.Store.{MotionStatus, closed, Motion, get_motion, set_status}
use hermes_agora.Motion.State.{
  Outcome, not_found, invalid_transition, moved, next_status, transition,
}
use hermes_agora.Motion.State.Effects.{transition-moved, transition_moves}
use hermes_agora.Motion.State.Lifecycle.{
  Step, begin, another_round, last_round, call_vote, assess, challenge, resume, challenged, close,
  next_status_exact,
}

abbrev pub rows_after : Outcome → List Motion → List Motion
rows_after not_found motions = motions
rows_after invalid_transition motions = motions
rows_after (moved _ after) motions = after

-- The rows after a sequence of events on one motion, each with the time that it happens at.
unfoldable pub run : String → List (ℕ × String) → List Motion → List Motion
unfolding transition
run k [] motions = motions
run k (e ∷ events) motions = run k events (rows_after (transition e.0 k e.1 motions) motions)

-- Voting has begun, or is over.
abbrev pub IsCalled : Motion → Type 0
IsCalled m = (m.status ≡ "voting") ⊎ (m.status ≡ "closed")

abbrev Keeps : (Motion → Type 0) → String → List Motion → Type 0
Keeps P k motions = (m : Motion) × (get_motion k motions ≡ some m) × P m

not_called :
    (m : Motion) (v : String)
    → m.status ≡ v
    → (v == "voting" || v == "closed") ≡ false
    → IsCalled m
    → ⊥
not_called m v s f c = ground (arith, s, f, c, eq_iff v "voting", eq_iff v "closed")

Step-IsCalled :
    {m : Motion} {e : String} {s : MotionStatus}
    → Step m e s
    → IsCalled m
    → (s ≡ closed) × (m.status ≡ "voting")
Step-IsCalled {m = m} (begin s _) c = absurd (not_called m "draft" s refl c)
Step-IsCalled {m = m} (another_round s _ _) c = absurd (not_called m "discussing" s refl c)
Step-IsCalled {m = m} (last_round s _ _) c = absurd (not_called m "discussing" s refl c)
Step-IsCalled {m = m} (call_vote (inl s) _) c = absurd (not_called m "discussing" s refl c)
Step-IsCalled {m = m} (call_vote (inr (inl s)) _) c = absurd (not_called m "assessing" s refl c)
Step-IsCalled {m = m} (call_vote (inr (inr s)) _) c =
    absurd (not_called m "devils_advocate" s refl c)
Step-IsCalled {m = m} (assess s _) c = absurd (not_called m "discussing" s refl c)
Step-IsCalled {m = m} (challenge s _) c = absurd (not_called m "assessing" s refl c)
Step-IsCalled {m = m} (resume s _) c = absurd (not_called m "assessing" s refl c)
Step-IsCalled {m = m} (challenged s _) c = absurd (not_called m "devils_advocate" s refl c)
Step-IsCalled (close s _) c = (refl, s)

-- One event on a called motion leaves its rows as they are, or closes the motion.
event-IsCalled :
    (now : ℕ) (k e : String) (motions : List Motion) (m : Motion)
    → get_motion k motions ≡ some m
    → IsCalled m
    → let after = rows_after (transition now k e motions) motions in
      (get_motion k after ≡ some m)
      ⊎ ((m.status ≡ "voting") × (get_motion k after ≡ some (set_status now "closed" none none m)))
event-IsCalled now k e motions m at c = go (transition now k e motions) refl
  where
    go :
        (o : Outcome)
        → transition now k e motions ≡ o
        → (get_motion k (rows_after o motions) ≡ some m)
          ⊎ ((m.status ≡ "voting")
              × (get_motion k (rows_after o motions) ≡ some (set_status now "closed" none none m)))
    go not_found h = inl at
    go invalid_transition h = inl at
    go (moved s after) h =
        let ((n, there, next), _) = transition-moved now k e s motions after h in
        let same : n ≡ m = cc (there, at) in
        let (over, was) =
          Step-IsCalled
            ((next_status_exact m e s).0 (subst (λ x. next_status x e ≡ some s) same next)) c in
        inr (was, rw (transition_moves now k k e s motions after h, at, over, eq_refl k) refl)

voting_not_closed : (s : String) → s ≡ "voting" → s ≡ "closed" → ⊥
voting_not_closed s v c = false≢true (ap (λ x. x == "closed") (sym v ∙ c))

-- A motion that is being voted on or closed stays one of these two under every sequence of events:
-- the discussion is never opened again.
pub run-IsCalled :
    (k : String) (events : List (ℕ × String)) (motions : List Motion) (m : Motion)
    → get_motion k motions ≡ some m
    → IsCalled m
    → (n : Motion) × (get_motion k (run k events motions) ≡ some n) × IsCalled n
unfolding run
run-IsCalled k [] motions m at c = (m, at, c)
run-IsCalled k (e ∷ events) motions m at c = elim (event-IsCalled e.0 k e.1 motions m at c) [
  | inl still ↦ run-IsCalled k events (rows_after (transition e.0 k e.1 motions) motions) m still c
  | inr (_, over) ↦
      run-IsCalled k events (rows_after (transition e.0 k e.1 motions) motions)
        (set_status e.0 "closed" none none m) over (inr (unfold set_status in refl))
]

-- A closed motion is final: no sequence of events changes anything of its row.
pub closed_is_final :
    (k : String) (events : List (ℕ × String)) (motions : List Motion) (m : Motion)
    → get_motion k motions ≡ some m
    → m.status ≡ "closed"
    → get_motion k (run k events motions) ≡ some m
unfolding run
closed_is_final k [] motions m at c = at
closed_is_final k (e ∷ events) motions m at c =
    elim (event-IsCalled e.0 k e.1 motions m at (inr c)) [
      | inl still ↦
          closed_is_final k events (rows_after (transition e.0 k e.1 motions) motions) m still c
      | inr (was, _) ↦ absurd (voting_not_closed m.status was c)
    ]
