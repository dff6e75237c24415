-- ===== src/Motion/State/Effects.antt =====
-- What a transition changes, and when it raises.
use hermes_agora.Base.{
  Option, subst, refl, inr, arith, inl, Option-cases, ℕ, String, ◌≡◌, ◌↔◌, none, some, List, ◌==◌,
  if◌then◌else◌,
}
use hermes_agora.Motion.Store.{
  MotionStatus, value, Motion, get_motion, set_status, update_motion_status,
}
use hermes_agora.Motion.Store.Rows.{get_motion-update}
use hermes_agora.Motion.State.{not_found, invalid_transition, moved, next_status, transition}

none_not_some : {o : Option MotionStatus} {s : MotionStatus} → o ≡ some s → o ≡ none → ⊥
none_not_some f g = cc (f, g)

transition-missing :
    (now : ℕ) (k event : String) (motions : List Motion)
    → get_motion k motions ≡ none
    → transition now k event motions ≡ not_found
unfolding transition
transition-missing now k event motions h = ground (arith, h)

transition-refused :
    (now : ℕ) (k event : String) (motions : List Motion) (m : Motion)
    → get_motion k motions ≡ some m
    → next_status m event ≡ none
    → transition now k event motions ≡ invalid_transition
unfolding transition
transition-refused now k event motions m h f = rw (transition, h, f) refl

pub transition-allowed :
    (now : ℕ) (k event : String) (motions : List Motion) (m : Motion) (s : MotionStatus)
    → get_motion k motions ≡ some m
    → next_status m event ≡ some s
    → transition now k event motions
      ≡ moved s (update_motion_status now k (value s) none none motions)
unfolding transition
transition-allowed now k event motions m s h f = rw (transition, h, f) refl

-- A transition raises ValueError exactly where the motion does not exist, and
-- InvalidTransitionError exactly where the motion exists and does not allow the event.
pub transition_raises :
    (now : ℕ) (k event : String) (motions : List Motion)
    → ((transition now k event motions ≡ not_found) ↔ (get_motion k motions ≡ none))
      × ((transition now k event motions ≡ invalid_transition)
          ↔ ((m : Motion) × (get_motion k motions ≡ some m) × (next_status m event ≡ none)))
transition_raises now k event motions = elim (Option-cases (get_motion k motions)) [
  | inl e ↦
      let t = transition-missing now k event motions e in
      ((λ _. e, λ _. t), (λ h. absurd (cc (h, t)), λ (m, f, _). absurd (cc (e, f))))
  | inr (m, e) ↦ elim (Option-cases (next_status m event)) [
    | inl f ↦
        let t = transition-refused now k event motions m e f in
        ((λ h. absurd (cc (h, t)), λ h. absurd (cc (h, e))), (λ _. (m, e, f), λ _. t))
    | inr (s, f) ↦
        let t = transition-allowed now k event motions m s e f in
        (
          (λ h. absurd (cc (h, t)), λ h. absurd (cc (h, e))),
          (
            λ h. absurd (cc (h, t)),
            λ (n, g, i).
                let same : n ≡ m = cc (e, g) in
                absurd (none_not_some f (subst (λ x. next_status x event ≡ none) same i)),
          ),
        )
  ]
]

-- What a transition that does not raise comes from, and its rows.
pub transition-moved :
    (now : ℕ) (k event : String) (s : MotionStatus) (motions after : List Motion)
    → transition now k event motions ≡ moved s after
    → ((m : Motion) × (get_motion k motions ≡ some m) × (next_status m event ≡ some s))
      × (after ≡ update_motion_status now k (value s) none none motions)
transition-moved now k event s motions after h = elim (Option-cases (get_motion k motions)) [
  | inl e ↦ absurd (cc (h, transition-missing now k event motions e))
  | inr (m, e) ↦ elim (Option-cases (next_status m event)) [
    | inl f ↦ absurd (cc (h, transition-refused now k event motions m e f))
    | inr (n, f) ↦
        let t = transition-allowed now k event motions m n e f in
        let same : n ≡ s = cc (h, t) in
        (
          (m, e, cc (f, same)),
          subst (λ x. after ≡ update_motion_status now k (value x) none none motions) same
              (cc (h, t)),
        )
  ]
]

-- A transition that does not raise writes the status that it returns and the time to the row of
-- the motion, also as the time of closing where that is closed, and changes nothing else of it and
-- no row of another motion.
pub transition_moves :
    (now : ℕ) (k j event : String) (s : MotionStatus) (motions after : List Motion)
    → transition now k event motions ≡ moved s after
    → get_motion j after ≡ elim (get_motion j motions) [
      | none ↦ none
      | some m ↦ if k == j then some (set_status now (value s) none none m) else some m
    ]
transition_moves now k j event s motions after h =
    rw (transition-moved now k event s motions after h).1
      (get_motion-update now k j (value s) none none motions)
