-- ===== src/Motion/State/Permissions.antt =====
-- Who may speak and who may vote.
use hermes_agora.Base.{
  subst, eq_iff, ◌∙◌, arith, Bool, sym, String, ◌≡◌, refl, ◌↔◌, inl, inr, true, false, not, ◌&&◌,
  none, some, List, ◌==◌, Bool-cases, Option-cases,
}
use hermes_agora.Motion.Store.{Motion, VoteRow, AgentRow, get_motion, get_agent, has_voted}
use hermes_agora.Motion.State.{can_speak, can_vote}

voting_parts :
    (s : String) (v : Bool) → (s == "voting" && not v) ≡ true → (s ≡ "voting") × (v ≡ false)
voting_parts s v h = ground (arith, h, eq_iff s "voting")

voting_whole : (s : String) (v : Bool) → s ≡ "voting" → v ≡ false → (s == "voting" && not v) ≡ true
voting_whole s v e f = rw (e, f) refl

module _ (k a : String) (motions : List Motion) (agents : List AgentRow)
    (votes : List VoteRow) where
  can_vote-missing : get_motion k motions ≡ none → can_vote k a motions agents votes ≡ false
  unfolding can_vote
  can_vote-missing e = rw (can_vote, e) refl

  can_vote-nobody : get_agent a agents ≡ none → can_vote k a motions agents votes ≡ false
  unfolding can_vote
  can_vote-nobody f = elim (Option-cases (get_motion k motions)) [
    | inl e ↦ can_vote-missing e
    | inr (m, e) ↦ elim (Bool-cases (m.status == "voting")) [
      | inl t ↦ rw (can_vote, e, t, f) refl
      | inr t ↦ rw (can_vote, e, t) refl
    ]
  ]

  can_vote-at :
      (m : Motion) (g : AgentRow)
      → get_motion k motions ≡ some m
      → get_agent a agents ≡ some g
      → can_vote k a motions agents votes ≡ (m.status == "voting" && not (has_voted k a votes))
  unfolding can_vote
  can_vote-at m g e f = elim (Bool-cases (m.status == "voting")) [
    | inl t ↦ rw (can_vote, e, t, f) refl
    | inr t ↦ rw (can_vote, e, t) refl
  ]

  can_speak-at :
      (m : Motion)
      → get_motion k motions ≡ some m
      → m.status ≡ "voting"
      → can_speak k a motions agents ≡ false
  unfolding can_speak
  can_speak-at m e s = rw (can_speak, e, s) refl

  -- An agent may vote exactly where the motion is being voted on, the agent is registered and has
  -- not voted on it; and where an agent may vote it may not speak.
  pub can_vote_exact :
      ((can_vote k a motions agents votes ≡ true) ↔ (
        ((m : Motion) × (get_motion k motions ≡ some m) × (m.status ≡ "voting"))
        × ((g : AgentRow) × (get_agent a agents ≡ some g))
        × (has_voted k a votes ≡ false)))
      × (can_vote k a motions agents votes ≡ true → can_speak k a motions agents ≡ false)
  can_vote_exact = elim (Option-cases (get_motion k motions)) [
    | inl e ↦
        let t = can_vote-missing e in
        (
          (λ h. absurd (cc (h, t)), λ ((_, at, _), _, _). absurd (cc (e, at))),
          λ h. absurd (cc (h, t)),
        )
    | inr (m, e) ↦ elim (Option-cases (get_agent a agents)) [
      | inl f ↦
          let t = can_vote-nobody f in
          (
            (λ h. absurd (cc (h, t)), λ (_, (_, at), _). absurd (cc (f, at))),
            λ h. absurd (cc (h, t)),
          )
      | inr (g, f) ↦
          let t = can_vote-at m g e f in
          (
            (
              λ h.
                  let (s, v) = voting_parts m.status (has_voted k a votes) (sym t ∙ h) in
                  ((m, e, s), (g, f), v),
              λ ((n, at, s), _, v).
                  let same : n ≡ m = cc (at, e) in
                  t
                  ∙ voting_whole m.status (has_voted k a votes)
                      (subst (λ x. x.status ≡ "voting") same s) v,
            ),
            λ h. can_speak-at m e (voting_parts m.status (has_voted k a votes) (sym t ∙ h)).0,
          )
    ]
  ]
