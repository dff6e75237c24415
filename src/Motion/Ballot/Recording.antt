-- ===== src/Motion/Ballot/Recording.antt =====
-- Which votes the handler records, and when it closes the motion.
use hermes_agora.Base.{
  eq_refl, none, if◌then◌else◌, subst, ◌∙◌, sym, false≢true, ℕ, String, ◌≡◌, refl, ◌≢◌, ◌⊎◌, inl,
  inr, true, false, some, [], ◌∷◌, ◌++◌, Bool-cases, text-cases,
}
use hermes_agora.Motion.Store.{
  closed, set_status, Motion, VoteRow, AgentRow, get_motion, get_agent, has_voted, add_vote,
}
use hermes_agora.Motion.State.Lifecycle.{close, next_status_exact}
use hermes_agora.Motion.State.Effects.{transition_moves, transition-allowed}
use hermes_agora.Motion.State.{not_found, invalid_transition, moved, next_status, can_vote}
use hermes_agora.Motion.State.Permissions.{can_vote_exact}
use hermes_agora.Motion.Store.Rows.{append-HasOneVoteEach, HasOneVoteEach}
use hermes_agora.Motion.Ballot.{
  stored, on_motion, after_vote, moved, transition, everyone_voted, Outcome, Payload, error,
  vote_confirmed, Floor, send, get_or, validate_vote_format, check_all_voted, vote_row, handle_vote,
}

-- The floor with the vote, before the handler looks whether everyone has voted.
abbrev pub recorded : VoteRow → Floor → Floor
recorded v f = record f {
  votes = f.votes ++ v ∷ [];
  sent = f.sent ++ vote_confirmed v.agent_id v.motion_id v.vote ∷ [];
  votes_cast = f.votes_cast ++ (v.motion_id, v.agent_id, v.vote) ∷ [];
}

-- What makes a vote acceptable.
abbrev pub Accepts : String → Payload → Floor → Type 0
Accepts agent p f =
    let k = get_or "" p.motion_id in
    (m : Motion) × (get_motion k f.motions ≡ some m)
    × (m.status ≡ "voting")
    × (k ≢ "")
    × ((g : AgentRow) × (get_agent agent f.agents ≡ some g))
    × (has_voted k agent f.votes ≡ false)
    × (validate_vote_format m.voting_method (get_or "binary" p.kind) p ≡ true)

abbrev pub row_of : String → Payload → VoteRow
row_of agent p = vote_row (get_or "" p.motion_id) agent (get_or "binary" p.kind) p

pub handle_vote_exact :
    (now : ℕ) (agent : String) (p : Payload) (f : Floor)
    → (Accepts agent p f
        × (handle_vote now agent p f
            ≡ some (check_all_voted now (get_or "" p.motion_id) (recorded (row_of agent p) f))))
      ⊎ (¬ Accepts agent p f
          × ((code : String) × (handle_vote now agent p f ≡ some (send (error agent code) f))))
unfolding handle_vote add_vote on_motion check_all_voted vote_row after_vote stored
handle_vote_exact now agent p f = elim (text-cases k "") [
  | inl (t, e) ↦
      inr (λ (_, _, _, named, _, _, _). named e, ("missing_motion_id", rw (handle_vote, t) refl))
  | inr (t, named) ↦ elim (Bool-cases (can_vote k agent f.motions f.agents f.votes)) [
    | inr c ↦ inr (
      λ (m, at, voting, _, registered, fresh, _). false≢true (
          sym c
          ∙ (can_vote_exact k agent f.motions f.agents f.votes).0.1
              ((m, at, voting), registered, fresh)),
      ("cannot_vote", rw (handle_vote, t, c) refl),
    )
    | inl c ↦
        let ((m, at, voting), registered, fresh) =
          (can_vote_exact k agent f.motions f.agents f.votes).0.0 c in
        elim (Bool-cases (validate_vote_format m.voting_method kind p)) [
          | inr v ↦ inr (
            λ (n, there, _, _, _, _, ok).
                let same : n ≡ m = cc (at, there) in
                false≢true
                  (sym v ∙ subst (λ x. validate_vote_format x.voting_method kind p ≡ true) same ok),
            ("invalid_vote_format", rw (handle_vote, t, c, at, v) refl),
          )
          | inl v ↦ inl (
            (m, at, voting, named, registered, fresh, v),
            rw (handle_vote, t, c, at, v, add_vote, fresh) refl,
          )
        ]
  ]
]
  where
    k : String
    k = get_or "" p.motion_id

    kind : String
    kind = get_or "binary" p.kind

votes-after_vote : (k : String) (f : Floor) (o : Outcome) → (after_vote k f o).votes ≡ f.votes
unfolding after_vote
votes-after_vote k f not_found = refl
votes-after_vote k f invalid_transition = refl
votes-after_vote k f (moved _ _) = refl

votes-check_all_voted :
    (now : ℕ) (k : String) (f : Floor) → (check_all_voted now k f).votes ≡ f.votes
unfolding check_all_voted
votes-check_all_voted now k f = elim (Bool-cases (everyone_voted k f)) [
  | inl e ↦ rw (check_all_voted, e) (votes-after_vote k f (transition now k "all_voted" f.motions))
  | inr e ↦ rw (check_all_voted, e) refl
]

-- Where no agent has two votes on one motion, the handler of a vote returns, so that its INSERT
-- does not raise, and no agent has two votes on one motion afterwards.
pub one_vote_each :
    (now : ℕ) (agent : String) (p : Payload) (f : Floor)
    → HasOneVoteEach f.votes
    → (after : Floor) × (handle_vote now agent p f ≡ some after) × HasOneVoteEach after.votes
unfolding vote_row
one_vote_each now agent p f u = elim (handle_vote_exact now agent p f) [
  | inl ((m, _, _, _, _, fresh, _), e) ↦
      let after = check_all_voted now (get_or "" p.motion_id) (recorded (row_of agent p) f) in
      (
        after,
        e,
        subst HasOneVoteEach
            (sym (votes-check_all_voted now (get_or "" p.motion_id) (recorded (row_of agent p) f)))
            (append-HasOneVoteEach (row_of agent p) f.votes fresh u),
      )
  | inr (_, (code, e)) ↦ (send (error agent code) f, e, u)
]

closes :
    (now : ℕ) (k : String) (f : Floor) (m : Motion)
    → get_motion k f.motions ≡ some m
    → m.status ≡ "voting"
    → get_motion k (check_all_voted now k f).motions
      ≡ some (if everyone_voted k f then set_status now "closed" none none m else m)
unfolding check_all_voted after_vote
closes now k f m at voting = elim (Bool-cases (everyone_voted k f)) [
  | inr e ↦ rw (check_all_voted, e) at
  | inl e ↦
      let next : next_status m "all_voted" ≡ some closed =
        (next_status_exact m "all_voted" closed).1 (close voting (inl refl)) in
      let t = transition-allowed now k "all_voted" f.motions m closed at next in
      rw (check_all_voted, e, t)
        (transition_moves now k k "all_voted" closed f.motions _ t ∙ rw (at, eq_refl k) refl)
]

-- An acceptable vote closes its motion where, with the vote, every online agent has voted and
-- there is one; otherwise the motion stays as it was.
pub last_vote_closes :
    (now : ℕ) (agent : String) (p : Payload) (f after : Floor) (m : Motion)
    → Accepts agent p f
    → get_motion (get_or "" p.motion_id) f.motions ≡ some m
    → handle_vote now agent p f ≡ some after
    → get_motion (get_or "" p.motion_id) after.motions
      ≡ some (
          if everyone_voted (get_or "" p.motion_id) (recorded (row_of agent p) f)
          then set_status now "closed" none none m
          else m)
last_vote_closes now agent p f after m (n, there, voting, named, reg, fresh, ok) at h =
    let same : n ≡ m = cc (there, at) in
    let k = get_or "" p.motion_id in
    let done =
      closes now k (recorded (row_of agent p) f) m at
        (subst (λ x. x.status ≡ "voting") same voting) in
    elim (handle_vote_exact now agent p f) [
      | inl (_, e) ↦
          let same_floor : check_all_voted now k (recorded (row_of agent p) f) ≡ after =
            cc (e, h) in
          subst
            (λ x.
              get_motion k x.motions
              ≡ some (
                  if everyone_voted k (recorded (row_of agent p) f)
                  then set_status now "closed" none none m
                  else m))
            same_floor done
      | inr (refuse, _) ↦ absurd (refuse (n, there, voting, named, reg, fresh, ok))
    ]
