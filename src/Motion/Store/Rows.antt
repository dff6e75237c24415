-- ===== src/Motion/Store/Rows.antt =====
-- What the statements on the motions and the votes change.
use hermes_agora.Base.{
  suc, length, ℕ, ◌+◌, String, ◌≡◌, refl, subst, ◌↔◌, inl, inr, true, false, false≢true, ◌&&◌, ◌||◌,
  Option, none, some, List, [], ◌∷◌, ◌++◌, arith, ◌==◌, eq_iff, if◌then◌else◌, Bool-cases, count_if,
}
use hermes_agora.Motion.Store.{
  increment_round, add_choice, Motion, VoteRow, Summary, get_motion, set_status,
  update_motion_status, has_voted, add_vote, get_votes, get_vote_summary, add_choices,
}

-- An update of a status reaches the row with the id, in all its columns, and no other row.
pub get_motion-update :
    (now : ℕ) (k j status : String) (d r : Option String) (motions : List Motion)
    → get_motion j (update_motion_status now k status d r motions) ≡ elim (get_motion j motions) [
      | none ↦ none
      | some m ↦ if k == j then some (set_status now status d r m) else some m
    ]
unfolding get_motion update_motion_status set_status
get_motion-update now k j status d r [] = refl
get_motion-update now k j status d r (m ∷ motions) =
    ground (
      arith,
      eq_iff m.id k,
      eq_iff m.id j,
      eq_iff k j,
      get_motion-update now k j status d r motions,
    )

-- The next round of a motion is counted in its row and in no other row.
pub get_motion-increment :
    (now : ℕ) (k j : String) (motions : List Motion)
    → get_motion j (increment_round now k motions).0 ≡ elim (get_motion j motions) [
      | none ↦ none
      | some m ↦
          if k == j
          then some (record m { current_round = suc m.current_round; updated_at = now })
          else some m
    ]
unfolding get_motion increment_round
get_motion-increment now k j [] = refl
get_motion-increment now k j (m ∷ motions) =
    ground (arith, eq_iff m.id k, eq_iff m.id j, eq_iff k j, get_motion-increment now k j motions)

-- No agent has two votes on one motion.
abbrev pub HasOneVoteEach : List VoteRow → Type 0
HasOneVoteEach [] = Unit
HasOneVoteEach (v ∷ votes) = (has_voted v.motion_id v.agent_id votes ≡ false) × HasOneVoteEach votes

-- The vote is there after it was added, and no other pair of a motion and an agent is touched.
pub has_voted-append :
    (k a : String) (v : VoteRow) (votes : List VoteRow)
    → has_voted k a (votes ++ v ∷ [])
      ≡ (has_voted k a votes || (v.motion_id == k && v.agent_id == a))
unfolding has_voted
has_voted-append k a v [] = ground arith
has_voted-append k a v (u ∷ votes) = ground (arith, has_voted-append k a v votes)

pub append-HasOneVoteEach :
    (v : VoteRow) (votes : List VoteRow)
    → has_voted v.motion_id v.agent_id votes ≡ false
    → HasOneVoteEach votes
    → HasOneVoteEach (votes ++ v ∷ [])
unfolding has_voted
append-HasOneVoteEach v [] h u = (refl, tt)
append-HasOneVoteEach v (x ∷ votes) h u = (
  ground (
    arith,
    u,
    h,
    has_voted-append x.motion_id x.agent_id v votes,
    eq_iff v.motion_id x.motion_id,
    eq_iff v.agent_id x.agent_id,
    eq_iff x.motion_id v.motion_id,
    eq_iff x.agent_id v.agent_id,
  ),
  append-HasOneVoteEach v votes (ground (arith, h)) u.1,
)

-- On a table without two votes of one agent on one motion, adding a vote raises exactly where the
-- agent has voted on the motion, and a table that it leaves has no two votes of one agent on one
-- motion.
pub add_vote_exact :
    (v : VoteRow) (votes : List VoteRow)
    → HasOneVoteEach votes
    → ((add_vote v votes ≡ none) ↔ (has_voted v.motion_id v.agent_id votes ≡ true))
      × ((after : List VoteRow) → add_vote v votes ≡ some after → HasOneVoteEach after)
unfolding add_vote
add_vote_exact v votes u = elim (Bool-cases (has_voted v.motion_id v.agent_id votes)) [
  | inl e ↦ rw e ((λ _. refl, λ _. refl), λ _ h. absurd (ground (arith, h)))
  | inr e ↦ rw e (
    (λ h. absurd (ground (arith, h)), λ h. absurd (false≢true h)),
    λ after h. subst HasOneVoteEach (cc h) (append-HasOneVoteEach v votes e u),
  )
]

-- How many of the votes are for a choice.
abbrev pub votes_for : String → List VoteRow → ℕ
votes_for c votes = count_if (λ v. v.vote == c) votes

add_choices-counts :
    (votes : List VoteRow) (s : Summary)
    → ((add_choices votes s).yes ≡ s.yes + votes_for "yes" votes)
      × ((add_choices votes s).no ≡ s.no + votes_for "no" votes)
      × ((add_choices votes s).abstain ≡ s.abstain + votes_for "abstain" votes)
      × ((add_choices votes s).total ≡ s.total + votes_for "total" votes)
add_choices-counts [] s = ground arith
add_choices-counts (v ∷ votes) s = ground (arith, add_choices-counts votes (add_choice v.vote s))

-- The summary of a motion counts the yes, no and abstain votes on it; its total is the number of
-- the votes on it, and one more for each whose text is "total".
pub get_vote_summary_exact :
    (k : String) (votes : List VoteRow)
    → ((get_vote_summary k votes).yes ≡ votes_for "yes" (get_votes k votes))
      × ((get_vote_summary k votes).no ≡ votes_for "no" (get_votes k votes))
      × ((get_vote_summary k votes).abstain ≡ votes_for "abstain" (get_votes k votes))
      × ((get_vote_summary k votes).total
          ≡ length (get_votes k votes) + votes_for "total" (get_votes k votes))
unfolding get_vote_summary
get_vote_summary_exact k votes = ground (
  arith,
  add_choices-counts (get_votes k votes)
      (record { yes = 0; no = 0; abstain = 0; total = length (get_votes k votes) }),
)
