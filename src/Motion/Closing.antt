-- ===== src/Motion/Closing.antt =====
-- agora/coordinator/voting/manager.py: `close_voting`, which counts the votes of a motion by its method
-- and closes it. The weights are those that the weight manager gives for the motion; the rationale is
-- an argument, and the broadcast of the result is left out.
use hermes_agora.Base.{
  ℕ, ◌*◌, ◌≤◌, ◌<◌, String, ◌≡◌, refl, ap, ◌∙◌, ◌≢◌, ◌↔◌, ◌⊎◌, inl, inr, false, none, some, List,
  [], ◌∷◌, map, ◌==◌, eq_refl, Option-cases, length, count_if,
}
use hermes_agora.Base.Dict
use hermes_agora.Base.Dict.{Dict}
use hermes_agora.Voting.Types.{
  VotingMethod, simple_majority, supermajority, unanimous, weighted, borda_count, ranked_choice,
  approval, range, instant_runoff, value, of_value, value-of_value, Decision, adopted, rejected,
  no_consensus, tie, Vote,
}
use hermes_agora.Voting.Binary.{Registry, register, get_counter, built_in}
use hermes_agora.Voting.Binary.Thresholds.{
  votes_for, simple_majority_exact, supermajority_exact, unanimous_exact,
}
use hermes_agora.Voting.Weighted.{count_weighted}
use hermes_agora.Motion.Store.{
  Motion, VoteRow, get_motion, get_votes, update_motion_status, set_status,
}
use hermes_agora.Motion.Store.Rows.{get_motion-update}

-- a row of the table as the counters read it
abbrev pub as_vote : VoteRow → Vote
as_vote v = record {
  agent_id = some v.agent_id;
  vote = some v.vote;
  confidence = some v.confidence;
  vote_type = some v.vote_type;
  ranking = none;
  approved = none;
  scores = none;
}

-- the text of a decision
abbrev pub text_of : Decision → String
text_of adopted = "adopted"
text_of rejected = "rejected"
text_of no_consensus = "no_consensus"
text_of tie = "tie"

-- the branch on the method
abbrev pub count_by_method : VotingMethod → Registry → Dict ℕ → List Vote → Decision
count_by_method weighted counters weights votes = count_weighted weights votes
count_by_method m counters weights votes = (get_counter m counters votes).decision

-- What `close_voting` does: it returns a decision and leaves the motions, or it raises ValueError.
pub data Closing : Type 0 where
  closed : Decision → List Motion → Closing
  value_error : Closing

unfoldable pub close_voting :
    ℕ → String → String → Registry → Dict ℕ → List VoteRow → List Motion → Closing
unfolding get_motion get_votes of_value get_counter count_weighted update_motion_status
close_voting now rationale k counters weights votes motions = elim (get_motion k motions) [
  | none ↦ value_error
  | some m ↦ elim (of_value m.voting_method) [
    | none ↦ value_error
    | some method ↦
        let decision = count_by_method method counters weights (map as_vote (get_votes k votes)) in
        closed decision
          (update_motion_status now k "closed" (some (text_of decision)) (some rationale) motions)
  ]
]

-- What the yes and no votes of `total` votes decide by a method.
abbrev pub IsDecidedBy : VotingMethod → (for_it against total : ℕ) → Decision → Type 0
IsDecidedBy supermajority for_it against total d =
    ((d ≡ adopted) ↔ ((0 < for_it) × (2 * against ≤ for_it)))
    × ((d ≡ no_consensus) ↔ ((for_it ≡ 0) × (against ≡ 0)))
IsDecidedBy unanimous for_it against total d =
    ((d ≡ adopted) ↔ ((0 < for_it) × (against ≡ 0)))
    × ((d ≡ no_consensus) ↔ ((for_it ≡ 0) × (against ≡ 0)))
IsDecidedBy method for_it against total d =
    ((d ≡ adopted) ↔ (against < for_it))
    × ((d ≡ no_consensus) ↔ (total ≡ 0))
    × ((d ≡ rejected) ↔ ((0 < total) × (for_it ≤ against)))

-- How many votes on a motion have a text.
abbrev pub votes_with : String → String → List VoteRow → ℕ
votes_with c k votes = count_if (λ v. v.vote == c) (get_votes k votes)

votes_for-as_vote :
    (c : String) (rows : List VoteRow)
    → votes_for c (map as_vote rows) ≡ count_if (λ v. v.vote == c) rows
votes_for-as_vote c [] = refl
votes_for-as_vote c (v ∷ rows) = rw (votes_for-as_vote c rows) refl

length-as_vote : (rows : List VoteRow) → length (map as_vote rows) ≡ length rows
length-as_vote [] = refl
length-as_vote (v ∷ rows) = rw (length-as_vote rows) refl

count_by_method-IsDecidedBy :
    (method : VotingMethod) (weights : Dict ℕ) (rows : List VoteRow)
    → method ≢ weighted
    → IsDecidedBy method
        (count_if (λ v. v.vote == "yes") rows)
        (count_if (λ v. v.vote == "no") rows)
        (length rows)
        (count_by_method method built_in weights (map as_vote rows))
unfolding get_counter built_in register Dict.get Dict.put
count_by_method-IsDecidedBy method weights rows other =
    rw (← votes_for-as_vote "yes" rows, ← votes_for-as_vote "no" rows, ← length-as_vote rows)
      (go method other)
  where
    go :
        (m : VotingMethod)
        → m ≢ weighted
        → IsDecidedBy m
            (votes_for "yes" (map as_vote rows))
            (votes_for "no" (map as_vote rows))
            (length (map as_vote rows))
            (count_by_method m built_in weights (map as_vote rows))
    go simple_majority h = simple_majority_exact (map as_vote rows)
    go supermajority h = supermajority_exact (map as_vote rows)
    go unanimous h = unanimous_exact (map as_vote rows)
    go weighted h = absurd (h refl)
    go borda_count h = simple_majority_exact (map as_vote rows)
    go ranked_choice h = simple_majority_exact (map as_vote rows)
    go approval h = simple_majority_exact (map as_vote rows)
    go range h = simple_majority_exact (map as_vote rows)
    go instant_runoff h = simple_majority_exact (map as_vote rows)

-- Closing the vote on a motion that exists and whose method is not weighted raises ValueError
-- where the method is unknown. Otherwise it returns a decision, stores it in the row of the
-- motion, which is then closed, and leaves every other motion as it is. By supermajority the
-- motion is adopted exactly if some vote on it says yes and at least two thirds of the yes and no
-- votes do, unanimously exactly if some vote says yes and none says no; by every other method it
-- is adopted exactly if more votes say yes than no.
pub close_voting_exact :
    (now : ℕ) (rationale k : String) (weights : Dict ℕ)
    → (votes : List VoteRow) (motions : List Motion) (m : Motion) → get_motion k motions ≡ some m
    → m.voting_method ≢ "weighted"
    → ((of_value m.voting_method ≡ none)
        × (close_voting now rationale k built_in weights votes motions ≡ value_error))
      ⊎ ((method : VotingMethod) × (m.voting_method ≡ value method)
          × (decision : Decision) × (after : List Motion) × (close_voting now rationale k built_in
                weights votes motions
              ≡ closed decision after)
          × IsDecidedBy method
              (votes_with "yes" k votes)
              (votes_with "no" k votes)
              (length (get_votes k votes))
              decision
          × (get_motion k after
              ≡ some (set_status now "closed" (some (text_of decision)) (some rationale) m))
          × ((j : String) → (k == j) ≡ false → get_motion j after ≡ get_motion j motions))
unfolding close_voting
close_voting_exact now rationale k weights votes motions m found plain =
    elim (Option-cases (of_value m.voting_method)) [
      | inl e ↦ inl (e, rw (close_voting, found, e) refl)
      | inr (method, known) ↦
          let named = value-of_value m.voting_method method known in
          let rows = get_votes k votes in
          let decision = count_by_method method built_in weights (map as_vote rows) in
          let after =
            update_motion_status now k "closed" (some (text_of decision)) (some rationale)
              motions in
          inr (
            method,
            named,
            decision,
            after,
            rw (close_voting, found, known) refl,
            count_by_method-IsDecidedBy method weights rows (λ w. plain (named ∙ ap value w)),
            get_motion-update now k k "closed" (some (text_of decision)) (some rationale) motions
                ∙ rw (found, eq_refl k) refl,
            λ j other.
                get_motion-update now k j "closed" (some (text_of decision)) (some rationale)
                  motions
                ∙ elim (Option-cases (get_motion j motions)) [
                  | inl e ↦ rw e refl
                  | inr (n, e) ↦ rw (e, other) refl
                ],
          )
    ]
