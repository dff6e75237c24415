-- ===== src/Examples/Closing.antt =====
-- A vote that is tied, and the motion that it closes.
use hermes_agora.Base.{
  eq_iff, String, ◌≡◌, refl, ◌⊎◌, true, false, none, some, List, [], ◌∷◌, arith, ◌==◌, length,
}
use hermes_agora.Motion.Store.{get_votes, Motion, VoteRow, get_motion, set_status}
use hermes_agora.Voting.Types.{VotingMethod, value, of_value, Decision}
use hermes_agora.Voting.Binary.{built_in}
use hermes_agora.Motion.Closing.{
  closed, value_error, text_of, votes_with, IsDecidedBy, close_voting, close_voting_exact,
}

abbrev row : String → String → VoteRow
row agent vote = record {
  motion_id = "m1";
  agent_id = agent;
  vote = vote;
  vote_type = "binary";
  vote_data = none;
  confidence = 1000000;
  reason = none;
}

abbrev tied : List VoteRow
tied = row "ann" "yes" ∷ row "bob" "no" ∷ []

abbrev motion : Motion
motion = record {
  id = "m1";
  rounds = 2;
  voting_method = "supermajority";
  smart_mode = true;
  status = "voting";
  current_round = 2;
  decision = none;
  rationale = none;
  updated_at = 0;
  closed_at = none;
}

close_voting_exact_example :
    ((of_value motion.voting_method ≡ none)
      × (close_voting 9 "" "m1" built_in [] tied (motion ∷ []) ≡ value_error))
    ⊎ ((method : VotingMethod) × (motion.voting_method ≡ value method)
        × (decision : Decision) × (after : List Motion) × (close_voting 9 "" "m1" built_in [] tied
              (motion ∷ [])
            ≡ closed decision after)
        × IsDecidedBy method
            (votes_with "yes" "m1" tied)
            (votes_with "no" "m1" tied)
            (length (get_votes "m1" tied))
            decision
        × (get_motion "m1" after
            ≡ some (set_status 9 "closed" (some (text_of decision)) (some "") motion))
        × ((j : String) → ("m1" == j) ≡ false → get_motion j after ≡ get_motion j (motion ∷ [])))
unfolding get_motion
close_voting_exact_example =
    close_voting_exact 9 "" "m1" [] tied (motion ∷ []) motion refl
      (λ e. ground (arith, e, eq_iff "supermajority" "weighted"))
