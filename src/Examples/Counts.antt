-- ===== src/Examples/Counts.antt =====
-- The counters on concrete votes.
use hermes_agora.Base.{◌*◌, ◌≤◌, ◌<◌, String, ◌≡◌, refl, none, some, List, [], ◌∷◌, arith}
use hermes_agora.Voting.Approval.{approval_count}
use hermes_agora.Voting.Approval.Winner.{approvals, approval_count_exact}
use hermes_agora.Voting.Types.{adopted, Vote}
use hermes_agora.Voting.Choice.{choice_count}
use hermes_agora.Voting.Choice.Winner.{choice_count_exact}

abbrev vote_of : String → Vote
vote_of s = record {
  agent_id = none;
  vote = some s;
  confidence = none;
  vote_type = none;
  ranking = none;
  approved = none;
  scores = none;
}

abbrev three_to_one : List Vote
three_to_one = vote_of "yes" ∷ vote_of "no" ∷ vote_of "yes" ∷ vote_of "yes" ∷ []

abbrev all_yes : List Vote
all_yes = vote_of "yes" ∷ vote_of "abstain" ∷ vote_of "yes" ∷ []

choice_count_exact_example :
    (choice_count
      ("tea" ∷ "coffee" ∷ [])
      (vote_of "tea" ∷ vote_of "tea" ∷ vote_of "coffee" ∷ [])).winner
    ≡ some "tea"
choice_count_exact_example =
    (choice_count_exact ("tea" ∷ "coffee" ∷ [])
        (vote_of "tea" ∷ vote_of "tea" ∷ vote_of "coffee" ∷ []) "tea").0.1
      (refl, omega arith)

abbrev approves : List String → Vote
approves os = record {
  agent_id = none;
  vote = none;
  confidence = none;
  vote_type = none;
  ranking = none;
  approved = some os;
  scores = none;
}

abbrev approval_votes : List Vote
approval_votes = approves ("a" ∷ "b" ∷ []) ∷ approves ("a" ∷ []) ∷ approves [] ∷ []

approval_count_exact_example :
    let result = approval_count (λ s. s) approval_votes in
    ((w : String)
      → result.winner ≡ some w
      → (3 < 2 * approvals w approval_votes)
        × ((o : String) → approvals o approval_votes ≤ approvals w approval_votes))
    × ((o : String)
        → 3 < 2 * approvals o approval_votes
        → (result.decision ≡ adopted) × (w : String) × (result.winner ≡ some w))
approval_count_exact_example = approval_count_exact (λ s. s) (λ o s. refl) approval_votes
