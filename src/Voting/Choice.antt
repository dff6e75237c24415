-- ===== src/Voting/Choice.antt =====
-- agora/coordinator/voting/multiple_choice.py: each voter picks one of the options.
pub mod Majority
pub mod Winner
use hermes_agora.Base.{
  ℕ, ◌+◌, ◌*◌, String, ◌≡◌, Bool, true, false, not, Option, none, some, List, [], ◌∷◌, ◌==◌, ltb,
  eqb, if◌then◌else◌,
}
use hermes_agora.Base.Dict
use hermes_agora.Base.Dict.{Dict}
use hermes_agora.Base.Counter
use hermes_agora.Base.Counter.{bump, sum_values}
use hermes_agora.Voting.Types.{Decision, adopted, no_consensus, Vote}
use hermes_agora.Voting.Leader.{leader}

-- The fields of the result without the rationale; `winner` is None where the source leaves it out.
pub record ChoiceResult : Type 0 where
  pub decision : Decision
  pub winner : Option String
  pub results : Dict ℕ
  pub abstain : ℕ

-- `{opt: 0 for opt in options}`
unfoldable pub zero_all : Dict ℕ → List String → Dict ℕ
zero_all d [] = d
zero_all d (o ∷ os) = zero_all (Dict.put o 0 d) os

unfoldable pub zeros : List String → Dict ℕ
unfolding zero_all
zeros = zero_all []

abbrev pub in_keys : String → Dict ℕ → Bool
in_keys k d = elim (Dict.get k d) [ none ↦ false | some n ↦ true ]

-- the body of the loop over the votes, by `v.get("vote")`
unfoldable pub tally_vote : Dict ℕ × ℕ → Option String → Dict ℕ × ℕ
tally_vote (counts, abstain) none = (counts, abstain)
tally_vote (counts, abstain) (some c) =
    if in_keys c counts
    then (bump c counts, abstain)
    else if c == "abstain"
    then (counts, abstain + 1)
    else (counts, abstain)

unfoldable pub tally_votes : Dict ℕ × ℕ → List Vote → Dict ℕ × ℕ
tally_votes acc [] = acc
tally_votes acc (v ∷ votes) = tally_votes (tally_vote acc v.vote) votes

-- The end of `count`; the counter has an entry where the total is not 0.
unfoldable pub settle : Dict ℕ → ℕ → ℕ → ChoiceResult
settle [] total abstain = record {
  decision = no_consensus;
  winner = none;
  results = [];
  abstain = abstain;
}
settle (e ∷ counts) total abstain =
    let best = leader e counts in
    if eqb total 0
    then record { decision = no_consensus; winner = none; results = e ∷ counts; abstain = abstain }
    else if ltb total (2 * best.1)
    then record {
      decision = adopted;
      winner = some best.0;
      results = e ∷ counts;
      abstain = abstain;
    }
    else record { decision = no_consensus; winner = none; results = e ∷ counts; abstain = abstain }

unfoldable pub choice_count : List String → List Vote → ChoiceResult
unfolding settle tally_votes tally_vote zeros
choice_count options votes =
    let (counts, abstain) = tally_votes (zeros options, 0) votes in
    settle counts (sum_values counts) abstain
