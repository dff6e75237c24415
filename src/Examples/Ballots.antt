-- ===== src/Examples/Ballots.antt =====
-- The instant runoff on concrete ballots.
use hermes_agora.Base.{ℕ, String, ◌≡◌, refl, true, none, some, List, [], ◌∷◌, arith, any_of, mem}
use hermes_agora.Voting.Types.{Vote}
use hermes_agora.Base.Dict
use hermes_agora.Base.Dict.{Dict}
use hermes_agora.Voting.Ranked.{
  first_choices, first_choice, Outcome, adopted, ranked_count, ballots_of, options, ranking_of,
}
use hermes_agora.Voting.Ranked.Runoff.{ranked_count_total, ranked_count_sound, Elected}
use hermes_agora.Voting.Ranked.FirstChoices.{ranked_count-majority}

abbrev ranks : List String → Vote
ranks r = record {
  agent_id = none;
  vote = none;
  confidence = none;
  vote_type = none;
  ranking = some r;
  approved = none;
  scores = none;
}

abbrev three_voters : List Vote
three_voters = ranks ("a" ∷ "b" ∷ []) ∷ ranks ("a" ∷ []) ∷ ranks ("c" ∷ "a" ∷ []) ∷ []

ranked_count_total_example : (r : Outcome) × (ranked_count three_voters ≡ some r)
ranked_count_total_example = ranked_count_total three_voters

-- No option has a majority of the first choices, until the lowest is removed.
abbrev five_voters : List Vote
five_voters =
    ranks ("a" ∷ [])
    ∷ ranks ("a" ∷ [])
    ∷ ranks ("b" ∷ [])
    ∷ ranks ("b" ∷ [])
    ∷ ranks ("c" ∷ "b" ∷ [])
    ∷ []

ranked_count_sound_example :
    Elected (ballots_of five_voters) "b" (options [] five_voters)
    × (any_of (λ v. mem "b" (ranking_of v)) five_voters ≡ true)
unfolding ranked_count first_choices first_choice Dict.put Dict.get
ranked_count_sound_example = ranked_count_sound five_voters "b" (("a", 2) ∷ ("b", 3) ∷ []) refl

ranked_count-majority_example :
    (results : Dict ℕ) × (ranked_count three_voters ≡ some (adopted "a" results))
ranked_count-majority_example = ranked_count-majority three_voters "a" (omega arith)
