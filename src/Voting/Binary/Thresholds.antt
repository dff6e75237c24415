-- ===== src/Voting/Binary/Thresholds.antt =====
-- When the binary counters adopt a motion, by the votes and not by the tally.
use hermes_agora.Base.{
  ℕ, ◌*◌, ◌≤◌, ◌<◌, String, ◌≡◌, refl, ◌↔◌, List, [], ◌∷◌, arith, ◌==◌, length, count_if,
  count_if-le-length,
}
use hermes_agora.Voting.Types.{adopted, rejected, no_consensus, Vote, choice}
use hermes_agora.Voting.Binary.{
  get-count_choices, sum-count_choices, simple_majority_count, supermajority_count, unanimous_count,
}

-- How many of the votes are for a choice.
abbrev pub votes_for : String → List Vote → ℕ
votes_for k votes = count_if (λ v. choice v == k) votes

length-zero : (votes : List Vote) → length votes ≡ 0 → votes ≡ []
length-zero [] h = refl
length-zero (v ∷ votes) h = absurd (omega arith)

module _ (votes : List Vote) where
  -- The simple majority adopts exactly when more votes say yes than no, finds no consensus exactly
  -- when there is no vote, and rejects exactly in the remaining case.
  pub simple_majority_exact :
      (((simple_majority_count votes).decision ≡ adopted)
        ↔ (votes_for "no" votes < votes_for "yes" votes))
      × (((simple_majority_count votes).decision ≡ no_consensus) ↔ (length votes ≡ 0))
      × (((simple_majority_count votes).decision ≡ rejected)
          ↔ ((0 < length votes) × (votes_for "yes" votes ≤ votes_for "no" votes)))
  unfolding simple_majority_count
  simple_majority_exact = ground (
    arith,
    get-count_choices "yes" votes,
    get-count_choices "no" votes,
    sum-count_choices votes,
    count_if-le-length (λ v. choice v == "yes") votes,
  )

  -- The supermajority adopts exactly when some vote says yes and at least two thirds of the yes
  -- and no votes do; it finds no consensus exactly when there are neither.
  pub supermajority_exact :
      (((supermajority_count votes).decision ≡ adopted)
        ↔ ((0 < votes_for "yes" votes) × (2 * votes_for "no" votes ≤ votes_for "yes" votes)))
      × (((supermajority_count votes).decision ≡ no_consensus)
          ↔ ((votes_for "yes" votes ≡ 0) × (votes_for "no" votes ≡ 0)))
  unfolding supermajority_count
  supermajority_exact = ground (arith, get-count_choices "yes" votes, get-count_choices "no" votes)

  -- Unanimity adopts exactly when some vote says yes and none says no; it finds no consensus
  -- exactly when there are neither.
  pub unanimous_exact :
      (((unanimous_count votes).decision ≡ adopted)
        ↔ ((0 < votes_for "yes" votes) × (votes_for "no" votes ≡ 0)))
      × (((unanimous_count votes).decision ≡ no_consensus)
          ↔ ((votes_for "yes" votes ≡ 0) × (votes_for "no" votes ≡ 0)))
  unfolding unanimous_count
  unanimous_exact = ground (arith, get-count_choices "yes" votes, get-count_choices "no" votes)

  -- What unanimity adopts, the supermajority adopts, and what the supermajority adopts, the simple
  -- majority adopts.
  pub counters_nested :
      ((unanimous_count votes).decision ≡ adopted → (supermajority_count votes).decision ≡ adopted)
      × ((supermajority_count votes).decision ≡ adopted
          → (simple_majority_count votes).decision ≡ adopted)
  counters_nested = (
    λ h. supermajority_exact.0.1 (omega (arith, unanimous_exact.0.0 h)),
    λ h. simple_majority_exact.0.1 (omega (arith, supermajority_exact.0.0 h)),
  )
