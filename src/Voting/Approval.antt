-- ===== src/Voting/Approval.antt =====
-- agora/coordinator/voting/approval_voting.py: each voter approves any of the options. The order in which
-- Python walks a set is a parameter.
pub mod Winner
use hermes_agora.Base.{
  ℕ, ◌*◌, String, ◌≡◌, Option, none, some, List, [], ◌∷◌, ltb, if◌then◌else◌, length, set_update,
}
use hermes_agora.Base.Dict
use hermes_agora.Base.Dict.{Dict}
use hermes_agora.Base.Counter.{bump}
use hermes_agora.Voting.Types.{Decision, adopted, no_consensus, Vote}
use hermes_agora.Voting.Leader.{leader}
use hermes_agora.Voting.Choice.{zeros, in_keys}

-- The fields of the result without the rationale.
pub record ApprovalResult : Type 0 where
  pub decision : Decision
  pub winner : Option String
  pub results : Dict ℕ
  pub total_voters : ℕ

-- `v.get("approved", [])`
abbrev pub approved_of : Vote → List String
approved_of v = elim v.approved [ none ↦ [] | some os ↦ os ]

unfoldable pub all_options : List String → List Vote → List String
unfolding set_update
all_options s [] = s
all_options s (v ∷ votes) = all_options (set_update s (approved_of v)) votes

-- the inner loop over the options of one voter
unfoldable pub approve : Dict ℕ → List String → Dict ℕ
unfolding bump
approve counts [] = counts
approve counts (o ∷ os) = approve (if in_keys o counts then bump o counts else counts) os

unfoldable pub approve_all : Dict ℕ → List Vote → Dict ℕ
unfolding approve
approve_all counts [] = counts
approve_all counts (v ∷ votes) = approve_all (approve counts (approved_of v)) votes

abbrev nothing : ApprovalResult
nothing = record { decision = no_consensus; winner = none; results = []; total_voters = 0 }

-- the end of `count`
unfoldable pub elect : ℕ → Dict ℕ → ApprovalResult
elect total [] = nothing
elect total (e ∷ counts) =
    let best = leader e counts in
    let passes = ltb total (2 * best.1) in
    record {
      decision = if passes then adopted else no_consensus;
      winner = if passes then some best.0 else none;
      results = e ∷ counts;
      total_voters = total;
    }

unfoldable pub approval_count : (List String → List String) → List Vote → ApprovalResult
unfolding all_options approve_all zeros elect
approval_count order votes =
    elect (length votes) (approve_all (zeros (order (all_options [] votes))) votes)
