-- ===== src/Voting/Binary.antt =====
-- agora/coordinator/voting/factory.py: the three binary counters and the registry.
-- `yes / total >= 2 / 3` is written by cross-multiplication, which agrees with the correctly
-- rounded quotients of the source for fewer than 2^50 votes.
mod Counts
pub mod Thresholds
pub use Counts.{count_choices, get-count_choices, sum-count_choices}
use hermes_agora.Base.{
  ℕ, ◌+◌, ◌*◌, ◌/◌, ◌≡◌, Bool, ◌&&◌, none, some, List, [], ltb, leb, eqb, if◌then◌else◌,
}
use hermes_agora.Base.Dict
use hermes_agora.Base.Counter.{sum_values}
use hermes_agora.Base.Dict.{Dict}
use hermes_agora.Voting.Types.{
  VotingMethod, value, simple_majority, supermajority, unanimous, Decision, adopted, rejected,
  no_consensus, Vote, choice, Tally,
}

abbrev no_votes : Tally
no_votes = record { decision = no_consensus; results = none }

abbrev decided : Bool → Dict ℕ → Tally
decided passed tally = record {
  decision = if passed then adopted else rejected;
  results = some tally;
}

unfoldable pub simple_majority_count : List Vote → Tally
simple_majority_count votes =
    let tally = count_choices votes in
    let total = sum_values tally in
    let yes_votes = Dict.get_or "yes" 0 tally in
    let no_votes' = Dict.get_or "no" 0 tally in
    if eqb total 0 then no_votes else decided (ltb no_votes' yes_votes) tally

unfoldable pub supermajority_count : List Vote → Tally
supermajority_count votes =
    let tally = count_choices votes in
    let total = Dict.get_or "yes" 0 tally + Dict.get_or "no" 0 tally in
    if eqb total 0
    then no_votes
    else decided (leb (2 * total) (3 * Dict.get_or "yes" 0 tally)) tally

unfoldable pub unanimous_count : List Vote → Tally
unanimous_count votes =
    let tally = count_choices votes in
    let total = Dict.get_or "yes" 0 tally + Dict.get_or "no" 0 tally in
    if eqb total 0
    then no_votes
    else decided (eqb (Dict.get_or "no" 0 tally) 0 && ltb 0 (Dict.get_or "yes" 0 tally)) tally

-- `VoteCounterFactory._counters`, keyed by the value of the method
abbrev pub Registry : Type 0
Registry = Dict (List Vote → Tally)

unfoldable pub register : VotingMethod → (List Vote → Tally) → Registry → Registry
register method counter counters = Dict.put (value method) counter counters

unfoldable pub get_counter : VotingMethod → Registry → List Vote → Tally
get_counter method counters = Dict.get_or (value method) simple_majority_count counters

-- The registrations at import time.
unfoldable pub built_in : Registry
unfolding register
built_in =
    register unanimous unanimous_count (
      register supermajority supermajority_count
        (register simple_majority simple_majority_count []))
