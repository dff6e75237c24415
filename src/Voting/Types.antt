-- ===== src/Voting/Types.antt =====
-- The enums of agora/coordinator/models/_models.py that voting uses, and the payload of a vote.
-- A vote is a Python dict: a key that may be missing is an `Option`. Confidences and weights are
-- floats in the source; here they are natural numbers in units of one millionth.
use hermes_agora.Base.{
  ℕ, String, ◌≡◌, refl, Option, none, some, List, arith, ◌==◌, eq_iff, if◌then◌else◌,
}
use hermes_agora.Base.Dict.{Dict}

pub data VotingMethod : Type 0 where
  simple_majority supermajority unanimous weighted borda_count : VotingMethod
  ranked_choice approval range instant_runoff : VotingMethod

abbrev pub value : VotingMethod → String
value simple_majority = "simple_majority"
value supermajority = "supermajority"
value unanimous = "unanimous"
value weighted = "weighted"
value borda_count = "borda_count"
value ranked_choice = "ranked_choice"
value approval = "approval"
value range = "range"
value instant_runoff = "instant_runoff"

-- `VotingMethod(s)`: none for the ValueError of an unknown text
unfoldable pub of_value : String → Option VotingMethod
of_value s =
    if s == "simple_majority"
    then some simple_majority
    else if s == "supermajority"
    then some supermajority
    else if s == "unanimous"
    then some unanimous
    else if s == "weighted"
    then some weighted
    else if s == "borda_count"
    then some borda_count
    else if s == "ranked_choice"
    then some ranked_choice
    else if s == "approval"
    then some approval
    else if s == "range"
    then some range
    else if s == "instant_runoff"
    then some instant_runoff
    else none

-- The decision texts of the counters; `tie` is only given by the instant runoff.
pub data Decision : Type 0 where
  adopted rejected no_consensus tie : Decision

pub record Vote : Type 0 where
  pub agent_id : Option String
  pub vote : Option String
  pub confidence : Option ℕ
  pub vote_type : Option String
  pub ranking : Option (List String)
  pub approved : Option (List String)
  pub scores : Option (List (String × ℕ))

-- `v.get("vote", "abstain")`
abbrev pub choice : Vote → String
choice v = elim v.vote [ none ↦ "abstain" | some c ↦ c ]

-- What a counter returns, without the rationale text.
pub record Tally : Type 0 where
  pub decision : Decision
  pub results : Option (Dict ℕ)

-- A text names a method exactly when it is the value of it.
pub of_value-value : (m : VotingMethod) → of_value (value m) ≡ some m
unfolding of_value
of_value-value simple_majority = refl
of_value-value _ = refl

pub value-of_value : (s : String) (m : VotingMethod) → of_value s ≡ some m → s ≡ value m
unfolding of_value
value-of_value s m h = ground (
  arith,
  eq_iff s "simple_majority",
  eq_iff s "supermajority",
  eq_iff s "unanimous",
  eq_iff s "weighted",
  eq_iff s "borda_count",
  eq_iff s "ranked_choice",
  eq_iff s "approval",
  eq_iff s "range",
  eq_iff s "instant_runoff",
)
