-- ===== src/Voting/Weighted.antt =====
-- agora/coordinator/voting/weighted.py, weight_manager.py, and the weighted count of manager.py. A
-- weight, a confidence and a threshold are natural numbers of millionths, so that an effective weight
-- is exact; a sum of floats is its rounded value.
use hermes_agora.Base.{
  ℕ, ◌+◌, ◌*◌, String, Option, none, some, List, [], ◌∷◌, ◌==◌, leb, eqb, if◌then◌else◌, length,
  keep, mem, to_set,
}
use hermes_agora.Base.Dict
use hermes_agora.Base.Dict.{Dict}
use hermes_agora.Voting.Types.{Decision, adopted, rejected, no_consensus, Vote, choice}
use hermes_agora.Task.World.{Agent}

-- 1.0
abbrev pub unit_weight : ℕ
unit_weight = 1000000

abbrev pub confidence : Vote → ℕ
confidence v = elim v.confidence [ none ↦ unit_weight | some c ↦ c ]

-- `w_yes`, `w_no`, `w_abstain`
pub record Sums : Type 0 where
  pub yes : ℕ
  pub no : ℕ
  pub abstain : ℕ

-- the branches on the choice
abbrev pub add_to : String → ℕ → Sums → Sums
add_to choice effective s =
    if choice == "yes"
    then record s { yes = s.yes + effective }
    else if choice == "no"
    then record s { no = s.no + effective }
    else record s { abstain = s.abstain + effective }

-- the loop of `WeightedVoting.count`: none for the KeyError of a missing agent or vote
unfoldable pub weigh : Dict ℕ → List Vote → Sums → Option Sums
unfolding Dict.get
weigh weights [] s = some s
weigh weights (v ∷ votes) s = elim v.agent_id [
  | none ↦ none
  | some agent ↦ elim v.vote [
    | none ↦ none
    | some c ↦
        weigh weights votes (add_to c (Dict.get_or agent unit_weight weights * confidence v) s)
  ]
]

abbrev pub decide : ℕ → Sums → Decision
decide threshold s =
    if eqb (s.yes + s.no) 0
    then no_consensus
    else if leb (threshold * (s.yes + s.no)) (s.yes * unit_weight)
    then adopted
    else rejected

abbrev pub no_sums : Sums
no_sums = record { yes = 0; no = 0; abstain = 0 }

-- `WeightedVoting(weights, threshold).count`: the decision
unfoldable pub weighted_count : Dict ℕ → ℕ → List Vote → Option Decision
unfolding weigh
weighted_count weights threshold votes = elim (weigh weights votes no_sums) [
  | none ↦ none
  | some s ↦ some (decide threshold s)
]

-- the loop of `_count_weighted`, whose keys may be missing
unfoldable pub weigh_all : Dict ℕ → List Vote → Sums → Sums
unfolding Dict.get
weigh_all weights [] s = s
weigh_all weights (v ∷ votes) s = weigh_all weights votes (
    add_to (choice v)
      (Dict.get_or (elim v.agent_id [ none ↦ "" | some a ↦ a ]) unit_weight weights * confidence v)
      s)

-- `_count_weighted`, with the weights of the motion: the decision
unfoldable pub count_weighted : Dict ℕ → List Vote → Decision
unfolding weigh_all
count_weighted weights votes = decide 500000 (weigh_all weights votes no_sums)

-- `{a["agent_id"]: weight(a) for a in agents}`
unfoldable pub weights_by : (Agent → ℕ) → List Agent → Dict ℕ → Dict ℕ
unfolding Dict.put
weights_by weight [] d = d
weights_by weight (a ∷ agents) d = weights_by weight agents (Dict.put a.agent_id (weight a) d)

-- `WeightManager.config`
pub record Config : Type 0 where
  pub weight_strategy : Option String
  pub manual_weights : Dict ℕ

-- 1.0 + 0.5 * matching
abbrev pub expertise_weight : List String → Agent → ℕ
expertise_weight domains a =
    unit_weight + 500000 * length (keep (λ c. mem c domains) (to_set a.capabilities))

-- The strategies of `get_weights`; `context` is that of the motion, if it has one, and `split` is
-- `str.split` at the commas.
unfoldable pub weights_of : (String → List String) → Config → List Agent → Option String → Dict ℕ
unfolding weights_by to_set
weights_of split config agents context = elim config.weight_strategy [
  | none ↦ weights_by (λ a. unit_weight) agents []
  | some strategy ↦
      if strategy == "manual"
      then config.manual_weights
      else if strategy == "expertise"
      then weights_by (expertise_weight (domains context)) agents []
      else weights_by (λ a. unit_weight) agents []
]
  where
    domains : Option String → List String
    domains none = []
    domains (some s) = if s == "" then [] else split s

-- `get_weights` with its cache
unfoldable pub get_weights :
    (String → List String)
    → Config
    → List Agent
    → Option String
    → String
    → Dict (Dict ℕ)
    → Dict (Dict ℕ) × Dict ℕ
unfolding weights_of Dict.get Dict.put
get_weights split config agents context motion cache = elim (Dict.get motion cache) [
  | some weights ↦ (cache, weights)
  | none ↦
      let weights = weights_of split config agents context in
      (Dict.put motion weights cache, weights)
]

-- `clear_cache`
unfoldable pub clear_cache : Option String → Dict (Dict ℕ) → Dict (Dict ℕ)
unfolding Dict.del
clear_cache none cache = []
clear_cache (some motion) cache = if motion == "" then [] else Dict.del motion cache
