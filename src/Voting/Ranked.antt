-- ===== src/Voting/Ranked.antt =====
-- agora/coordinator/voting/ranked_choice.py: the instant runoff.
-- A ballot is the list of the keys of the rank dict. The `while` loop takes fuel; a result `none`
-- would mean that the fuel ran out. Rationale texts are left out.
pub mod Rounds
pub mod Majority
pub mod Lowest
pub mod Runoff
pub mod FirstChoices
use hermes_agora.Base.{
  ℕ, zero, suc, ◌*◌, ◌/◌, min, String, ◌≡◌, not, Option, none, some, List, [], ◌∷◌, ◌==◌, ltb, leb,
  eqb, if◌then◌else◌, length, is_empty, take, mem, set_update, to_set, remove_first,
}
use hermes_agora.Base.Dict
use hermes_agora.Base.Dict.{Dict}
use hermes_agora.Base.Counter
use hermes_agora.Base.Counter.{sum_values}
use hermes_agora.Voting.Types.{Vote}

abbrev pub Ballot : Type 0
Ballot = List String

pub data Outcome : Type 0 where
  no_consensus : Outcome
  adopted : (winner : String) (results : Dict ℕ) → Outcome
  tie : (leading : List (String × ℕ)) → Outcome

-- the inner `for` loop with its `break`: the first option of the ballot that remains
unfoldable pub first_choice : List String → Ballot → Option String
first_choice remaining [] = none
first_choice remaining (opt ∷ b) =
    let rest = first_choice remaining b in if mem opt remaining then some opt else rest

unfoldable pub first_choices : List String → List Ballot → Dict ℕ
unfolding Counter.count_by
first_choices remaining = Counter.count_by (first_choice remaining)

-- `Counter.most_common()`: by falling count, equal counts in the order of insertion
pub insert_common : String × ℕ → Dict ℕ → Dict ℕ
insert_common (o, c) [] = (o, c) ∷ []
insert_common (o, c) ((p, d) ∷ l) =
    let rest = insert_common (o, c) l in if leb d c then (o, c) ∷ (p, d) ∷ l else (p, d) ∷ rest

pub most_common : Dict ℕ → Dict ℕ
unfolding insert_common
most_common [] = []
most_common (x ∷ l) = insert_common x (most_common l)

-- the first entry with `cnt > total / 2`
pub majority : ℕ → Dict ℕ → Option String
majority total [] = none
majority total ((opt, cnt) ∷ l) =
    let rest = majority total l in if ltb total (2 * cnt) then some opt else rest

-- `min(first.values())` of a counter that is not empty
pub min_count : Dict ℕ → ℕ
min_count [] = 0
min_count ((o, c) ∷ []) = c
min_count ((o, c) ∷ (p, d) ∷ l) = min c (min_count ((p, d) ∷ l))

-- `[o for o, c in first.items() if c == n]`
pub with_count : ℕ → Dict ℕ → List String
with_count n [] = []
with_count n ((o, c) ∷ l) = let rest = with_count n l in if eqb c n then o ∷ rest else rest

pub remove_all : List String → List String → List String
remove_all [] remaining = remaining
remove_all (o ∷ os) remaining = remove_all os (remove_first o remaining)

unfoldable pub irv_iterate : ℕ → List Ballot → List String → Option Outcome
unfolding majority most_common min_count with_count remove_all
irv_iterate zero ballots remaining = none
irv_iterate (suc fuel) ballots [] = some no_consensus
irv_iterate (suc fuel) ballots (r ∷ rs) =
    let remaining = r ∷ rs in
    let first = first_choices remaining ballots in
    let total = sum_values first in
    let lowest = with_count (min_count first) first in
    let rest = irv_iterate fuel ballots (remove_all lowest remaining) in
    if eqb total 0 then some no_consensus else elim (majority total (most_common first)) [
      | some winner ↦ some (adopted winner first)
      | none ↦
          if leb (length remaining) (length lowest)
          then some (tie (take 3 (most_common first)))
          else rest
    ]

abbrev pub ranking_of : Vote → List String
ranking_of v = elim v.ranking [ none ↦ [] | some r ↦ r ]

-- `all_opts`: its order as a set does not matter to the rounds
unfoldable pub options : List String → List Vote → List String
unfolding set_update
options seen [] = seen
options seen (v ∷ votes) = options (set_update seen (ranking_of v)) votes

-- the ballots that rank anything, without repeats
unfoldable pub ballots_of : List Vote → List Ballot
unfolding to_set
ballots_of [] = []
ballots_of (v ∷ votes) =
    let rest = ballots_of votes in
    if is_empty (ranking_of v) then rest else to_set (ranking_of v) ∷ rest

-- One round more than there are options is fuel enough.
unfoldable pub ranked_count : List Vote → Option Outcome
unfolding options ballots_of irv_iterate
ranked_count [] = some no_consensus
ranked_count (v ∷ votes) =
    let all_opts = options [] (v ∷ votes) in
    if is_empty all_opts
    then some no_consensus
    else irv_iterate (suc (length all_opts)) (ballots_of (v ∷ votes)) all_opts
