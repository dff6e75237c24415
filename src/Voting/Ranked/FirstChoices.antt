-- ===== src/Voting/Ranked/FirstChoices.antt =====
-- The first round of a count, seen from the votes: a majority of first choices wins at once.
use hermes_agora.Base.{
  Option, suc, length, ℕ, ◌*◌, ◌<◌, String, ◌≡◌, refl, inl, inr, Bool, true, false, not, some, List,
  [], ◌∷◌, ◌++◌, arith, none, ◌≤◌, ◌==◌, eq_refl, Bool-cases, is_empty, All, count_if, mem,
  set_update, to_set, mem-set_update,
}
use hermes_agora.Base.Dict.{Dict}
use hermes_agora.Base.Counter.{sum_values}
use hermes_agora.Voting.Types.{Vote}
use hermes_agora.Voting.Ranked.{
  Ballot, adopted, first_choice, first_choices, most_common, majority, irv_iterate, ranking_of,
  options, ballots_of, ranked_count,
}
use hermes_agora.Voting.Ranked.Majority.{voters, supporters, sum-first_choices, majority_complete}
use hermes_agora.Voting.Ranked.Runoff.{mem-options, mem-supporters}
use mathlib.Core.Bool.{false≢true}

first_choice-set_update :
    (opts : List String) (o : String) (s xs : List String)
    → mem o opts ≡ true
    → first_choice opts (set_update (o ∷ s) xs) ≡ some o
unfolding first_choice set_update
first_choice-set_update opts o s [] h = ground arith
first_choice-set_update opts o s (x ∷ xs) h = elim (Bool-cases (mem x (o ∷ s))) [
  | inl old ↦ rw old (first_choice-set_update opts o s xs h)
  | inr new ↦ rw new (first_choice-set_update opts o (s ++ x ∷ []) xs h)
]

-- whether the ranking puts `w` first
abbrev pub heads : String → List String → Bool
heads w [] = false
heads w (o ∷ r) = o == w

abbrev pub ranks_any : Vote → Bool
ranks_any v = not (is_empty (ranking_of v))

abbrev Covers : List String → List Vote → Type 0
Covers opts = All (λ v. (k : String) → mem k (ranking_of v) ≡ true → mem k opts ≡ true)

first_choice-to_set :
    (opts : List String) (o : String) (r : List String)
    → mem o opts ≡ true
    → first_choice opts (to_set (o ∷ r)) ≡ some o
unfolding to_set
first_choice-to_set opts o r h = first_choice-set_update opts o [] r h

module _ (opts : List String) where
  voters-ballots_of :
      (votes : List Vote)
      → Covers opts votes
      → voters opts (ballots_of votes) ≡ count_if ranks_any votes
  unfolding ballots_of
  voters-ballots_of [] h = refl
  voters-ballots_of (v ∷ votes) h = go (ranking_of v) refl (h.0) (voters-ballots_of votes h.1)
    where
      go :
          (r : List String)
          → ranking_of v ≡ r
          → ((k : String) → mem k (ranking_of v) ≡ true → mem k opts ≡ true)
          → voters opts (ballots_of votes) ≡ count_if ranks_any votes
          → voters opts (ballots_of (v ∷ votes)) ≡ count_if ranks_any (v ∷ votes)
      go [] e f ih = ground (arith, e, ih)
      go (o ∷ r) e f ih = ground (arith, e, ih, f o, eq_refl o, first_choice-to_set opts o r)

  supporters-ballots_of :
      (w : String) (votes : List Vote)
      → Covers opts votes
      → supporters opts (ballots_of votes) w ≡ count_if (λ v. heads w (ranking_of v)) votes
  unfolding ballots_of
  supporters-ballots_of w [] h = refl
  supporters-ballots_of w (v ∷ votes) h =
      go (ranking_of v) refl (h.0) (supporters-ballots_of w votes h.1)
    where
      go :
          (r : List String)
          → ranking_of v ≡ r
          → ((k : String) → mem k (ranking_of v) ≡ true → mem k opts ≡ true)
          → supporters opts (ballots_of votes) w ≡ count_if (λ v. heads w (ranking_of v)) votes
          → supporters opts (ballots_of (v ∷ votes)) w
            ≡ count_if (λ v. heads w (ranking_of v)) (v ∷ votes)
      go [] e f ih = ground (arith, e, ih)
      go (o ∷ r) e f ih = ground (arith, e, ih, f o, eq_refl o, first_choice-to_set opts o r)

Covers-options : (seen : List String) (votes : List Vote) → Covers (options seen votes) votes
unfolding options
Covers-options seen [] = tt
Covers-options seen (v ∷ votes) = (
  λ k m. ground (
    arith,
    m,
    mem-options k (set_update seen (ranking_of v)) votes,
    mem-set_update k seen (ranking_of v),
  ),
  Covers-options (set_update seen (ranking_of v)) votes,
)

-- A round with a majority adopts.
irv_iterate-majority :
    (fuel : ℕ) (ballots : List Ballot) (r : String) (rs : List String) (w : String)
    → 0 < voters (r ∷ rs) ballots
    → majority
        (sum_values (first_choices (r ∷ rs) ballots))
        (most_common (first_choices (r ∷ rs) ballots))
      ≡ some w
    → irv_iterate (suc fuel) ballots (r ∷ rs) ≡ some (adopted w (first_choices (r ∷ rs) ballots))
unfolding irv_iterate
irv_iterate-majority fuel ballots r rs w h e = ground (arith, sum-first_choices (r ∷ rs) ballots)

supporters-le-voters :
    (remaining : List String) (ballots : List Ballot) (w : String)
    → supporters remaining ballots w ≤ voters remaining ballots
supporters-le-voters remaining [] w = omega arith
supporters-le-voters remaining (b ∷ ballots) w =
    go (first_choice remaining b) refl (supporters-le-voters remaining ballots w)
  where
    go :
        (o : Option String)
        → first_choice remaining b ≡ o
        → supporters remaining ballots w ≤ voters remaining ballots
        → supporters remaining (b ∷ ballots) w ≤ voters remaining (b ∷ ballots)
    go none e ih = ground (arith, e, ih)
    go (some c) e ih = ground (arith, e, ih)

majority_adopted :
    (votes : List Vote) (w : String) (opts : List String)
    → options [] votes ≡ opts
    → voters opts (ballots_of votes) < 2 * supporters opts (ballots_of votes) w
    → (results : Dict ℕ) × (ranked_count votes ≡ some (adopted w results))
unfolding ranked_count
majority_adopted [] w opts e h = absurd (omega (arith, h))
majority_adopted (v ∷ votes) w [] e h =
    absurd (false≢true (mem-supporters [] (ballots_of (v ∷ votes)) w (omega (arith, h))))
majority_adopted (v ∷ votes) w (o ∷ os) e h = (
  first_choices (o ∷ os) (ballots_of (v ∷ votes)),
  rw e (
      irv_iterate-majority (length (o ∷ os)) (ballots_of (v ∷ votes)) o os w
        (omega (arith, h, supporters-le-voters (o ∷ os) (ballots_of (v ∷ votes)) w))
        (majority_complete (o ∷ os) (ballots_of (v ∷ votes)) w h)),
)

-- An option that more than half of the votes with a ranking put first is the winner of the instant
-- runoff.
pub ranked_count-majority :
    (votes : List Vote) (w : String)
    → count_if ranks_any votes < 2 * count_if (λ v. heads w (ranking_of v)) votes
    → (results : Dict ℕ) × (ranked_count votes ≡ some (adopted w results))
ranked_count-majority votes w h = majority_adopted votes w (options [] votes) refl (
    omega (
      arith,
      h,
      voters-ballots_of (options [] votes) votes (Covers-options [] votes),
      supporters-ballots_of (options [] votes) w votes (Covers-options [] votes),
    ))
