-- ===== src/Voting/Binary/Counts.antt =====
-- The `Counter` that every binary counter builds from the votes.
use hermes_agora.Base.{
  ℕ, suc, String, ◌≡◌, refl, ap, ◌∙◌, true, some, List, [], ◌∷◌, ◌==◌, length, count_if,
}
use hermes_agora.Base.Dict
use hermes_agora.Base.Dict.{Dict}
use hermes_agora.Base.Counter
use hermes_agora.Base.Counter.{sum_values}
use hermes_agora.Voting.Types.{Vote, choice}

unfoldable pub count_choices : List Vote → Dict ℕ
unfolding Counter.count_by
count_choices = Counter.count_by (λ v. some (choice v))

count_if-true : (votes : List Vote) → count_if (λ v. true) votes ≡ length votes
count_if-true [] = refl
count_if-true (v ∷ votes) = ap suc (count_if-true votes)

-- The counter holds for each choice the number of votes for it.
pub get-count_choices :
    (k : String) (votes : List Vote)
    → Dict.get_or k 0 (count_choices votes) ≡ count_if (λ v. choice v == k) votes
unfolding count_choices
get-count_choices k votes = Counter.get-count_by (λ v. some (choice v)) k votes

-- The counts add up to the number of votes.
pub sum-count_choices : (votes : List Vote) → sum_values (count_choices votes) ≡ length votes
unfolding count_choices
sum-count_choices votes = Counter.sum-count_by (λ v. some (choice v)) votes ∙ count_if-true votes
