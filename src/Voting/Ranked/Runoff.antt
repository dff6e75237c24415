-- ===== src/Voting/Ranked/Runoff.antt =====
-- The runoff as a whole: it ends, its winner has a majority, and a majority of first choices wins.
use hermes_agora.Base.{
  false≢true, ℕ, zero, suc, ◌*◌, ◌≤◌, ◌<◌, String, ◌≡◌, refl, sym, ◌∙◌, subst, ◌↔◌, ◌⊎◌, inl, inr,
  true, ◌||◌, Option, none, some, List, [], ◌∷◌, arith, ltb, leb, eqb, Bool-cases, Option-cases,
  text-cases, length, is_empty, take, any_of, mem, set_update, mem-set_update,
}
use hermes_agora.Base.Dict.{Dict}
use hermes_agora.Base.Counter.{sum_values}
use hermes_agora.Voting.Types.{Vote}
use hermes_agora.Voting.Ranked.{
  ranking_of, first_choice, Ballot, Outcome, no_consensus, adopted, tie, first_choices, most_common,
  majority, min_count, with_count, remove_all, irv_iterate, options, ballots_of, ranked_count,
}
use hermes_agora.Voting.Ranked.Majority.{
  voters, supporters, majority_sound, majority_complete, sum-first_choices,
}
use hermes_agora.Voting.Ranked.Lowest.{
  HasFewest, HasNoRepeat, HasNoRepeat-options, HasNoRepeat-remove_all, mem-remove_all_iff,
  lowest_exact,
}
use hermes_agora.Voting.Ranked.Rounds.{mem-first_choice, elimination_shrinks}

-- The options that the next round keeps.
abbrev survivors : List Ballot → List String → List String
survivors ballots remaining =
    let first = first_choices remaining ballots in
    remove_all (with_count (min_count first) first) remaining

-- With more fuel than options the loop comes to an outcome.
irv_iterate_total :
    (fuel : ℕ) (ballots : List Ballot) (remaining : List String)
    → length remaining < fuel
    → (r : Outcome) × (irv_iterate fuel ballots remaining ≡ some r)
unfolding irv_iterate
irv_iterate_total zero ballots remaining h = absurd (omega arith)
irv_iterate_total (suc fuel) ballots [] h = (no_consensus, refl)
irv_iterate_total (suc fuel) ballots (r ∷ rs) h =
    elim (Bool-cases (eqb (sum_values (first_choices (r ∷ rs) ballots)) 0)) [
      | inl empty ↦ (no_consensus, rw empty)
      | inr some_votes ↦ elim (Option-cases (majority (sum_values first) (most_common first))) [
        | inr (w, e) ↦ (adopted w first, rw (some_votes, e))
        | inl none_yet ↦
            elim (Bool-cases
              (leb (length (r ∷ rs)) (length (with_count (min_count first) first)))) [
                | inl all_lowest ↦
                    (tie (take 3 (most_common first)), rw (some_votes, none_yet, all_lowest))
                | inr go_on ↦
                    let (o, e) =
                      irv_iterate_total fuel ballots (survivors ballots (r ∷ rs))
                        (omega (arith, h, elimination_shrinks (r ∷ rs) ballots (ground arith))) in
                    (o, rw (some_votes, none_yet, go_on) e)
              ]
      ]
    ]
  where
    first : Dict ℕ
    first = first_choices (r ∷ rs) ballots

-- The instant runoff comes to an outcome on every list of votes: with one unit of fuel more than
-- there are options, its loop never runs out.
pub ranked_count_total : (votes : List Vote) → (r : Outcome) × (ranked_count votes ≡ some r)
unfolding ranked_count
ranked_count_total [] = (no_consensus, refl)
ranked_count_total (v ∷ votes) = elim (Bool-cases (is_empty all_opts)) [
  | inl h ↦ (no_consensus, rw h)
  | inr h ↦
      let (r, e) =
        irv_iterate_total (suc (length all_opts)) (ballots_of (v ∷ votes)) all_opts (omega arith) in
      (r, rw h e)
]
  where
    all_opts : List String
    all_opts = options [] (v ∷ votes)

-- A round that comes to no decision: some ballot has a first choice, no option is the first choice
-- of more than half of those that have one, and the options that are left are those that are not
-- among the lowest.
pub record Eliminated (ballots : List Ballot) (before after : List String) : Type 0 where
  pub voted : 0 < voters before ballots
  pub undecided : (k : String) → 2 * supporters before ballots k ≤ voters before ballots
  pub left :
      (k : String) → (mem k after ≡ true) ↔ ((mem k before ≡ true) × (¬ HasFewest before ballots k))

-- An option is elected from the options that are left: it is the first choice of more than half of
-- the ballots that have one, or it is elected after an elimination.
pub data Elected (ballots : List Ballot) (w : String) : List String → Type 0 where
  wins :
      (remaining : List String)
      → mem w remaining ≡ true
      → voters remaining ballots < 2 * supporters remaining ballots w
      → Elected ballots w remaining
  after :
      {before rest : List String}
      → Eliminated ballots before rest
      → Elected ballots w rest
      → Elected ballots w before

Elected-inside :
    {ballots : List Ballot} {w : String} {remaining : List String}
    → Elected ballots w remaining
    → mem w remaining ≡ true
Elected-inside (wins r m h) = m
Elected-inside {w = w} (after e later) = ((e.left w).0 (Elected-inside later)).0

pub mem-supporters :
    (remaining : List String) (ballots : List Ballot) (w : String)
    → 0 < supporters remaining ballots w
    → mem w remaining ≡ true
mem-supporters remaining [] w h = absurd (omega arith)
mem-supporters remaining (b ∷ ballots) w h =
    go (first_choice remaining b) refl (mem-supporters remaining ballots w)
  where
    go :
        (o : Option String)
        → first_choice remaining b ≡ o
        → (0 < supporters remaining ballots w → mem w remaining ≡ true)
        → mem w remaining ≡ true
    go none e later = later (ground (arith, e, h))
    go (some c) e later = elim (text-cases c w) [
      | inl (_, same) ↦ subst (λ x. mem x remaining ≡ true) same (mem-first_choice remaining b c e)
      | inr (other, _) ↦ later (ground (arith, e, h, other))
    ]

-- A round that adopts has found a majority, or it has found none, and hands the survivors to the
-- next round.
irv_iterate-adopted :
    (fuel : ℕ) (ballots : List Ballot) (r : String) (rs : List String) (w : String)
    → (results : Dict ℕ) → irv_iterate (suc fuel) ballots (r ∷ rs) ≡ some (adopted w results)
    → (majority
          (sum_values (first_choices (r ∷ rs) ballots))
          (most_common (first_choices (r ∷ rs) ballots))
        ≡ some w)
      ⊎ ((0 < sum_values (first_choices (r ∷ rs) ballots))
          × (majority
                (sum_values (first_choices (r ∷ rs) ballots))
                (most_common (first_choices (r ∷ rs) ballots))
              ≡ none)
          × (irv_iterate fuel ballots (survivors ballots (r ∷ rs)) ≡ some (adopted w results)))
unfolding irv_iterate
irv_iterate-adopted fuel ballots r rs w results h = ground arith

survivors-Eliminated :
    (ballots : List Ballot) (remaining : List String)
    → HasNoRepeat remaining
    → 0 < sum_values (first_choices remaining ballots)
    → majority
        (sum_values (first_choices remaining ballots))
        (most_common (first_choices remaining ballots))
      ≡ none
    → Eliminated ballots remaining (survivors ballots remaining)
survivors-Eliminated ballots remaining once some_votes none_yet =
    let first = first_choices remaining ballots in
    let lowest = with_count (min_count first) first in
    record {
      voted = omega (arith, some_votes, sum-first_choices remaining ballots);
      undecided = λ k.
          elim (Bool-cases (ltb (voters remaining ballots) (2 * supporters remaining ballots k))) [
            | inl e ↦
                absurd (cc (none_yet, majority_complete remaining ballots k (ground (arith, e))))
            | inr e ↦ ground (arith, e)
          ];
      left = λ k.
          let (to, from) = mem-remove_all_iff k lowest remaining once in
          let (low, back) = lowest_exact remaining ballots k in
          (
            λ m. let (there, kept) = to m in (there, λ l. absurd (false≢true (sym kept ∙ back l))),
            λ h. from (
              h.0,
              elim (Bool-cases (mem k lowest)) [ inl e ↦ absurd (h.1 (low e)) | inr e ↦ e ],
            ),
          );
    }

irv_iterate_sound :
    (fuel : ℕ) (ballots : List Ballot) (remaining : List String) (w : String) (results : Dict ℕ)
    → HasNoRepeat remaining
    → irv_iterate fuel ballots remaining ≡ some (adopted w results)
    → Elected ballots w remaining
irv_iterate_sound zero ballots remaining w results once h = unfold irv_iterate in cc
irv_iterate_sound (suc fuel) ballots [] w results once h = unfold irv_iterate in cc
irv_iterate_sound (suc fuel) ballots (r ∷ rs) w results once h =
    elim (irv_iterate-adopted fuel ballots r rs w results h) [
      | inl e ↦
          let big = majority_sound (r ∷ rs) ballots w e in
          wins (r ∷ rs) (mem-supporters (r ∷ rs) ballots w (omega (arith, big))) big
      | inr (some_votes, none_yet, e) ↦
          after (survivors-Eliminated ballots (r ∷ rs) once some_votes none_yet) (
            irv_iterate_sound fuel ballots (survivors ballots (r ∷ rs)) w results
              (HasNoRepeat-remove_all
                (with_count (min_count (first_choices (r ∷ rs) ballots))
                  (first_choices (r ∷ rs) ballots))
                (r ∷ rs) once)
              e)
    ]

pub mem-options :
    (k : String) (seen : List String) (votes : List Vote)
    → mem k (options seen votes) ≡ (mem k seen || any_of (λ v. mem k (ranking_of v)) votes)
unfolding options
mem-options k seen [] = ground arith
mem-options k seen (v ∷ votes) = ground (
  arith,
  mem-options k (set_update seen (ranking_of v)) votes,
  mem-set_update k seen (ranking_of v),
)

-- A winner of the instant runoff was ranked by some vote, and is elected in rounds that start with
-- all options: in a round that is not the last no option is the first choice of more than half of
-- the ballots that have one, and exactly the options go that have the fewest first choices of
-- those that have any; in the last round the winner is left, and is the first choice of more than
-- half of the ballots that have one.
pub ranked_count_sound :
    (votes : List Vote) (w : String) (results : Dict ℕ)
    → ranked_count votes ≡ some (adopted w results)
    → Elected (ballots_of votes) w (options [] votes)
      × (any_of (λ v. mem w (ranking_of v)) votes ≡ true)
unfolding ranked_count
ranked_count_sound [] w results h = cc
ranked_count_sound (v ∷ votes) w results h =
    let won =
      irv_iterate_sound (suc (length (options [] (v ∷ votes)))) (ballots_of (v ∷ votes))
        (options [] (v ∷ votes)) w results (HasNoRepeat-options [] (v ∷ votes) (λ k. omega arith))
        (ground arith) in
    (won, ground (arith, Elected-inside won, mem-options w [] (v ∷ votes)))
