-- ===== src/Voting/Choice/Winner.antt =====
-- Who wins a multiple-choice vote, by the votes.
use hermes_agora.Base.{
  ◌∙◌, sym, none, ◌≢◌, count_if, inr, mem, ◌↔◌, inl, text-cases, Option, List, ℕ, ◌+◌, ◌*◌, ◌≤◌,
  ◌<◌, String, ◌≡◌, subst, true, false, some, [], ◌∷◌, arith, refl, ap, ltb, eqb, lt→ltb, ◌==◌,
  eq_iff,
}
use hermes_agora.Base.Dict
use hermes_agora.Base.Dict.{Dict}
use hermes_agora.Base.Counter.{sum_values}
use hermes_agora.Base.Entries.{Distinct, get-Distinct, All-get}
use hermes_agora.Voting.Types.{adopted, Vote}
use hermes_agora.Voting.Leader.{leader, All-leader, leader-max, le-leader}
use hermes_agora.Voting.Choice.{zeros, in_keys, tally_votes, settle, choice_count}
use hermes_agora.Voting.Choice.Majority.{
  picked_by, names, Keyed, Keyed-zeros, sum-zeros, get_or-zeros, Keyed-tally_votes, sum-tally_votes,
  get-tally_votes,
}

get_or-le-sum : (k : String) (d : Dict ℕ) → Dict.get_or k 0 d ≤ sum_values d
unfolding Dict.get
get_or-le-sum k [] = omega arith
get_or-le-sum k ((j, n) ∷ d) = ground (arith, get_or-le-sum k d)

get_or-pair-le-sum :
    (j k : String) (d : Dict ℕ)
    → (j == k) ≡ false
    → Dict.get_or j 0 d + Dict.get_or k 0 d ≤ sum_values d
unfolding Dict.get
get_or-pair-le-sum j k [] h = omega arith
get_or-pair-le-sum j k ((i, n) ∷ d) h = ground (
  arith,
  eq_iff i j,
  eq_iff i k,
  eq_iff j k,
  get_or-pair-le-sum j k d h,
  get_or-le-sum j d,
  get_or-le-sum k d,
)

-- A total that is less than twice one of its parts is not 0.
lt→eqb_zero : (n m : ℕ) → n < 2 * m → m ≤ n → eqb n 0 ≡ false
lt→eqb_zero n m h k = ground arith

pub get_or-le-leader :
    (w : String) (e : String × ℕ) (l : Dict ℕ) → Dict.get_or w 0 (e ∷ l) ≤ (leader e l).1
get_or-le-leader w e l = go (Dict.get w (e ∷ l)) refl
  where
    go : (o : Option ℕ) → Dict.get w (e ∷ l) ≡ o → Dict.get_or w 0 (e ∷ l) ≤ (leader e l).1
    go none q = ground (arith, q)
    go (some c) q = ground (
      arith,
      q,
      All-get (λ x. x.1 ≤ (leader e l).1) w c (e ∷ l) (le-leader e l, leader-max e l) q,
    )

module _ (abstain : ℕ) (w : String) where
  settle_sound :
      (counts : Dict ℕ)
      → Distinct counts
      → (settle counts (sum_values counts) abstain).winner ≡ some w
      → (in_keys w counts ≡ true) × (sum_values counts < 2 * Dict.get_or w 0 counts)
  unfolding settle
  settle_sound [] d h = cc
  settle_sound (e ∷ l) d h =
      let found = get-Distinct (e ∷ l) d in
      let best : Dict.get (leader e l).0 (e ∷ l) ≡ some (leader e l).1 =
        All-leader (λ x. Dict.get x.0 (e ∷ l) ≡ some x.1) e l found.0 found.1 in
      let named : (leader e l).0 ≡ w = ground arith in
      let at : Dict.get w (e ∷ l) ≡ some (leader e l).1 =
        subst (λ x. Dict.get x (e ∷ l) ≡ some (leader e l).1) named best in
      ground (arith, at, h)

  settle_complete :
      (counts : Dict ℕ)
      → Distinct counts
      → sum_values counts < 2 * Dict.get_or w 0 counts
      → (settle counts (sum_values counts) abstain).winner ≡ some w
  unfolding settle
  settle_complete [] d h = absurd (unfold Dict.get in omega arith)
  settle_complete (e ∷ l) d h =
      let found = get-Distinct (e ∷ l) d in
      let best : Dict.get (leader e l).0 (e ∷ l) ≡ some (leader e l).1 =
        All-leader (λ x. Dict.get x.0 (e ∷ l) ≡ some x.1) e l found.0 found.1 in
      let high : Dict.get_or w 0 (e ∷ l) ≤ (leader e l).1 = get_or-le-leader w e l in
      elim (text-cases (leader e l).0 w) [
        | inl (_, same) ↦
            let not_empty : eqb (sum_values (e ∷ l)) 0 ≡ false =
              lt→eqb_zero _ _ h (get_or-le-sum w (e ∷ l)) in
            let enough : ltb (sum_values (e ∷ l)) (2 * (leader e l).1) ≡ true =
              lt→ltb _ _ (omega (arith, high, h, get_or-le-sum w (e ∷ l))) in
            rw (not_empty, enough) (ap some same)
        | inr (other, _) ↦
            absurd
              (ground (arith, best, high, h, get_or-pair-le-sum (leader e l).0 w (e ∷ l) other))
      ]

-- In a multiple-choice vote an option wins exactly when it is one of the options and has more than
-- half of the votes that name an option, and the motion is adopted exactly when some option wins.
pub choice_count_exact :
    (options : List String) (votes : List Vote) (w : String)
    → (((choice_count options votes).winner ≡ some w) ↔ (
        (mem w options ≡ true)
        × (count_if (λ v. names options v.vote) votes < 2 * picked_by w votes)))
      × (((choice_count options votes).decision ≡ adopted)
          ↔ ((choice_count options votes).winner ≢ none))
unfolding choice_count
choice_count_exact options votes w = (
  (
    λ h.
        let (inside, big) = settle_sound abstain w counts keyed.distinct h in
        let m : mem w options ≡ true = sym (keyed.keys_are w) ∙ inside in
        (m, omega (arith, big, total, got m)),
    λ (m, big). settle_complete abstain w counts keyed.distinct (omega (arith, big, total, got m)),
  ),
  decided counts abstain,
)
  where
    counts : Dict ℕ
    counts = (tally_votes (zeros options, 0) votes).0

    abstain : ℕ
    abstain = (tally_votes (zeros options, 0) votes).1

    keyed : Keyed options counts
    keyed = Keyed-tally_votes options (zeros options) 0 votes (Keyed-zeros options)

    total : sum_values counts ≡ count_if (λ v. names options v.vote) votes
    total = omega (
      arith,
      sum-tally_votes options (zeros options) 0 votes (Keyed-zeros options),
      sum-zeros options,
    )

    got : mem w options ≡ true → Dict.get_or w 0 counts ≡ picked_by w votes
    got m = omega (
      arith,
      get-tally_votes options w (zeros options) 0 votes (Keyed-zeros options) m,
      get_or-zeros w options,
    )

    decided :
        (d : Dict ℕ) (a : ℕ)
        → ((settle d (sum_values d) a).decision ≡ adopted)
          ↔ ((settle d (sum_values d) a).winner ≢ none)
    decided [] a = ground arith
    decided (e ∷ l) a = ground arith
