-- ===== src/Voting/Choice/Majority.antt =====
-- The winner of a multiple-choice vote is the option with more than half of the valid votes.
use hermes_agora.Base.{
  ℕ, suc, ◌+◌, ◌≤◌, String, ◌≡◌, refl, sym, ◌∙◌, subst, inl, inr, Bool, true, false, ◌||◌, Option,
  none, some, List, [], ◌∷◌, arith, ◌==◌, eq_iff, if◌then◌else◌, Bool-cases, text-cases, count_if,
  mem,
}
use hermes_agora.Base.Dict
use hermes_agora.Base.Dict.{Dict}
use hermes_agora.Base.Counter.{get-bump, sum-bump, bump, sum_values, picks}
use hermes_agora.Base.Entries.{Distinct, Distinct-put}
use hermes_agora.Voting.Types.{Vote}
use hermes_agora.Voting.Choice.{tally_votes, tally_vote, zeros, zero_all, in_keys}

-- The votes for an option, and whether a vote names one of the options.
abbrev pub picked_by : String → List Vote → ℕ
picked_by w votes = count_if (λ v. picks w v.vote) votes

abbrev pub names : List String → Option String → Bool
names options none = false
names options (some c) = mem c options

in_keys-zero_all :
    (k : String) (d : Dict ℕ) (os : List String)
    → in_keys k (zero_all d os) ≡ (in_keys k d || mem k os)
unfolding zero_all Dict.get
in_keys-zero_all k d [] = ground arith
in_keys-zero_all k d (o ∷ os) =
    ground
      (arith, Dict.get-put o k 0 d, eq_iff k o, eq_iff o k, in_keys-zero_all k (Dict.put o 0 d) os)

in_keys-zeros : (k : String) (os : List String) → in_keys k (zeros os) ≡ mem k os
unfolding zeros Dict.get
in_keys-zeros k os = in_keys-zero_all k [] os

sum-put_zero : (k : String) (d : Dict ℕ) → sum_values (Dict.put k 0 d) ≤ sum_values d
unfolding Dict.put
sum-put_zero k [] = omega arith
sum-put_zero k ((j, n) ∷ d) = ground (arith, sum-put_zero k d)

sum-zero_all : (d : Dict ℕ) (os : List String) → sum_values d ≡ 0 → sum_values (zero_all d os) ≡ 0
unfolding zero_all
sum-zero_all d [] h = h
sum-zero_all d (o ∷ os) h = sum-zero_all (Dict.put o 0 d) os (omega (arith, sum-put_zero o d, h))

pub sum-zeros : (os : List String) → sum_values (zeros os) ≡ 0
unfolding zeros
sum-zeros os = sum-zero_all [] os refl

Distinct-zero_all : (d : Dict ℕ) (os : List String) → Distinct d → Distinct (zero_all d os)
unfolding zero_all
Distinct-zero_all d [] h = h
Distinct-zero_all d (o ∷ os) h = Distinct-zero_all (Dict.put o 0 d) os (Distinct-put o 0 d h)

Distinct-zeros : (os : List String) → Distinct (zeros os)
unfolding zeros
Distinct-zeros os = Distinct-zero_all [] os tt

get_or-zero_all :
    (k : String) (d : Dict ℕ) (os : List String)
    → Dict.get_or k 0 d ≡ 0
    → Dict.get_or k 0 (zero_all d os) ≡ 0
unfolding zero_all
get_or-zero_all k d [] h = h
get_or-zero_all k d (o ∷ os) h =
    get_or-zero_all k (Dict.put o 0 d) os (ground (arith, Dict.get-put o k 0 d, h))

pub get_or-zeros : (k : String) (os : List String) → Dict.get_or k 0 (zeros os) ≡ 0
unfolding zeros Dict.get
get_or-zeros k os = get_or-zero_all k [] os refl

pub in_keys-bump :
    (c k : String) (counts : Dict ℕ) → in_keys k (bump c counts) ≡ (c == k || in_keys k counts)
unfolding bump
in_keys-bump c k counts = ground (arith, Dict.get-put c k (Dict.get_or c 0 counts + 1) counts)

Distinct-bump : (c : String) (counts : Dict ℕ) → Distinct counts → Distinct (bump c counts)
unfolding bump
Distinct-bump c counts h = Distinct-put c (Dict.get_or c 0 counts + 1) counts h

-- What the loop keeps of its counter.
pub record Keyed (options : List String) (counts : Dict ℕ) : Type 0 where
  pub keys_are : (k : String) → in_keys k counts ≡ mem k options
  pub distinct : Distinct counts

pub Keyed-zeros : (os : List String) → Keyed os (zeros os)
Keyed-zeros os = record { keys_are = λ k. in_keys-zeros k os; distinct = Distinct-zeros os }

module _ (options : List String) where
  pub Keyed-bump :
      (c : String) (counts : Dict ℕ)
      → mem c options ≡ true
      → Keyed options counts
      → Keyed options (bump c counts)
  Keyed-bump c counts m h = record {
    keys_are = λ k. elim (text-cases c k) [
      | inl (t, e) ↦ rw (in_keys-bump c k counts, t) (subst (λ x. true ≡ mem x options) e (sym m))
      | inr (t, _) ↦ rw (in_keys-bump c k counts, t) (h.keys_are k)
    ];
    distinct = Distinct-bump c counts h.distinct;
  }

  Keyed-tally_vote :
      (counts : Dict ℕ) (abstain : ℕ) (o : Option String)
      → Keyed options counts
      → Keyed options (tally_vote (counts, abstain) o).0
  unfolding tally_vote
  Keyed-tally_vote counts abstain none h = h
  Keyed-tally_vote counts abstain (some c) h = elim (Bool-cases (in_keys c counts)) [
    | inl e ↦ rw e (Keyed-bump c counts (sym (h.keys_are c) ∙ e) h)
    | inr e ↦ rw e (elim (Bool-cases (c == "abstain")) [ inl a ↦ rw a h | inr a ↦ rw a h ])
  ]

  sum-tally_vote :
      (counts : Dict ℕ) (abstain : ℕ) (o : Option String)
      → Keyed options counts
      → sum_values (tally_vote (counts, abstain) o).0
        ≡ (if names options o then suc (sum_values counts) else sum_values counts)
  unfolding tally_vote
  sum-tally_vote counts abstain none h = refl
  sum-tally_vote counts abstain (some c) h = ground (arith, h.keys_are c, sum-bump c counts)

  get-tally_vote :
      (k : String) (counts : Dict ℕ) (abstain : ℕ) (o : Option String)
      → Keyed options counts
      → mem k options ≡ true
      → Dict.get_or k 0 (tally_vote (counts, abstain) o).0
        ≡ (if picks k o then suc (Dict.get_or k 0 counts) else Dict.get_or k 0 counts)
  unfolding tally_vote
  get-tally_vote k counts abstain none h m = refl
  get-tally_vote k counts abstain (some c) h m = elim (text-cases c k) [
    | inl (t, e) ↦
        let inside : in_keys c counts ≡ true =
          h.keys_are c ∙ subst (λ x. mem x options ≡ true) (sym e) m in
        ground (arith, inside, t, get-bump c k counts)
    | inr (t, _) ↦ ground (arith, t, get-bump c k counts)
  ]

  pub Keyed-tally_votes :
      (counts : Dict ℕ) (abstain : ℕ) (votes : List Vote)
      → Keyed options counts
      → Keyed options (tally_votes (counts, abstain) votes).0
  unfolding tally_votes
  Keyed-tally_votes counts abstain [] h = h
  Keyed-tally_votes counts abstain (v ∷ votes) h =
      let (counts', abstain') = tally_vote (counts, abstain) v.vote in
      Keyed-tally_votes counts' abstain' votes (Keyed-tally_vote counts abstain v.vote h)

  pub sum-tally_votes :
      (counts : Dict ℕ) (abstain : ℕ) (votes : List Vote)
      → Keyed options counts
      → sum_values (tally_votes (counts, abstain) votes).0
        ≡ sum_values counts + count_if (λ v. names options v.vote) votes
  unfolding tally_votes
  sum-tally_votes counts abstain [] h = omega arith
  sum-tally_votes counts abstain (v ∷ votes) h =
      let (counts', abstain') = tally_vote (counts, abstain) v.vote in
      ground (
        arith,
        sum-tally_vote counts abstain v.vote h,
        sum-tally_votes counts' abstain' votes (Keyed-tally_vote counts abstain v.vote h),
      )

  pub get-tally_votes :
      (k : String) (counts : Dict ℕ) (abstain : ℕ) (votes : List Vote)
      → Keyed options counts
      → mem k options ≡ true
      → Dict.get_or k 0 (tally_votes (counts, abstain) votes).0
        ≡ Dict.get_or k 0 counts + picked_by k votes
  unfolding tally_votes
  get-tally_votes k counts abstain [] h m = omega arith
  get-tally_votes k counts abstain (v ∷ votes) h m =
      let (counts', abstain') = tally_vote (counts, abstain) v.vote in
      ground (
        arith,
        get-tally_vote k counts abstain v.vote h m,
        get-tally_votes k counts' abstain' votes (Keyed-tally_vote counts abstain v.vote h) m,
      )
