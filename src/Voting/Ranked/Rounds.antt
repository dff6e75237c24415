-- ===== src/Voting/Ranked/Rounds.antt =====
-- One round of the runoff: the counter of first choices, the elimination, the majority.
use hermes_agora.Base.{
  inr, inl, leb, Bool-cases, ℕ, suc, ◌≤◌, ◌<◌, String, ◌≡◌, refl, true, Option, none, some, List,
  [], ◌∷◌, arith, eq_iff, eq_refl, length, mem, remove_first,
}
use hermes_agora.Base.Dict.{Dict}
use hermes_agora.Base.Counter
use hermes_agora.Base.Counter.{sum_values, keys, picks, is_some, bump, bump_opt, count_from}
use hermes_agora.Voting.Ranked.{
  Ballot, first_choice, first_choices, min_count, with_count, remove_all,
}

-- A first choice is one of the options that remain.
pub mem-first_choice :
    (remaining : List String) (b : Ballot) (o : String)
    → first_choice remaining b ≡ some o
    → mem o remaining ≡ true
unfolding first_choice
mem-first_choice remaining [] o h = cc
mem-first_choice remaining (opt ∷ b) o h = ground (arith, mem-first_choice remaining b o)

-- Each key of a counter that only counted members of `s` is one.
count_from-subset :
    (remaining : List String) (ballots : List Ballot) (tally : Dict ℕ)
    → ((k : String) → mem k (keys tally) ≡ true → mem k remaining ≡ true)
    → (k : String) → mem k (keys (count_from (first_choice remaining) tally ballots)) ≡ true
    → mem k remaining ≡ true
unfolding count_from
count_from-subset remaining [] tally inside k h = inside k h
count_from-subset remaining (b ∷ ballots) tally inside k h =
    count_from-subset remaining ballots (bump_opt (first_choice remaining b) tally)
      (λ j m. step (first_choice remaining b) refl j m) k h
  where
    step :
        (o : Option String)
        → first_choice remaining b ≡ o
        → (j : String) → mem j (keys (bump_opt o tally)) ≡ true
        → mem j remaining ≡ true
    step none e j m = inside j m
    step (some c) e j m = ground (
      arith,
      Counter.mem-keys-bump j c tally,
      eq_iff j c,
      mem-first_choice remaining b c e,
      inside j,
    )

pub mem-keys-first_choices :
    (remaining : List String) (ballots : List Ballot) (k : String)
    → mem k (keys (first_choices remaining ballots)) ≡ true
    → mem k remaining ≡ true
unfolding first_choices
mem-keys-first_choices remaining ballots = count_from-subset remaining ballots [] (λ k h. cc)

-- The lowest count is the count of some key.
with_count-min_cons :
    (o : String) (c : ℕ) (l : Dict ℕ)
    → (k : String) × (ks : List String) × (with_count (min_count ((o, c) ∷ l)) ((o, c) ∷ l)
        ≡ k ∷ ks)
      × (mem k (keys ((o, c) ∷ l)) ≡ true)
unfolding with_count min_count
with_count-min_cons o c [] = (o, [], ground arith, ground (arith, eq_refl o))
with_count-min_cons o c ((p, d) ∷ l) =
    let (k, ks, e, m) = with_count-min_cons p d l in
    elim (Bool-cases (leb c (min_count ((p, d) ∷ l)))) [
      | inl h ↦ (o, with_count c ((p, d) ∷ l), ground arith, ground (arith, eq_refl o))
      | inr h ↦ (k, ks, ground (arith, e), ground (arith, m))
    ]

with_count-min :
    (first : Dict ℕ)
    → 0 < sum_values first
    → (k : String) × (ks : List String) × (with_count (min_count first) first ≡ k ∷ ks)
      × (mem k (keys first) ≡ true)
with_count-min [] h = absurd (omega arith)
with_count-min ((o, c) ∷ l) h = with_count-min_cons o c l

length-remove_first-le : (o : String) (xs : List String) → length (remove_first o xs) ≤ length xs
length-remove_first-le o [] = omega arith
length-remove_first-le o (x ∷ xs) = ground (arith, length-remove_first-le o xs)

length-remove_first :
    (o : String) (xs : List String) → mem o xs ≡ true → suc (length (remove_first o xs)) ≡ length xs
length-remove_first o [] h = cc
length-remove_first o (x ∷ xs) h = ground (arith, length-remove_first o xs)

length-remove_all-le : (os xs : List String) → length (remove_all os xs) ≤ length xs
unfolding remove_all
length-remove_all-le [] xs = omega arith
length-remove_all-le (o ∷ os) xs =
    omega (arith, length-remove_all-le os (remove_first o xs), length-remove_first-le o xs)

mem-remove_first :
    (k o : String) (xs : List String) → mem k (remove_first o xs) ≡ true → mem k xs ≡ true
mem-remove_first k o [] h = cc
mem-remove_first k o (x ∷ xs) h = ground (arith, mem-remove_first k o xs)

pub mem-remove_all :
    (k : String) (os xs : List String) → mem k (remove_all os xs) ≡ true → mem k xs ≡ true
unfolding remove_all
mem-remove_all k [] xs h = h
mem-remove_all k (o ∷ os) xs h = mem-remove_first k o xs (mem-remove_all k os (remove_first o xs) h)

-- A round that goes on leaves fewer options.
pub elimination_shrinks :
    (remaining : List String) (ballots : List Ballot)
    → 0 < sum_values (first_choices remaining ballots)
    → length (
        remove_all
          (with_count
            (min_count (first_choices remaining ballots))
            (first_choices remaining ballots))
          remaining)
      < length remaining
unfolding remove_all
elimination_shrinks remaining ballots h =
    let (o, os, e, m) = with_count-min (first_choices remaining ballots) h in
    rw e (
      omega (
        arith,
        length-remove_all-le os (remove_first o remaining),
        length-remove_first o remaining (mem-keys-first_choices remaining ballots o m),
      ))
