-- ===== src/Voting/Ranked/Lowest.antt =====
-- Which options a round of the runoff removes: those with the fewest first choices, of those that
-- have any.
use hermes_agora.Base.{
  ℕ, ◌+◌, ◌-◌, ◌≤◌, ◌<◌, min, String, ◌≡◌, refl, ap, ◌∙◌, ◌↔◌, inl, inr, true, false, Option, none,
  some, List, [], ◌∷◌, ◌++◌, arith, ◌==◌, eq_iff, leb, eqb, if◌then◌else◌, Bool-cases, text-cases,
  All, count_if, mem, set_add, set_update, remove_first,
}
use hermes_agora.Base.Dict
use hermes_agora.Base.Dict.{Dict}
use hermes_agora.Base.Counter.{count_by, bump, bump_opt, count_from}
use hermes_agora.Voting.Ranked.{
  first_choice, Ballot, first_choices, min_count, with_count, remove_all, options, ranking_of,
}
use hermes_agora.Base.Entries.{All-get}
use hermes_agora.Voting.Types.{Vote}
use hermes_agora.Voting.Ranked.Majority.{get-first_choices, found, supporters}

-- how often an option is in a list
abbrev times : String → List String → ℕ
times k = count_if (λ x. x == k)

-- No option is in the list twice.
abbrev pub HasNoRepeat : List String → Type 0
HasNoRepeat xs = (k : String) → times k xs ≤ 1

pub mem-times : (k : String) (xs : List String) → (mem k xs ≡ true) ↔ (0 < times k xs)
mem-times k [] = ground arith
mem-times k (x ∷ xs) = ground (arith, mem-times k xs, eq_iff k x, eq_iff x k)

times-append : (k : String) (xs ys : List String) → times k (xs ++ ys) ≡ times k xs + times k ys
times-append k [] ys = omega arith
times-append k (x ∷ xs) ys = ground (arith, times-append k xs ys)

times-remove_first :
    (k o : String) (xs : List String)
    → times k (remove_first o xs) ≡ (if o == k then times k xs - 1 else times k xs)
times-remove_first k o [] = ground arith
times-remove_first k o (x ∷ xs) =
    ground (arith, times-remove_first k o xs, eq_iff o k, eq_iff x k, eq_iff o x)

-- Of a list without repeats, what is removed is gone, and the rest stays.
times-remove_all :
    (k : String) (os xs : List String)
    → times k xs ≤ 1
    → times k (remove_all os xs) ≡ (if mem k os then 0 else times k xs)
unfolding remove_all
times-remove_all k [] xs h = refl
times-remove_all k (o ∷ os) xs h = ground (
  arith,
  times-remove_all k os (remove_first o xs) (ground (arith, h, times-remove_first k o xs)),
  times-remove_first k o xs,
  eq_iff o k,
  eq_iff k o,
)

pub HasNoRepeat-remove_all : (os xs : List String) → HasNoRepeat xs → HasNoRepeat (remove_all os xs)
HasNoRepeat-remove_all os xs h k = ground (arith, times-remove_all k os xs (h k), h k)

pub mem-remove_all_iff :
    (k : String) (os xs : List String)
    → HasNoRepeat xs
    → (mem k (remove_all os xs) ≡ true) ↔ ((mem k xs ≡ true) × (mem k os ≡ false))
mem-remove_all_iff k os xs h =
    ground (arith, times-remove_all k os xs (h k), mem-times k xs, mem-times k (remove_all os xs))

HasNoRepeat-set_update : (s xs : List String) → HasNoRepeat s → HasNoRepeat (set_update s xs)
unfolding set_update set_add
HasNoRepeat-set_update s [] h = h
HasNoRepeat-set_update s (x ∷ xs) h = HasNoRepeat-set_update (set_add x s) xs (λ k.
    elim (Bool-cases (mem x s)) [
      | inl e ↦ rw (set_add, e) (h k)
      | inr e ↦
          rw (set_add, e)
            (ground (arith, times-append k s (x ∷ []), h k, mem-times x s, e, eq_iff x k))
    ])

pub HasNoRepeat-options :
    (seen : List String) (votes : List Vote) → HasNoRepeat seen → HasNoRepeat (options seen votes)
unfolding options
HasNoRepeat-options seen [] h = h
HasNoRepeat-options seen (v ∷ votes) h =
    HasNoRepeat-options (set_update seen (ranking_of v)) votes
      (HasNoRepeat-set_update seen (ranking_of v) h)

-- The entries with a count.
with_count-mem :
    (k : String) (n : ℕ) (l : Dict ℕ) → Dict.get k l ≡ some n → mem k (with_count n l) ≡ true
unfolding with_count Dict.get
with_count-mem k n [] h = cc
with_count-mem k n ((o, c) ∷ l) h = ground (arith, with_count-mem k n l, eq_iff o k, eq_iff k o)

mem-with_count :
    (k : String) (n : ℕ) (d l : Dict ℕ)
    → All (λ x. Dict.get x.0 d ≡ some x.1) l
    → mem k (with_count n l) ≡ true
    → Dict.get k d ≡ some n
unfolding with_count
mem-with_count k n d [] h m = cc
mem-with_count k n d ((o, c) ∷ l) h m = elim (Bool-cases (eqb c n)) [
  | inr e ↦ mem-with_count k n d l h.1 (rw e at m)
  | inl e ↦
      let same : c ≡ n = ground (arith, e) in
      elim (text-cases k o) [
        | inl (_, p) ↦ rw p (h.0 ∙ ap some same)
        | inr (t, _) ↦ mem-with_count k n d l h.1 (rw (e, t) at m)
      ]
]

min_count-All : (l : Dict ℕ) → All (λ x. min_count l ≤ x.1) l
unfolding min_count
min_count-All [] = tt
min_count-All ((o, c) ∷ []) = (omega arith, tt)
min_count-All ((o, c) ∷ (p, d) ∷ l) =
    (omega arith, weaken ((p, d) ∷ l) (min_count-All ((p, d) ∷ l)))
  where
    weaken :
        (xs : Dict ℕ)
        → All (λ x. min_count ((p, d) ∷ l) ≤ x.1) xs
        → All (λ x. min c (min_count ((p, d) ∷ l)) ≤ x.1) xs
    weaken [] h = tt
    weaken (x ∷ xs) h = (omega (arith, h.0), weaken xs h.1)

-- The smallest count is the count of some entry.
min_count-found :
    (o : String) (c : ℕ) (l d : Dict ℕ)
    → All (λ x. Dict.get x.0 d ≡ some x.1) ((o, c) ∷ l)
    → (k : String) × (Dict.get k d ≡ some (min_count ((o, c) ∷ l)))
unfolding min_count
min_count-found o c [] d h = (o, h.0)
min_count-found o c ((p, e) ∷ l) d h =
    let (k, at) = min_count-found p e l d h.1 in
    elim (Bool-cases (leb c (min_count ((p, e) ∷ l)))) [
      | inl t ↦ (o, h.0 ∙ ap some (ground (arith, t)))
      | inr t ↦ (k, at ∙ ap some (ground (arith, t)))
    ]

-- No entry of a counter is zero.
All-bump :
    (k : String) (n : ℕ) (d : Dict ℕ)
    → All (λ x. 0 < x.1) d
    → All (λ x. 0 < x.1) (Dict.put k (n + 1) d)
unfolding Dict.put
All-bump k n [] h = (omega arith, tt)
All-bump k n ((j, w) ∷ d) h = elim (Bool-cases (j == k)) [
  | inl e ↦ rw e (omega arith, h.1)
  | inr e ↦ rw e (h.0, All-bump k n d h.1)
]

module _ {ℓ} {A : Type ℓ} (key : A → Option String) where
  count_from-positive :
      (d : Dict ℕ) (xs : List A) → All (λ x. 0 < x.1) d → All (λ x. 0 < x.1) (count_from key d xs)
  unfolding count_from
  count_from-positive d [] h = h
  count_from-positive d (x ∷ xs) h = count_from-positive (bump_opt (key x) d) xs (step (key x))
    where
      step : (o : Option String) → All (λ x. 0 < x.1) (bump_opt o d)
      step none = h
      step (some k) = unfold bump in All-bump k (Dict.get_or k 0 d) d h

-- A counter in which something is found has an entry with the smallest count.
least-found :
    (k : String) (c : ℕ) (d l : Dict ℕ)
    → All (λ x. Dict.get x.0 d ≡ some x.1) l
    → Dict.get k l ≡ some c
    → (o : String) × (Dict.get o d ≡ some (min_count l))
unfolding Dict.get
least-found k c d [] h at = cc
least-found k c d ((o, n) ∷ l) h at = min_count-found o n l d h

module _ (remaining : List String) (ballots : List Ballot) where
  -- It is the first choice of some ballot, and no option that is one is of fewer.
  abbrev pub HasFewest : String → Type 0
  HasFewest k =
      (0 < supporters remaining ballots k)
      × ((o : String)
          → 0 < supporters remaining ballots o
          → supporters remaining ballots k ≤ supporters remaining ballots o)

  counted :
      (o : String)
      → 0 < supporters remaining ballots o
      → Dict.get o (first_choices remaining ballots) ≡ some (supporters remaining ballots o)
  counted o h = go (Dict.get o (first_choices remaining ballots)) refl
    where
      go :
          (r : Option ℕ)
          → Dict.get o (first_choices remaining ballots) ≡ r
          → Dict.get o (first_choices remaining ballots) ≡ some (supporters remaining ballots o)
      go none e = absurd (ground (arith, e, h, get-first_choices remaining ballots o))
      go (some c) e = e ∙ ap some (ground (arith, e, get-first_choices remaining ballots o))

  supporters-of :
      (o : String) (c : ℕ)
      → Dict.get o (first_choices remaining ballots) ≡ some c
      → (supporters remaining ballots o ≡ c) × (0 < c)
  unfolding first_choices count_by
  supporters-of o c e = (
    ground (arith, e, get-first_choices remaining ballots o),
    All-get (λ x. 0 < x.1) o c (first_choices remaining ballots)
        (count_from-positive (first_choice remaining) [] ballots tt) e,
  )

  least :
      (o : String)
      → 0 < supporters remaining ballots o
      → min_count (first_choices remaining ballots) ≤ supporters remaining ballots o
  least o h =
      All-get (λ x. min_count (first_choices remaining ballots) ≤ x.1) o
        (supporters remaining ballots o) (first_choices remaining ballots)
        (min_count-All (first_choices remaining ballots)) (counted o h)

  -- The entries with the smallest count are the options with the fewest first choices.
  pub lowest_exact :
      (k : String)
      → (mem k (
            with_count
              (min_count (first_choices remaining ballots))
              (first_choices remaining ballots))
          ≡ true)
        ↔ HasFewest k
  lowest_exact k =
      let counts = first_choices remaining ballots in
      (
        λ m.
            let at =
              mem-with_count k (min_count counts) counts counts (found remaining ballots) m in
            let (same, positive) = supporters-of k (min_count counts) at in
            (omega (arith, same, positive), λ o h. omega (arith, same, least o h)),
        λ low.
            let at = counted k low.0 in
            let (o, there) =
              least-found k (supporters remaining ballots k) counts counts (found remaining ballots)
                at in
            let (same, positive) = supporters-of o (min_count counts) there in
            let below : supporters remaining ballots k ≡ min_count counts =
              omega (arith, same, low.1 o (omega (arith, same, positive)), least k low.0) in
            with_count-mem k (min_count counts) counts (at ∙ ap some below),
      )
