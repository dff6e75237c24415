-- ===== src/Voting/Ranked/Majority.antt =====
-- What the search for a majority finds in a counter of first choices.
use hermes_agora.Base.{
  eq_iff, ℕ, ◌*◌, ◌≤◌, ◌<◌, String, ◌≡◌, refl, ap, ◌∙◌, subst, ◌↔◌, inl, inr, true, false, Option,
  none, some, List, [], ◌∷◌, arith, ◌==◌, ltb, leb, Bool-cases, Option-cases, text-cases, All,
  count_if, count_if-disjoint,
}
use hermes_agora.Base.Dict
use hermes_agora.Base.Dict.{Dict}
use hermes_agora.Base.Counter.{sum_values, picks, is_some, get-count_by, sum-count_by}
use hermes_agora.Base.Entries.{Distinct-count_by, get-Distinct, All-get}
use hermes_agora.Voting.Ranked.{
  Ballot, first_choice, first_choices, insert_common, most_common, majority,
}

module _ {κ} (P : String × ℕ → Type κ) where
  All-insert_common : (x : String × ℕ) (l : Dict ℕ) → (P x × All P l) ↔ All P (insert_common x l)
  unfolding insert_common
  All-insert_common (o, c) [] = (λ h. h, λ h. h)
  All-insert_common (o, c) ((p, d) ∷ l) = elim (Bool-cases (leb d c)) [
    | inl e ↦ rw (e, insert_common) (λ h. h, λ h. h)
    | inr e ↦
        let (to, from) = All-insert_common (o, c) l in
        rw (e, insert_common)
          (λ h. (h.1.0, to (h.0, h.1.1)), λ h. ((from h.1).0, (h.0, (from h.1).1)))
  ]

  -- The sorted counter has the same entries.
  All-most_common : (l : Dict ℕ) → All P l ↔ All P (most_common l)
  unfolding most_common
  All-most_common [] = (λ h. h, λ h. h)
  All-most_common (x ∷ l) =
      let (to, from) = All-most_common l in
      let (put, take_out) = All-insert_common x (most_common l) in
      (λ h. put (h.0, to h.1), λ h. let k = take_out h in (k.0, from k.1))

  majority-some :
      (total : ℕ) (l : Dict ℕ) (w : String)
      → All P l
      → majority total l ≡ some w
      → (c : ℕ) × (total < 2 * c) × P (w, c)
  unfolding majority
  majority-some total [] w h e = cc
  majority-some total ((o, c) ∷ l) w h e = elim (Bool-cases (ltb total (2 * c))) [
    | inl t ↦ let q : o ≡ w = ground (arith, t) in (c, ground arith, subst (λ x. P (x, c)) q h.0)
    | inr f ↦ majority-some total l w h.1 (rw f at e)
  ]

majority-none : (total : ℕ) (l : Dict ℕ) → majority total l ≡ none → All (λ x. 2 * x.1 ≤ total) l
unfolding majority
majority-none total [] e = tt
majority-none total ((o, c) ∷ l) e = ground (arith, majority-none total l)

module _ (remaining : List String) (ballots : List Ballot) where
  abbrev first : Dict ℕ
  first = first_choices remaining ballots

  -- The ballots that have a first choice, and those whose first choice is `w`.
  abbrev pub voters : ℕ
  voters = count_if (λ b. is_some (first_choice remaining b)) ballots

  abbrev pub supporters : String → ℕ
  supporters w = count_if (λ b. picks w (first_choice remaining b)) ballots

  pub sum-first_choices : sum_values first ≡ voters
  unfolding first_choices
  sum-first_choices = sum-count_by (first_choice remaining) ballots

  pub get-first_choices : (w : String) → Dict.get_or w 0 first ≡ supporters w
  unfolding first_choices
  get-first_choices w = get-count_by (first_choice remaining) w ballots

  pub found : All (λ x. Dict.get x.0 first ≡ some x.1) first
  unfolding first_choices
  found = get-Distinct first (Distinct-count_by (first_choice remaining) ballots)

  -- The option that is found is the first choice of more than half of the voters.
  pub majority_sound :
      (w : String)
      → majority (sum_values first) (most_common first) ≡ some w
      → voters < 2 * supporters w
  majority_sound w e =
      let (c, big, at) =
        majority-some (λ x. Dict.get x.0 first ≡ some x.1) (sum_values first) (most_common first) w
          ((All-most_common _ first).0 found) e in
      ground (arith, big, at, sum-first_choices, get-first_choices w)

  majority_unique : (v w : String) → voters < 2 * supporters v → voters < 2 * supporters w → v ≡ w
  majority_unique v w hv hw = elim (text-cases v w) [
    | inl (_, e) ↦ e
    | inr (other, _) ↦ absurd (
        omega (
          arith,
          count_if-disjoint (λ b. picks v (first_choice remaining b))
              (λ b. picks w (first_choice remaining b)) (λ b. is_some (first_choice remaining b))
              ballots (λ b. apart other (first_choice remaining b))
              (λ b. some_v (first_choice remaining b)) (λ b. some_w (first_choice remaining b)),
        ))
  ]
    where
      apart : (v == w) ≡ false → (o : Option String) → picks v o ≡ true → picks w o ≡ false
      apart other none h = cc
      apart other (some c) h = ground (arith, eq_iff c v, eq_iff c w, eq_iff v w, other)

      some_v : (o : Option String) → picks v o ≡ true → is_some o ≡ true
      some_v none h = h
      some_v (some c) h = refl

      some_w : (o : Option String) → picks w o ≡ true → is_some o ≡ true
      some_w none h = h
      some_w (some c) h = refl

  -- An option that is the first choice of more than half of the voters is found.
  pub majority_complete :
      (w : String)
      → voters < 2 * supporters w
      → majority (sum_values first) (most_common first) ≡ some w
  majority_complete w h = elim (Option-cases (majority (sum_values first) (most_common first))) [
    | inr (v, e) ↦ e ∙ ap some (majority_unique v w (majority_sound v e) h)
    | inl e ↦ absurd (small (Dict.get w first) refl e)
  ]
    where
      small :
          (o : Option ℕ)
          → Dict.get w first ≡ o
          → majority (sum_values first) (most_common first) ≡ none
          → ⊥
      small none q e = ground (arith, q, h, get-first_choices w)
      small (some c) q e = ground (
        arith,
        q,
        h,
        get-first_choices w,
        sum-first_choices,
        All-get (λ x. 2 * x.1 ≤ sum_values first) w c first
            ((All-most_common (λ x. 2 * x.1 ≤ sum_values first) first).1
              (majority-none (sum_values first) (most_common first) e))
            q,
      )
