-- ===== src/Voting/Approval/Winner.antt =====
-- The winner of an approval vote against the approvals of the options.
use hermes_agora.Base.{
  ℕ, ◌+◌, ◌*◌, ◌≤◌, ◌<◌, String, ◌≡◌, refl, sym, ◌∙◌, subst, inl, inr, true, false, false≢true,
  ◌||◌, some, List, [], ◌∷◌, arith, ◌==◌, eq_iff, ltb, lt→ltb, Bool-cases, text-cases, length, All,
  count_if, sum_by, mem, set_update, mem-set_update,
}
use hermes_agora.Base.Dict
use hermes_agora.Base.Dict.{Dict}
use hermes_agora.Base.Counter.{bump, get-bump}
use hermes_agora.Base.Entries.{get-Distinct}
use hermes_agora.Voting.Types.{adopted, Vote}
use hermes_agora.Voting.Leader.{leader, All-leader}
use hermes_agora.Voting.Choice.{zeros, in_keys}
use hermes_agora.Voting.Choice.Majority.{Keyed, Keyed-zeros, Keyed-bump, get_or-zeros}
use hermes_agora.Voting.Choice.Winner.{get_or-le-leader}
use hermes_agora.Voting.Approval.{
  approved_of, all_options, approve, approve_all, elect, approval_count,
}

-- How often an option is approved, where a voter who names it twice counts twice.
abbrev pub approvals : String → List Vote → ℕ
approvals o votes = sum_by (λ v. count_if (λ x. x == o) (approved_of v)) votes

module _ (options : List String) where
  Keyed-approve :
      (counts : Dict ℕ) (os : List String)
      → Keyed options counts
      → Keyed options (approve counts os)
  unfolding approve
  Keyed-approve counts [] h = h
  Keyed-approve counts (o ∷ os) h = elim (Bool-cases (in_keys o counts)) [
    | inl e ↦
        rw e (
          Keyed-approve (bump o counts) os (Keyed-bump options o counts (sym (h.keys_are o) ∙ e) h))
    | inr e ↦ rw e (Keyed-approve counts os h)
  ]

  get-approve :
      (k : String) (counts : Dict ℕ) (os : List String)
      → Keyed options counts
      → mem k options ≡ true
      → Dict.get_or k 0 (approve counts os) ≡ Dict.get_or k 0 counts + count_if (λ x. x == k) os
  unfolding approve
  get-approve k counts [] h m = omega arith
  get-approve k counts (o ∷ os) h m = elim (Bool-cases (in_keys o counts)) [
    | inl e ↦
        let more =
          get-approve k (bump o counts) os (Keyed-bump options o counts (sym (h.keys_are o) ∙ e) h)
            m in
        rw e (ground (arith, more, get-bump o k counts))
    | inr e ↦
        let other : (o == k) ≡ false = elim (text-cases o k) [
          | inl (_, same) ↦
              absurd
                (false≢true (sym e ∙ h.keys_are o ∙ subst (λ x. mem x options ≡ true) (sym same) m))
          | inr (t, _) ↦ t
        ] in
        rw e (ground (arith, other, get-approve k counts os h m))
  ]

  Keyed-approve_all :
      (counts : Dict ℕ) (votes : List Vote)
      → Keyed options counts
      → Keyed options (approve_all counts votes)
  unfolding approve_all
  Keyed-approve_all counts [] h = h
  Keyed-approve_all counts (v ∷ votes) h =
      Keyed-approve_all (approve counts (approved_of v)) votes
        (Keyed-approve counts (approved_of v) h)

  get-approve_all :
      (k : String) (counts : Dict ℕ) (votes : List Vote)
      → Keyed options counts
      → mem k options ≡ true
      → Dict.get_or k 0 (approve_all counts votes) ≡ Dict.get_or k 0 counts + approvals k votes
  unfolding approve_all
  get-approve_all k counts [] h m = omega arith
  get-approve_all k counts (v ∷ votes) h m = omega (
    arith,
    get-approve k counts (approved_of v) h m,
    get-approve_all k (approve counts (approved_of v)) votes
        (Keyed-approve counts (approved_of v) h) m,
  )

-- An option that nobody approves is not among the options, and has no approvals.
mem-all_options :
    (o : String) (s : List String) (votes : List Vote)
    → mem o (all_options s votes) ≡ false
    → (mem o s ≡ false) × (approvals o votes ≡ 0)
unfolding all_options
mem-all_options o s [] h = (h, refl)
mem-all_options o s (v ∷ votes) h =
    let (before, rest) = mem-all_options o (set_update s (approved_of v)) votes h in
    let parts : (mem o s || mem o (approved_of v)) ≡ false =
      sym (mem-set_update o s (approved_of v)) ∙ before in
    (ground (arith, parts), ground (arith, rest, none_of (approved_of v) (ground (arith, parts))))
  where
    none_of : (xs : List String) → mem o xs ≡ false → count_if (λ x. x == o) xs ≡ 0
    none_of [] e = refl
    none_of (x ∷ xs) e = ground (arith, e, eq_iff x o, eq_iff o x, none_of xs)

module _ (total : ℕ) where
  elect_sound :
      (w : String) (counts : Dict ℕ)
      → All (λ x. Dict.get x.0 counts ≡ some x.1) counts
      → (elect total counts).winner ≡ some w
      → (total < 2 * Dict.get_or w 0 counts)
        × ((o : String) → Dict.get_or o 0 counts ≤ Dict.get_or w 0 counts)
  unfolding elect
  elect_sound w [] found h = cc h
  elect_sound w (e ∷ l) found h =
      let best : Dict.get (leader e l).0 (e ∷ l) ≡ some (leader e l).1 =
        All-leader (λ x. Dict.get x.0 (e ∷ l) ≡ some x.1) e l found.0 found.1 in
      elim (Bool-cases (ltb total (2 * (leader e l).1))) [
        | inl t ↦
            let named : (leader e l).0 ≡ w = cc (rw t at h) in
            let at : Dict.get w (e ∷ l) ≡ some (leader e l).1 =
              subst (λ x. Dict.get x (e ∷ l) ≡ some (leader e l).1) named best in
            let top : Dict.get_or w 0 (e ∷ l) ≡ (leader e l).1 = ground (arith, at) in
            (ground (arith, top, t), λ o. omega (arith, top, get_or-le-leader o e l))
        | inr t ↦ cc (rw t at h)
      ]

  elect_complete :
      (o : String) (counts : Dict ℕ)
      → total < 2 * Dict.get_or o 0 counts
      → ((elect total counts).decision ≡ adopted)
        × (w : String) × ((elect total counts).winner ≡ some w)
  unfolding elect
  elect_complete o [] h = absurd (unfold Dict.get in omega (arith, h))
  elect_complete o (e ∷ l) h =
      let t : ltb total (2 * (leader e l).1) ≡ true =
        lt→ltb _ _ (omega (arith, h, get_or-le-leader o e l)) in
      rw t (refl, (leader e l).0, refl)

module _ (order : List String → List String)
    (same : (o : String) (s : List String) → mem o (order s) ≡ mem o s) (votes : List Vote) where
  counted : Dict ℕ
  counted = approve_all (zeros (order (all_options [] votes))) votes

  counted_keys : Keyed (order (all_options [] votes)) counted
  unfolding counted
  counted_keys = Keyed-approve_all _ (zeros _) votes (Keyed-zeros _)

  get-counted : (o : String) → Dict.get_or o 0 counted ≡ approvals o votes
  unfolding counted
  get-counted o =
      let options = order (all_options [] votes) in
      elim (Bool-cases (mem o options)) [
        | inl m ↦ omega (
          arith,
          get-approve_all options o (zeros options) votes (Keyed-zeros options) m,
          get_or-zeros o options,
        )
        | inr m ↦
            let (_, none_approved) = mem-all_options o [] votes (sym (same o _) ∙ m) in
            absent (counted_keys.keys_are o ∙ m) ∙ sym none_approved
      ]
    where
      absent : in_keys o counted ≡ false → Dict.get_or o 0 counted ≡ 0
      absent e = ground (arith, e)

  -- Whatever the order in which the set of the options is walked, as long as it has the same
  -- members, the winner of an approval vote has approvals from more than half as many as there are
  -- voters and at least as many as any option, and where some option has that many, the vote is
  -- adopted with a winner; a voter who names an option twice counts twice.
  pub approval_count_exact :
      let result = approval_count order votes in
      ((w : String)
        → result.winner ≡ some w
        → (length votes < 2 * approvals w votes)
          × ((o : String) → approvals o votes ≤ approvals w votes))
      × ((o : String)
          → length votes < 2 * approvals o votes
          → (result.decision ≡ adopted) × (w : String) × (result.winner ≡ some w))
  unfolding approval_count counted
  approval_count_exact = (
    λ w h.
        let (big, top) =
          elect_sound (length votes) w counted (get-Distinct counted counted_keys.distinct) h in
        (
          omega (arith, big, get-counted w),
          λ o. omega (arith, top o, get-counted o, get-counted w),
        ),
    λ o h. elect_complete (length votes) o counted (omega (arith, h, get-counted o)),
  )
