-- ===== src/Smart/Deadlock/Risks.antt =====
-- Which pairs the detector reports.
use hermes_agora.Base.{
  ap, ℕ, suc, ◌+◌, ◌*◌, ◌<◌, String, ◌≡◌, refl, ◌∙◌, inl, inr, Bool, true, false, not, ◌&&◌, ◌||◌,
  List, [], ◌∷◌, ◌++◌, map, arith, ◌==◌, eq_iff, ltb, leb, if◌then◌else◌, ltb→lt, Bool-cases,
  text-cases, any_of, mem, mem-append, mem-to_set,
}
use hermes_agora.Smart.Deadlock.{
  Detector, is_pair, named, get_deadlock_risk, DeadlockStatus, clear, warning, deadlock, RefCount,
  Risk, bump_ref, ref_count_of, check_circular, before, is_clear, is_dead, risks_with, risks_among,
}

-- How often two names refer to one another.
abbrev pub between : String → String → RefCount → ℕ
between a b refs = ref_count_of a b refs + ref_count_of b a refs

ref_count_of-bump :
    (a b c d : String) (refs : RefCount)
    → ref_count_of c d (bump_ref a b refs)
      ≡ (if a == c && b == d then suc (ref_count_of c d refs) else ref_count_of c d refs)
unfolding ref_count_of bump_ref
ref_count_of-bump a b c d [] = ground (arith, eq_iff a c, eq_iff b d)
ref_count_of-bump a b c d ((p, n) ∷ refs) = ground (
  arith,
  eq_iff a c,
  eq_iff b d,
  eq_iff p.0 a,
  eq_iff p.1 b,
  eq_iff p.0 c,
  eq_iff p.1 d,
  ref_count_of-bump a b c d refs,
)

-- A list of risks reports a deadlock of the pair.
abbrev pub reports : String → String → List Risk → Bool
reports a b risks = any_of (λ r. r.one == a && r.other == b && is_dead r.status) risks

is_dead-check :
    (a b : String) (window : ℕ) (refs : RefCount)
    → is_dead (check_circular a b window refs) ≡ leb (window * 2) (between a b refs)
unfolding check_circular
is_dead-check a b window refs = ground arith

module _ (a b : String) where
  -- One pair of the inner loop.
  reports-step :
      (ordered : Bool) (status : DeadlockStatus) (x y : String) (rest : List Risk)
      → reports a b (
          if not ordered
          then rest
          else if is_clear status
          then rest
          else record { one = x; other = y; status = status } ∷ rest)
        ≡ ((x == a && y == b && ordered && is_dead status) || reports a b rest)
  reports-step false status x y rest = ground arith
  reports-step true clear x y rest = ground arith
  reports-step true warning x y rest = ground arith
  reports-step true deadlock x y rest = ground arith

  reports-append : (xs ys : List Risk) → reports a b (xs ++ ys) ≡ (reports a b xs || reports a b ys)
  reports-append [] ys = refl
  reports-append (x ∷ xs) ys = ground (arith, reports-append xs ys)

  module _ (window : ℕ) (refs : RefCount) where
    -- The pair is in the right order, and its status is a deadlock.
    unfoldable is_due : Bool
    unfolding check_circular
    is_due = before a b && is_dead (check_circular a b window refs)

    pair_due :
        (x y : String)
        → (x == a && y == b && before x y && is_dead (check_circular x y window refs))
          ≡ (x == a && y == b && is_due)
    unfolding is_due
    pair_due x y = elim (text-cases x a) [
      | inr (h, _) ↦ rw h refl
      | inl (h, e) ↦ elim (text-cases y b) [
        | inr (g, _) ↦ rw (h, g) refl
        | inl (g, f) ↦ rw (h, g, e, f) refl
      ]
    ]

    reports-risks_with :
        (x : String) (agents : List String)
        → reports a b (risks_with x agents window refs) ≡ (x == a && mem b agents && is_due)
    unfolding risks_with
    reports-risks_with x [] = ground arith
    reports-risks_with x (y ∷ agents) =
        reports-step (before x y) (check_circular x y window refs) x y
          (risks_with x agents window refs)
        ∙ ground (arith, pair_due x y, eq_iff b y, eq_iff y b, reports-risks_with x agents)

    reports-risks_among :
        (outer agents : List String)
        → reports a b (risks_among outer agents window refs)
          ≡ (mem a outer && mem b agents && is_due)
    unfolding risks_among
    reports-risks_among [] agents = refl
    reports-risks_among (x ∷ outer) agents =
        reports-append (risks_with x agents window refs) (risks_among outer agents window refs)
        ∙ ground (
          arith,
          eq_iff a x,
          eq_iff x a,
          reports-risks_with x agents,
          reports-risks_among outer agents,
        )

due :
    (a b : String) (window : ℕ) (refs : RefCount)
    → is_due a b window refs ≡ (before a b && leb (window * 2) (between a b refs))
unfolding is_due
due a b window refs = ap (λ x. before a b && x) (is_dead-check a b window refs)

-- A pair that refers to one another is among the names.
mem-map-first :
    (a b : String) (refs : RefCount)
    → 0 < ref_count_of a b refs
    → (mem a (map (λ r. r.0.0) refs) ≡ true) × (mem b (map (λ r. r.0.1) refs) ≡ true)
unfolding ref_count_of
mem-map-first a b [] h = absurd (omega (arith, h))
mem-map-first a b ((p, n) ∷ refs) h = elim (Bool-cases (is_pair a b p)) [
  | inl t ↦ ground (arith, t, eq_iff p.0 a, eq_iff p.1 b, eq_iff a p.0, eq_iff b p.1)
  | inr t ↦
      let (first, second) = mem-map-first a b refs (rw t at h) in ground (arith, first, second)
]

mem-named-first :
    (a b : String) (refs : RefCount)
    → 0 < ref_count_of a b refs
    → (mem a (named refs) ≡ true) × (mem b (named refs) ≡ true)
mem-named-first a b refs h =
    let (first, second) = mem-map-first a b refs h in
    let froms = map (λ r. r.0.0) refs in
    let tos = map (λ r. r.0.1) refs in
    (
      ground (arith, first, mem-to_set a (froms ++ tos), mem-append a froms tos),
      ground (arith, second, mem-to_set b (froms ++ tos), mem-append b froms tos),
    )

both_named :
    (a b : String) (refs : RefCount)
    → 0 < between a b refs
    → (mem a (named refs) && mem b (named refs)) ≡ true
both_named a b refs h = elim (Bool-cases (ltb 0 (ref_count_of a b refs))) [
  | inl e ↦ let (first, second) = mem-named-first a b refs (ltb→lt _ _ e) in rw (first, second) refl
  | inr e ↦
      let (second, first) = mem-named-first b a refs (ground (arith, e, h)) in
      rw (first, second) refl
]

-- A detector with a positive window reports a deadlock of two names exactly where the first comes
-- before the second and they refer to one another, both ways counted together, at least twice the
-- window.
pub get_deadlock_risk_exact :
    (d : Detector) (a b : String)
    → 0 < d.window
    → reports a b (get_deadlock_risk d)
      ≡ (before a b && leb (d.window * 2) (between a b d.ref_count))
unfolding get_deadlock_risk
get_deadlock_risk_exact d a b positive =
    reports-risks_among a b d.window d.ref_count (named d.ref_count) (named d.ref_count)
    ∙ elim (Bool-cases (leb (d.window * 2) (between a b d.ref_count))) [
      | inl e ↦
          rw (both_named a b d.ref_count (ground (arith, e, positive)))
            (due a b d.window d.ref_count)
      | inr e ↦ ground (arith, due a b d.window d.ref_count, e)
    ]
