-- ===== src/Task/Graph/References.antt =====
-- The loop of the validation before its search.
use hermes_agora.Base.{
  subst, ℕ, ◌<◌, String, ◌≡◌, refl, ap, ◌∙◌, ◌↔◌, inl, inr, true, false, none, some, List, [], ◌∷◌,
  arith, Bool-cases, Option-cases, text-cases, All, mem,
}
use hermes_agora.Task.Graph.{TaskNode}
use hermes_agora.Task.Graph.Order.{IsRanked}
use hermes_agora.Task.Graph.Validation.{
  unknown_dependency, self_dependency, Verdict, check_deps, check_refs,
}

-- No task depends on itself, and each dependency is known.
abbrev pub IsReferring : List String → List TaskNode → Type 0
IsReferring known =
    All (λ t. (mem t.id t.depends_on ≡ false) × All (λ d. mem d known ≡ true) t.depends_on)

check_deps_exact :
    (task : String) (known deps : List String)
    → (check_deps task known deps ≡ none) ↔ All (λ d. mem d known ≡ true) deps
unfolding check_deps
check_deps_exact task known [] = (λ h. tt, λ h. refl)
check_deps_exact task known (d ∷ deps) =
    let (go, back) = check_deps_exact task known deps in
    elim (Bool-cases (mem d known)) [
      | inl e ↦ rw e (λ h. (refl, go h), λ h. back h.1)
      | inr e ↦ rw e (λ h. cc, λ h. cc)
    ]

-- The loop lets exactly the tasks pass that depend on other tasks, all known.
pub check_refs_exact :
    (known : List String) (tasks : List TaskNode)
    → (check_refs known tasks ≡ none) ↔ IsReferring known tasks
unfolding check_refs
check_refs_exact known [] = (λ h. tt, λ h. refl)
check_refs_exact known (t ∷ tasks) =
    let (go, back) = check_refs_exact known tasks in
    let (deps, back_deps) = check_deps_exact t.id known t.depends_on in
    elim (Bool-cases (mem t.id t.depends_on)) [
      | inl e ↦ rw e (λ h. cc, λ h. cc)
      | inr e ↦ elim (Option-cases (check_deps t.id known t.depends_on)) [
        | inl f ↦ rw (e, f) (λ h. ((refl, deps f), go h), λ h. back h.1)
        | inr (v, f) ↦ rw (e, f) (λ h. cc, λ h. absurd (cc (f, back_deps h.0.1)))
      ]
    ]

-- what the loop reports
abbrev pub IsError : Verdict → Type 0
IsError (self_dependency t) = Unit
IsError (unknown_dependency t d) = Unit
IsError _ = ⊥

check_deps-IsError :
    (task : String) (known deps : List String) (v : Verdict)
    → check_deps task known deps ≡ some v
    → IsError v
unfolding check_deps
check_deps-IsError task known [] v h = cc
check_deps-IsError task known (d ∷ deps) v h = elim (Bool-cases (mem d known)) [
  | inl e ↦ check_deps-IsError task known deps v (rw e at h)
  | inr e ↦ let same : unknown_dependency task d ≡ v = cc (rw e at h) in subst IsError same tt
]

pub check_refs-IsError :
    (known : List String) (tasks : List TaskNode) (v : Verdict)
    → check_refs known tasks ≡ some v
    → IsError v
unfolding check_refs
check_refs-IsError known [] v h = cc
check_refs-IsError known (t ∷ tasks) v h = elim (Bool-cases (mem t.id t.depends_on)) [
  | inl e ↦ let same : self_dependency t.id ≡ v = cc (rw e at h) in subst IsError same tt
  | inr e ↦ elim (Option-cases (check_deps t.id known t.depends_on)) [
    | inl f ↦ check_refs-IsError known tasks v (rw (e, f) at h)
    | inr (w, f) ↦
        let same : w ≡ v = cc (rw (e, f) at h) in
        check_deps-IsError t.id known t.depends_on v (f ∙ ap some same)
  ]
]

pub IsReferring-IsClosed :
    (known : List String) (tasks : List TaskNode)
    → IsReferring known tasks
    → All (λ t. All (λ d. mem d known ≡ true) t.depends_on) tasks
IsReferring-IsClosed known [] h = tt
IsReferring-IsClosed known (t ∷ tasks) h = (h.0.1, IsReferring-IsClosed known tasks h.1)

falling-other :
    (rank : String → ℕ) (x : String) (deps : List String)
    → All (λ d. rank d < rank x) deps
    → mem x deps ≡ false
falling-other rank x [] h = refl
falling-other rank x (d ∷ deps) h = elim (text-cases x d) [
  | inl (_, same) ↦ let less : rank d < rank x = h.0 in absurd (omega (arith, ap rank same))
  | inr (e, _) ↦ rw e (falling-other rank x deps h.1)
]

-- Tasks with a rank do not depend on themselves.
pub IsRanked-IsReferring :
    (rank : String → ℕ) (known : List String) (tasks : List TaskNode)
    → All (λ t. All (λ d. mem d known ≡ true) t.depends_on) tasks
    → IsRanked rank tasks
    → IsReferring known tasks
IsRanked-IsReferring rank known [] c r = tt
IsRanked-IsReferring rank known (t ∷ tasks) c r =
    ((falling-other rank t.id t.depends_on r.0, c.0), IsRanked-IsReferring rank known tasks c.1 r.1)
