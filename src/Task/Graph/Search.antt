-- ===== src/Task/Graph/Search.antt =====
-- What an answer of the search says, and how the parts of the search keep it.
use hermes_agora.Base.{
  mem-set_add, ℕ, ◌≤◌, ◌<◌, String, ◌≡◌, refl, sym, subst, inl, inr, true, false, not, ◌||◌, some,
  List, [], ◌∷◌, ◌++◌, arith, eq_iff, eq_refl, Bool-cases, text-cases, All, count_if, mem, set_add,
}
use hermes_agora.Task.Graph.{TaskNode, find_task, ids}
use hermes_agora.Task.Graph.Order.{IsTopological, IsRanked}
use hermes_agora.Task.Graph.Validation.{
  Search, clear, cyclic, stopped, no_fuel, discard, Step, visit, visit_root, and_then, walk,
}

abbrev pub Sub : List String → List String → Type 0
Sub a b = (x : String) → mem x a ≡ true → mem x b ≡ true

-- A visited task is on the path of the search, or it is finished.
abbrev pub Covered : List String → List String → List String → Type 0
Covered v s order = (x : String) → mem x v ≡ true → (mem x s || mem x order) ≡ true

abbrev pub unvisited : List TaskNode → List String → ℕ
unvisited tasks v = count_if (λ t. not (mem t.id v)) tasks

discard-absent : (x : String) (s : List String) → mem x s ≡ false → discard x s ≡ s
discard-absent x [] h = refl
discard-absent x (y ∷ s) h = ground (arith, discard-absent x s)

discard-append : (x : String) (s : List String) → mem x s ≡ false → discard x (s ++ x ∷ []) ≡ s
discard-append x [] h = rw (eq_refl x) refl
discard-append x (y ∷ s) h = ground (arith, discard-append x s)

discard-set_add : (x : String) (s : List String) → mem x s ≡ false → discard x (set_add x s) ≡ s
unfolding set_add
discard-set_add x s h = rw h (discard-append x s h)

All-map :
    (P Q : String → Type 0) (xs : List String) → ((x : String) → P x → Q x) → All P xs → All Q xs
All-map P Q [] f h = tt
All-map P Q (x ∷ xs) f h = (f x h.0, All-map P Q xs f h.1)

pub found-mem :
    (k : String) (tasks : List TaskNode)
    → mem k (ids tasks) ≡ true
    → (t : TaskNode) × (find_task k tasks ≡ some t) × (t.id ≡ k)
unfolding find_task
found-mem k [] h = cc
found-mem k (t ∷ tasks) h = elim (text-cases t.id k) [
  | inl (e, same) ↦ (t, rw e refl, same)
  | inr (e, _) ↦
      let (u, found, p) = found-mem k tasks (ground (arith, h, eq_iff k t.id, eq_iff t.id k)) in
      (u, rw e found, p)
]

unvisited-Sub :
    (v w : List String) (tasks : List TaskNode) → Sub v w → unvisited tasks w ≤ unvisited tasks v
unvisited-Sub v w [] h = omega arith
unvisited-Sub v w (t ∷ tasks) h = ground (arith, h t.id, unvisited-Sub v w tasks h)

pub unvisited-set_add :
    (k : String) (v : List String) (tasks : List TaskNode)
    → mem k (ids tasks) ≡ true
    → mem k v ≡ false
    → unvisited tasks (set_add k v) < unvisited tasks v
unvisited-set_add k v [] h free = cc
unvisited-set_add k v (t ∷ tasks) h free =
    let kept =
      unvisited-Sub v (set_add k v) tasks (λ x m. rw (mem-set_add x k v) (ground (arith, m))) in
    elim (Bool-cases (mem k (ids tasks))) [
      | inl e ↦ ground (arith, mem-set_add t.id k v, unvisited-set_add k v tasks e free)
      | inr e ↦ ground (arith, mem-set_add t.id k v, kept, eq_iff t.id k, eq_iff k t.id, h, e, free)
    ]

module _ (tasks : List TaskNode) where
  abbrev pub Good : List String → List String → List String → Type 0
  Good v s order = Covered v s order × IsTopological tasks order × Sub s v

  -- What an answer says of a search that was asked for the tasks of the last list.
  abbrev pub Extends : List String → List String → List String → List String → Search → Type 0
  Extends v s order need (clear v' s') =
      (s' ≡ s)
      × Sub v v'
      × ((order' : List String) × IsTopological tasks order'
          × Sub order order'
          × Covered v' s order'
          × All (λ d. mem d order' ≡ true) need)
  Extends v s order need cyclic =
      (rank : String → ℕ)
      → IsRanked rank tasks
      → All (λ d. (x : String) → mem x s ≡ true → rank d < rank x) need
      → ⊥
  Extends v s order need stopped = ⊥
  Extends v s order need no_fuel = ⊥

  pub visit-Extends :
      (call : Step) (d : String) (v s order : List String)
      → Good v s order
      → (mem d v ≡ false → Extends v s order (d ∷ []) (call d v s))
      → Extends v s order (d ∷ []) (visit call d v s)
  visit-Extends call d v s order (cov, topo, sub) h = elim (Bool-cases (mem d v)) [
    | inr e ↦ rw e (h e)
    | inl e ↦ elim (Bool-cases (mem d s)) [
      | inl f ↦ rw (e, f) λ rank ranked above. omega (arith, above.0 d f)
      | inr f ↦
          rw (e, f) (refl, λ x m. m, (order, topo, λ x m. m, cov, (ground (arith, cov d e, f), tt)))
    ]
  ]

  pub visit_root-Extends :
      (call : Step) (d : String) (v order : List String)
      → Good v [] order
      → (mem d v ≡ false → Extends v [] order (d ∷ []) (call d v []))
      → Extends v [] order (d ∷ []) (visit_root call d v [])
  visit_root-Extends call d v order (cov, topo, sub) h = elim (Bool-cases (mem d v)) [
    | inr e ↦ rw e (h e)
    | inl e ↦ rw e (refl, λ x m. m, (order, topo, λ x m. m, cov, (cov d e, tt)))
  ]

  weaken :
      (v v' s order order' need : List String) (d : String) (r : Search)
      → Sub v v'
      → Sub order order'
      → mem d order' ≡ true
      → Extends v' s order' need r
      → Extends v s order (d ∷ need) r
  weaken v v' s order order' need d (clear w t) sv so m (e, sub, (last, topo, grown, cov, all)) =
      (e, λ x h. sub x (sv x h), (last, topo, λ x h. grown x (so x h), cov, (grown d m, all)))
  weaken v v' s order order' need d cyclic sv so m none_falls =
      λ rank ranked above. none_falls rank ranked above.1
  weaken v v' s order order' need d stopped sv so m h = h
  weaken v v' s order order' need d no_fuel sv so m h = h

  and_then-Extends :
      (v s order need : List String) (d : String) (r : Search)
      → (next : List String → List String → Search) → Sub s v
      → Extends v s order (d ∷ []) r
      → ((v' order' : List String)
          → Sub v v'
          → Good v' s order'
          → Extends v' s order' need (next v' s))
      → Extends v s order (d ∷ need) (and_then r next)
  and_then-Extends v s order need d (clear v' s') next sub (e, sv, (order', topo, so, cov, (m, _)))
        k =
      subst (λ x. Extends v s order (d ∷ need) (next v' x)) (sym e)
        (weaken v v' s order order' need d (next v' s) sv so m
          (k v' order' sv (cov, topo, λ x h. sv x (sub x h))))
  and_then-Extends v s order need d cyclic next sub h k =
      λ rank ranked above. h rank ranked (above.0, tt)
  and_then-Extends v s order need d stopped next sub h k = h
  and_then-Extends v s order need d no_fuel next sub h k = h

  -- The loop, when its step answers well while at most `n` tasks are not visited.
  pub walk-Extends :
      (n : ℕ) (step : Step) (s : List String)
      → ((d : String) (v order : List String)
          → mem d (ids tasks) ≡ true
          → unvisited tasks v ≤ n
          → Good v s order
          → Extends v s order (d ∷ []) (step d v s))
      → (deps v order : List String) → All (λ d. mem d (ids tasks) ≡ true) deps
      → unvisited tasks v ≤ n
      → Good v s order
      → Extends v s order deps (walk step deps v s)
  unfolding walk
  walk-Extends n step s h [] v order known room (cov, topo, sub) =
      (refl, λ x m. m, (order, topo, λ x m. m, cov, tt))
  walk-Extends n step s h (d ∷ deps) v order known room good =
      and_then-Extends v s order deps d (step d v s) (λ v' s'. walk step deps v' s') good.2
        (h d v order known.0 room good)
        (λ v' order' grown good'.
          walk-Extends n step s h deps v' order' known.1
            (omega (arith, unvisited-Sub v v' tasks grown)) good')

  -- what an answer for the dependencies of a task makes the answer for the task
  pub finish-Extends :
      (v s order : List String) (t : TaskNode) (r : Search)
      → find_task t.id tasks ≡ some t
      → ((rank : String → ℕ) → IsRanked rank tasks → All (λ d. rank d < rank t.id) t.depends_on)
      → mem t.id v ≡ false
      → Good v s order
      → Extends (set_add t.id v) (set_add t.id s) order t.depends_on r
      → Extends v s order (t.id ∷ []) (and_then r (λ w p. clear w (discard t.id p)))
  finish-Extends v s order t (clear w p) found falls free (cov, topo, sub)
        (e, grown, (order', topo', so, cov', all)) =
      let off : mem t.id s ≡ false = ground (arith, sub t.id) in
      let later : Sub v w = λ x h. grown x (rw (mem-set_add x t.id v) (ground (arith, h))) in
      let covers : Covered w s (t.id ∷ order') =
        λ x h. ground (arith, cov' x h, mem-set_add x t.id s) in
      (
        rw e (discard-set_add t.id s off),
        later,
        (
          t.id ∷ order',
          ((t, found, all), topo'),
          λ x h. ground (arith, so x h),
          covers,
          (rw (eq_refl t.id) refl, tt),
        ),
      )
  finish-Extends v s order t cyclic found falls free good h = λ rank ranked above. h rank ranked (
      All-map (λ d. rank d < rank t.id)
        (λ d. (x : String) → mem x (set_add t.id s) ≡ true → rank d < rank x) t.depends_on
        (λ d m x n. elim (text-cases x t.id) [
          | inl (_, same) ↦ rw same m
          | inr (other, _) ↦
              omega (arith, m, above.0 x (ground (arith, n, mem-set_add x t.id s, other)))
        ])
        (falls rank ranked))
  finish-Extends v s order t stopped found falls free good h = h
  finish-Extends v s order t no_fuel found falls free good h = h
