-- ===== src/Task/Graph/Exact.antt =====
-- The outcomes of the search of task_gen/validation.py, and the verdict on a whole graph.
use hermes_agora.Base.{
  ◌≢◌, refl, ap, ◌∙◌, not, eq_refl, count_if-le-length, Option-cases, ◌↔◌, length, ℕ, zero, suc,
  ◌≤◌, ◌<◌, String, ◌≡◌, subst, inl, inr, true, false, some, List, [], ◌∷◌, arith, ◌==◌, Bool-cases,
  All, mem, set_add, mem-set_add,
}
use hermes_agora.Task.Graph.{TaskNode, find_task, ids}
use hermes_agora.Task.Graph.Order.{IsDistinct, rank_of, IsTopological-IsRanked, IsRanked, IsClosed}
use hermes_agora.Task.Graph.Validation.{
  cyclic, stopped, no_fuel, valid, crashed, verdict, validate_graph, check_refs, clear, Search,
  visit_root, Step, visit, walk, has_cycle,
}
use hermes_agora.Task.Graph.References.{
  check_refs_exact, check_refs-IsError, IsReferring-IsClosed, IsRanked-IsReferring,
}
use hermes_agora.Task.Graph.Search.{
  Sub, visit_root-Extends, Good, Extends, unvisited, found-mem, unvisited-set_add, visit-Extends,
  walk-Extends, finish-Extends,
}

All-find {κ} :
    (P : TaskNode → Type κ) (k : String) (t : TaskNode) (ts : List TaskNode)
    → All P ts
    → find_task k ts ≡ some t
    → P t
unfolding find_task
All-find P k t [] h e = cc
All-find P k t (u ∷ ts) h e = elim (Bool-cases (u.id == k)) [
  | inl f ↦ let same : u ≡ t = ground (arith, f) in subst P same h.0
  | inr f ↦ All-find P k t ts h.1 (rw f at e)
]

all_each : (P : String → Type 0) (xs : List String) → ((x : String) → P x) → All P xs
all_each P [] f = tt
all_each P (x ∷ xs) f = (f x, all_each P xs f)

all_mem : (xs ys : List String) → Sub xs ys → All (λ x. mem x ys ≡ true) xs
all_mem [] ys h = tt
all_mem (x ∷ xs) ys h = (h x (rw (eq_refl x) refl), all_mem xs ys (λ y m. h y (ground (arith, m))))

module _ (tasks : List TaskNode) (closed : IsClosed tasks) where
  -- `Call n`: the search answers well while at most `n` tasks are not visited.
  abbrev Call : ℕ → Step → Type 0
  Call n call =
      (k : String) (v s order : List String)
      → mem k (ids tasks) ≡ true
      → unvisited tasks v ≤ n
      → Good tasks v s order
      → mem k v ≡ false
      → Extends tasks v s order (k ∷ []) (call k v s)

  Good-set_add :
      (k : String) (v s order : List String)
      → Good tasks v s order
      → Good tasks (set_add k v) (set_add k s) order
  Good-set_add k v s order (cov, topo, sub) = (
    λ x h. ground (arith, cov x, h, mem-set_add x k v, mem-set_add x k s),
    topo,
    λ x h. ground (arith, sub x, h, mem-set_add x k v, mem-set_add x k s),
  )

  has_cycle-round :
      (n : ℕ) (t : TaskNode) (v s order : List String)
      → Call n (has_cycle tasks n)
      → find_task t.id tasks ≡ some t
      → mem t.id (ids tasks) ≡ true
      → unvisited tasks v ≤ suc n
      → Good tasks v s order
      → mem t.id v ≡ false
      → Extends tasks v s order (t.id ∷ []) (has_cycle tasks (suc n) t.id v s)
  unfolding has_cycle
  has_cycle-round n t v s order call found known room good free =
      let deps =
        walk-Extends tasks n (visit (has_cycle tasks n)) (set_add t.id s)
          (λ d w o i r g.
            visit-Extends tasks (has_cycle tasks n) d w (set_add t.id s) o g
              (call d w (set_add t.id s) o i r g))
          t.depends_on (set_add t.id v) order
          (All-find (λ u. All (λ d. mem d (ids tasks) ≡ true) u.depends_on) t.id t tasks closed
            found)
          (omega (arith, unvisited-set_add t.id v tasks known free))
          (Good-set_add t.id v s order good) in
      rw (has_cycle, found)
        (finish-Extends tasks v s order t
          (walk (visit (has_cycle tasks n)) t.depends_on (set_add t.id v) (set_add t.id s)) found
          (λ rank ranked.
            All-find (λ u. All (λ d. rank d < rank u.id) u.depends_on) t.id t tasks ranked found)
          free good deps)

  pub has_cycle-Extends : (n : ℕ) → Call n (has_cycle tasks n)
  unfolding has_cycle
  has_cycle-Extends zero k v s order known room good free =
      omega (arith, unvisited-set_add k v tasks known free)
  has_cycle-Extends (suc n) k v s order known room good free =
      let (t, found, same) = found-mem k tasks known in
      subst (λ x. Extends tasks v s order (x ∷ []) (has_cycle tasks (suc n) x v s)) same
        (has_cycle-round n t v s order (has_cycle-Extends n) (rw same found) (rw same known) room
          good (rw same free))

  outcome :
      Extends tasks [] [] []
        (ids tasks)
        (walk (visit_root (has_cycle tasks (length tasks))) (ids tasks) [] [])
  outcome =
      walk-Extends tasks (length tasks) (visit_root (has_cycle tasks (length tasks))) []
        (λ d v o i r g.
          visit_root-Extends tasks (has_cycle tasks (length tasks)) d v o g
            (has_cycle-Extends (length tasks) d v [] o i r g))
        (ids tasks) [] [] (all_mem (ids tasks) (ids tasks) (λ x m. m))
        (count_if-le-length (λ t. not (mem t.id [])) tasks) (λ x m. cc, tt, λ x m. m)

-- what the answer of the search makes of the verdict
verdict_exact :
    (tasks : List TaskNode) (r : Search)
    → IsDistinct (ids tasks)
    → Extends tasks [] [] [] (ids tasks) r
    → (verdict r ≡ valid) ↔ ((rank : String → ℕ) × IsRanked rank tasks)
verdict_exact tasks (clear v s) distinct (_, _, (order, topo, _, _, all)) =
    (λ h. (rank_of order, IsTopological-IsRanked tasks order distinct topo all), λ h. refl)
verdict_exact tasks cyclic distinct h = (
  λ e. cc,
  λ (rank, ranked). absurd (
      h rank ranked (
        all_each (λ d. (x : String) → mem x [] ≡ true → rank d < rank x) (ids tasks)
          (λ d x m. cc))),
)
verdict_exact tasks stopped distinct h = absurd h
verdict_exact tasks no_fuel distinct h = absurd h

-- A list of tasks with distinct ids passes the validation exactly when every dependency is a task
-- of the list and the tasks can be ranked such that the rank falls along each dependency, that is,
-- when there is no cycle.
pub validate_exact :
    (tasks : List TaskNode)
    → IsDistinct (ids tasks)
    → (validate_graph tasks ≡ valid)
      ↔ (IsClosed tasks × ((rank : String → ℕ) × IsRanked rank tasks))
unfolding validate_graph
validate_exact tasks distinct =
    let searched = λ (closed : IsClosed tasks).
      verdict_exact tasks (walk (visit_root (has_cycle tasks (length tasks))) (ids tasks) [] [])
        distinct (outcome tasks closed) in
    elim (Option-cases (check_refs (ids tasks) tasks)) [
      | inl e ↦
          let closed =
            IsReferring-IsClosed (ids tasks) tasks ((check_refs_exact (ids tasks) tasks).0 e) in
          rw (validate_graph, e)
            (λ h. (closed, (searched closed).0 h), λ h. (searched closed).1 h.1)
      | inr (v, e) ↦
          rw (validate_graph, e)
            (
              λ h. absurd (check_refs-IsError (ids tasks) tasks valid (e ∙ ap some h)),
              λ (closed, (rank, ranked)). absurd (
                  cc (
                    e,
                    (check_refs_exact (ids tasks) tasks).1
                        (IsRanked-IsReferring rank (ids tasks) tasks closed ranked),
                  )),
            )
    ]

search_total :
    (tasks : List TaskNode) (r : Search)
    → Extends tasks [] [] [] (ids tasks) r
    → verdict r ≢ crashed
search_total tasks (clear v s) _ h = cc
search_total tasks cyclic _ h = cc
search_total tasks stopped none_such h = none_such
search_total tasks no_fuel none_such h = none_such

-- The validation of any list of tasks comes to a verdict: its search never runs out of fuel and
-- never looks for a task that is not in the list.
pub validate_total : (tasks : List TaskNode) → validate_graph tasks ≢ crashed
unfolding validate_graph
validate_total tasks h = elim (Option-cases (check_refs (ids tasks) tasks)) [
  | inr (v, e) ↦
      check_refs-IsError (ids tasks) tasks crashed (e ∙ ap some (rw (validate_graph, e) at h))
  | inl e ↦
      let closed =
        IsReferring-IsClosed (ids tasks) tasks ((check_refs_exact (ids tasks) tasks).0 e) in
      search_total tasks (walk (visit_root (has_cycle tasks (length tasks))) (ids tasks) [] [])
        (outcome tasks closed) (rw (validate_graph, e) at h)
]
