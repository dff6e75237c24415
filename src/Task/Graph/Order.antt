-- ===== src/Task/Graph/Order.antt =====
-- Orders of a task graph in which each task comes before what it depends on, and ranks.
use hermes_agora.Base.{
  refl, suc, eq_refl, if◌then◌else◌, subst, eq_iff, inr, ◌==◌, length, inl, ◌≤◌, arith, false,
  Bool-cases, ℕ, ◌<◌, String, ◌≡◌, true, some, List, [], ◌∷◌, mem, All,
}
use hermes_agora.Task.Graph.{ids, TaskNode, find_task}

-- the task is known, and all that it depends on stands in the list
abbrev pub IsBefore : List TaskNode → String → List String → Type 0
IsBefore tasks x rest =
    (t : TaskNode) × (find_task x tasks ≡ some t) × All (λ d. mem d rest ≡ true) t.depends_on

abbrev pub IsTopological : List TaskNode → List String → Type 0
IsTopological tasks [] = Unit
IsTopological tasks (x ∷ rest) = IsBefore tasks x rest × IsTopological tasks rest

-- The rank falls along each dependency: there is no cycle.
abbrev pub IsRanked : (String → ℕ) → List TaskNode → Type 0
IsRanked rank tasks = All (λ t. All (λ d. rank d < rank t.id) t.depends_on) tasks

-- Every dependency is a task of the list.
abbrev pub IsClosed : List TaskNode → Type 0
IsClosed tasks = All (λ t. All (λ d. mem d (ids tasks) ≡ true) t.depends_on) tasks

abbrev pub IsDistinct : List String → Type 0
IsDistinct [] = Unit
IsDistinct (x ∷ xs) = (mem x xs ≡ false) × IsDistinct xs

-- the number of the ids from the last one that is `x` on
abbrev pub rank_of : List String → String → ℕ
rank_of [] x = 0
rank_of (y ∷ rest) x =
    let later = rank_of rest x in
    if mem x rest then later else (if x == y then suc (length rest) else 0)

rank_of-le : (order : List String) (x : String) → rank_of order x ≤ length order
rank_of-le [] x = omega arith
rank_of-le (y ∷ rest) x = ground (arith, rank_of-le rest x)

deps-rank :
    (y x : String) (rest deps : List String)
    → mem x rest ≡ false
    → (x == y) ≡ true
    → All (λ d. mem d rest ≡ true) deps
    → All (λ d. (mem d (y ∷ rest) ≡ true) × (rank_of (y ∷ rest) d < rank_of (y ∷ rest) x)) deps
deps-rank y x rest [] new e h = tt
deps-rank y x rest (d ∷ deps) new e h =
    (ground (arith, h.0, new, e, rank_of-le rest d), deps-rank y x rest deps new e h.1)

deps-later :
    (y x : String) (rest deps : List String)
    → mem x rest ≡ true
    → All (λ d. (mem d rest ≡ true) × (rank_of rest d < rank_of rest x)) deps
    → All (λ d. (mem d (y ∷ rest) ≡ true) × (rank_of (y ∷ rest) d < rank_of (y ∷ rest) x)) deps
deps-later y x rest [] old h = tt
deps-later y x rest (d ∷ deps) old h = (ground (arith, h.0, old), deps-later y x rest deps old h.1)

-- In a topological order the rank falls from each task to what it depends on.
rank_of-IsTopological :
    (tasks : List TaskNode) (order : List String) (x : String) (t : TaskNode)
    → IsTopological tasks order
    → mem x order ≡ true
    → find_task x tasks ≡ some t
    → All (λ d. (mem d order ≡ true) × (rank_of order d < rank_of order x)) t.depends_on
rank_of-IsTopological tasks [] x t topo m found = cc
rank_of-IsTopological tasks (y ∷ rest) x t ((u, at, all), topo) m found =
    elim (Bool-cases (mem x rest)) [
      | inl old ↦
          deps-later y x rest t.depends_on old (rank_of-IsTopological tasks rest x t topo old found)
      | inr new ↦
          let e : (x == y) ≡ true = ground (arith, m, new) in
          let same : x ≡ y = (eq_iff x y).0 e in
          let one : u ≡ t = cc in
          deps-rank y x rest t.depends_on new e
            (subst (λ w. All (λ d. mem d rest ≡ true) w.depends_on) one all)
    ]

-- Each task is the one that its id finds.
abbrev pub IsFound : List TaskNode → List TaskNode → Type 0
IsFound tasks = All (λ t. find_task t.id tasks ≡ some t)

IsFound-cons :
    (u : TaskNode) (tasks some_tasks : List TaskNode)
    → mem u.id (ids some_tasks) ≡ false
    → IsFound tasks some_tasks
    → IsFound (u ∷ tasks) some_tasks
unfolding find_task
IsFound-cons u tasks [] new h = tt
IsFound-cons u tasks (t ∷ rest) new h = (
  ground (arith, h.0, new, eq_iff u.id t.id),
  IsFound-cons u tasks rest (ground (arith, new)) h.1,
)

pub IsDistinct-IsFound : (tasks : List TaskNode) → IsDistinct (ids tasks) → IsFound tasks tasks
unfolding find_task
IsDistinct-IsFound [] h = tt
IsDistinct-IsFound (t ∷ tasks) h =
    (rw (eq_refl t.id) refl, IsFound-cons t tasks tasks h.0 (IsDistinct-IsFound tasks h.1))

All-weaken :
    (order : List String) (x : String) (deps : List String)
    → All (λ d. (mem d order ≡ true) × (rank_of order d < rank_of order x)) deps
    → All (λ d. rank_of order d < rank_of order x) deps
All-weaken order x [] h = tt
All-weaken order x (d ∷ deps) h = (h.0.1, All-weaken order x deps h.1)

IsRanked-from :
    (tasks ts : List TaskNode) (order : List String)
    → IsTopological tasks order
    → IsFound tasks ts
    → All (λ d. mem d order ≡ true) (ids ts)
    → IsRanked (rank_of order) ts
IsRanked-from tasks [] order topo found m = tt
IsRanked-from tasks (t ∷ ts) order topo found m = (
  All-weaken order t.id t.depends_on (rank_of-IsTopological tasks order t.id t topo m.0 found.0),
  IsRanked-from tasks ts order topo found.1 m.1,
)

-- A topological order of all tasks ranks them, when no two tasks have one id.
pub IsTopological-IsRanked :
    (tasks : List TaskNode) (order : List String)
    → IsDistinct (ids tasks)
    → IsTopological tasks order
    → All (λ d. mem d order ≡ true) (ids tasks)
    → IsRanked (rank_of order) tasks
IsTopological-IsRanked tasks order distinct topo m =
    IsRanked-from tasks tasks order topo (IsDistinct-IsFound tasks distinct) m
