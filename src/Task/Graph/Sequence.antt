-- ===== src/Task/Graph/Sequence.antt =====
-- Lists of tasks in which each task depends on tasks before it.
use hermes_agora.Base.{
  ℕ, String, ◌≡◌, refl, true, ◌||◌, List, [], ◌∷◌, ◌++◌, arith, eq_refl, All, mem, mem-append,
}
use hermes_agora.Task.Graph.{TaskNode, ids}
use hermes_agora.Task.Graph.Order.{
  IsTopological, IsRanked, IsClosed, IsDistinct, IsFound, IsDistinct-IsFound,
  IsTopological-IsRanked, rank_of,
}
use hermes_agora.Task.Graph.Validation.{valid, validate_graph}
use hermes_agora.Task.Graph.Exact.{validate_exact}

-- Each task depends on the given ids and those of the tasks before it.
abbrev pub IsSequential : List String → List TaskNode → Type 0
IsSequential earlier [] = Unit
IsSequential earlier (t ∷ ts) =
    All (λ d. mem d earlier ≡ true) t.depends_on × IsSequential (earlier ++ t.id ∷ []) ts

abbrev IsIn : List String → List String → Type 0
IsIn known = All (λ d. mem d known ≡ true)

IsIn-trans :
    (xs known deps : List String)
    → ((x : String) → mem x xs ≡ true → mem x known ≡ true)
    → IsIn xs deps
    → IsIn known deps
IsIn-trans xs known [] sub h = tt
IsIn-trans xs known (d ∷ deps) sub h = (sub d h.0, IsIn-trans xs known deps sub h.1)

-- the ids of the tasks before the given ones, the last one first
abbrev pile : List String → List TaskNode → List String
pile order [] = order
pile order (t ∷ ts) = pile (t.id ∷ order) ts

mem-pile :
    (x : String) (order : List String) (ts : List TaskNode)
    → (mem x order || mem x (ids ts)) ≡ true
    → mem x (pile order ts) ≡ true
mem-pile x order [] h = ground (arith, h)
mem-pile x order (t ∷ ts) h = mem-pile x (t.id ∷ order) ts (ground (arith, h))

pile-IsTopological :
    (tasks : List TaskNode) (earlier order : List String) (ts : List TaskNode)
    → ((x : String) → mem x earlier ≡ true → mem x order ≡ true)
    → IsTopological tasks order
    → IsFound tasks ts
    → IsSequential earlier ts
    → IsTopological tasks (pile order ts)
pile-IsTopological tasks earlier order [] sub topo found s = topo
pile-IsTopological tasks earlier order (t ∷ ts) sub topo found s =
    pile-IsTopological tasks (earlier ++ t.id ∷ []) (t.id ∷ order) ts
      (λ x m. ground (arith, m, mem-append x earlier (t.id ∷ []), sub x))
      ((t, found.0, IsIn-trans earlier order t.depends_on sub s.0), topo) found.1 s.1

sequential_closed :
    (known earlier : List String) (ts : List TaskNode)
    → ((x : String) → (mem x earlier || mem x (ids ts)) ≡ true → mem x known ≡ true)
    → IsSequential earlier ts
    → All (λ t. IsIn known t.depends_on) ts
sequential_closed known earlier [] sub s = tt
sequential_closed known earlier (t ∷ ts) sub s = (
  IsIn-trans earlier known t.depends_on (λ x m. sub x (ground (arith, m))) s.0,
  sequential_closed known (earlier ++ t.id ∷ []) ts
      (λ x m. sub x (ground (arith, m, mem-append x earlier (t.id ∷ [])))) s.1,
)

all_piled :
    (order : List String) (xs : List String)
    → ((x : String) → mem x xs ≡ true → mem x order ≡ true)
    → IsIn order xs
all_piled order [] h = tt
all_piled order (x ∷ xs) h =
    (h x (rw (eq_refl x) refl), all_piled order xs (λ y m. h y (ground (arith, m))))

-- Such a list, with distinct ids, has no cycle.
pub sequential-IsRanked :
    (tasks : List TaskNode)
    → IsDistinct (ids tasks)
    → IsSequential [] tasks
    → IsClosed tasks × ((rank : String → ℕ) × IsRanked rank tasks)
sequential-IsRanked tasks distinct s =
    let order = pile [] tasks in
    let topo =
      pile-IsTopological tasks [] [] tasks (λ x m. m) tt (IsDistinct-IsFound tasks distinct) s in
    (
      sequential_closed (ids tasks) [] tasks (λ x m. m) s,
      (
        rank_of order,
        IsTopological-IsRanked tasks order distinct topo
            (all_piled order (ids tasks) (mem-pile-all)),
      ),
    )
  where
    mem-pile-all : (x : String) → mem x (ids tasks) ≡ true → mem x (pile [] tasks) ≡ true
    mem-pile-all x m = mem-pile x [] tasks m

pub sequential_valid :
    (tasks : List TaskNode)
    → IsDistinct (ids tasks)
    → IsSequential [] tasks
    → validate_graph tasks ≡ valid
sequential_valid tasks distinct s =
    (validate_exact tasks distinct).1 (sequential-IsRanked tasks distinct s)
