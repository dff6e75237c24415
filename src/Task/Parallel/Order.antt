-- ===== src/Task/Parallel/Order.antt =====
-- What is in the queue of the coordinator, and what starting and finishing a task makes of it.
use hermes_agora.Base.{
  subst, ℕ, String, ◌≡◌, refl, ap, ◌⊎◌, inl, inr, Bool, true, not, ◌&&◌, Option, none, some, List,
  [], ◌∷◌, ◌++◌, arith, ◌==◌, Bool-cases, text-cases, is_empty, All, all_of, mem,
}
use hermes_agora.Task.Graph.{TaskNode, find_task, ids}
use hermes_agora.Task.Graph.Order.{IsDistinct, IsFound}
use hermes_agora.Task.Assign.{is_pending}
use hermes_agora.Task.Parallel.{Coordinator, enqueue, dequeue, is_before, mark_assigned}
use hermes_agora.Task.Parallel.Run.{deps_met, requeue, first_queue}

abbrev pub deps_in : Option TaskNode → List String
deps_in none = []
deps_in (some t) = t.depends_on

abbrev pub deps_of : String → List TaskNode → List String
deps_of k tasks = deps_in (find_task k tasks)

abbrev pub met : List String → List String → Bool
met completed deps = all_of (λ d. mem d completed) deps

-- A task that is not pending has its dependencies completed.
abbrev pub IsStartedInOrder : List String → List TaskNode → Type 0
IsStartedInOrder completed = All (λ t. (is_pending t ≡ true) ⊎ (deps_met completed t ≡ true))

abbrev pub IsQueued : List String → List TaskNode → List (ℕ × String) → Type 0
IsQueued completed tasks = All (λ q. met completed (deps_of q.1 tasks) ≡ true)

abbrev pub IsOrdered : Coordinator → Type 0
IsOrdered c =
    IsDistinct (ids c.graph_tasks)
    × IsStartedInOrder c.completed c.graph_tasks
    × IsQueued c.completed c.graph_tasks c.runqueue

pub deps_of-mark_assigned :
    (j k agent : String) (tasks : List TaskNode)
    → deps_of j (mark_assigned k agent tasks) ≡ deps_of j tasks
unfolding find_task mark_assigned
deps_of-mark_assigned j k agent [] = refl
deps_of-mark_assigned j k agent (t ∷ tasks) = elim (Bool-cases (t.id == k)) [
  | inl e ↦ elim (Bool-cases (t.id == j)) [
    | inl f ↦ rw (e, f) refl
    | inr f ↦ rw (e, f) (deps_of-mark_assigned j k agent tasks)
  ]
  | inr e ↦ elim (Bool-cases (t.id == j)) [
    | inl f ↦ rw (e, f) refl
    | inr f ↦ rw (e, f) (deps_of-mark_assigned j k agent tasks)
  ]
]

pub ids-mark_assigned :
    (k agent : String) (tasks : List TaskNode) → ids (mark_assigned k agent tasks) ≡ ids tasks
unfolding mark_assigned
ids-mark_assigned k agent [] = refl
ids-mark_assigned k agent (t ∷ tasks) = elim (Bool-cases (t.id == k)) [
  | inl e ↦ rw e (ap (λ xs. t.id ∷ xs) (ids-mark_assigned k agent tasks))
  | inr e ↦ rw e (ap (λ xs. t.id ∷ xs) (ids-mark_assigned k agent tasks))
]

pub marked_in_order :
    (completed : List String) (k agent : String) (whole tasks : List TaskNode)
    → met completed (deps_of k whole) ≡ true
    → IsFound whole tasks
    → IsStartedInOrder completed tasks
    → IsStartedInOrder completed (mark_assigned k agent tasks)
unfolding mark_assigned
marked_in_order completed k agent whole [] m found h = tt
marked_in_order completed k agent whole (t ∷ tasks) m found h = elim (text-cases t.id k) [
  | inl (e, same) ↦
      let here : find_task k whole ≡ some t =
        subst (λ x. find_task x whole ≡ some t) same found.0 in
      rw e (inr (rw here at m), marked_in_order completed k agent whole tasks m found.1 h.1)
  | inr (e, _) ↦ rw e (h.0, marked_in_order completed k agent whole tasks m found.1 h.1)
]

pub IsQueued-mark :
    (completed : List String) (k agent : String) (tasks : List TaskNode) (queue : List (ℕ × String))
    → IsQueued completed tasks queue
    → IsQueued completed (mark_assigned k agent tasks) queue
IsQueued-mark completed k agent tasks [] h = tt
IsQueued-mark completed k agent tasks (q ∷ queue) h = (
  rw (deps_of-mark_assigned q.1 k agent tasks) h.0,
  IsQueued-mark completed k agent tasks queue h.1,
)

pub dequeue-All :
    (P : ℕ × String → Type 0) (x : ℕ × String) (ys : List (ℕ × String))
    → P x
    → All P ys
    → P (dequeue x ys).0 × All P (dequeue x ys).1
unfolding dequeue
dequeue-All P x [] p h = (p, tt)
dequeue-All P x (y ∷ ys) p h = elim (Bool-cases (is_before x y)) [
  | inl e ↦ let (least, rest) = dequeue-All P x ys p h.1 in rw e (least, (h.0, rest))
  | inr e ↦ let (least, rest) = dequeue-All P y ys h.0 h.1 in rw e (least, (p, rest))
]

pub append-All :
    (P : ℕ × String → Type 0) (xs : List (ℕ × String)) (y : ℕ × String)
    → All P xs
    → P y
    → All P (xs ++ y ∷ [])
append-All P [] y h p = (p, tt)
append-All P (x ∷ xs) y h p = (h.0, append-All P xs y h.1 p)

pub met-grows :
    (completed later deps : List String)
    → ((x : String) → mem x completed ≡ true → mem x later ≡ true)
    → met completed deps ≡ true
    → met later deps ≡ true
met-grows completed later [] sub h = refl
met-grows completed later (d ∷ deps) sub h =
    ground (arith, sub d, met-grows completed later deps sub)

pub requeue-IsQueued :
    (completed failed : List String) (whole tasks : List TaskNode) (queue : List (ℕ × String))
    → IsFound whole tasks
    → IsQueued completed whole queue
    → IsQueued completed whole (requeue completed failed tasks queue)
unfolding requeue
requeue-IsQueued completed failed whole [] queue found h = h
requeue-IsQueued completed failed whole (t ∷ tasks) queue found h =
    elim (Bool-cases (
      not (mem t.id completed)
      && (not (mem t.id failed) && (is_pending t && deps_met completed t)))) [
        | inr e ↦ rw e (requeue-IsQueued completed failed whole tasks queue found.1 h)
        | inl e ↦ rw e (
            requeue-IsQueued completed failed whole tasks (enqueue t queue) found.1 (
              append-All (λ q. met completed (deps_of q.1 whole) ≡ true) queue (2, t.id) h
                (rw found.0 (ground (arith, e)))))
      ]

pub first_queue-IsQueued :
    (completed : List String) (whole tasks : List TaskNode) (queue : List (ℕ × String))
    → IsFound whole tasks
    → IsQueued completed whole queue
    → IsQueued completed whole (first_queue tasks queue)
unfolding first_queue
first_queue-IsQueued completed whole [] queue found h = h
first_queue-IsQueued completed whole (t ∷ tasks) queue found h =
    elim (Bool-cases (is_empty t.depends_on)) [
      | inr e ↦ rw e (first_queue-IsQueued completed whole tasks queue found.1 h)
      | inl e ↦ rw e (
          first_queue-IsQueued completed whole tasks (enqueue t queue) found.1 (
            append-All (λ q. met completed (deps_of q.1 whole) ≡ true) queue (2, t.id) h
              (rw found.0 (met_empty completed t.depends_on e))))
    ]
  where
    met_empty : (completed deps : List String) → is_empty deps ≡ true → met completed deps ≡ true
    met_empty completed [] h = refl
    met_empty completed (d ∷ deps) h = cc
