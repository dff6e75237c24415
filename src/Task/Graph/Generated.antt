-- ===== src/Task/Graph/Generated.antt =====
-- The graphs that the generation of task_gen returns.
use hermes_agora.Base.{
  ◌+◌, ◌∙◌, subst, sym, ℕ, zero, suc, ◌<◌, String, ◌≡◌, refl, ap, inl, inr, true, false, Option,
  none, some, List, [], ◌∷◌, ◌++◌, arith, ◌==◌, eq_refl, Bool-cases, Option-cases, text-cases,
  length, All, mem, mem-append,
}
use hermes_agora.Base.Int.{is_negative}
use hermes_agora.Task.Graph.Validation.{
  Verdict, valid, self_dependency, unknown_dependency, cycle, crashed, validate_graph,
}
use hermes_agora.Task.Graph.Exact.{validate_exact}
use hermes_agora.Task.Graph.Sequence.{IsSequential, sequential-IsRanked}
use hermes_agora.Task.Graph.{TaskNode, TaskGraph, ids}
use hermes_agora.Task.Graph.Order.{IsRanked, IsClosed, IsDistinct}
use hermes_agora.Task.Graph.Generate.{
  nothing, raises, graph, or_validated, or_fallback, raw_count, generate_task_graph, llm_generate,
  Item, Motion, RawTask, Reply, tasks, failed, not_a_list, Generated, after, chain,
  heuristic_generate, resolve, nodes,
}

-- The dependencies are tasks of the graph, and a rank falls along each of them.
abbrev pub IsAcyclic : List TaskNode → Type 0
IsAcyclic ts = IsClosed ts × ((rank : String → ℕ) × IsRanked rank ts)

-- `uuid4` gives no id twice.
abbrev pub IsFresh : (ℕ → String) → Type 0
IsFresh uuid4 = (i j : ℕ) → uuid4 i ≡ uuid4 j → i ≡ j

module _ (uuid4 : ℕ → String) where
  -- `k` ids from the `n`-th one on
  abbrev pub fresh_ids : ℕ → ℕ → List String
  fresh_ids n zero = []
  fresh_ids n (suc k) = uuid4 n ∷ fresh_ids (suc n) k

  fresh-absent : (i n k : ℕ) → IsFresh uuid4 → i < n → mem (uuid4 i) (fresh_ids n k) ≡ false
  fresh-absent i n zero fresh h = refl
  fresh-absent i n (suc k) fresh h = elim (text-cases (uuid4 i) (uuid4 n)) [
    | inl (_, same) ↦ let e = fresh i n same in absurd (omega arith)
    | inr (e, _) ↦ rw e (fresh-absent i (suc n) k fresh (omega arith))
  ]

  fresh-IsDistinct : (n k : ℕ) → IsFresh uuid4 → IsDistinct (fresh_ids n k)
  fresh-IsDistinct n zero fresh = tt
  fresh-IsDistinct n (suc k) fresh =
      (fresh-absent n (suc n) k fresh (omega arith), fresh-IsDistinct (suc n) k fresh)

  ids-chain :
      (motion : Motion) (g : String) (n : ℕ) (prev : Option String) (items : List Item)
      → ids (chain uuid4 motion g n prev items) ≡ fresh_ids n (length items)
  unfolding chain
  ids-chain motion g n prev [] = refl
  ids-chain motion g n prev (item ∷ items) =
      ap (λ xs. uuid4 n ∷ xs) (ids-chain motion g (suc n) (some (uuid4 n)) items)

  after-known :
      (prev : Option String) (earlier : List String)
      → ((p : String) → prev ≡ some p → mem p earlier ≡ true)
      → All (λ d. mem d earlier ≡ true) (after prev)
  after-known none earlier h = tt
  after-known (some p) earlier h = elim (Bool-cases (p == "")) [
    | inl e ↦ rw e tt
    | inr e ↦ rw e (h p refl, tt)
  ]

  chain-IsSequential :
      (motion : Motion) (g : String) (n : ℕ) (prev : Option String) (earlier : List String)
      → (items : List Item) → ((p : String) → prev ≡ some p → mem p earlier ≡ true)
      → IsSequential earlier (chain uuid4 motion g n prev items)
  unfolding chain
  chain-IsSequential motion g n prev earlier [] h = tt
  chain-IsSequential motion g n prev earlier (item ∷ items) h = (
    after-known prev earlier h,
    chain-IsSequential motion g (suc n) (some (uuid4 n)) (earlier ++ uuid4 n ∷ []) items (λ p e.
        let same : uuid4 n ≡ p = cc in
        rw (mem-append p earlier (uuid4 n ∷ []), same, eq_refl p) (ground arith)),
  )

  heuristic-IsDistinct :
      (motion : Motion) (n : ℕ)
      → IsFresh uuid4
      → IsDistinct (ids (heuristic_generate uuid4 motion n).tasks)
  unfolding heuristic_generate
  heuristic-IsDistinct motion n fresh =
      rw (ids-chain motion (uuid4 n) (suc n) none motion.action_items)
        (fresh-IsDistinct (suc n) (length motion.action_items) fresh)

  heuristic-IsRanked :
      (motion : Motion) (n : ℕ)
      → IsFresh uuid4
      → let ts = (heuristic_generate uuid4 motion n).tasks in
        IsClosed ts × ((rank : String → ℕ) × IsRanked rank ts)
  unfolding heuristic_generate
  heuristic-IsRanked motion n fresh =
      sequential-IsRanked (heuristic_generate uuid4 motion n).tasks
        (heuristic-IsDistinct motion n fresh)
        (chain-IsSequential motion (uuid4 n) (suc n) none [] motion.action_items (λ p e. cc))

abbrev ids_of : Option (List TaskNode) → List String
ids_of none = []
ids_of (some ts) = ids ts

abbrev made_tasks : Generated → List TaskNode
made_tasks (graph g) = g.tasks
made_tasks _ = []

-- A raw task that counts no index from the end.
abbrev pub IsForward : RawTask → Type 0
IsForward r = All (λ j. is_negative j ≡ false) r.depends_on

module _ (uuid4 : ℕ → String) (numbered : ℕ → String) where
  -- what the loop over the raw tasks returns has the next ids
  ids-nodes :
      (motion : Motion) (g : String) (n i : ℕ) (known : List String) (raw : List RawTask)
      → (ts : List TaskNode) → nodes uuid4 numbered motion g n i known raw ≡ some ts
      → ids ts ≡ fresh_ids uuid4 n (length raw)
  unfolding nodes
  ids-nodes motion g n i known [] ts e = sym (ap ids_of e)
  ids-nodes motion g n i known (item ∷ raw) ts e =
      elim (Option-cases (resolve i (known ++ uuid4 n ∷ []) item.depends_on)) [
        | inl f ↦ absurd (cc (rw (nodes, f) at e))
        | inr (deps, f) ↦
            elim (Option-cases
              (nodes uuid4 numbered motion g (suc n) (suc i) (known ++ uuid4 n ∷ []) raw)) [
                | inl q ↦ absurd (cc (rw (nodes, f, q) at e))
                | inr (rest, q) ↦
                    sym (ap ids_of (rw (nodes, f, q) at e))
                    ∙ ap (λ xs. uuid4 n ∷ xs)
                        (ids-nodes motion g (suc n) (suc i) (known ++ uuid4 n ∷ []) raw rest q)
              ]
      ]

  llm-IsDistinct :
      (motion : Motion) (g : String) (n : ℕ) (reply : Reply) (made : TaskGraph)
      → IsFresh uuid4
      → llm_generate uuid4 numbered motion g n reply ≡ graph made
      → IsDistinct (ids made.tasks)
  unfolding llm_generate
  llm-IsDistinct motion g n failed made fresh e = absurd (cc e)
  llm-IsDistinct motion g n not_a_list made fresh e = absurd (cc e)
  llm-IsDistinct motion g n (tasks raw) made fresh e =
      elim (Option-cases (nodes uuid4 numbered motion g n 0 [] raw)) [
        | inl f ↦ absurd (cc (rw (llm_generate, f) at e))
        | inr (ts, f) ↦
            let same : ts ≡ made.tasks = ap made_tasks (rw (llm_generate, f) at e) in
            subst (λ x. IsDistinct (ids x)) same
              (rw (ids-nodes motion g n 0 [] raw ts f)
                (fresh-IsDistinct uuid4 n (length raw) fresh))
      ]

  kept_ranked :
      (motion : Motion) (n : ℕ) (made g : TaskGraph) (v : Verdict) (fallback : TaskGraph)
      → validate_graph made.tasks ≡ v
      → IsDistinct (ids made.tasks)
      → IsAcyclic fallback.tasks
      → or_fallback v made fallback ≡ graph g
      → IsAcyclic g.tasks
  kept_ranked motion n made g valid fallback e distinct back h =
      let same : made ≡ g = cc h in
      subst (λ x. IsAcyclic x.tasks) same ((validate_exact made.tasks distinct).0 e)
  kept_ranked motion n made g crashed fallback e distinct back h = absurd (cc h)
  kept_ranked motion n made g (self_dependency t) fallback e distinct back h =
      let same : fallback ≡ g = cc h in subst (λ x. IsAcyclic x.tasks) same back
  kept_ranked motion n made g (unknown_dependency t d) fallback e distinct back h =
      let same : fallback ≡ g = cc h in subst (λ x. IsAcyclic x.tasks) same back
  kept_ranked motion n made g cycle fallback e distinct back h =
      let same : fallback ≡ g = cc h in subst (λ x. IsAcyclic x.tasks) same back

  answered_ranked :
      (motion : Motion) (n : ℕ) (reply : Reply) (a : Generated) (g fallback : TaskGraph)
      → IsFresh uuid4
      → llm_generate uuid4 numbered motion (uuid4 n) (suc n) reply ≡ a
      → IsAcyclic fallback.tasks
      → or_validated a fallback ≡ graph g
      → IsAcyclic g.tasks
  answered_ranked motion n reply nothing g fallback fresh e back h =
      let same : fallback ≡ g = cc h in subst (λ x. IsAcyclic x.tasks) same back
  answered_ranked motion n reply (graph made) g fallback fresh e back h =
      kept_ranked motion n made g (validate_graph made.tasks) fallback refl
        (llm-IsDistinct motion (uuid4 n) (suc n) reply made fresh e) back h
  answered_ranked motion n reply raises g fallback fresh e back h = absurd (cc h)

  -- Where no id is given twice, whatever the language model answers and in every mode: a graph
  -- that the generation returns has no cycle, and each dependency is a task of it.
  pub generated-IsAcyclic :
      (mode : String) (motion : Motion) (n : ℕ) (reply : Reply) (g : TaskGraph)
      → IsFresh uuid4
      → generate_task_graph uuid4 numbered mode motion n reply ≡ graph g
      → IsAcyclic g.tasks
  unfolding generate_task_graph
  generated-IsAcyclic mode motion n reply g fresh e = elim (Bool-cases (mode == "heuristic")) [
    | inl t ↦
        let same : heuristic_generate uuid4 motion (suc n) ≡ g =
          cc (rw (generate_task_graph, t) at e) in
        subst (λ x. IsAcyclic x.tasks) same (heuristic-IsRanked uuid4 motion (suc n) fresh)
    | inr t ↦
        answered_ranked motion n reply (llm_generate uuid4 numbered motion (uuid4 n) (suc n) reply)
          g (heuristic_generate uuid4 motion (suc n + raw_count reply)) fresh refl
          (heuristic-IsRanked uuid4 motion (suc n + raw_count reply) fresh)
          (rw (generate_task_graph, t) at e)
  ]
