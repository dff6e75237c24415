-- ===== src/Task/Assign/Loads.antt =====
-- The loads of the agents during an assignment of task_assign.py.
use hermes_agora.Base.{
  zero, set_update, not, keep, ◌∙◌, is_empty, length, Bool, ◌+◌, eq_refl, ◌<◌, false≢true, ℕ, suc,
  ◌≤◌, max, String, ◌≡◌, refl, ap, inl, inr, true, false, Option, none, some, List, [], ◌∷◌, arith,
  ◌==◌, eq_iff, Bool-cases, Option-cases, text-cases, mem,
}
use hermes_agora.Base.Dict
use hermes_agora.Base.Dict.{Dict}
use hermes_agora.Task.Store.{Task, get_task, get_agent_task_count, update_task_status, set_status}
use hermes_agora.Task.Store.Updates.{get_task-update}
use hermes_agora.Task.Graph.{TaskNode}
use hermes_agora.Task.World.{Agent}
use hermes_agora.Task.Store.Updates.{HasUniqueIds}
use hermes_agora.Task.Assign.{
  is_pending, is_done, default_max_concurrent, find_capable_agents, round_robin_pick, Desk, refresh,
  to_agent, give, settle_pick, assign_task, assign_ready, deps_ready, task_ids, assign_rounds,
  assign_tasks,
}
use hermes_agora.Task.Assign.Picks.{round_robin_pick_exact}

-- the tasks that an agent has to carry out
abbrev active : String → List Task → ℕ
active a rows = get_agent_task_count a true rows

update-absent :
    (now : ℕ) (k picked : String) (rows : List Task)
    → get_task k rows ≡ none
    → update_task_status now k "assigned" (to_agent picked) rows ≡ rows
unfolding get_task update_task_status
update-absent now k picked [] h = refl
update-absent now k picked (t ∷ rows) h = elim (Bool-cases (t.id == k)) [
  | inl e ↦ absurd (cc (rw (get_task, e) at h))
  | inr e ↦ rw e (ap (λ xs. t ∷ xs) (update-absent now k picked rows (rw (get_task, e) at h)))
]

active-other :
    (now : ℕ) (k picked a : String) (rows : List Task)
    → (picked == a) ≡ false
    → active a (update_task_status now k "assigned" (to_agent picked) rows) ≤ active a rows
unfolding get_agent_task_count update_task_status set_status
active-other now k picked a [] h = omega arith
active-other now k picked a (t ∷ rows) h = ground (arith, h, active-other now k picked a rows h)

active-picked :
    (now : ℕ) (k a : String) (rows : List Task)
    → HasUniqueIds rows
    → active a (update_task_status now k "assigned" (to_agent a) rows) ≤ suc (active a rows)
unfolding get_agent_task_count update_task_status set_status
active-picked now k a [] u = omega arith
active-picked now k a (t ∷ rows) u = elim (text-cases t.id k) [
  | inl (e, same) ↦
      let gone = update-absent now k a rows (rw same at u.0) in rw (e, gone) (ground arith)
  | inr (e, _) ↦ rw e (ground (arith, active-picked now k a rows u.1))
]

update-HasUniqueIds :
    (now : ℕ) (k picked : String) (rows : List Task)
    → HasUniqueIds rows
    → HasUniqueIds (update_task_status now k "assigned" (to_agent picked) rows)
unfolding update_task_status set_status
update-HasUniqueIds now k picked [] u = tt
update-HasUniqueIds now k picked (t ∷ rows) u =
    let new : get_task t.id (update_task_status now k "assigned" (to_agent picked) rows) ≡ none =
      rw (get_task-update now k t.id "assigned" (to_agent picked) rows, u.0) refl in
    elim (Bool-cases (t.id == k)) [
      | inl e ↦ rw e (new, update-HasUniqueIds now k picked rows u.1)
      | inr e ↦ rw e (new, update-HasUniqueIds now k picked rows u.1)
    ]

-- The tasks of an agent stay within its capacity `5`, or within what it had; its load, where it is
-- known, is no less than its tasks.
abbrev Within : ℕ → ℕ → Option ℕ → Type 0
Within base n none = n ≤ base
Within base n (some l) = (n ≤ l) × (l ≤ max default_max_concurrent base)

abbrev IsWithin : String → ℕ → Desk → Type 0
IsWithin a base desk =
    HasUniqueIds desk.rows × Within base (active a desk.rows) (Dict.get a desk.agent_loads)

Within-refresh :
    (a : String) (base : ℕ) (rows : List Task) (cs : List String) (loads : Dict ℕ)
    → Within base (active a rows) (Dict.get a loads)
    → Within base (active a rows) (Dict.get a (refresh rows cs loads))
unfolding refresh
Within-refresh a base rows [] loads h = h
Within-refresh a base rows (c ∷ cs) loads h = elim (Option-cases (Dict.get c loads)) [
  | inr (n, e) ↦ rw e (Within-refresh a base rows cs loads h)
  | inl e ↦ rw e (
      Within-refresh a base rows cs (Dict.put c (get_agent_task_count c true rows) loads)
        (elim (text-cases c a) [
          | inr (f, _) ↦ rw (Dict.get-put c a (get_agent_task_count c true rows) loads, f) h
          | inl (f, same) ↦
              let free : Dict.get a loads ≡ none = rw same at e in
              let low : active a rows ≤ base = rw free at h in
              let equal : get_agent_task_count c true rows ≡ active a rows = rw same refl in
              rw (Dict.get-put c a (get_agent_task_count c true rows) loads, f, equal)
                (omega arith, omega (arith, low))
        ]))
]

refresh-known :
    (rows : List Task) (c : String) (n : ℕ) (cs : List String) (loads : Dict ℕ)
    → Dict.get c loads ≡ some n
    → Dict.get c (refresh rows cs loads) ≡ some n
unfolding refresh
refresh-known rows c n [] loads h = h
refresh-known rows c n (d ∷ cs) loads h = elim (Option-cases (Dict.get d loads)) [
  | inr (m, e) ↦ rw e (refresh-known rows c n cs loads h)
  | inl e ↦ rw e (
      refresh-known rows c n cs (Dict.put d (get_agent_task_count d true rows) loads) (
        rw (Dict.get-put d c (get_agent_task_count d true rows) loads)
          (ground (arith, eq_iff d c, h, e))))
]

refresh-mem :
    (rows : List Task) (c : String) (cs : List String) (loads : Dict ℕ)
    → mem c cs ≡ true
    → (n : ℕ) × (Dict.get c (refresh rows cs loads) ≡ some n)
unfolding refresh
refresh-mem rows c [] loads m = absurd (false≢true m)
refresh-mem rows c (d ∷ cs) loads m = elim (Option-cases (Dict.get d loads)) [
  | inr (n, e) ↦ rw e (elim (text-cases c d) [
    | inl (_, same) ↦ (n, refresh-known rows c n cs loads (rw same e))
    | inr (f, _) ↦ refresh-mem rows c cs loads (rw f at m)
  ])
  | inl e ↦
      let n = get_agent_task_count d true rows in
      rw e (elim (text-cases c d) [
        | inl (_, same) ↦ (
          n,
          refresh-known rows c n cs (Dict.put d n loads)
              (rw (same, Dict.get-put d d n loads, eq_refl d) refl),
        )
        | inr (f, _) ↦ refresh-mem rows c cs (Dict.put d n loads) (rw f at m)
      ])
]

Within-mono : (base m n : ℕ) (o : Option ℕ) → m ≤ n → Within base n o → Within base m o
Within-mono base m n none l h = omega (arith, l, h)
Within-mono base m n (some k) l h = (omega (arith, l, h.0), h.1)

Within-le : (base n : ℕ) (o : Option ℕ) → Within base n o → n ≤ max default_max_concurrent base
Within-le base n none h = omega (arith, h)
Within-le base n (some l) h = omega (arith, h.0, h.1)

-- An agent that is picked has fewer tasks than its capacity.
IsWithin-give :
    (now : ℕ) (a : String) (base : ℕ) (picked : String) (task : TaskNode) (desk : Desk) (n : ℕ)
    → Dict.get picked desk.agent_loads ≡ some n
    → n < default_max_concurrent
    → IsWithin a base desk
    → IsWithin a base (give now picked task desk)
IsWithin-give now a base picked task desk n known small (unique, h) =
    let kept = update-HasUniqueIds now task.id picked desk.rows unique in
    let put = Dict.get-put picked a (Dict.get_or picked 0 desk.agent_loads + 1) desk.agent_loads in
    elim (text-cases picked a) [
      | inr (e, _) ↦ (
        kept,
        rw (put, e)
            (Within-mono base
              (active a (update_task_status now task.id "assigned" (to_agent picked) desk.rows))
              (active a desk.rows) (Dict.get a desk.agent_loads)
              (active-other now task.id picked a desk.rows e) h),
      )
      | inl (e, same) ↦
          let at_a : Dict.get a desk.agent_loads ≡ some n = rw same at known in
          let held : Within base (active a desk.rows) (some n) = rw at_a at h in
          let one_more = active-picked now task.id a desk.rows unique in
          let count : Dict.get_or picked 0 desk.agent_loads ≡ n =
            ap (λ (o : Option ℕ). elim o [ none ↦ 0 | some w ↦ w ]) known in
          let raised : Dict.get a (give now picked task desk).agent_loads ≡ some (n + 1) =
            put ∙ rw (e, count) refl in
          (kept, rw (raised, same) (omega (arith, one_more, held.0), omega (arith, small)))
    ]

IsWithin-settle :
    (now : ℕ) (a : String) (base : ℕ) (task : TaskNode) (desk : Desk) (r : Option String × ℕ)
    → ((b : String)
        → r.0 ≡ some b
        → ((n : ℕ) × (Dict.get b desk.agent_loads ≡ some n))
          × (Dict.get_or b 0 desk.agent_loads < default_max_concurrent))
    → IsWithin a base desk
    → IsWithin a base (settle_pick now task r desk)
IsWithin-settle now a base task desk (none, rr) picks h = h
IsWithin-settle now a base task desk (some picked, rr) picks h =
    let ((n, known), small) = picks picked refl in
    let count : Dict.get_or picked 0 desk.agent_loads ≡ n =
      ap (λ (o : Option ℕ). elim o [ none ↦ 0 | some w ↦ w ]) known in
    IsWithin-give now a base picked task (record desk { rr_index = rr }) n known
      (omega (arith, small, count)) h

-- The conclusion on one task, on the ready ones, and on all rounds.
abbrev Keeps : Desk → Desk → Type 0
Keeps before after = (a : String) (base : ℕ) → IsWithin a base before → IsWithin a base after

length-split :
    (p : TaskNode → Bool) (xs : List TaskNode)
    → length (keep p xs) + length (keep (λ u. not (p u)) xs) ≡ length xs
length-split p [] = refl
length-split p (x ∷ xs) = ground (arith, length-split p xs)

not_empty : (xs : List TaskNode) → is_empty xs ≡ false → 0 < length xs
not_empty [] h = cc
not_empty (x ∷ xs) h = omega arith

module _ (now : ℕ) (online : List String) (agents : List Agent) where
  assign_task-Keeps :
      (task : TaskNode) (desk : Desk) → Keeps desk (assign_task now online agents task desk)
  unfolding assign_task
  assign_task-Keeps task desk a base (unique, h) =
      let candidates = find_capable_agents task.required_capabilities online agents in
      let loads = refresh desk.rows candidates desk.agent_loads in
      let picks = (round_robin_pick_exact candidates loads [] desk.rr_index).1 in
      IsWithin-settle now a base task (record desk { agent_loads = loads })
        (round_robin_pick candidates loads [] desk.rr_index)
        (λ b e.
          let (m, small) = picks b e in
          (refresh-mem desk.rows b candidates desk.agent_loads m, small))
        (unique, Within-refresh a base desk.rows candidates desk.agent_loads h)

  assign_ready-Keeps :
      (ready : List TaskNode) (desk : Desk) → Keeps desk (assign_ready now online agents ready desk)
  unfolding assign_ready
  assign_ready-Keeps [] desk a base h = h
  assign_ready-Keeps (t ∷ ready) desk a base h =
      assign_ready-Keeps ready (assign_task now online agents t desk) a base
        (assign_task-Keeps t desk a base h)

  rounds-Keeps :
      (n : ℕ) (done_ids : List String) (remaining : List TaskNode) (desk : Desk)
      → length remaining ≤ n
      → (after : Desk) × (assign_rounds now online agents n done_ids remaining desk ≡ some after)
        × Keeps desk after
  unfolding assign_rounds
  rounds-Keeps n done_ids [] desk h = (desk, refl, λ a base w. w)
  rounds-Keeps zero done_ids (t ∷ remaining) desk h = absurd (omega (arith, h))
  rounds-Keeps (suc n) done_ids (t ∷ remaining) desk h =
      let test = deps_ready done_ids in
      let ready = keep test (t ∷ remaining) in
      let later = keep (λ u. not (test u)) (t ∷ remaining) in
      elim (Bool-cases (is_empty ready)) [
        | inl e ↦ (desk, rw (assign_rounds, e) refl, λ a base w. w)
        | inr e ↦
            let fewer : length later ≤ n =
              omega (arith, h, not_empty ready e, length-split test (t ∷ remaining)) in
            let (after, same, kept) =
              rounds-Keeps n (set_update done_ids (task_ids ready)) later
                (assign_ready now online agents ready desk) fewer in
            (
              after,
              rw (assign_rounds, e) same,
              λ a base w. kept a base (assign_ready-Keeps ready desk a base w),
            )
      ]

  -- Where the rows have unique ids, the assignment of the pending tasks comes to an end, and then
  -- no agent has more assigned or running tasks than five, or than it had before.
  pub assign_tasks_within :
      (tasks : List TaskNode) (rows : List Task)
      → HasUniqueIds rows
      → (desk : Desk) × (assign_tasks now online agents tasks rows ≡ some desk)
        × ((a : String)
            → get_agent_task_count a true desk.rows
              ≤ max default_max_concurrent (get_agent_task_count a true rows))
  unfolding assign_tasks Dict.get
  assign_tasks_within tasks rows unique =
      let start : Desk = record {
        rows = rows;
        agent_loads = [];
        rr_index = 0;
        assignments = [];
        sent = [];
      } in
      let waiting = keep is_pending tasks in
      let (after, same, kept) =
        rounds-Keeps (length waiting) (set_update [] (task_ids (keep is_done tasks))) waiting start
          (omega arith) in
      (
        after,
        same,
        λ a.
            Within-le (active a rows) (active a after.rows) (Dict.get a after.agent_loads)
              (kept a (active a rows) (unique, omega arith)).1,
      )
