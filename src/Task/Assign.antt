-- ===== src/Task/Assign.antt =====
-- agora/coordinator/task_assign.py: capabilities, round robin, and the assignment of the pending tasks
-- of a graph. A score is a fraction; all scores that are compared have one denominator.
pub mod Picks
pub mod Loads
use hermes_agora.Base.{
  ℕ, zero, suc, ◌+◌, ◌*◌, ◌/◌, ◌%◌, String, ◌≡◌, Bool, true, false, not, ◌&&◌, ◌||◌, Option, none,
  some, List, [], ◌∷◌, ◌++◌, map, ◌==◌, ltb, leb, if◌then◌else◌, length, get_elem?, is_empty, keep,
  all_of, mem, set_update, to_set,
}
use hermes_agora.Base.Dict
use hermes_agora.Base.Dict.{Dict}
use hermes_agora.Task.Status.{
  TaskStatus, pending, assigned, running, done, accepted, rejected, failed, value,
}
use hermes_agora.Task.World.{Agent}
use hermes_agora.Task.Store.{
  Task, get_task, Changes, no_changes, update_task_status, get_agent_task_count,
}
use hermes_agora.Task.Graph.{TaskNode, TaskGraph}

abbrev pub default_max_concurrent : ℕ
default_max_concurrent = 5

pub record Score : Type 0 where
  pub matched : ℕ
  pub wanted : ℕ

-- `len(set(agent_caps) & set(required_caps)) / len(required_caps)`
unfoldable pub capability_match_score : List String → List String → Score
unfolding to_set
capability_match_score agent_caps [] = record { matched = 1; wanted = 2 }
capability_match_score agent_caps (c ∷ required) = record {
  matched = length (keep (λ a. mem a (c ∷ required)) (to_set agent_caps));
  wanted = length (c ∷ required);
}

abbrev at_least : Score → Score → Bool
at_least s t = leb (t.matched * s.wanted) (s.matched * t.wanted)

-- `scored.sort(key=…, reverse=True)`, which keeps the order of equal scores
abbrev insert : Score × Agent → List (Score × Agent) → List (Score × Agent)
insert x [] = x ∷ []
insert x (y ∷ ys) = let rest = insert x ys in if at_least x.0 y.0 then x ∷ y ∷ ys else y ∷ rest

abbrev sort : List (Score × Agent) → List (Score × Agent)
sort [] = []
sort (x ∷ xs) = insert x (sort xs)

unfoldable pub scored : List String → List String → List Agent → List (Score × Agent)
unfolding capability_match_score
scored required online [] = []
scored required online (a ∷ agents) =
    let rest = scored required online agents in
    let score = capability_match_score a.capabilities required in
    if mem a.agent_id online && ltb 0 score.matched then (score, a) ∷ rest else rest

-- `_find_capable_agents`
unfoldable pub capable_agents : List String → List String → List Agent → List Agent
unfolding scored
capable_agents required online agents = map (λ x. x.1) (sort (scored required online agents))

unfoldable pub find_capable_agents : List String → List String → List Agent → List String
unfolding capable_agents
find_capable_agents required online agents =
    map (λ a. a.agent_id) (capable_agents required online agents)

-- the loop of `_round_robin_pick`, `k` rounds of it; an index below the length is never out of range
unfoldable pub pick_from : List String → Dict ℕ → Dict ℕ → ℕ → ℕ → Option String × ℕ
pick_from candidates loads caps zero rr_index = (none, rr_index)
pick_from candidates loads caps (suc k) rr_index =
    let rest = pick_from candidates loads caps k (suc rr_index) in
    elim (get_elem? candidates (rr_index % length candidates)) [
      | none ↦ rest
      | some agent ↦
          if ltb (Dict.get_or agent 0 loads) (Dict.get_or agent default_max_concurrent caps)
          then (some agent, suc rr_index)
          else rest
    ]

-- `_round_robin_pick`: the agent, and the index after the call
unfoldable pub round_robin_pick : List String → Dict ℕ → Dict ℕ → ℕ → Option String × ℕ
unfolding pick_from
round_robin_pick candidates loads caps rr_index =
    pick_from candidates loads caps (length candidates) rr_index

-- what `assign_tasks` changes
pub record Desk : Type 0 where
  pub rows : List Task
  pub agent_loads : Dict ℕ
  pub rr_index : ℕ
  pub assignments : Dict String
  -- the messages TASK_ASSIGNED, each with its agent and its task
  pub sent : List (String × String)

-- the loads of the candidates that are not known yet
unfoldable pub refresh : List Task → List String → Dict ℕ → Dict ℕ
unfolding get_agent_task_count Dict.get Dict.put
refresh rows [] loads = loads
refresh rows (a ∷ candidates) loads = refresh rows candidates (elim (Dict.get a loads) [
  | none ↦ Dict.put a (get_agent_task_count a true rows) loads
  | some n ↦ loads
])

abbrev pub to_agent : String → Changes
to_agent agent = record no_changes { assigned_to = some agent }

-- `_send_task_assignment`, after the statements that record the choice
abbrev pub give : ℕ → String → TaskNode → Desk → Desk
give now picked task desk = record desk {
  rows = update_task_status now task.id "assigned" (to_agent picked) desk.rows;
  agent_loads = Dict.put picked (Dict.get_or picked 0 desk.agent_loads + 1) desk.agent_loads;
  assignments = Dict.put task.id picked desk.assignments;
  sent = desk.sent ++ (picked, task.id) ∷ [];
}

abbrev pub settle_pick : ℕ → TaskNode → Option String × ℕ → Desk → Desk
settle_pick now task (none, rr) desk = record desk { rr_index = rr }
settle_pick now task (some picked, rr) desk = give now picked task (record desk { rr_index = rr })

-- `picked == old_agent`
abbrev pub is_agent : String → Option String → Bool
is_agent picked none = false
is_agent picked (some old) = picked == old

abbrev pub deps_ready : List String → TaskNode → Bool
deps_ready done_ids task = all_of (λ d. mem d done_ids) task.depends_on

abbrev pub task_ids : List TaskNode → List String
task_ids ts = map (λ t. t.id) ts

abbrev pub is_pending : TaskNode → Bool
is_pending t = value t.status == "pending"

abbrev pub is_done : TaskNode → Bool
is_done t = value t.status == "done" || value t.status == "accepted"

module _ (now : ℕ) (online : List String) (agents : List Agent) where
  -- the body of the loop over the ready tasks
  unfoldable pub assign_task : TaskNode → Desk → Desk
  unfolding find_capable_agents refresh round_robin_pick update_task_status Dict.get Dict.put
  assign_task task desk =
      let candidates = find_capable_agents task.required_capabilities online agents in
      let loads = refresh desk.rows candidates desk.agent_loads in
      settle_pick now task (round_robin_pick candidates loads [] desk.rr_index)
        (record desk { agent_loads = loads })

  unfoldable pub assign_ready : List TaskNode → Desk → Desk
  unfolding assign_task
  assign_ready [] desk = desk
  assign_ready (t ∷ ready) desk = assign_ready ready (assign_task t desk)

  -- the loop over the remaining tasks; none if the fuel is used up
  unfoldable pub assign_rounds : ℕ → List String → List TaskNode → Desk → Option Desk
  unfolding assign_ready set_update
  assign_rounds n done_ids [] desk = some desk
  assign_rounds zero done_ids (t ∷ remaining) desk = none
  assign_rounds (suc n) done_ids (t ∷ remaining) desk =
      let ready = keep (deps_ready done_ids) (t ∷ remaining) in
      let rest =
        assign_rounds n (set_update done_ids (task_ids ready))
          (keep (λ u. not (deps_ready done_ids u)) (t ∷ remaining)) (assign_ready ready desk) in
      if is_empty ready then some desk else rest

  -- `assign_tasks`, on the tasks of the graph
  unfoldable pub assign_tasks : List TaskNode → List Task → Option Desk
  unfolding assign_rounds set_update
  assign_tasks tasks rows =
      assign_rounds (length (keep is_pending tasks)) (set_update [] (task_ids (keep is_done tasks)))
        (keep is_pending tasks)
        record { rows = rows; agent_loads = []; rr_index = 0; assignments = []; sent = [] }

  -- `reassign_task`: the agent, the rows and the message; `agent_slots` is empty for None
  unfoldable pub reassign_task :
      String → Dict ℕ → List Task → Option String × List Task × List (String × String)
  unfolding find_capable_agents round_robin_pick update_task_status get_task
  reassign_task task_id agent_slots rows = elim (get_task task_id rows) [
    | none ↦ (none, rows, [])
    | some task ↦
        elim (round_robin_pick (find_capable_agents task.required_capabilities online agents)
          agent_slots [] 0).0 [
            | none ↦ (none, rows, [])
            | some picked ↦ if is_agent picked task.assigned_to then (none, rows, []) else (
              some picked,
              update_task_status now task_id "assigned" (to_agent picked) rows,
              (picked, task_id) ∷ [],
            )
          ]
  ]
