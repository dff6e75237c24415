-- ===== src/Task/Graph/Generate.antt =====
-- agora/coordinator/task_gen: the graph of tasks of a closed motion. The language model, the decoded
-- JSON and the random ids are parameters: an answer is given as it is after `json.loads`, and the ids
-- are taken from a stream at a counter. The prompt is a text for the model and is left out.
use hermes_agora.Base.{
  ℕ, suc, ◌+◌, ◌-◌, String, Bool, true, ◌==◌, Option, none, some, List, [], ◌∷◌, ◌++◌,
  if◌then◌else◌, ltb, length, get_elem?,
}
use hermes_agora.Base.Int.{ℤ, pos, negsuc}
use hermes_agora.Task.Status.{pending}
use hermes_agora.Task.Graph.{TaskNode, TaskGraph}
use hermes_agora.Task.Graph.Validation.{Verdict, valid, crashed, validate_graph}

-- an entry of `action_items`: a text, or a dict with the text that `str` makes of it
pub data Item : Type 0 where
  plain : String → Item
  entry : Option String → Option String → String → Item

abbrev title_of : Item → String
title_of (plain s) = s
title_of (entry (some title) description shown) = title
title_of (entry none description shown) = shown

abbrev description_of : Item → String
description_of (plain s) = ""
description_of (entry title (some description) shown) = description
description_of (entry title none shown) = ""

pub record Motion : Type 0 where
  pub id : String
  pub action_items : List Item

-- a task in the answer of the language model
pub record RawTask : Type 0 where
  pub title : Option String
  pub description : Option String
  pub required_capabilities : Option (List String)
  pub depends_on : List ℤ

pub data Reply : Type 0 where
  failed not_a_list : Reply
  tasks : List RawTask → Reply

-- What a generation returns: none of a graph, a graph, or an exception that it does not catch.
pub data Generated : Type 0 where
  nothing : Generated
  graph : TaskGraph → Generated
  raises : Generated

-- `[prev_id] if prev_id else []`
abbrev pub after : Option String → List String
after none = []
after (some prev) = if prev == "" then [] else prev ∷ []

module _ (uuid4 : ℕ → String) where
  unfoldable pub chain : Motion → String → ℕ → Option String → List Item → List TaskNode
  chain motion graph_id n prev [] = []
  chain motion graph_id n prev (item ∷ items) =
      record {
        id = uuid4 n;
        graph_id = graph_id;
        motion_id = motion.id;
        title = title_of item;
        description = description_of item;
        status = pending;
        assigned_to = none;
        required_capabilities = "code" ∷ [];
        depends_on = after prev;
        artifact_paths = [];
      }
      ∷ chain motion graph_id (suc n) (some (uuid4 n)) items

  -- `heuristic_generate`, with the ids from the `n`-th one on
  unfoldable pub heuristic_generate : Motion → ℕ → TaskGraph
  unfolding chain
  heuristic_generate motion n = record {
    id = uuid4 n;
    motion_id = motion.id;
    tasks = chain motion (uuid4 n) (suc n) none motion.action_items;
  }

-- `j < i`
abbrev pub below : ℤ → ℕ → Bool
below (pos j) i = ltb j i
below (negsuc j) i = true

-- `task_ids[j]`: a negative index counts from the end; none for IndexError
abbrev pub at_index : ℤ → List String → Option String
at_index (pos j) xs = get_elem? xs j
at_index (negsuc j) xs = if ltb j (length xs) then get_elem? xs (length xs - suc j) else none

-- `[task_ids[j] for j in depends_on_indices if j < i]`
unfoldable pub resolve : ℕ → List String → List ℤ → Option (List String)
resolve i task_ids [] = some []
resolve i task_ids (j ∷ js) =
    let rest = resolve i task_ids js in
    if below j i
    then elim (at_index j task_ids) [
      | none ↦ none
      | some d ↦ elim rest [ none ↦ none | some ds ↦ some (d ∷ ds) ]
    ]
    else rest

-- what becomes of the verdict; StopIteration is not caught
abbrev pub or_fallback : Verdict → TaskGraph → TaskGraph → Generated
or_fallback valid g fallback = graph g
or_fallback crashed g fallback = raises
or_fallback _ g fallback = graph fallback

-- what becomes of the answer of the language model
abbrev pub or_validated : Generated → TaskGraph → Generated
or_validated nothing fallback = graph fallback
or_validated (graph g) fallback = or_fallback (validate_graph g.tasks) g fallback
or_validated raises fallback = raises

abbrev pub raw_count : Reply → ℕ
raw_count (tasks raw) = length raw
raw_count _ = 0

-- `TaskNode(…)` in the loop over the answer; `numbered i` is the text f"Task {i}"
abbrev pub node_of : (ℕ → String) → Motion → String → String → ℕ → List String → RawTask → TaskNode
node_of numbered motion graph_id task_id i deps item = record {
  id = task_id;
  graph_id = graph_id;
  motion_id = motion.id;
  title = elim item.title [ none ↦ numbered (suc i) | some t ↦ t ];
  description = elim item.description [ none ↦ "" | some d ↦ d ];
  status = pending;
  assigned_to = none;
  required_capabilities = elim item.required_capabilities [ none ↦ "code" ∷ [] | some c ↦ c ];
  depends_on = deps;
  artifact_paths = [];
}

module _ (uuid4 : ℕ → String) (numbered : ℕ → String) where
  -- the loop over the raw tasks: `i` tasks have the ids `task_ids`
  unfoldable pub nodes :
      Motion → String → ℕ → ℕ → List String → List RawTask → Option (List TaskNode)
  unfolding resolve
  nodes motion graph_id n i task_ids [] = some []
  nodes motion graph_id n i task_ids (item ∷ items) =
      let known = task_ids ++ uuid4 n ∷ [] in
      let rest = nodes motion graph_id (suc n) (suc i) known items in
      elim (resolve i known item.depends_on) [
        | none ↦ none
        | some deps ↦ elim rest [
          | none ↦ none
          | some ts ↦ some (node_of numbered motion graph_id (uuid4 n) i deps item ∷ ts)
        ]
      ]

  -- `_llm_generate`, on the decoded answer
  unfoldable pub llm_generate : Motion → String → ℕ → Reply → Generated
  unfolding nodes
  llm_generate motion graph_id n failed = nothing
  llm_generate motion graph_id n not_a_list = nothing
  llm_generate motion graph_id n (tasks raw) = elim (nodes motion graph_id n 0 [] raw) [
    | none ↦ raises
    | some ts ↦ graph record { id = graph_id; motion_id = motion.id; tasks = ts }
  ]

  -- `generate_task_graph`, with the value of AGORA_TASK_GEN_MODE
  unfoldable pub generate_task_graph : String → Motion → ℕ → Reply → Generated
  unfolding heuristic_generate llm_generate validate_graph
  generate_task_graph mode motion n reply =
      if mode == "heuristic"
      then graph (heuristic_generate uuid4 motion (suc n))
      else let fallback = heuristic_generate uuid4 motion (suc n + raw_count reply) in
        or_validated (llm_generate motion (uuid4 n) (suc n) reply) fallback
