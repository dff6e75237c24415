-- ===== src/Smart/Deadlock.antt =====
-- agora/coordinator/deadlock_prevention.py: the references between the names of a discussion. The order
-- in which a Python set is walked is that of insertion here: another order only changes the order of
-- the risks. A pair of names is visited once, since its first name is the smaller, so that the set
-- `seen` of the source skips nothing and is left out.
pub mod Risks
use Prim.Native.Nat.{Ordering}
use Prim.Native.String.{compare}
use hermes_agora.Base.{
  ℕ, zero, suc, ◌+◌, ◌*◌, ◌<◌, String, ◌≡◌, Bool, true, false, not, ◌&&◌, List, [], ◌∷◌, ◌++◌, map,
  ◌==◌, leb, if◌then◌else◌, length, mem, to_set,
}
use hermes_agora.Base.Dict
use hermes_agora.Base.Dict.{Dict}

pub data DeadlockStatus : Type 0 where
  clear warning deadlock : DeadlockStatus

-- `ref_count`, keyed by a pair
abbrev pub RefCount : Type 0
RefCount = List ((String × String) × ℕ)

pub record Edge : Type 0 where
  pub to : String
  pub message_id : String

pub record Detector : Type 0 where
  pub edges : Dict (List Edge)
  pub ref_count : RefCount
  pub window : ℕ

abbrev pub new_detector : Detector
new_detector = record { edges = []; ref_count = []; window = 5 }

unfoldable pub add_edge : String → String → String → Dict (List Edge) → Dict (List Edge)
unfolding Dict.put Dict.get
add_edge from to message_id edges =
    Dict.put from (Dict.get_or from [] edges ++ record { to = to; message_id = message_id } ∷ [])
      edges

abbrev pub is_pair : String → String → String × String → Bool
is_pair a b p = p.0 == a && p.1 == b

-- `ref_count[(a, b)] += 1`
unfoldable pub bump_ref : String → String → RefCount → RefCount
bump_ref a b [] = ((a, b), 1) ∷ []
bump_ref a b ((p, n) ∷ refs) =
    let rest = bump_ref a b refs in if is_pair a b p then (p, suc n) ∷ refs else (p, n) ∷ rest

-- `ref_count.get((a, b), 0)`
unfoldable pub ref_count_of : String → String → RefCount → ℕ
ref_count_of a b [] = 0
ref_count_of a b ((p, n) ∷ refs) = if is_pair a b p then n else ref_count_of a b refs

unfoldable pub track_reference : String → String → String → Detector → Detector
unfolding add_edge bump_ref
track_reference from to message_id d = record d {
  edges = add_edge from to message_id d.edges;
  ref_count = bump_ref from to d.ref_count;
}

unfoldable pub check_circular : String → String → ℕ → RefCount → DeadlockStatus
unfolding ref_count_of
check_circular a b window refs =
    let total = ref_count_of a b refs + ref_count_of b a refs in
    if leb (window * 2) total then deadlock else if leb window total then warning else clear

-- `a < b` on texts
abbrev pub before : String → String → Bool
before a b = elim (compare a b) [ Ordering.lt ↦ true | _ ↦ false ]

pub record Risk : Type 0 where
  pub one : String
  pub other : String
  pub status : DeadlockStatus

abbrev pub is_clear : DeadlockStatus → Bool
is_clear clear = true
is_clear _ = false

abbrev pub is_dead : DeadlockStatus → Bool
is_dead deadlock = true
is_dead _ = false

-- the inner loop
unfoldable pub risks_with : String → List String → ℕ → RefCount → List Risk
unfolding check_circular
risks_with a [] window refs = []
risks_with a (b ∷ agents) window refs =
    let rest = risks_with a agents window refs in
    let status = check_circular a b window refs in
    if not (before a b)
    then rest
    else if is_clear status
    then rest
    else record { one = a; other = b; status = status } ∷ rest

unfoldable pub risks_among : (outer agents : List String) → ℕ → RefCount → List Risk
unfolding risks_with
risks_among [] agents window refs = []
risks_among (a ∷ outer) agents window refs =
    risks_with a agents window refs ++ risks_among outer agents window refs

abbrev pub named : RefCount → List String
named refs = to_set (map (λ r. r.0.0) refs ++ map (λ r. r.0.1) refs)

unfoldable pub get_deadlock_risk : Detector → List Risk
unfolding risks_among to_set
get_deadlock_risk d = risks_among (named d.ref_count) (named d.ref_count) d.window d.ref_count

-- the loop of `_dfs` over the edges of a node; the first argument searches from the next node
abbrev pub along :
    (String → List (List String))
    → String
    → (path visited : List String) → List Edge
    → List (List String)
along deeper start path visited [] = []
along deeper start path visited (e ∷ es) =
    let rest = along deeper start path visited es in
    if e.to == start && leb 2 (length path)
    then path ∷ rest
    else if mem e.to visited
    then rest
    else deeper e.to ++ rest

-- `_dfs`, on what the depth leaves: the paths that close to a cycle. Leaving a node takes it out of
-- the visited ones again.
unfoldable pub dfs :
    ℕ → Dict (List Edge) → (node start : String) → (path visited : List String) → List (List String)
unfolding Dict.get
dfs zero edges node start path visited = []
dfs (suc depth) edges node start path visited =
    along (λ next. dfs depth edges next start (path ++ next ∷ []) (next ∷ visited)) start path
      visited (Dict.get_or node [] edges)

abbrev pub cycles_from : ℕ → Dict (List Edge) → Dict (List Edge) → List (List String)
unfolding dfs
cycles_from max_depth edges [] = []
cycles_from max_depth edges ((start, _) ∷ starts) =
    dfs max_depth edges start start (start ∷ []) [] ++ cycles_from max_depth edges starts

unfoldable pub find_cycles : ℕ → Dict (List Edge) → List (List String)
find_cycles max_depth edges = cycles_from max_depth edges edges
