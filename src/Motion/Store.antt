-- ===== src/Motion/Store.antt =====
-- agora/coordinator/storage/motions.py and storage/votes.py: the rows of the tables `motions`,
-- `votes` and `agents` that the discussion reads, and the statements on them. A time stamp is a
-- number, given by the caller. A confidence is a number of millionths. The JSON column `vote_data`
-- is its decoded value.
pub mod Rows
use hermes_agora.Base.{
  true, false, ℕ, zero, suc, String, ◌≡◌, Bool, ◌&&◌, Option, none, some, List, [], ◌∷◌, ◌++◌, map,
  ◌==◌, if◌then◌else◌, length, keep, any_of,
}

pub data MotionStatus : Type 0 where
  draft discussing assessing devils_advocate voting closed : MotionStatus

abbrev pub value : MotionStatus → String
value draft = "draft"
value discussing = "discussing"
value assessing = "assessing"
value devils_advocate = "devils_advocate"
value voting = "voting"
value closed = "closed"

pub record Motion : Type 0 where
  pub id : String
  pub rounds : ℕ
  pub voting_method : String
  pub smart_mode : Bool
  pub status : String
  pub current_round : ℕ
  pub decision : Option String
  pub rationale : Option String
  pub updated_at : ℕ
  pub closed_at : Option ℕ

pub data VoteData : Type 0 where
  ranking_data : List String → VoteData
  approved_data : List String → VoteData
  scores_data : List (String × ℕ) → VoteData
  type_data : String → VoteData

pub record VoteRow : Type 0 where
  pub motion_id : String
  pub agent_id : String
  pub vote : String
  pub vote_type : String
  pub vote_data : Option VoteData
  pub confidence : ℕ
  pub reason : Option String

pub record AgentRow : Type 0 where
  pub agent_id : String
  pub is_online : Bool

-- The INSERT of a motion: a draft at round zero.
unfoldable pub create_motion : ℕ → String → ℕ → String → List Motion → List Motion
create_motion now id rounds method motions =
    motions
    ++ record {
      id = id;
      rounds = rounds;
      voting_method = method;
      smart_mode = true;
      status = "draft";
      current_round = 0;
      decision = none;
      rationale = none;
      updated_at = now;
      closed_at = none;
    }
      ∷ []

unfoldable pub get_motion : String → List Motion → Option Motion
get_motion k [] = none
get_motion k (m ∷ motions) = if m.id == k then some m else get_motion k motions

abbrev pub or_keep : Option String → Option String → Option String
or_keep none old = old
or_keep (some a) old = some a

-- the SET clause of `update_motion_status` on one row
unfoldable pub set_status : ℕ → String → Option String → Option String → Motion → Motion
set_status now status decision rationale m = record m {
  status = status;
  updated_at = now;
  decision = or_keep decision m.decision;
  rationale = or_keep rationale m.rationale;
  closed_at = if status == "closed" then some now else m.closed_at;
}

unfoldable pub update_motion_status :
    ℕ → String → String → Option String → Option String → List Motion → List Motion
update_motion_status now k status decision rationale [] = []
update_motion_status now k status decision rationale (m ∷ motions) =
    (if m.id == k then set_status now status decision rationale m else m)
    ∷ update_motion_status now k status decision rationale motions

-- the UPDATE of `increment_round`
abbrev next_round : ℕ → String → Motion → Motion
next_round now k m =
    if m.id == k then record m { current_round = suc m.current_round; updated_at = now } else m

-- The rows after the update, and the round that is read back; zero where there is no row.
unfoldable pub increment_round : ℕ → String → List Motion → List Motion × ℕ
unfolding get_motion
increment_round now k motions =
    let after = map (next_round now k) motions in
    (after, elim (get_motion k after) [ none ↦ 0 | some m ↦ m.current_round ])

unfoldable pub has_voted : String → String → List VoteRow → Bool
has_voted k a votes = any_of (λ v. v.motion_id == k && v.agent_id == a) votes

-- The INSERT of a vote; the constraint UNIQUE(motion_id, agent_id) makes it raise on a second vote.
-- The constraints NOT NULL cannot fail, since the fields are texts here.
unfoldable pub add_vote : VoteRow → List VoteRow → Option (List VoteRow)
unfolding has_voted
add_vote v votes = if has_voted v.motion_id v.agent_id votes then none else some (votes ++ v ∷ [])

unfoldable pub get_votes : String → List VoteRow → List VoteRow
get_votes k votes = keep (λ v. v.motion_id == k) votes

-- `get_vote_summary`: a vote for "total" is counted on top of the length.
pub record Summary : Type 0 where
  pub yes : ℕ
  pub no : ℕ
  pub abstain : ℕ
  pub total : ℕ

-- `if choice in summary: summary[choice] += 1`
abbrev pub add_choice : String → Summary → Summary
add_choice c s = record {
  yes = if c == "yes" then suc s.yes else s.yes;
  no = if c == "no" then suc s.no else s.no;
  abstain = if c == "abstain" then suc s.abstain else s.abstain;
  total = if c == "total" then suc s.total else s.total;
}

abbrev pub add_choices : List VoteRow → Summary → Summary
add_choices [] s = s
add_choices (v ∷ votes) s = add_choices votes (add_choice v.vote s)

unfoldable pub get_vote_summary : String → List VoteRow → Summary
unfolding get_votes
get_vote_summary k votes =
    let rows = get_votes k votes in
    add_choices rows (record { yes = 0; no = 0; abstain = 0; total = length rows })

unfoldable pub get_agent : String → List AgentRow → Option AgentRow
get_agent k [] = none
get_agent k (a ∷ agents) = if a.agent_id == k then some a else get_agent k agents
